-- ===== src/Sm/Switch/Calls.antt =====
-- The calls of `NciCore`, and the consistency of the state machine of src/nci_sm.c.
use libncicore.Common.{bit_and, ℕ, ◌≡◌, refl, sym, ◌∙◌, inl, inr, Bool, Option, none, some, arith}
use libncicore.Sm.Types.{State, Transition, Config, init, idle, stall_error}
use libncicore.Sm.Tech
use libncicore.Sm.Machine.{Machine, no_param, without}
use libncicore.Sm.Control.{enter_internal}
use libncicore.Sm.Control.Enter.{IsConsistent, emit-IsConsistent}
use libncicore.Sm.Control.Methods.{enter_internal-IsEntered, stall-IsConsistent}
use libncicore.Sm.Switch.{
  switch_internal, switch_to, switch_if, switch_proc, reset_machine, restart, set_op_mode, set_tech,
  transition_timeout, new,
}
use libncicore.Sm.Switch.Consistent.{switch_internal-IsConsistent, switch_internal-IsOpen}

-- Nothing that is not told of the states matters.
pub same-IsConsistent :
    (m n : Machine)
    → IsConsistent m
    → (n.active ≡ m.active)
      × (n.active_state ≡ m.active_state)
      × (n.last_state ≡ m.last_state)
      × (n.next_state ≡ m.next_state)
      × (n.entering ≡ m.entering)
      × (n.next_pending ≡ m.next_pending)
      × (n.last_pending ≡ m.last_pending)
    → IsConsistent n
same-IsConsistent m n v (a, s, l, e, d, p, q) = record {
  settled = elim v.settled [ inl x ↦ inl (e ∙ (x ∙ sym l)) | inr (t, x) ↦ inr (t, a ∙ x) ];
  exclusive = elim v.exclusive [ inl x ↦ inl (a ∙ x) | inr x ↦ inr (s ∙ x) ];
  outside = d ∙ v.outside;
  told = (p ∙ v.told.0, q ∙ v.told.1);
}

pub switch_to-IsConsistent :
    (s : State) (m : Machine) → IsConsistent m → IsConsistent (switch_to s m)
unfolding switch_to
switch_to-IsConsistent s m v =
    let cleared = record m { pending_switch = none } in
    let later = record m { pending_switch = some s } in
    ground (
      arith,
      switch_internal-IsConsistent s cleared
          (same-IsConsistent m cleared v (refl, refl, refl, refl, refl, refl, refl)),
      same-IsConsistent m later v (refl, refl, refl, refl, refl, refl, refl),
    )

switch_if-IsConsistent :
    (o : Option State) (m : Machine) → IsConsistent m → IsConsistent (switch_if o m)
unfolding switch_if
switch_if-IsConsistent none m v = v
switch_if-IsConsistent (some s) m v =
    let cleared = record m { pending_switch = none } in
    switch_internal-IsConsistent s cleared
      (same-IsConsistent m cleared v (refl, refl, refl, refl, refl, refl, refl))

pub switch_proc-IsConsistent : (m : Machine) → IsConsistent m → IsConsistent (switch_proc m)
unfolding switch_proc
switch_proc-IsConsistent m v = switch_if-IsConsistent m.pending_switch m v

restart-IsConsistent : (m : Machine) → IsConsistent m → IsConsistent (restart m)
unfolding restart
restart-IsConsistent m v = ground (arith, v, switch_to-IsConsistent idle m v)

pub set_op_mode-IsConsistent :
    (mode : ℕ) (m : Machine) → IsConsistent m → IsConsistent (set_op_mode mode m)
unfolding set_op_mode
set_op_mode-IsConsistent mode m v =
    let n = record m { config = record m.config { op_mode = mode } } in
    ground (
      arith,
      v,
      restart-IsConsistent n (same-IsConsistent m n v (refl, refl, refl, refl, refl, refl, refl)),
    )

pub set_tech-IsConsistent :
    (tech : ℕ) (m : Machine) → IsConsistent m → IsConsistent (set_tech tech m).0
unfolding set_tech
set_tech-IsConsistent tech m v =
    let n = record m { config = record m.config { techs = bit_and tech Tech.all } } in
    ground (
      arith,
      v,
      restart-IsConsistent n (same-IsConsistent m n v (refl, refl, refl, refl, refl, refl, refl)),
    )

pub transition_timeout-IsConsistent :
    (t : Transition) (m : Machine) → IsConsistent m → IsConsistent (transition_timeout t m)
unfolding transition_timeout
transition_timeout-IsConsistent t m v =
    stall-IsConsistent stall_error (record m { timers = without t m.timers }) v.outside

-- A reset goes through INIT, whatever was there before.
pub reset_machine-IsConsistent : (m : Machine) → m.entering ≡ 0 → IsConsistent (reset_machine m)
unfolding reset_machine
reset_machine-IsConsistent m z =
    let cleared = record m { pending_switch = none; next_transition = none } in
    let e = enter_internal-IsEntered init no_param cleared in
    let at_init = enter_internal init no_param cleared in
    let (s, x, d) = switch_internal-IsOpen idle at_init e.settled e.exclusive (e.depth ∙ z) in
    emit-IsConsistent (switch_internal idle at_init) s x d

pub new-IsConsistent : (c : Config) (accepts : Bool) (ms : ℕ) → IsConsistent (new c accepts ms)
unfolding new
new-IsConsistent c accepts ms = record {
  settled = inl refl;
  exclusive = inl refl;
  outside = refl;
  told = (refl, refl);
}
