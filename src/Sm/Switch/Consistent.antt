-- ===== src/Sm/Switch/Consistent.antt =====
-- The parts of a switch of src/nci_sm.c, and the consistency of the state machine.
use libncicore.Common.{
  ◌≡◌, refl, sym, ◌∙◌, inl, inr, Bool, true, false, Option, none, some, if◌then◌else◌, arith,
}
use libncicore.Sm.Types.{State, Transition, Stall, is_internal_state, dest, idle, stall_error}
use libncicore.Sm.Machine.{Machine, no_param, get_transition}
use libncicore.Sm.Control.{start_transition, set_next_state, stall_internal, enter_internal}
use libncicore.Sm.Control.Frame.{IsStarted, start_transition-IsStarted}
use libncicore.Sm.Control.Enter.{
  IsExclusive, IsSettled, IsConsistent, set_next_state-IsTold, emit-IsConsistent,
}
use libncicore.Sm.Control.Methods.{enter_internal-IsEntered, stall_internal_lem}
use libncicore.Sm.Switch.{
  queue_after, switch_after, proceed, transition_to_idle, queue_from_idle, switch_from_idle,
  switch_by, switch_from, switch_internal,
}

-- what the parts of a switch leave
record IsSwitched (m n : Machine) : Type 0 where
  settled : IsSettled n
  exclusive : IsExclusive n
  depth : n.entering ≡ m.entering

stall-IsSwitched : (type : Stall) (m : Machine) → IsSwitched m (stall_internal type m)
stall-IsSwitched type m =
    let (a, l, n, d) = stall_internal_lem type m in
    record { settled = inl (n ∙ sym l); exclusive = inl a; depth = d }

enter-IsSwitched : (s : State) (m : Machine) → IsSwitched m (enter_internal s no_param m)
enter-IsSwitched s m =
    let e = enter_internal-IsEntered s no_param m in
    record { settled = e.settled; exclusive = e.exclusive; depth = e.depth }

-- While a transition is under way the next state may be any.
next-IsSwitched :
    (t : Transition) (s : State) (m : Machine)
    → m.active ≡ some t
    → IsExclusive m
    → IsSwitched m (set_next_state s m)
next-IsSwitched t s m e x =
    let told = (set_next_state-IsTold s m).0 in
    record {
      settled = inr (t, told.active ∙ e);
      exclusive = elim x [ inl i ↦ inl (told.active ∙ i) | inr i ↦ inr (told.state ∙ i) ];
      depth = told.depth;
    }

internal-IsSwitched :
    (s : State) (m n : Machine)
    → IsSwitched m n
    → IsSwitched m (if is_internal_state s then enter_internal s no_param m else n)
internal-IsSwitched s m n e = ground (arith, enter-IsSwitched s m)

queue_after-IsSwitched :
    (o : Option Transition) (t : Transition) (s : State) (m : Machine)
    → m.active ≡ some t
    → IsExclusive m
    → IsSwitched m (queue_after o s m)
unfolding queue_after
queue_after-IsSwitched (some u) t s m e x =
    let n = next-IsSwitched t s (record m { next_transition = some u }) e x in
    record { settled = n.settled; exclusive = n.exclusive; depth = n.depth }
queue_after-IsSwitched none t s m e x =
    internal-IsSwitched s m (stall_internal stall_error m) (stall-IsSwitched stall_error m)

switch_after-IsSwitched :
    (t : Transition) (s : State) (m : Machine)
    → m.active ≡ some t
    → IsExclusive m
    → IsSwitched m (switch_after t s m)
unfolding switch_after
switch_after-IsSwitched t s m e x =
    let same : IsSwitched m m = record { settled = inr (t, e); exclusive = x; depth = refl } in
    ground (arith, same, queue_after-IsSwitched (get_transition (dest t) s) t s m e x)

queue_from_idle-IsSwitched :
    (o : Option Transition) (t : Transition) (s : State) (m : Machine)
    → m.active ≡ some t
    → IsExclusive m
    → IsSwitched m (queue_from_idle o s m)
unfolding queue_from_idle
queue_from_idle-IsSwitched (some u) t s m e x =
    let n = next-IsSwitched t s (record m { next_transition = some u }) e x in
    record { settled = n.settled; exclusive = n.exclusive; depth = n.depth }
queue_from_idle-IsSwitched none t s m e x =
    let n = stall-IsSwitched stall_error (record m { next_transition = none }) in
    record { settled = n.settled; exclusive = n.exclusive; depth = n.depth }

switch_from_idle-IsSwitched :
    (t : Transition) (s : State) (m : Machine)
    → m.active ≡ some t
    → IsExclusive m
    → IsSwitched m (switch_from_idle s m)
unfolding switch_from_idle
switch_from_idle-IsSwitched t s m e x = ground (
  arith,
  next-IsSwitched t idle m e x,
  queue_from_idle-IsSwitched (get_transition idle s) t s m e x,
)

-- A transition is started, and what comes then keeps the machine while that transition is active.
proceed-IsSwitched :
    (f : Machine → Machine) (t : Transition) (m : Machine) (p : Machine × Bool)
    → IsStarted t m p
    → ((n : Machine) → n.active ≡ some t → IsExclusive n → IsSwitched n (f n))
    → IsSwitched m (proceed f p)
unfolding proceed
proceed-IsSwitched f t m (n, true) s k = elim s.outcome [
  | inl o ↦
      let r = k n o.1 (inr o.2) in
      record { settled = r.settled; exclusive = r.exclusive; depth = r.depth ∙ s.depth }
  | inr o ↦ cc
]
proceed-IsSwitched f t m (n, false) s k =
    let r = stall-IsSwitched stall_error n in
    record { settled = r.settled; exclusive = r.exclusive; depth = r.depth ∙ s.depth }

switch_by-IsSwitched :
    (o : Option Transition) (s : State) (m : Machine) → IsSwitched m (switch_by o s m)
unfolding switch_by
switch_by-IsSwitched (some t) s m =
    proceed-IsSwitched (set_next_state s) t m (start_transition t m)
      (start_transition-IsStarted t m) (λ n e x. next-IsSwitched t s n e x)
switch_by-IsSwitched none s m =
    let t = transition_to_idle (get_transition m.last_state idle) in
    internal-IsSwitched s m (proceed (switch_from_idle s) (start_transition t m)) (
      proceed-IsSwitched (switch_from_idle s) t m (start_transition t m)
        (start_transition-IsStarted t m) (λ n e x. switch_from_idle-IsSwitched t s n e x))

switch_from-IsSwitched :
    (o : Option Transition) (s : State) (m : Machine)
    → m.active ≡ o
    → IsExclusive m
    → IsSwitched m (switch_from o s m)
unfolding switch_from
switch_from-IsSwitched (some t) s m e x = switch_after-IsSwitched t s m e x
switch_from-IsSwitched none s m e x = switch_by-IsSwitched (get_transition m.last_state s) s m

-- before the signals
pub switch_internal-IsOpen :
    (s : State) (m : Machine)
    → IsSettled m
    → IsExclusive m
    → m.entering ≡ 0
    → IsSettled (switch_internal s m)
      × IsExclusive (switch_internal s m)
      × ((switch_internal s m).entering ≡ 0)
unfolding switch_internal
switch_internal-IsOpen s m e x z =
    let ready = record m { next_transition = none } in
    let w = switch_from-IsSwitched m.active s ready refl x in
    let v = emit-IsConsistent (switch_from m.active s ready) w.settled w.exclusive (w.depth ∙ z) in
    ground (arith, e, x, z, v.settled, v.exclusive, v.outside)

pub switch_internal-IsConsistent :
    (s : State) (m : Machine) → IsConsistent m → IsConsistent (switch_internal s m)
unfolding switch_internal
switch_internal-IsConsistent s m v =
    let ready = record m { next_transition = none } in
    let w = switch_from-IsSwitched m.active s ready refl v.exclusive in
    ground (
      arith,
      v,
      emit-IsConsistent (switch_from m.active s ready) w.settled w.exclusive (w.depth ∙ v.outside),
    )
