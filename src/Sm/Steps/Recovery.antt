-- ===== src/Sm/Steps/Recovery.antt =====
-- `nci_sm_reset` of src/nci_sm.c, part by part.
use libncicore.Common.{
  ◌+◌, ◌≡◌, refl, ap, ◌∙◌, inl, inr, Bool, true, false, Option, none, some, arith,
}
use libncicore.Sm.Types.{
  State, Transition, init, idle, reset, idle_to_discovery, deactivate_to_idle,
  deactivate_to_discovery, poll_active_to_idle, listen_active_to_idle,
}
use libncicore.Sm.Machine.{Machine, no_param, get_transition}
use libncicore.Sm.Start.{finished, finish, finish_active_transition, start}
use libncicore.Sm.Control.{
  activate, leave_active_state, start_next, take_next_transition, set_last_state, set_next_state,
  set_next_if, settle, enter_with, entered, enter_internal, emit_pending_signals, finish_other,
  started, start_transition,
}
use libncicore.Sm.Control.Frame.{finish_active_transition-IsFrame, start_transition-IsStarted}
use libncicore.Sm.Control.Enter.{set_last_state-IsTold, set_next_state-IsTold, emit-IsTold}
use libncicore.Sm.Control.Methods.{enter_internal-IsEntered}
use libncicore.Sm.Switch.{
  switch_internal, switch_from, switch_by, proceed, transition_to_idle, switch_from_idle,
  reset_machine,
}

-- What the I/O answers and the transition that comes next stay as they are.
record IsWired (m n : Machine) : Type 0 where
  wire : n.io_sends ≡ m.io_sends
  following : n.next_transition ≡ m.next_transition

wired : {m n o : Machine} → IsWired m n → IsWired n o → IsWired m o
wired p q = record { wire = q.wire ∙ p.wire; following = q.following ∙ p.following }

finished-IsWired : (t : Transition) (m : Machine) → IsWired m (finished t m)
unfolding finished
finished-IsWired reset m = ground arith
finished-IsWired idle_to_discovery m = ground arith
finished-IsWired deactivate_to_idle m = ground arith
finished-IsWired deactivate_to_discovery m = ground arith
finished-IsWired poll_active_to_idle m = ground arith
finished-IsWired listen_active_to_idle m = ground arith

finish-IsWired : (o : Option Transition) (m : Machine) → IsWired m (finish o m)
unfolding finish
finish-IsWired none m = record { wire = refl; following = refl }
finish-IsWired (some t) m =
    let w = finished-IsWired t (record m { active = none }) in
    record { wire = w.wire; following = w.following }

finish_active-IsWired : (m : Machine) → IsWired m (finish_active_transition m)
unfolding finish_active_transition
finish_active-IsWired m = finish-IsWired m.active m

activate-IsWired :
    (s : State) (m : Machine) → IsWired m (activate s m) × ((activate s m).active ≡ m.active)
unfolding activate leave_active_state
activate-IsWired s m = ground arith

set_last_state-IsWired : (s : State) (m : Machine) → IsWired m (set_last_state s m)
unfolding set_last_state
set_last_state-IsWired s m = ground arith

set_next_state-IsWired : (s : State) (m : Machine) → IsWired m (set_next_state s m)
unfolding set_next_state
set_next_state-IsWired s m = ground arith

take_nothing :
    (s : State) (m : Machine)
    → m.next_transition ≡ none
    → take_next_transition s m ≡ record m { next_transition = none }
unfolding take_next_transition start_next
take_nothing s m e = rw e refl

settle_idle : (s : State) (m : Machine) → m.active ≡ none → settle s m ≡ set_next_state s m
unfolding settle set_next_if
settle_idle s m e = rw e refl

-- INIT is entered with nothing active and nothing to follow.
pub at_init :
    (m : Machine)
    → m.next_transition ≡ none
    → let n = enter_internal init no_param m in
      (n.active ≡ none) × (n.next_state ≡ init) × (n.io_sends ≡ m.io_sends)
unfolding enter_internal entered enter_with
at_init m e =
    let deep = record m { entering = m.entering + 1 } in
    let over = (finish_active_transition-IsFrame deep).1 in
    let done = finish_active_transition deep in
    let w1 = finish_active-IsWired deep in
    let (w2, a2) = activate-IsWired init done in
    let here = activate init done in
    let none_next : here.next_transition ≡ none = w2.following ∙ (w1.following ∙ e) in
    let taken = record here { next_transition = none } in
    let told = set_last_state init taken in
    let (t1, t2, t3) = set_last_state-IsTold init taken in
    let w3 = set_last_state-IsWired init taken in
    let idle_now : told.active ≡ none = t1.active ∙ (a2 ∙ over) in
    let (n1, n2, n3) = set_next_state-IsTold init told in
    let w4 = set_next_state-IsWired init told in
    rw (take_nothing init here none_next, settle_idle init told idle_now)
      (n1.active ∙ idle_now, n2, w4.wire ∙ (w3.wire ∙ (w2.wire ∙ w1.wire)))

pub start-wire : (t : Transition) (m : Machine) → (start t m).io_sends ≡ m.io_sends
unfolding start
start-wire reset m = ground arith
start-wire idle_to_discovery m = ground arith
start-wire deactivate_to_idle m = ground arith
start-wire deactivate_to_discovery m = ground arith
start-wire poll_active_to_idle m = ground arith
start-wire listen_active_to_idle m = ground arith

pub finish_other-wire : (t : Transition) (m : Machine) → (finish_other t m).io_sends ≡ m.io_sends
unfolding finish_other
finish_other-wire t m = ground (arith, (finish_active-IsWired m).wire)

-- A transition starts where its command can be sent.
starts : (t : Transition) (m : Machine) → m.io_sends ≡ true → (start_transition t m).1 ≡ true
unfolding start_transition started
starts t m e =
    let ready = record (finish_other t m) { active = some t } in
    let sends_it : (start t ready).io_sends ≡ true =
      start-wire t ready ∙ (finish_other-wire t m ∙ e) in
    rw (sends_it, started) refl

to_idle :
    (p : Machine × Bool)
    → p.1 ≡ true
    → p.0.active ≡ some reset
    → (proceed (switch_from_idle idle) p).active ≡ some reset
unfolding proceed switch_from_idle
to_idle (m, true) e a = (set_next_state-IsTold idle m).0.active ∙ a
to_idle (m, false) e a = cc

started_active :
    (t : Transition) (m : Machine) → m.io_sends ≡ true → (start_transition t m).0.active ≡ some t
started_active t m e =
    let ok = starts t m e in
    elim (start_transition-IsStarted t m).outcome [ inl o ↦ o.1 | inr o ↦ cc ]

-- the switch to IDLE after INIT
pub restart_begins :
    (m : Machine)
    → m.active ≡ none
    → m.last_state ≡ init
    → m.next_state ≡ init
    → switch_internal idle m
      ≡ emit_pending_signals (
          proceed
            (switch_from_idle idle)
            (start_transition reset (record m { next_transition = none })))
unfolding switch_internal switch_from switch_by transition_to_idle get_transition
restart_begins m a l n = rw (n, a, l) refl

from_init :
    (m : Machine)
    → m.active ≡ none
    → m.last_state ≡ init
    → m.next_state ≡ init
    → m.io_sends ≡ true
    → (switch_internal idle m).active ≡ some reset
from_init m a l n e =
    let ready = record m { next_transition = none } in
    let p = start_transition reset ready in
    let done = proceed (switch_from_idle idle) p in
    ap (λ x. x.active) (restart_begins m a l n)
    ∙ ((emit-IsTold done).0.active
        ∙ to_idle p (starts reset ready e) (started_active reset ready e))

pub reset_started : (m : Machine) → m.io_sends ≡ true → (reset_machine m).active ≡ some reset
unfolding reset_machine
reset_started m e =
    let cleared = record m { pending_switch = none; next_transition = none } in
    let k = enter_internal init no_param cleared in
    let (a, n, w) = at_init cleared refl in
    let l = (enter_internal-IsEntered init no_param cleared).last in
    (emit-IsTold (switch_internal idle k)).0.active ∙ from_init k a l n (w ∙ e)
