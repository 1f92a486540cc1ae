-- ===== src/Sm/Control/Frame.antt =====
-- What the parts of src/nci_sm.c leave as it is.
use libncicore.Common.{
  ◌⊎◌, ℕ, ◌≡◌, refl, sym, ap, ◌∙◌, Bool, true, false, Option, none, some, if◌then◌else◌, ◌==◌,
  ==_iff, arith,
}
use libncicore.Sm.Types.{
  State, Transition, state_id, same_state, init, error, stop, idle, discovery, w4_all_discoveries,
  w4_host_select, poll_active, listen_active, listen_sleep, reset, idle_to_discovery,
  deactivate_to_idle, deactivate_to_discovery, poll_active_to_idle, listen_active_to_idle,
}
use libncicore.Sm.Machine.{Machine}
use libncicore.Sm.Start.{finished, finish_active_transition, finish, start}
use libncicore.Sm.Control.{finish_other, started, leave_active_state, start_transition}

abbrev state_of : ℕ → State
state_of id =
    if id == 0
    then init
    else if id == 1
    then error
    else if id == 2
    then stop
    else if id == 3
    then idle
    else if id == 4
    then discovery
    else if id == 5
    then w4_all_discoveries
    else if id == 6
    then w4_host_select
    else if id == 7
    then poll_active
    else if id == 8
    then listen_active
    else listen_sleep

state_of_id : (s : State) → state_of (state_id s) ≡ s
state_of_id init = refl
state_of_id error = refl
state_of_id stop = refl
state_of_id idle = refl
state_of_id discovery = refl
state_of_id w4_all_discoveries = refl
state_of_id w4_host_select = refl
state_of_id poll_active = refl
state_of_id listen_active = refl
state_of_id listen_sleep = refl

pub same_state_sound : (a b : State) → same_state a b ≡ true → a ≡ b
same_state_sound a b e =
    sym (state_of_id a) ∙ (ap state_of ((==_iff (state_id a) (state_id b)).0 e) ∙ state_of_id b)

-- The states that are told, the state that is active and the depth of entering are the same.
pub record IsFrame (m n : Machine) : Type 0 where
  pub last : n.last_state ≡ m.last_state
  pub next : n.next_state ≡ m.next_state
  pub state : n.active_state ≡ m.active_state
  pub depth : n.entering ≡ m.entering

finished-IsFrame :
    (t : Transition) (m : Machine) → IsFrame m (finished t m) × ((finished t m).active ≡ m.active)
unfolding finished
finished-IsFrame reset m = ground arith
finished-IsFrame idle_to_discovery m = ground arith
finished-IsFrame deactivate_to_idle m = ground arith
finished-IsFrame deactivate_to_discovery m = ground arith
finished-IsFrame poll_active_to_idle m = ground arith
finished-IsFrame listen_active_to_idle m = ground arith

finish-IsFrame :
    (o : Option Transition) (m : Machine)
    → m.active ≡ o
    → IsFrame m (finish o m) × ((finish o m).active ≡ none)
unfolding finish
finish-IsFrame none m e = (record { last = refl; next = refl; state = refl; depth = refl }, e)
finish-IsFrame (some t) m e =
    let (f, a) = finished-IsFrame t (record m { active = none }) in
    (record { last = f.last; next = f.next; state = f.state; depth = f.depth }, a)

pub finish_active_transition-IsFrame :
    (m : Machine)
    → IsFrame m (finish_active_transition m) × ((finish_active_transition m).active ≡ none)
unfolding finish_active_transition
finish_active_transition-IsFrame m = finish-IsFrame m.active m refl

start-IsFrame :
    (t : Transition) (m : Machine) → IsFrame m (start t m) × ((start t m).active ≡ m.active)
unfolding start
start-IsFrame reset m = ground arith
start-IsFrame idle_to_discovery m = ground arith
start-IsFrame deactivate_to_idle m = ground arith
start-IsFrame deactivate_to_discovery m = ground arith
start-IsFrame poll_active_to_idle m = ground arith
start-IsFrame listen_active_to_idle m = ground arith

finish_other-IsFrame : (t : Transition) (m : Machine) → IsFrame m (finish_other t m)
unfolding finish_other
finish_other-IsFrame t m = ground (arith, (finish_active_transition-IsFrame m).0)

-- What the start of a transition makes of a machine: the states that are told stay, and where it is
-- active the state is left.
pub record IsStarted (t : Transition) (m : Machine) (n : Machine × Bool) : Type 0 where
  pub last : n.0.last_state ≡ m.last_state
  pub next : n.0.next_state ≡ m.next_state
  pub depth : n.0.entering ≡ m.entering
  pub outcome :
      ((n.1 ≡ true) × (n.0.active ≡ some t) × (n.0.active_state ≡ none))
      ⊎ ((n.1 ≡ false) × (n.0.active ≡ none))

started-IsStarted : (t : Transition) (m : Machine) → m.active ≡ some t → IsStarted t m (started m)
unfolding started leave_active_state
started-IsStarted t m e = ground arith

pub start_transition-IsStarted :
    (t : Transition) (m : Machine) → IsStarted t m (start_transition t m)
unfolding start_transition
start_transition-IsStarted t m =
    let other = finish_other-IsFrame t m in
    let begun = start-IsFrame t (record (finish_other t m) { active = some t }) in
    let s = started-IsStarted t (start t (record (finish_other t m) { active = some t })) begun.1 in
    record {
      last = s.last ∙ (begun.0.last ∙ other.last);
      next = s.next ∙ (begun.0.next ∙ other.next);
      depth = s.depth ∙ (begun.0.depth ∙ other.depth);
      outcome = s.outcome;
    }
