-- ===== src/Sm/Steps/Requests.antt =====
-- Two requests that cross in `nci_sm_switch_internal` of src/nci_sm.c.
use libncicore.Common.{◌≡◌, refl, ◌∙◌, true, false, Option, none, some, ==_iff, arith}
use libncicore.Sm.Types.{State, Transition, state_id, same_state, dest}
use libncicore.Sm.Machine.{Machine}
use libncicore.Sm.Control.{emit_pending_signals, emit_next_state, emit_last_state}
use libncicore.Sm.Switch.{switch_to, switch_internal, switch_from, switch_after}

itself : (s : State) → same_state s s ≡ true
itself s = (==_iff (state_id s) (state_id s)).1 refl

emit_quiet :
    (m : Machine) → m.next_pending ≡ false → m.last_pending ≡ false → emit_pending_signals m ≡ m
unfolding emit_pending_signals emit_next_state emit_last_state
emit_quiet m p q = ground (arith, p, q)

switch_from-dest :
    (o : Option Transition) (t : Transition) (m : Machine)
    → o ≡ some t
    → switch_from o (dest t) m ≡ m
unfolding switch_from switch_after
switch_from-dest o t m e = rw (e, itself (dest t)) refl

outside :
    (s : State) (m : Machine)
    → m.entering ≡ 0
    → switch_to s m ≡ switch_internal s (record m { pending_switch = none })
unfolding switch_to
outside s m z = rw z refl

already_next : (s : State) (m : Machine) → m.next_state ≡ s → switch_internal s m ≡ m
unfolding switch_internal
already_next s m e = rw (e, itself s) refl

switched_back :
    (m : Machine) (t : Transition)
    → m.active ≡ some t
    → m.next_pending ≡ false
    → m.last_pending ≡ false
    → same_state m.next_state (dest t) ≡ false
    → switch_internal (dest t) m ≡ record m { next_transition = none }
unfolding switch_internal
switched_back m t a p q d =
    let ready = record m { next_transition = none } in
    rw (d, switch_internal, switch_from-dest m.active t ready a) (emit_quiet ready p q)

-- During a transition to a state other than the next state, with no signal pending and no state
-- being entered, a request for the state that the transition leads to drops what was to follow,
-- but the next state stays as it was; a second request for that next state is then without effect,
-- although nothing leads there any more.
pub crossing_request_lost :
    (m : Machine) (t : Transition)
    → m.active ≡ some t
    → m.entering ≡ 0
    → m.next_pending ≡ false
    → m.last_pending ≡ false
    → same_state m.next_state (dest t) ≡ false
    → let n = switch_to (dest t) m in
      (n.next_transition ≡ none)
      × (n.next_state ≡ m.next_state)
      × (n.active ≡ some t)
      × (switch_to m.next_state n ≡ n)
crossing_request_lost m t a z p q d =
    let cleared = record m { pending_switch = none } in
    let n = record cleared { next_transition = none } in
    let e : switch_to (dest t) m ≡ n = outside (dest t) m z ∙ switched_back cleared t a p q d in
    rw e (refl, refl, a, outside m.next_state n z ∙ already_next m.next_state n refl)
