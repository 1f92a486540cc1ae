-- ===== src/Sm/Steps/Discover.antt =====
-- A discovery notification that is the last one, in RFST_DISCOVERY: RFST_W4_HOST_SELECT is entered
-- while src/nci_sm.c still enters RFST_W4_ALL_DISCOVERIES.
use libncicore.Common.{
  ℕ, ◌+◌, ◌≡◌, refl, ap, ◌∙◌, Bool, true, false, Option, none, some, List, [], ◌∷◌, ◌++◌, arith,
}
use libncicore.Util.Types.{DiscoveryNtf}
use libncicore.Util.Parse.{parsed}
use libncicore.Util.Ntf.{parse_discover_ntf}
use libncicore.Sm.Types.{
  State, Transition, same_state, discovery, w4_all_discoveries, w4_host_select,
}
use libncicore.Sm.Machine.{Machine, all_discoveries, host_select}
use libncicore.Sm.Start.{finish, finish_active_transition}
use libncicore.Sm.Control.{
  activate, leave_active_state, start_next, take_next_transition, set_last_state, set_next_state,
  set_next_if, settle, enter_with, select_target, supported, host_select_entered, enter_host_select,
  handle_discovery, all_discoveries_entered, entered, enter_internal, enter_state,
  emit_pending_signals, emit_next_state, emit_last_state,
}
use libncicore.Sm.Control.Frame.{same_state_sound}
use libncicore.Sm.Control.Methods.{enter_state_last}
use libncicore.Sm.Notify.{
  handle_ntf, notify_to, state_ntf, discovery_ntf, w4_all_discoveries_ntf, default_ntf, with_parsed,
}

-- What a part of the entry keeps: what is active and what comes next.
record IsPlaced (m n : Machine) : Type 0 where
  active : n.active ≡ m.active
  state : n.active_state ≡ m.active_state
  following : n.next_transition ≡ m.next_transition

placed : {m n o : Machine} → IsPlaced m n → IsPlaced n o → IsPlaced m o
placed p q = record {
  active = q.active ∙ p.active;
  state = q.state ∙ p.state;
  following = q.following ∙ p.following;
}

set_last_state-IsPlaced : (s : State) (m : Machine) → IsPlaced m (set_last_state s m)
unfolding set_last_state
set_last_state-IsPlaced s m = ground arith

set_next_if-IsPlaced :
    (o : Option Transition) (s : State) (m : Machine) → IsPlaced m (set_next_if o s m)
unfolding set_next_if set_next_state
set_next_if-IsPlaced none s m = ground arith
set_next_if-IsPlaced (some t) s m = record { active = refl; state = refl; following = refl }

emit-IsPlaced : (m : Machine) → IsPlaced m (emit_pending_signals m)
unfolding emit_pending_signals emit_next_state emit_last_state
emit-IsPlaced m = ground arith

select_target-IsPlaced : (l : List DiscoveryNtf) (m : Machine) → IsPlaced m (select_target l m)
unfolding select_target
select_target-IsPlaced [] m = record { active = refl; state = refl; following = refl }
select_target-IsPlaced (d ∷ ds) m = ground arith

-- With nothing active, a state becomes active and nothing else changes of these.
begun : (s : State) (m : Machine) → m.active ≡ none → finish_active_transition m ≡ m
unfolding finish_active_transition finish
begun s m e = rw e refl

active_sound :
    (s : State) (o : Option State)
    → (elim o as (λ _. Bool) [ none ↦ false | some u ↦ same_state u s ]) ≡ true
    → o ≡ some s
active_sound s none e = cc
active_sound s (some u) e = ap some (same_state_sound u s e)

activated :
    (s : State) (m : Machine)
    → ((activate s m).active_state ≡ some s)
      × ((activate s m).active ≡ m.active)
      × ((activate s m).next_transition ≡ m.next_transition)
unfolding activate leave_active_state
activated s m = ground (arith, active_sound s m.active_state)

take_none :
    (s : State) (m : Machine) → m.next_transition ≡ none → IsPlaced m (take_next_transition s m)
unfolding take_next_transition start_next
take_none s m e = rw e (record { active = refl; state = refl; following = refl })

-- An entry whose method leaves nothing to follow ends with what that method has made active.
enter_with-IsPlaced :
    (f : Machine → Machine) (s : State) (m : Machine)
    → m.active ≡ none
    → let x = f (activate s (record m { entering = m.entering + 1 })) in
      x.next_transition ≡ none → IsPlaced x (enter_with f s m)
unfolding enter_with settle
enter_with-IsPlaced f s m a e =
    let deep = record m { entering = m.entering + 1 } in
    let x = f (activate s deep) in
    let taken = take_next_transition s x in
    let told = set_last_state s taken in
    let p =
      placed (take_none s x e)
        (placed (set_last_state-IsPlaced s taken) (set_next_if-IsPlaced told.active s told)) in
    rw (begun s deep a) (record { active = p.active; state = p.state; following = p.following })

-- the nested entry
selecting :
    (l : List DiscoveryNtf) (m : Machine)
    → m.active ≡ none
    → m.next_transition ≡ none
    → let n = enter_host_select (host_select l) m in
      (n.active ≡ none) × (n.active_state ≡ some w4_host_select) × (n.next_transition ≡ none)
unfolding enter_host_select host_select_entered
selecting l m a e =
    let deep = record m { entering = m.entering + 1 } in
    let at = activate w4_host_select deep in
    let (s, b, q) = activated w4_host_select deep in
    let t = select_target-IsPlaced (supported at.config l) at in
    let p =
      enter_with-IsPlaced (host_select_entered (host_select l)) w4_host_select m a
        (t.following ∙ (q ∙ e)) in
    let w = placed t (
      placed p
        (emit-IsPlaced (enter_with (host_select_entered (host_select l)) w4_host_select m))) in
    (w.active ∙ (b ∙ a), w.state ∙ s, w.following ∙ (q ∙ e))

-- the entry around it
last_discovered :
    (d : DiscoveryNtf) (m : Machine)
    → m.active ≡ none
    → m.next_transition ≡ none
    → d.last ≡ true
    → let n = enter_state w4_all_discoveries (all_discoveries d) m in
      (n.active ≡ none) × (n.active_state ≡ some w4_host_select)
unfolding enter_state enter_internal entered all_discoveries_entered handle_discovery
last_discovered d m a e h =
    let f = entered w4_all_discoveries (all_discoveries d) in
    let at = activate w4_all_discoveries (record m { entering = m.entering + 1 }) in
    let (s, b, q) = activated w4_all_discoveries (record m { entering = m.entering + 1 }) in
    let stored = record at { discoveries = [] ++ (d ∷ []) } in
    let (n1, n2, n3) = selecting stored.discoveries stored (b ∙ a) (q ∙ e) in
    let nested : f at ≡ enter_host_select (host_select stored.discoveries) stored = rw h refl in
    let p =
      enter_with-IsPlaced f w4_all_discoveries m a (ap (λ x. x.next_transition) nested ∙ n3) in
    let w = placed p (emit-IsPlaced (enter_with f w4_all_discoveries m)) in
    (w.active ∙ (ap (λ x. x.active) nested ∙ n1), w.state ∙ (ap (λ x. x.active_state) nested ∙ n2))

ignored :
    (pkt : List ℕ) (m : Machine)
    → m.active ≡ none
    → m.last_state ≡ w4_all_discoveries
    → handle_ntf 1 5 pkt m ≡ m
unfolding handle_ntf notify_to state_ntf w4_all_discoveries_ntf default_ntf
ignored pkt m a l = rw (a, l) refl

-- In DISCOVERY, with no transition active or to follow, a discovery notification that is accepted
-- and is the last one makes W4_HOST_SELECT the active state, but leaves W4_ALL_DISCOVERIES as the
-- last state, so that the activation of an interface that comes next is ignored, whatever is in
-- it.
pub only_discovery_misplaced :
    (pkt activation : List ℕ) (d : DiscoveryNtf) (m : Machine)
    → m.last_state ≡ discovery
    → m.active ≡ none
    → m.next_transition ≡ none
    → parse_discover_ntf true pkt ≡ parsed d
    → d.last ≡ true
    → let n = handle_ntf 1 3 pkt m in
      (n.active_state ≡ some w4_host_select)
      × (n.last_state ≡ w4_all_discoveries)
      × (handle_ntf 1 5 activation n ≡ n)
unfolding handle_ntf notify_to state_ntf discovery_ntf with_parsed
only_discovery_misplaced pkt activation d m l a e p h =
    let n = enter_state w4_all_discoveries (all_discoveries d) m in
    let (n1, n2) = last_discovered d m a e h in
    let n3 = enter_state_last w4_all_discoveries (all_discoveries d) m in
    let here : handle_ntf 1 3 pkt m ≡ n = rw (a, l, p) refl in
    rw here (n2, n3, ignored activation n n1 n3)
