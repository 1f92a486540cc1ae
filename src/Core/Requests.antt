-- ===== src/Core/Requests.antt =====
-- What src/nci_sm.c asks of `NciCore` when it stalls, enters a state or starts a transition, as far
-- as the response that is awaited then.
use libncicore.Common.{◌≡◌, refl, ap, ◌∙◌, Option, none, some, List, [], ◌∷◌, ◌++◌, arith}
use libncicore.Util.Types.{DiscoveryNtf}
use libncicore.Sm.Types.{
  State, Transition, Stall, reset, idle_to_discovery, deactivate_to_idle, deactivate_to_discovery,
  poll_active_to_idle, listen_active_to_idle,
}
use libncicore.Sm.Machine.{
  Event, Machine, next_state_changed, last_state_changed, io_cancelled, logs,
}
use libncicore.Sm.HostSelect.{Compare}
use libncicore.Sm.Start.{finished, finish, finish_active_transition}
use libncicore.Sm.Control.{
  leave_active_state, set_last_state, set_next_state, emit_next_state, emit_last_state,
  emit_pending_signals, activate, stall_internal, stall, stall_state,
}
use libncicore.Core.Awaited.{Awaited, then_awaits, awaits_after}

-- what keeps the log
abbrev pub Quiet : (Machine → Machine) → Type 0
Quiet f = (m : Machine) → (f m).log ≡ m.log

finished-Quiet : (t : Transition) → Quiet (finished t)
unfolding finished
finished-Quiet reset m = refl
finished-Quiet idle_to_discovery m = refl
finished-Quiet deactivate_to_idle m = refl
finished-Quiet deactivate_to_discovery m = refl
finished-Quiet poll_active_to_idle m = refl
finished-Quiet listen_active_to_idle m = refl

finish-Quiet : (o : Option Transition) → Quiet (finish o)
unfolding finish
finish-Quiet none m = refl
finish-Quiet (some t) m = finished-Quiet t (record m { active = none })

pub finish_active-Quiet : Quiet finish_active_transition
unfolding finish_active_transition
finish_active-Quiet m = finish-Quiet m.active m

set_last_state-Quiet : (s : State) → Quiet (set_last_state s)
unfolding set_last_state
set_last_state-Quiet s m = ground arith

pub set_next_state-Quiet : (s : State) → Quiet (set_next_state s)
unfolding set_next_state
set_next_state-Quiet s m = ground arith

activate-Quiet : (s : State) → Quiet (activate s)
unfolding activate leave_active_state
activate-Quiet s m = ground arith

module _ (insert_sorted : Compare → List DiscoveryNtf → DiscoveryNtf → List DiscoveryNtf) where
  -- the response that is awaited after the log of a machine
  abbrev pub machine_awaits : Awaited → Machine → Awaited
  machine_awaits w m = awaits_after insert_sorted m.log w

  awaits-append :
      (es : List Event) (e : Event) (w : Awaited)
      → awaits_after insert_sorted (es ++ (e ∷ [])) w
        ≡ then_awaits insert_sorted e (awaits_after insert_sorted es w)
  awaits-append [] e w = refl
  awaits-append (x ∷ xs) e w = awaits-append xs e (then_awaits insert_sorted x w)

  module _ (w : Awaited) where
    pub unlogged-awaits :
        (f : Machine → Machine) (m : Machine)
        → Quiet f
        → machine_awaits w (f m) ≡ machine_awaits w m
    unlogged-awaits f m h = ap (λ l. awaits_after insert_sorted l w) (h m)

    pub logs-awaits :
        (e : Event) (m : Machine)
        → machine_awaits w (logs e m) ≡ then_awaits insert_sorted e (machine_awaits w m)
    logs-awaits e m = awaits-append m.log e w

    emit_next-awaits : (m : Machine) → machine_awaits w (emit_next_state m) ≡ machine_awaits w m
    unfolding emit_next_state
    emit_next-awaits m = ground (arith, awaits-append m.log (next_state_changed m.next_state) w)

    emit_last-awaits : (m : Machine) → machine_awaits w (emit_last_state m) ≡ machine_awaits w m
    unfolding emit_last_state
    emit_last-awaits m = ground (arith, awaits-append m.log (last_state_changed m.last_state) w)

    pub emit-awaits : (m : Machine) → machine_awaits w (emit_pending_signals m) ≡ machine_awaits w m
    unfolding emit_pending_signals
    emit-awaits m = emit_last-awaits (emit_next_state m) ∙ emit_next-awaits m

    -- After a stall no response is awaited.
    pub stall-awaits : (type : Stall) (m : Machine) → machine_awaits w (stall type m) ≡ none
    unfolding stall stall_internal
    stall-awaits type m =
        let told = logs io_cancelled m in
        let over = finish_active_transition told in
        let s = stall_state type in
        emit-awaits (stall_internal type m)
        ∙ (unlogged-awaits (activate s) (set_next_state s (set_last_state s over))
              (activate-Quiet s)
            ∙ (unlogged-awaits (set_next_state s) (set_last_state s over) (set_next_state-Quiet s)
                ∙ (unlogged-awaits (set_last_state s) over (set_last_state-Quiet s)
                    ∙ (unlogged-awaits finish_active_transition told finish_active-Quiet
                        ∙ logs-awaits io_cancelled m))))
