-- ===== src/Core/Restart.antt =====
-- What src/nci_sm.c asks for on the way of a restart.
pub mod Whole
use libncicore.Common.{
  ℕ, ◌≡◌, refl, sym, ap, ◌∙◌, Bool, true, false, Option, none, some, List, [], ◌∷◌, arith,
  if◌then◌else◌,
}
use libncicore.Util.Parse.{parsed}
use libncicore.Util.Types.{DiscoveryNtf}
use libncicore.Sm.Types.{init, idle, reset, success, version_1, version_2}
use libncicore.Sm.Machine.{
  Handler, Machine, reset_rsp, init_v1_rsp, init_v2_rsp, reset_set_config_rsp, sends,
  max_logical_connections, max_control_payload, max_data_payload, no_param, logs, send_command,
}
use libncicore.Sm.HostSelect.{Compare}
use libncicore.Sm.Start.{start, arm, reset_config}
use libncicore.Sm.Control.{
  leave_active_state, finish_other, started, start_transition, set_next_state, enter_internal,
  emit_pending_signals,
}
use libncicore.Sm.Control.Methods.{enter_internal-IsEntered}
use libncicore.Sm.Switch.{switch_internal, switch_from_idle, proceed, reset_machine}
use libncicore.Sm.Respond.{
  respond, respond_to, owner, answered, reset_answered, initialized, install,
}
use libncicore.Sm.Notify.{handle_ntf, notify_to, transition_ntf, reset_ntf, init_again, with_parsed}
use libncicore.Sm.Steps.Recovery.{restart_begins, at_init, start-wire, finish_other-wire}
use libncicore.Sm.Steps.Restart.{resetting}
use libncicore.Reset.{InitInfo, parse_init_v1, parse_init_v2, reset_ntf_ok, set_config}
use libncicore.Core.Awaited.{Awaited}
use libncicore.Core.Requests.{
  machine_awaits, unlogged-awaits, logs-awaits, emit-awaits, set_next_state-Quiet,
}

starts : (m : Machine) → m.io_sends ≡ true → started m ≡ (leave_active_state m, true)
unfolding started
starts m e =
    ap (λ b. if b then (leave_active_state m, true) else (record m { active = none }, false)) e

module _ (insert_sorted : Compare → List DiscoveryNtf → DiscoveryNtf → List DiscoveryNtf)
    (w : Awaited) where
  send-awaits :
      (gid oid : ℕ) (payload : List ℕ) (rsp : Handler) (m : Machine)
      → m.io_sends ≡ true
      → machine_awaits insert_sorted w (send_command gid oid payload rsp m) ≡ some (gid, oid, rsp)
  send-awaits gid oid payload rsp m e =
      rw e (logs-awaits insert_sorted w (sends gid oid payload rsp) m)

  start-awaits :
      (m : Machine)
      → m.io_sends ≡ true
      → machine_awaits insert_sorted w (start reset m) ≡ some (0, 0, reset_rsp)
  unfolding start
  start-awaits m e =
      send-awaits 0 0 (0x00 ∷ []) reset_rsp
        (record (arm reset m) { config = reset_config m.config }) (ground (arith, e))

  started-awaits :
      (m : Machine)
      → m.io_sends ≡ true
      → machine_awaits insert_sorted w (proceed (switch_from_idle idle) (started m))
        ≡ machine_awaits insert_sorted w m
  unfolding proceed switch_from_idle leave_active_state
  started-awaits m e =
      ap (λ p. machine_awaits insert_sorted w (proceed (switch_from_idle idle) p)) (starts m e)
      ∙ unlogged-awaits insert_sorted w (set_next_state idle) (leave_active_state m)
          (set_next_state-Quiet idle)

  begun-awaits :
      (m : Machine)
      → m.io_sends ≡ true
      → machine_awaits insert_sorted w (proceed (switch_from_idle idle) (start_transition reset m))
        ≡ some (0, 0, reset_rsp)
  unfolding start_transition
  begun-awaits m e =
      let ready = record (finish_other reset m) { active = some reset } in
      let f : ready.io_sends ≡ true = finish_other-wire reset m ∙ e in
      started-awaits (start reset ready) (start-wire reset ready ∙ f) ∙ start-awaits ready f

  pub reset_machine-awaits :
      (m : Machine)
      → m.io_sends ≡ true
      → machine_awaits insert_sorted w (reset_machine m) ≡ some (0, 0, reset_rsp)
  unfolding reset_machine
  reset_machine-awaits m e =
      let cleared = record m { pending_switch = none; next_transition = none } in
      let k = enter_internal init no_param cleared in
      let (a, n, i) = at_init cleared refl in
      let l = (enter_internal-IsEntered init no_param cleared).last in
      let done =
        proceed (switch_from_idle idle)
          (start_transition reset (record k { next_transition = none })) in
      emit-awaits insert_sorted w (switch_internal idle k)
      ∙ (ap (machine_awaits insert_sorted w) (restart_begins k a l n)
          ∙ (emit-awaits insert_sorted w done
              ∙ begun-awaits (record k { next_transition = none }) (i ∙ e)))

  -- the responses to CORE_RESET and to CORE_INIT, and CORE_RESET_NTF
  pub reset_v1-awaits :
      (v k : ℕ) (m : Machine)
      → m.active ≡ some reset
      → m.io_sends ≡ true
      → machine_awaits insert_sorted w (respond reset_rsp success (0 ∷ v ∷ k ∷ []) m)
        ≡ some (0, 1, init_v1_rsp)
  unfolding owner answered reset_answered
  reset_v1-awaits v k m a e =
      ap (machine_awaits insert_sorted w) (resetting reset_rsp (0 ∷ v ∷ k ∷ []) m refl a)
      ∙ send-awaits 0 1 [] init_v1_rsp
          (record m { config = record m.config { version = version_1 } }) e

  pub notified_v2-awaits :
      (pkt : List ℕ) (m : Machine)
      → m.active ≡ some reset
      → m.config.version ≡ version_2
      → reset_ntf_ok pkt ≡ parsed tt
      → m.io_sends ≡ true
      → machine_awaits insert_sorted w (handle_ntf 0 0 pkt m) ≡ some (0, 1, init_v2_rsp)
  unfolding handle_ntf notify_to transition_ntf reset_ntf init_again with_parsed
  notified_v2-awaits pkt m a v p e =
      let here : handle_ntf 0 0 pkt m ≡ send_command 0 1 (0 ∷ 0 ∷ []) init_v2_rsp m =
        rw (a, v, p) refl in
      ap (machine_awaits insert_sorted w) here ∙ send-awaits 0 1 (0 ∷ 0 ∷ []) init_v2_rsp m e

  initialized-awaits :
      (i : InitInfo) (m : Machine)
      → m.io_sends ≡ true
      → machine_awaits insert_sorted w (initialized (parsed i) m)
        ≡ some (0, 2, reset_set_config_rsp)
  unfolding initialized
  initialized-awaits i m e =
      let told = logs (max_data_payload 0) (
        logs (max_control_payload i.max_control_payload) (
          logs (max_logical_connections i.max_logical_conns)
            (record m { config = install i m.config }))) in
      send-awaits 0 2 (set_config m.config) reset_set_config_rsp told e

  pub init-awaits :
      (i : InitInfo) (pkt : List ℕ) (m : Machine)
      → m.active ≡ some reset
      → m.io_sends ≡ true
      → ((parse_init_v1 pkt ≡ parsed i)
          → machine_awaits insert_sorted w (respond init_v1_rsp success pkt m)
            ≡ some (0, 2, reset_set_config_rsp))
        × ((parse_init_v2 pkt ≡ parsed i)
            → machine_awaits insert_sorted w (respond init_v2_rsp success pkt m)
              ≡ some (0, 2, reset_set_config_rsp))
  unfolding owner answered
  init-awaits i pkt m a e =
      let at = machine_awaits insert_sorted w in
      (
        λ p.
            ap at (resetting init_v1_rsp pkt m refl a)
            ∙ (ap (λ x. at (initialized x m)) p ∙ initialized-awaits i m e),
        λ p.
            ap at (resetting init_v2_rsp pkt m refl a)
            ∙ (ap (λ x. at (initialized x m)) p ∙ initialized-awaits i m e),
      )

  pub reset_v2-awaits :
      (m : Machine)
      → m.active ≡ some reset
      → machine_awaits insert_sorted w (respond reset_rsp success (0 ∷ []) m)
        ≡ machine_awaits insert_sorted w m
  unfolding owner answered reset_answered
  reset_v2-awaits m a = ap (machine_awaits insert_sorted w) (resetting reset_rsp (0 ∷ []) m refl a)
