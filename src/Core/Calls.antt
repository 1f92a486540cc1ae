-- ===== src/Core/Calls.antt =====
-- The calls of an application in src/nci_core.c.
use libncicore.Common.{
  ℕ, suc, Bool, true, false, ◌||◌, Option, none, List, [], ◌∷◌, ◌++◌, if◌then◌else◌, length,
}
use libncicore.Util.Types.{DiscoveryNtf}
use libncicore.Sar.Send.{Request, send_data_packet, cancel}
use libncicore.Sar.Setup.{new, reset}
use libncicore.Sm.Types.{State, Config}
use libncicore.Sm.Types as SmTypes
use libncicore.Sm.Switch.{switch_to, reset_machine, set_op_mode, set_tech}
use libncicore.Sm.Switch as Switch
use libncicore.Sm.HostSelect.{Compare}
use libncicore.Core.{
  CoreParam, CoreParamKey, param_keys, changes, reset_param, reset_params, set_params_config,
}
use libncicore.Core.Object.{NciCore, SendData, param_changed, emits, with_sar}
use libncicore.Core.Command.{ready, run, cancel_command}
use libncicore.Core.Client.{sar_does}

-- the parameters are reset by `nci_core_new`
abbrev default_timeout : ℕ
default_timeout = 2000

unfoldable pub new_core : Config → NciCore
new_core c = record {
  sm = Switch.new (reset_params param_keys c) true default_timeout;
  sar = new;
  cmd_id = 0;
  cmd_timer = false;
  cmd_timeout = default_timeout;
  rsp_gid = 0;
  rsp_oid = 0;
  rsp_handler = none;
  current_state = SmTypes.init;
  next_state = SmTypes.init;
  sends = [];
  output = [];
}

-- `nci_core_cancel`, for the identifier of a data message
unfoldable pub cancel_message : ℕ → NciCore → NciCore
cancel_message id c = with_sar (cancel c.sar id) c

-- what `nci_core_send_data_msg` hands to the SAR
unfoldable pub message : Option (List ℕ) → SendData → ℕ → Request
message payload d blocks =
    let called = d.complete || d.destroy in
    record {
      payload = payload;
      complete = called;
      destroy = called;
      user_data = if called then suc blocks else 0;
    }

-- the block of `NciCoreSendData`, which is there if one of the callbacks is
unfoldable pub keep_send : SendData → NciCore → NciCore
keep_send d c = if d.complete || d.destroy then record c { sends = c.sends ++ (d ∷ []) } else c

-- The second component is what is returned.
unfoldable pub send_data_msg : ℕ → Option (List ℕ) → SendData → NciCore → NciCore × ℕ
send_data_msg cid payload d c =
    let sent = send_data_packet c.sar cid (message payload d (length c.sends)) in
    (record (keep_send d c) { sar = sent.0 }, sent.1)

-- the signals of the parameters that have changed
unfoldable pub signal_changes : List CoreParamKey → NciCore → NciCore
signal_changes [] c = c
signal_changes (k ∷ ks) c = signal_changes ks (emits (param_changed k) c)

abbrev pub configure : Config → NciCore → NciCore
configure p c = record c { sm = record c.sm { config = p } }

module _ (insert_sorted : Compare → List DiscoveryNtf → DiscoveryNtf → List DiscoveryNtf) where
  unfoldable pub restart_internal : NciCore → NciCore
  restart_internal c =
      let stopped = cancel_command c in
      run insert_sorted reset_machine (sar_does insert_sorted (reset stopped.sar) stopped)

  unfoldable pub set_state : State → NciCore → NciCore
  set_state s c = run insert_sorted (switch_to s) c

  unfoldable pub set_core_op_mode : ℕ → NciCore → NciCore
  set_core_op_mode mode c = run insert_sorted (set_op_mode mode) c

  -- The second component is what is returned.
  unfoldable pub set_core_tech : ℕ → NciCore → NciCore × ℕ
  set_core_tech tech c =
      (run insert_sorted (λ m. (set_tech tech m).0) c, (set_tech tech (ready c)).1)

  -- the change signals, and the restart that follows them
  unfoldable pub changed : List CoreParamKey → NciCore → NciCore
  changed [] c = c
  changed (k ∷ ks) c = restart_internal (signal_changes (k ∷ ks) c)

  -- `nci_core_set_params`
  unfoldable pub set_core_params : Bool → List CoreParam → NciCore → NciCore
  set_core_params reset ps c =
      let p = set_params_config reset ps c.sm.config in
      changed (changes param_keys c.sm.config p) (configure p c)

  -- `nci_core_reset_param`
  unfoldable pub reset_one_param : CoreParamKey → NciCore → NciCore
  reset_one_param key c =
      let p = reset_param key c.sm.config in
      changed (changes (key ∷ []) c.sm.config p) (configure p c)
