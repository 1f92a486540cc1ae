-- ===== src/Core/Steps.antt =====
-- The life of a `NciCore` of src/nci_core.c: the calls of its application, of its HAL and of its
-- timers as steps.
use libncicore.Common.{ℕ, refl, inl, Bool, true, Option, List, [], ◌∷◌}
use libncicore.Util.Types.{DiscoveryNtf}
use libncicore.Sar.Defs.{HalReply}
use libncicore.Sar.Write.{write_completed, start_write_callback}
use libncicore.Sar.Send.{cancel}
use libncicore.Sar.Setup.{reset}
use libncicore.Sm.Types.{State, Transition, Config}
use libncicore.Sm.HostSelect.{Compare}
use libncicore.Sm.Switch.{switch_to, switch_proc, set_op_mode, set_tech, transition_timeout, new}
use libncicore.Sm.Switch.Calls.{
  switch_to-IsConsistent, switch_proc-IsConsistent, set_op_mode-IsConsistent, set_tech-IsConsistent,
  transition_timeout-IsConsistent, new-IsConsistent,
}
use libncicore.Sm.Shown.Switch.{
  switch_to-IsShown, switch_proc-IsShown, set_op_mode-IsShown, set_tech-IsShown,
  transition_timeout-IsShown,
}
use libncicore.Core.{
  CoreParam, CoreParamKey, changes, param_keys, set_params_config, reset_param, reset_params,
}
use libncicore.Core.Object.{NciCore, SendData}
use libncicore.Core.Client.{
  sm_error, command_timeout, hal_read, hal_written, hal_idle, sm_idle, sm_timeout,
}
use libncicore.Core.Calls.{
  new_core, cancel_message, send_data_msg, configure, restart_internal, set_state, set_core_op_mode,
  set_core_tech, set_core_params, reset_one_param,
}
use libncicore.Core.Well.{
  IsWell, command_timeout-IsWell, run-IsWell, sar_does-IsWell, sm_error-IsWell, with_sar-IsWell,
}
use libncicore.Core.Well.Calls.{
  changed-IsWell, configure-IsWell, hal_read-IsWell, restart_internal-IsWell, send_data_msg-IsWell,
}

module _ (insert_sorted : Compare → List DiscoveryNtf → DiscoveryNtf → List DiscoveryNtf) where
  -- The calls of the application, among them the assignment of its field `cmd_timeout`; the bytes,
  -- the answers and the errors of the HAL; the idle callbacks and the timers.
  pub data Step : NciCore → NciCore → Type 0 where
    restarted : (c : NciCore) → Step c (restart_internal insert_sorted c)
    state_set : (c : NciCore) (s : State) → Step c (set_state insert_sorted s c)
    op_mode_set : (c : NciCore) (mode : ℕ) → Step c (set_core_op_mode insert_sorted mode c)
    tech_set : (c : NciCore) (tech : ℕ) → Step c (set_core_tech insert_sorted tech c).0
    timeout_set : (c : NciCore) (ms : ℕ) → Step c (record c { cmd_timeout = ms })
    params_set :
        (c : NciCore) (reset : Bool) (ps : List CoreParam)
        → Step c (set_core_params insert_sorted reset ps c)
    param_reset : (c : NciCore) (key : CoreParamKey) → Step c (reset_one_param insert_sorted key c)
    message_sent :
        (c : NciCore) (cid : ℕ) (payload : Option (List ℕ)) (d : SendData)
        → Step c (send_data_msg cid payload d c).0
    message_cancelled : (c : NciCore) (id : ℕ) → Step c (cancel_message id c)
    command_timed_out : (c : NciCore) → Step c (command_timeout insert_sorted c)
    bytes_read : (c : NciCore) (bytes : List ℕ) → Step c (hal_read insert_sorted c bytes)
    hal_failed : (c : NciCore) → Step c (sm_error insert_sorted c)
    written : (c : NciCore) (io : HalReply) (ok : Bool) → Step c (hal_written insert_sorted io ok c)
    write_begun : (c : NciCore) (io : HalReply) → Step c (hal_idle insert_sorted io c)
    sm_idled : (c : NciCore) → Step c (sm_idle insert_sorted c)
    transition_timed_out : (c : NciCore) (t : Transition) → Step c (sm_timeout insert_sorted t c)

  pub data Reach (c : NciCore) : NciCore → Type 0 where
    here : Reach c c
    next : {d e : NciCore} → Reach c d → Step d e → Reach c e

  Step-IsWell : {c d : NciCore} → Step c d → IsWell c → IsWell d
  unfolding set_state set_core_op_mode set_core_tech set_core_params reset_one_param cancel_message
      hal_written hal_idle sm_idle sm_timeout
  Step-IsWell (restarted c) v = restart_internal-IsWell insert_sorted c v
  Step-IsWell (state_set c s) v =
      run-IsWell insert_sorted (switch_to s)
        record { consistent = switch_to-IsConsistent s; tells = switch_to-IsShown s } c v
  Step-IsWell (op_mode_set c mode) v =
      run-IsWell insert_sorted (set_op_mode mode)
        record { consistent = set_op_mode-IsConsistent mode; tells = set_op_mode-IsShown mode } c v
  Step-IsWell (tech_set c tech) v =
      run-IsWell insert_sorted (λ m. (set_tech tech m).0)
        record { consistent = set_tech-IsConsistent tech; tells = set_tech-IsShown tech } c v
  Step-IsWell (timeout_set c ms) v = record {
    sound = v.sound;
    consistent = v.consistent;
    next = v.next;
    current = v.current;
  }
  Step-IsWell (params_set c reset ps) v =
      let p = set_params_config reset ps c.sm.config in
      changed-IsWell insert_sorted (changes param_keys c.sm.config p) (configure p c)
        (configure-IsWell insert_sorted p c v)
  Step-IsWell (param_reset c key) v =
      let p = reset_param key c.sm.config in
      changed-IsWell insert_sorted (changes (key ∷ []) c.sm.config p) (configure p c)
        (configure-IsWell insert_sorted p c v)
  Step-IsWell (message_sent c cid payload d) v =
      send_data_msg-IsWell insert_sorted cid payload d c v
  Step-IsWell (message_cancelled c id) v = with_sar-IsWell (cancel c.sar id) c v
  Step-IsWell (command_timed_out c) v = command_timeout-IsWell insert_sorted c v
  Step-IsWell (bytes_read c bytes) v = hal_read-IsWell insert_sorted c bytes v
  Step-IsWell (hal_failed c) v = sm_error-IsWell insert_sorted c v
  Step-IsWell (written c io ok) v = sar_does-IsWell insert_sorted (write_completed io ok c.sar) c v
  Step-IsWell (write_begun c io) v =
      sar_does-IsWell insert_sorted (start_write_callback io c.sar) c v
  Step-IsWell (sm_idled c) v =
      run-IsWell insert_sorted switch_proc
        record { consistent = switch_proc-IsConsistent; tells = switch_proc-IsShown } c v
  Step-IsWell (transition_timed_out c t) v =
      run-IsWell insert_sorted (transition_timeout t)
        record {
          consistent = transition_timeout-IsConsistent t;
          tells = transition_timeout-IsShown t;
        }
        c v

  new-IsWell : (p : Config) → IsWell (new_core p)
  unfolding new_core new
  new-IsWell p = record {
    sound = inl (refl, refl);
    consistent = new-IsConsistent (reset_params param_keys p) true 2000;
    next = refl;
    current = refl;
  }

  -- From a new object of any configuration, after any calls of its application, whatever its HAL
  -- reads and answers, and after any completions and timeouts: its current and its next state are
  -- those of its state machine, the state machine is consistent, and while a command has an
  -- identifier or its timer runs, there is a response function for it.
  pub Reach-IsWell : (p : Config) {c : NciCore} → Reach (new_core p) c → IsWell c
  Reach-IsWell p here = new-IsWell p
  Reach-IsWell p (next r s) = Step-IsWell s (Reach-IsWell p r)
