-- ===== src/Sm/Steps/Tests.antt =====
-- The theorems about the state machine of src/nci_sm.c at concrete inputs.
use libncicore.Common.{◌≡◌, refl, true, none, some, [], ◌∷◌, ◌++◌, arith}
use libncicore.Util.Types.{DiscoveryNtf}
use libncicore.Util.Ntf.{mode_param, parse_discover_ntf}
use libncicore.Sm.Types.{
  error, idle, discovery, w4_all_discoveries, w4_host_select, listen_active, idle_to_discovery,
  deactivate_to_idle, listen_active_to_idle, success, stall_error,
}
use libncicore.Sm.Machine.{Machine, reset_rsp, listen_active_to_idle_rsp, credits_added}
use libncicore.Sm.Sample.{sample_config}
use libncicore.Sm.Control.{stall}
use libncicore.Sm.Control.Enter.{IsConsistent}
use libncicore.Sm.Control.Methods.{stall_settles}
use libncicore.Sm.Switch.{switch_to, new}
use libncicore.Sm.Respond.{respond}
use libncicore.Sm.Notify.{handle_ntf}
use libncicore.Sm.Steps.{here, next, switched, responded, Reach-IsConsistent}
use libncicore.Sm.Steps.Deactivate.{listen_active_to_idle_finishes}
use libncicore.Sm.Steps.Requests.{crossing_request_lost}
use libncicore.Sm.Steps.Credits.{conn_credits_anywhere}
use libncicore.Sm.Steps.Discover.{only_discovery_misplaced}

-- a new machine that reads and writes tags
abbrev fresh : Machine
fresh = new (sample_config 0x01 0x0f5f) true 100

Reach-IsConsistent_example :
    IsConsistent (respond reset_rsp success (0 ∷ []) (switch_to discovery fresh))
Reach-IsConsistent_example = Reach-IsConsistent (sample_config 0x01 0x0f5f) true 100 (
    next (next here (switched fresh discovery))
      (responded (switch_to discovery fresh) reset_rsp success (0 ∷ [])))

stall_settles_example :
    ((stall stall_error fresh).active ≡ none)
    × ((stall stall_error fresh).last_state ≡ error)
    × ((stall stall_error fresh).next_state ≡ error)
stall_settles_example = stall_settles stall_error fresh

-- on the way from LISTEN_ACTIVE to IDLE
abbrev deactivating : Machine
deactivating = record fresh {
  active = some listen_active_to_idle;
  active_state = none;
  last_state = listen_active;
  next_state = idle;
}

listen_active_to_idle_finishes_example :
    ((respond listen_active_to_idle_rsp success
        (0 ∷ [])
        (handle_ntf 1 6 (3 ∷ 2 ∷ []) deactivating)).last_state
      ≡ idle)
    × ((handle_ntf 1 6
          (0 ∷ 0 ∷ [])
          (respond listen_active_to_idle_rsp success (0 ∷ []) deactivating)).last_state
        ≡ idle)
unfolding new
listen_active_to_idle_finishes_example =
    listen_active_to_idle_finishes deactivating 3 2 refl refl refl (omega arith)

-- DISCOVERY has been left for IDLE, and asked for again
abbrev returning : Machine
returning = record fresh {
  active = some deactivate_to_idle;
  active_state = none;
  last_state = discovery;
  next_state = discovery;
  next_transition = some idle_to_discovery;
}

crossing_request_lost_example :
    ((switch_to idle returning).next_transition ≡ none)
    × ((switch_to idle returning).next_state ≡ discovery)
    × ((switch_to idle returning).active ≡ some deactivate_to_idle)
    × (switch_to discovery (switch_to idle returning) ≡ switch_to idle returning)
unfolding new
crossing_request_lost_example =
    crossing_request_lost returning deactivate_to_idle refl refl refl refl refl

conn_credits_anywhere_example :
    handle_ntf 0 6 (2 ∷ 0 ∷ 1 ∷ 3 ∷ 7 ∷ []) returning
    ≡ record returning { log = returning.log ++ (credits_added 0 1 ∷ credits_added 3 7 ∷ []) }
conn_credits_anywhere_example = conn_credits_anywhere ((0, 1) ∷ (3, 7) ∷ []) [] returning

abbrev discovering : Machine
discovering = record fresh {
  active = none;
  active_state = some discovery;
  last_state = discovery;
  next_state = discovery;
}

-- a Type 2 tag, and no more to come
abbrev only_target : DiscoveryNtf
only_target = record {
  discovery_id = 1;
  protocol = 2;
  mode = 0;
  param_len = 0;
  param_bytes = [];
  param = none;
  last = true;
}

only_discovery_misplaced_example :
    ((handle_ntf 1 3 (1 ∷ 2 ∷ 0 ∷ 0 ∷ 0 ∷ []) discovering).active_state ≡ some w4_host_select)
    × ((handle_ntf 1 3 (1 ∷ 2 ∷ 0 ∷ 0 ∷ 0 ∷ []) discovering).last_state ≡ w4_all_discoveries)
    × (handle_ntf 1 5 (1 ∷ []) (handle_ntf 1 3 (1 ∷ 2 ∷ 0 ∷ 0 ∷ 0 ∷ []) discovering)
        ≡ handle_ntf 1 3 (1 ∷ 2 ∷ 0 ∷ 0 ∷ 0 ∷ []) discovering)
unfolding new parse_discover_ntf mode_param
only_discovery_misplaced_example =
    only_discovery_misplaced (1 ∷ 2 ∷ 0 ∷ 0 ∷ 0 ∷ []) (1 ∷ []) only_target discovering refl refl
      refl refl refl
