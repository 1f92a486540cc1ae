-- ===== src/Core/Tests.antt =====
-- The theorems about src/nci_core.c at concrete inputs.
use libncicore.Common.{ℕ, ◌≡◌, refl, true, false, some, List, [], ◌∷◌}
use libncicore.Sm.Machine.{Machine}
use libncicore.Sm.Sample.{sample_config}
use libncicore.Sm.Switch.{new}
use libncicore.Reset.{InitInfo, parse_init_v1, parse_init_v2, interfaces, reset_ntf_ok}
use libncicore.Sar.Setup as Setup
use libncicore.Sm.Types.{idle, stall_error}
use libncicore.Sm.Control.{stall}
use libncicore.Sm.Shown.{next_signalled, last_signalled, shown}
use libncicore.Sm.HostSelect.Insertion.{insert_by}
use libncicore.Core.Object.{NciCore}
use libncicore.Core.Command.{ready, run}
use libncicore.Core.Client.{sm_error, command_completion, command_timeout, hal_read}
use libncicore.Core.Calls.{new_core, restart_internal}
use libncicore.Core.Awaited.{awaited, awaits_after, IsSound}
use libncicore.Core.Awaited.Run.{run-awaits}
use libncicore.Core.Well.{IsWell}
use libncicore.Core.Steps.{here, next, restarted, bytes_read, Reach-IsWell}
use libncicore.Core.Timeout.{IsFailed, failure_settles}
use libncicore.Core.Wire.{core_response, core_notification}
use libncicore.Core.Restart.Whole.{restart_over_hal}
use libncicore.Core.{CoreParam, llc_wks, llc_version, set_params_config, set_params}
use libncicore.Core.Again.{set_params_again}

abbrev wanted : List CoreParam
wanted = llc_wks 0x10 ∷ llc_version 0x13 ∷ []

abbrev settled_machine : Machine
settled_machine = new (set_params_config true wanted (sample_config 0x01 0x0f5f)) true 100

set_params_again_example : set_params true wanted settled_machine ≡ (settled_machine, [])
unfolding new
set_params_again_example = set_params_again wanted (sample_config 0x01 0x0f5f) settled_machine refl

abbrev fresh : NciCore
fresh = new_core (sample_config 0x01 0x0f5f)

-- after a restart
abbrev restarting : NciCore
restarting = restart_internal insert_by fresh

restarting-IsWell : IsWell restarting
restarting-IsWell = Reach-IsWell insert_by (sample_config 0x01 0x0f5f) (next here (restarted fresh))

Reach-IsWell_example : IsWell (hal_read insert_by restarting (0x40 ∷ 0 ∷ 1 ∷ 0 ∷ []))
Reach-IsWell_example =
    Reach-IsWell insert_by (sample_config 0x01 0x0f5f)
      (next (next here (restarted fresh)) (bytes_read restarting (0x40 ∷ 0 ∷ 1 ∷ 0 ∷ [])))

failure_settles_example :
    IsFailed (command_timeout insert_by restarting)
    × IsFailed (command_completion insert_by false restarting)
    × IsFailed (sm_error insert_by restarting)
failure_settles_example = failure_settles insert_by restarting restarting-IsWell

run-awaits_example :
    let d = run insert_by (stall stall_error) restarting in
    let m = stall stall_error (ready restarting) in
    (d.sm ≡ m)
    × (awaited d ≡ awaits_after insert_by m.log (awaited restarting))
    × (IsSound restarting → IsSound d)
    × (d.next_state ≡ shown next_signalled m.log restarting.next_state)
    × (d.current_state ≡ shown last_signalled m.log restarting.current_state)
run-awaits_example = run-awaits insert_by (stall stall_error) restarting

abbrev info_v1 : InitInfo
info_v1 = record {
  rf_interfaces = some (2 ∷ []);
  nfcc_discovery = 1;
  nfcc_routing = 2;
  nfcc_power = 3;
  max_routing_table_size = 256;
  max_logical_conns = 3;
  max_control_payload = 255;
}

abbrev info_v2 : InitInfo
info_v2 = record {
  rf_interfaces = some (2 ∷ []);
  nfcc_discovery = 1;
  nfcc_routing = 2;
  nfcc_power = 3;
  max_routing_table_size = 256;
  max_logical_conns = 5;
  max_control_payload = 255;
}

abbrev init_rsp_v1 : List ℕ
init_rsp_v1 = 0 ∷ 1 ∷ 2 ∷ 3 ∷ 4 ∷ 1 ∷ 2 ∷ 3 ∷ 0 ∷ 1 ∷ 255 ∷ 0 ∷ 0 ∷ 0 ∷ 0 ∷ 0 ∷ 0 ∷ 0 ∷ []

abbrev init_rsp_v2 : List ℕ
init_rsp_v2 = 0 ∷ 1 ∷ 2 ∷ 3 ∷ 4 ∷ 5 ∷ 0 ∷ 1 ∷ 255 ∷ 0 ∷ 0 ∷ 0 ∷ 0 ∷ 1 ∷ 2 ∷ 0 ∷ []

restart_over_hal_example :
    let reads : NciCore → List ℕ → NciCore = hal_read insert_by in
    let reset1 = reads restarting (core_response 0 (0 ∷ 0x10 ∷ 0 ∷ [])) in
    let reset2 =
      reads
        (reads restarting (core_response 0 (0 ∷ [])))
        (core_notification 0 (2 ∷ 0 ∷ 0x20 ∷ 4 ∷ 0 ∷ [])) in
    ((reads
        (reads reset1 (core_response 1 init_rsp_v1))
        (core_response 2 (0 ∷ 0 ∷ []))).current_state
      ≡ idle)
    × ((reads
          (reads reset2 (core_response 1 init_rsp_v2))
          (core_response 2 (0 ∷ 0 ∷ []))).current_state
        ≡ idle)
unfolding Setup.new new_core parse_init_v1 parse_init_v2 interfaces reset_ntf_ok
restart_over_hal_example =
    restart_over_hal insert_by fresh 0x10 0 (2 ∷ 0 ∷ 0x20 ∷ 4 ∷ 0 ∷ []) init_rsp_v1 init_rsp_v2
      (0 ∷ 0 ∷ []) info_v1 info_v2 (Reach-IsWell insert_by (sample_config 0x01 0x0f5f) here) refl
      refl refl refl
