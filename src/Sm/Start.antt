-- ===== src/Sm/Start.antt =====
-- How src/nci_sm.c starts and finishes a transition: the methods of src/nci_transition*.c.
use libncicore.Common.{false, Option, none, some, [], ◌∷◌, if◌then◌else◌, ◌==◌}
use libncicore.Sm.Types.{
  Transition, Config, reset, idle_to_discovery, deactivate_to_idle, deactivate_to_discovery,
  poll_active_to_idle, listen_active_to_idle, version_unknown,
}
use libncicore.Sm.Machine.{
  Machine, reset_rsp, get_config_rsp, deactivate_to_idle_rsp, deactivate_to_discovery_rsp,
  poll_active_to_idle_rsp, listen_active_to_idle_rsp, without, send_command,
}
use libncicore.Discovery.Config.{get_config}

-- `nci_transition_finished`: the timeout is cleared; on the way from LISTEN_ACTIVE also what it keeps
unfoldable pub finished : Transition → Machine → Machine
finished listen_active_to_idle m = record m {
  expecting_ntf = false;
  ntf = none;
  timers = without listen_active_to_idle m.timers;
}
finished t m = record m { timers = without t m.timers }

unfoldable pub finish : Option Transition → Machine → Machine
finish none m = m
finish (some t) m = finished t (record m { active = none })

unfoldable pub finish_active_transition : Machine → Machine
finish_active_transition m = finish m.active m

abbrev pub arm : Transition → Machine → Machine
arm t m =
    if m.io_timeout == 0
    then record m { timers = without t m.timers }
    else record m { timers = t ∷ without t m.timers }

abbrev pub reset_config : Config → Config
reset_config c = record c {
  rf_interfaces = none;
  max_routing_table_size = 0;
  version = version_unknown;
  nfcc_discovery = 0;
  nfcc_routing = 0;
  nfcc_power = 0;
}

-- The start methods of the transitions, each after that of the base class.
abbrev pub start_reset : Machine → Machine
start_reset m =
    send_command 0 0 (0x00 ∷ []) reset_rsp (record (arm reset m) { config = reset_config m.config })

abbrev pub start_idle_to_discovery : Machine → Machine
start_idle_to_discovery m = send_command 0 3 get_config get_config_rsp (arm idle_to_discovery m)

abbrev pub start_deactivate_to_idle : Machine → Machine
start_deactivate_to_idle m =
    send_command 1 6 (0x00 ∷ []) deactivate_to_idle_rsp (arm deactivate_to_idle m)

abbrev pub start_deactivate_to_discovery : Machine → Machine
start_deactivate_to_discovery m =
    send_command 1 6 (0x03 ∷ []) deactivate_to_discovery_rsp (arm deactivate_to_discovery m)

abbrev pub start_poll_active_to_idle : Machine → Machine
start_poll_active_to_idle m =
    send_command 1 6 (0x00 ∷ []) poll_active_to_idle_rsp (arm poll_active_to_idle m)

abbrev pub start_listen_active_to_idle : Machine → Machine
start_listen_active_to_idle m =
    send_command 1 6 (0x00 ∷ []) listen_active_to_idle_rsp
      (arm listen_active_to_idle (record m { expecting_ntf = false; ntf = none }))

-- `nci_transition_start`, which fails where the command cannot be sent
unfoldable pub start : Transition → Machine → Machine
start reset m = start_reset m
start idle_to_discovery m = start_idle_to_discovery m
start deactivate_to_idle m = start_deactivate_to_idle m
start deactivate_to_discovery m = start_deactivate_to_discovery m
start poll_active_to_idle m = start_poll_active_to_idle m
start listen_active_to_idle m = start_listen_active_to_idle m
