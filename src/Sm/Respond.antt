-- ===== src/Sm/Respond.antt =====
-- The response functions of the transitions in src/nci_transition_*.c, and of
-- src/nci_state_w4_host_select.c.
pub mod Consistent
use libncicore.Common.{
  ℕ, zero, suc, ◌+◌, Bool, true, false, Option, none, some, List, [], ◌∷◌, ◌++◌, if◌then◌else◌,
  ◌==◌,
}
use libncicore.Util.Parse.{Parse, parsed, refused, overrun}
use libncicore.Util.Types.{RfDeactivateNtf}
use libncicore.Sm.Types.{
  State, Transition, RequestStatus, Config, idle, discovery, reset, idle_to_discovery,
  deactivate_to_idle, deactivate_to_discovery, poll_active_to_idle, listen_active_to_idle, success,
  timeout, cancelled, version_1, version_2, stall_error,
}
use libncicore.Sm.Machine.{
  Handler, Machine, reset_rsp, init_v1_rsp, init_v2_rsp, reset_set_config_rsp, get_config_rsp,
  set_config_rsp, set_mixed_routing_rsp, set_protocol_routing_rsp, last_protocol_routing_rsp,
  set_tech_routing_rsp, discover_map_rsp, discover_rsp, deactivate_to_idle_rsp,
  deactivate_to_discovery_rsp, deactivate_to_discovery_idle_rsp, poll_active_to_idle_rsp,
  listen_active_to_idle_rsp, host_select_rsp, max_logical_connections, max_control_payload,
  max_data_payload, no_param, logs, is_active, send_command,
}
use libncicore.Sm.Control.{enter_state, stall}
use libncicore.Discovery.Routing.{
  RoutingKind, mixed, protocol, technology, no_routing, set_routing, mixed_routing_entries,
  protocol_routing_entries, tech_routing_entries, routing_kind,
}
use libncicore.Discovery.Map.{discover_map, discover, counted_bytes}
use libncicore.Discovery.Config.{get_config_done}
use libncicore.Reset.{InitInfo, parse_init_v1, parse_init_v2, set_config}

-- A status that is OK: as the first byte, and as the only one.
abbrev pub status_ok : List ℕ → Bool
status_ok [] = false
status_ok (status ∷ rest) = status == 0x00

abbrev pub only_status_ok : List ℕ → Bool
only_status_ok (status ∷ []) = status == 0x00
only_status_ok pkt = false

abbrev pub install : InitInfo → Config → Config
install i c = record c {
  rf_interfaces = i.rf_interfaces;
  nfcc_discovery = i.nfcc_discovery;
  nfcc_routing = i.nfcc_routing;
  nfcc_power = i.nfcc_power;
  max_routing_table_size = i.max_routing_table_size;
}

-- CORE_INIT_RSP of either version
unfoldable pub initialized : Parse InitInfo → Machine → Machine
initialized refused m = stall stall_error m
initialized overrun m = record m { fault = true }
initialized (parsed i) m = send_command 0 2 (set_config m.config) reset_set_config_rsp (
    logs (max_data_payload 0) (
      logs (max_control_payload i.max_control_payload) (
        logs (max_logical_connections i.max_logical_conns)
          (record m { config = install i m.config }))))

unfoldable pub reset_answered : List ℕ → Machine → Machine
reset_answered (status ∷ []) m =
    let versioned = record m { config = record m.config { version = version_2 } } in
    if status == 0x00 then versioned else stall stall_error versioned
reset_answered (status ∷ x ∷ y ∷ []) m =
    let versioned = record m { config = record m.config { version = version_1 } } in
    if status == 0x00
    then send_command 0 1 [] init_v1_rsp versioned
    else stall stall_error versioned
reset_answered pkt m = stall stall_error m

-- `nci_transition_idle_to_discover_map`
unfoldable pub send_discover_map : Machine → Machine
send_discover_map m = send_command 1 0 (counted_bytes (discover_map m.config)) discover_map_rsp m

unfoldable pub send_routing : RoutingKind → Handler → Machine → Machine
send_routing mixed rsp m = send_command 1 1 (set_routing (mixed_routing_entries m.config)) rsp m
send_routing protocol rsp m =
    send_command 1 1 (set_routing (protocol_routing_entries m.config)) rsp m
send_routing technology rsp m = send_command 1 1 (set_routing (tech_routing_entries m.config)) rsp m
send_routing no_routing rsp m = send_discover_map m

abbrev routing_rsp : RoutingKind → Handler
routing_rsp mixed = set_mixed_routing_rsp
routing_rsp protocol = last_protocol_routing_rsp
routing_rsp technology = set_tech_routing_rsp
routing_rsp no_routing = discover_map_rsp

-- `nci_transition_idle_to_discovery_configure_routing`
unfoldable pub configure_routing : Machine → Machine
configure_routing m = let kind = routing_kind m.config in send_routing kind (routing_rsp kind) m

unfoldable pub configured : Option (List ℕ) → Machine → Machine
configured none m = configure_routing m
configured (some payload) m = send_command 0 2 payload set_config_rsp m

-- the transition is over where its command has succeeded, else it stalls
unfoldable pub finish_if_ok : Bool → State → Machine → Machine
finish_if_ok true s m = enter_state s no_param m
finish_if_ok false s m = stall stall_error m

-- A notification that has come before the response ends the transition.
unfoldable pub listen_deactivated : Option RfDeactivateNtf → Machine → Machine
listen_deactivated (some n) m = enter_state idle no_param m
listen_deactivated none m = record m { expecting_ntf = true }

-- The responses to commands that have succeeded, for the transition that is active.
abbrev pub mixed_routing_answered : List ℕ → Machine → Machine
mixed_routing_answered pkt m =
    if status_ok pkt then send_discover_map m else send_routing protocol set_protocol_routing_rsp m

abbrev pub protocol_routing_answered : List ℕ → Machine → Machine
protocol_routing_answered pkt m =
    if status_ok pkt then send_discover_map m else send_routing technology set_tech_routing_rsp m

abbrev pub last_routing_answered : Machine → Machine
last_routing_answered m = send_discover_map m

abbrev pub discover_map_answered : List ℕ → Machine → Machine
discover_map_answered pkt m =
    if status_ok pkt
    then send_command 1 3 (counted_bytes (discover m.config)) discover_rsp m
    else stall stall_error m

abbrev pub discover_answered : List ℕ → Machine → Machine
discover_answered pkt m = finish_if_ok (status_ok pkt) discovery m

abbrev pub deactivate_to_discovery_answered : List ℕ → Machine → Machine
deactivate_to_discovery_answered pkt m =
    if only_status_ok pkt
    then m
    else send_command 1 6 (0x00 ∷ []) deactivate_to_discovery_idle_rsp m

abbrev pub deactivate_idle_answered : List ℕ → Machine → Machine
deactivate_idle_answered pkt m = finish_if_ok (only_status_ok pkt) idle m

abbrev pub poll_active_to_idle_answered : List ℕ → Machine → Machine
poll_active_to_idle_answered pkt m = if only_status_ok pkt then m else stall stall_error m

abbrev pub listen_active_to_idle_answered : List ℕ → Machine → Machine
listen_active_to_idle_answered pkt m =
    if only_status_ok pkt then listen_deactivated m.ntf m else stall stall_error m

unfoldable pub answered : Handler → List ℕ → Machine → Machine
answered reset_rsp pkt m = reset_answered pkt m
answered init_v1_rsp pkt m = initialized (parse_init_v1 pkt) m
answered init_v2_rsp pkt m = initialized (parse_init_v2 pkt) m
answered reset_set_config_rsp pkt m = enter_state idle no_param m
answered get_config_rsp pkt m = configured (get_config_done m.config true pkt) m
answered set_config_rsp pkt m = configure_routing m
answered set_mixed_routing_rsp pkt m = mixed_routing_answered pkt m
answered set_protocol_routing_rsp pkt m = protocol_routing_answered pkt m
answered last_protocol_routing_rsp pkt m = last_routing_answered m
answered set_tech_routing_rsp pkt m = last_routing_answered m
answered discover_map_rsp pkt m = discover_map_answered pkt m
answered discover_rsp pkt m = discover_answered pkt m
answered deactivate_to_idle_rsp pkt m = finish_if_ok (status_ok pkt) idle m
answered deactivate_to_discovery_rsp pkt m = deactivate_to_discovery_answered pkt m
answered deactivate_to_discovery_idle_rsp pkt m = deactivate_idle_answered pkt m
answered poll_active_to_idle_rsp pkt m = poll_active_to_idle_answered pkt m
answered listen_active_to_idle_rsp pkt m = listen_active_to_idle_answered pkt m
answered host_select_rsp pkt m = m

-- the transition that a response belongs to
unfoldable pub owner : Handler → Option Transition
owner reset_rsp = some reset
owner init_v1_rsp = some reset
owner init_v2_rsp = some reset
owner reset_set_config_rsp = some reset
owner deactivate_to_idle_rsp = some deactivate_to_idle
owner deactivate_to_discovery_rsp = some deactivate_to_discovery
owner deactivate_to_discovery_idle_rsp = some deactivate_to_discovery
owner poll_active_to_idle_rsp = some poll_active_to_idle
owner listen_active_to_idle_rsp = some listen_active_to_idle
owner host_select_rsp = none
owner rsp = some idle_to_discovery

unfoldable pub respond_to : Option Transition → Handler → RequestStatus → List ℕ → Machine → Machine
respond_to none rsp status pkt m = m
respond_to (some t) rsp cancelled pkt m = m
respond_to (some t) rsp timeout pkt m = if is_active t m then stall stall_error m else m
respond_to (some t) rsp success pkt m = if is_active t m then answered rsp pkt m else m

unfoldable pub respond : Handler → RequestStatus → List ℕ → Machine → Machine
respond rsp status pkt m = respond_to (owner rsp) rsp status pkt m
