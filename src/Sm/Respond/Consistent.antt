-- ===== src/Sm/Respond/Consistent.antt =====
-- Responses and the consistency of the state machine of src/nci_sm.c.
use libncicore.Common.{
  ℕ, refl, Bool, true, false, Option, none, some, List, [], ◌∷◌, if◌then◌else◌, arith,
}
use libncicore.Util.Parse.{Parse, parsed, refused, overrun}
use libncicore.Util.Types.{RfDeactivateNtf}
use libncicore.Sm.Types.{
  State, Transition, RequestStatus, Config, idle, discovery, success, timeout, cancelled, version_1,
  version_2, stall_error,
}
use libncicore.Sm.Machine.{
  Handler, Event, Machine, reset_rsp, init_v1_rsp, init_v2_rsp, reset_set_config_rsp,
  get_config_rsp, set_config_rsp, set_mixed_routing_rsp, set_protocol_routing_rsp,
  last_protocol_routing_rsp, set_tech_routing_rsp, discover_map_rsp, discover_rsp,
  deactivate_to_idle_rsp, deactivate_to_discovery_rsp, deactivate_to_discovery_idle_rsp,
  poll_active_to_idle_rsp, listen_active_to_idle_rsp, host_select_rsp, sends, no_param, logs,
  is_active, send_command,
}
use libncicore.Sm.Control.Enter.{IsConsistent}
use libncicore.Sm.Control.Methods.{enter_state-IsConsistent, stall-IsConsistent}
use libncicore.Sm.Switch.Calls.{same-IsConsistent}
use libncicore.Discovery.Routing.{RoutingKind, mixed, protocol, technology, no_routing}
use libncicore.Discovery.Config.{get_config_done}
use libncicore.Reset.{InitInfo, parse_init_v1, parse_init_v2}
use libncicore.Sm.Respond.{
  install, initialized, reset_answered, send_discover_map, send_routing, configure_routing,
  configured, finish_if_ok, listen_deactivated, answered, owner, respond_to, respond,
  only_status_ok, status_ok,
}

pub logs-IsConsistent : (e : Event) (m : Machine) → IsConsistent m → IsConsistent (logs e m)
logs-IsConsistent e m v =
    same-IsConsistent m (logs e m) v (refl, refl, refl, refl, refl, refl, refl)

pub send-IsConsistent :
    (gid oid : ℕ) (payload : List ℕ) (rsp : Handler) (m : Machine)
    → IsConsistent m
    → IsConsistent (send_command gid oid payload rsp m)
send-IsConsistent gid oid payload rsp m v =
    ground (arith, v, logs-IsConsistent (sends gid oid payload rsp) m v)

config-IsConsistent :
    (c : Config) (m : Machine) → IsConsistent m → IsConsistent (record m { config = c })
config-IsConsistent c m v =
    same-IsConsistent m (record m { config = c }) v (refl, refl, refl, refl, refl, refl, refl)

initialized-IsConsistent :
    (p : Parse InitInfo) (m : Machine) → IsConsistent m → IsConsistent (initialized p m)
unfolding initialized
initialized-IsConsistent refused m v = stall-IsConsistent stall_error m v.outside
initialized-IsConsistent overrun m v =
    same-IsConsistent m (record m { fault = true }) v (refl, refl, refl, refl, refl, refl, refl)
initialized-IsConsistent (parsed i) m v = send-IsConsistent _ _ _ _ _ (
    logs-IsConsistent _ _ (
      logs-IsConsistent _ _ (logs-IsConsistent _ _ (config-IsConsistent (install i m.config) m v))))

reset_answered-IsConsistent :
    (pkt : List ℕ) (m : Machine) → IsConsistent m → IsConsistent (reset_answered pkt m)
unfolding reset_answered
reset_answered-IsConsistent [] m v = stall-IsConsistent stall_error m v.outside
reset_answered-IsConsistent (s ∷ []) m v =
    let c = config-IsConsistent (record m.config { version = version_2 }) m v in
    ground (
      arith,
      c,
      stall-IsConsistent stall_error (record m { config = record m.config { version = version_2 } })
          v.outside,
    )
reset_answered-IsConsistent (s ∷ x ∷ []) m v = stall-IsConsistent stall_error m v.outside
reset_answered-IsConsistent (s ∷ x ∷ y ∷ []) m v =
    let c = config-IsConsistent (record m.config { version = version_1 }) m v in
    ground (
      arith,
      send-IsConsistent 0 1 [] init_v1_rsp
          (record m { config = record m.config { version = version_1 } }) c,
      stall-IsConsistent stall_error (record m { config = record m.config { version = version_1 } })
          v.outside,
    )
reset_answered-IsConsistent (s ∷ x ∷ y ∷ z ∷ r) m v = stall-IsConsistent stall_error m v.outside

send_discover_map-IsConsistent : (m : Machine) → IsConsistent m → IsConsistent (send_discover_map m)
unfolding send_discover_map
send_discover_map-IsConsistent m v = send-IsConsistent _ _ _ _ m v

send_routing-IsConsistent :
    (k : RoutingKind) (rsp : Handler) (m : Machine)
    → IsConsistent m
    → IsConsistent (send_routing k rsp m)
unfolding send_routing
send_routing-IsConsistent mixed rsp m v = send-IsConsistent _ _ _ _ m v
send_routing-IsConsistent protocol rsp m v = send-IsConsistent _ _ _ _ m v
send_routing-IsConsistent technology rsp m v = send-IsConsistent _ _ _ _ m v
send_routing-IsConsistent no_routing rsp m v = send_discover_map-IsConsistent m v

configure_routing-IsConsistent : (m : Machine) → IsConsistent m → IsConsistent (configure_routing m)
unfolding configure_routing
configure_routing-IsConsistent m v = send_routing-IsConsistent _ _ m v

configured-IsConsistent :
    (o : Option (List ℕ)) (m : Machine) → IsConsistent m → IsConsistent (configured o m)
unfolding configured
configured-IsConsistent none m v = configure_routing-IsConsistent m v
configured-IsConsistent (some p) m v = send-IsConsistent _ _ _ _ m v

finish_if_ok-IsConsistent :
    (b : Bool) (s : State) (m : Machine) → IsConsistent m → IsConsistent (finish_if_ok b s m)
unfolding finish_if_ok
finish_if_ok-IsConsistent true s m v = enter_state-IsConsistent s no_param m v.outside
finish_if_ok-IsConsistent false s m v = stall-IsConsistent stall_error m v.outside

listen_deactivated-IsConsistent :
    (o : Option RfDeactivateNtf) (m : Machine)
    → IsConsistent m
    → IsConsistent (listen_deactivated o m)
unfolding listen_deactivated
listen_deactivated-IsConsistent (some n) m v = enter_state-IsConsistent idle no_param m v.outside
listen_deactivated-IsConsistent none m v =
    same-IsConsistent m (record m { expecting_ntf = true }) v
      (refl, refl, refl, refl, refl, refl, refl)

-- a test between two machines
pub if-IsConsistent :
    (b : Bool) (m n : Machine) → IsConsistent m → IsConsistent n → IsConsistent (if b then m else n)
if-IsConsistent true m n v w = v
if-IsConsistent false m n v w = w

answered-IsConsistent :
    (rsp : Handler) (pkt : List ℕ) (m : Machine)
    → IsConsistent m
    → IsConsistent (answered rsp pkt m)
unfolding answered
answered-IsConsistent reset_rsp pkt m v = reset_answered-IsConsistent pkt m v
answered-IsConsistent init_v1_rsp pkt m v = initialized-IsConsistent (parse_init_v1 pkt) m v
answered-IsConsistent init_v2_rsp pkt m v = initialized-IsConsistent (parse_init_v2 pkt) m v
answered-IsConsistent reset_set_config_rsp pkt m v =
    enter_state-IsConsistent idle no_param m v.outside
answered-IsConsistent get_config_rsp pkt m v =
    configured-IsConsistent (get_config_done m.config true pkt) m v
answered-IsConsistent set_config_rsp pkt m v = configure_routing-IsConsistent m v
answered-IsConsistent set_mixed_routing_rsp pkt m v =
    if-IsConsistent (status_ok pkt) _ _ (send_discover_map-IsConsistent m v)
      (send_routing-IsConsistent protocol _ m v)
answered-IsConsistent set_protocol_routing_rsp pkt m v =
    if-IsConsistent (status_ok pkt) _ _ (send_discover_map-IsConsistent m v)
      (send_routing-IsConsistent technology _ m v)
answered-IsConsistent last_protocol_routing_rsp pkt m v = send_discover_map-IsConsistent m v
answered-IsConsistent set_tech_routing_rsp pkt m v = send_discover_map-IsConsistent m v
answered-IsConsistent discover_map_rsp pkt m v =
    if-IsConsistent (status_ok pkt) _ _ (send-IsConsistent _ _ _ _ m v)
      (stall-IsConsistent stall_error m v.outside)
answered-IsConsistent discover_rsp pkt m v = finish_if_ok-IsConsistent (status_ok pkt) discovery m v
answered-IsConsistent deactivate_to_idle_rsp pkt m v =
    finish_if_ok-IsConsistent (status_ok pkt) idle m v
answered-IsConsistent deactivate_to_discovery_rsp pkt m v =
    if-IsConsistent (only_status_ok pkt) _ _ v (send-IsConsistent _ _ _ _ m v)
answered-IsConsistent deactivate_to_discovery_idle_rsp pkt m v =
    finish_if_ok-IsConsistent (only_status_ok pkt) idle m v
answered-IsConsistent poll_active_to_idle_rsp pkt m v =
    if-IsConsistent (only_status_ok pkt) _ _ v (stall-IsConsistent stall_error m v.outside)
answered-IsConsistent listen_active_to_idle_rsp pkt m v =
    if-IsConsistent (only_status_ok pkt) _ _ (listen_deactivated-IsConsistent m.ntf m v)
      (stall-IsConsistent stall_error m v.outside)
answered-IsConsistent host_select_rsp pkt m v = v

respond_to-IsConsistent :
    (o : Option Transition) (rsp : Handler) (status : RequestStatus) (pkt : List ℕ) (m : Machine)
    → IsConsistent m
    → IsConsistent (respond_to o rsp status pkt m)
unfolding respond_to
respond_to-IsConsistent none rsp status pkt m v = v
respond_to-IsConsistent (some t) rsp cancelled pkt m v = v
respond_to-IsConsistent (some t) rsp timeout pkt m v =
    if-IsConsistent (is_active t m) _ _ (stall-IsConsistent stall_error m v.outside) v
respond_to-IsConsistent (some t) rsp success pkt m v =
    if-IsConsistent (is_active t m) _ _ (answered-IsConsistent rsp pkt m v) v

pub respond-IsConsistent :
    (rsp : Handler) (status : RequestStatus) (pkt : List ℕ) (m : Machine)
    → IsConsistent m
    → IsConsistent (respond rsp status pkt m)
unfolding respond
respond-IsConsistent rsp status pkt m v = respond_to-IsConsistent (owner rsp) rsp status pkt m v
