-- ===== src/Sm/Shown/Responses.antt =====
-- The state signals of the responses in src/nci_sm.c.
use libncicore.Common.{ℕ, refl, Bool, true, false, Option, none, some, List, [], ◌∷◌, arith}
use libncicore.Util.Parse.{Parse, parsed, refused, overrun}
use libncicore.Util.Types.{RfDeactivateNtf}
use libncicore.Sm.Types.{
  State, Transition, RequestStatus, Config, idle, discovery, success, timeout, cancelled, version_1,
  version_2, stall_error,
}
use libncicore.Sm.Machine.{
  Handler, Machine, reset_rsp, init_v1_rsp, init_v2_rsp, reset_set_config_rsp, get_config_rsp,
  set_config_rsp, set_mixed_routing_rsp, set_protocol_routing_rsp, last_protocol_routing_rsp,
  set_tech_routing_rsp, discover_map_rsp, discover_rsp, deactivate_to_idle_rsp,
  deactivate_to_discovery_rsp, deactivate_to_discovery_idle_rsp, poll_active_to_idle_rsp,
  listen_active_to_idle_rsp, host_select_rsp, no_param, is_active,
}
use libncicore.Sm.Shown.{IsShown, logs-IsShown, send-IsShown, if-IsShown}
use libncicore.Sm.Shown.Enter.{stall-IsShown, enter_state-IsShown}
use libncicore.Discovery.Routing.{RoutingKind, mixed, protocol, technology, no_routing}
use libncicore.Discovery.Config.{get_config_done}
use libncicore.Reset.{InitInfo, parse_init_v1, parse_init_v2}
use libncicore.Sm.Respond.{
  install, initialized, reset_answered, send_discover_map, send_routing, configure_routing,
  configured, finish_if_ok, listen_deactivated, answered, owner, respond_to, respond,
  only_status_ok, status_ok,
}

module _ {nx lx : State} where
  config-IsShown :
      (c : Config) (m : Machine) → IsShown nx lx m → IsShown nx lx (record m { config = c })
  config-IsShown c m v = record { next = v.next; last = v.last }

  initialized-IsShown :
      (p : Parse InitInfo) (m : Machine) → IsShown nx lx m → IsShown nx lx (initialized p m)
  unfolding initialized
  initialized-IsShown refused m v = stall-IsShown stall_error m v
  initialized-IsShown overrun m v = record { next = v.next; last = v.last }
  initialized-IsShown (parsed i) m v = send-IsShown _ _ _ _ _ (
      logs-IsShown _ _ (λ s. (refl, refl))
        (logs-IsShown _ _ (λ s. (refl, refl))
          (logs-IsShown _ _ (λ s. (refl, refl)) (config-IsShown (install i m.config) m v))))

  reset_answered-IsShown :
      (pkt : List ℕ) (m : Machine) → IsShown nx lx m → IsShown nx lx (reset_answered pkt m)
  unfolding reset_answered
  reset_answered-IsShown [] m v = stall-IsShown stall_error m v
  reset_answered-IsShown (s ∷ []) m v =
      let c = config-IsShown (record m.config { version = version_2 }) m v in
      ground (
        arith,
        c,
        stall-IsShown stall_error (record m { config = record m.config { version = version_2 } }) c,
      )
  reset_answered-IsShown (s ∷ x ∷ []) m v = stall-IsShown stall_error m v
  reset_answered-IsShown (s ∷ x ∷ y ∷ []) m v =
      let c = config-IsShown (record m.config { version = version_1 }) m v in
      ground (
        arith,
        send-IsShown 0 1 [] init_v1_rsp
            (record m { config = record m.config { version = version_1 } }) c,
        stall-IsShown stall_error (record m { config = record m.config { version = version_1 } }) c,
      )
  reset_answered-IsShown (s ∷ x ∷ y ∷ z ∷ r) m v = stall-IsShown stall_error m v

  send_discover_map-IsShown : (m : Machine) → IsShown nx lx m → IsShown nx lx (send_discover_map m)
  unfolding send_discover_map
  send_discover_map-IsShown m v = send-IsShown _ _ _ _ m v

  send_routing-IsShown :
      (k : RoutingKind) (rsp : Handler) (m : Machine)
      → IsShown nx lx m
      → IsShown nx lx (send_routing k rsp m)
  unfolding send_routing
  send_routing-IsShown mixed rsp m v = send-IsShown _ _ _ _ m v
  send_routing-IsShown protocol rsp m v = send-IsShown _ _ _ _ m v
  send_routing-IsShown technology rsp m v = send-IsShown _ _ _ _ m v
  send_routing-IsShown no_routing rsp m v = send_discover_map-IsShown m v

  configure_routing-IsShown : (m : Machine) → IsShown nx lx m → IsShown nx lx (configure_routing m)
  unfolding configure_routing
  configure_routing-IsShown m v = send_routing-IsShown _ _ m v

  configured-IsShown :
      (o : Option (List ℕ)) (m : Machine) → IsShown nx lx m → IsShown nx lx (configured o m)
  unfolding configured
  configured-IsShown none m v = configure_routing-IsShown m v
  configured-IsShown (some p) m v = send-IsShown _ _ _ _ m v

  finish_if_ok-IsShown :
      (b : Bool) (s : State) (m : Machine) → IsShown nx lx m → IsShown nx lx (finish_if_ok b s m)
  unfolding finish_if_ok
  finish_if_ok-IsShown true s m v = enter_state-IsShown s no_param m v
  finish_if_ok-IsShown false s m v = stall-IsShown stall_error m v

  listen_deactivated-IsShown :
      (o : Option RfDeactivateNtf) (m : Machine)
      → IsShown nx lx m
      → IsShown nx lx (listen_deactivated o m)
  unfolding listen_deactivated
  listen_deactivated-IsShown (some n) m v = enter_state-IsShown idle no_param m v
  listen_deactivated-IsShown none m v = record { next = v.next; last = v.last }

  answered-IsShown :
      (rsp : Handler) (pkt : List ℕ) (m : Machine)
      → IsShown nx lx m
      → IsShown nx lx (answered rsp pkt m)
  unfolding answered
  answered-IsShown reset_rsp pkt m v = reset_answered-IsShown pkt m v
  answered-IsShown init_v1_rsp pkt m v = initialized-IsShown (parse_init_v1 pkt) m v
  answered-IsShown init_v2_rsp pkt m v = initialized-IsShown (parse_init_v2 pkt) m v
  answered-IsShown reset_set_config_rsp pkt m v = enter_state-IsShown idle no_param m v
  answered-IsShown get_config_rsp pkt m v =
      configured-IsShown (get_config_done m.config true pkt) m v
  answered-IsShown set_config_rsp pkt m v = configure_routing-IsShown m v
  answered-IsShown set_mixed_routing_rsp pkt m v =
      if-IsShown (status_ok pkt) _ _ (send_discover_map-IsShown m v)
        (send_routing-IsShown protocol _ m v)
  answered-IsShown set_protocol_routing_rsp pkt m v =
      if-IsShown (status_ok pkt) _ _ (send_discover_map-IsShown m v)
        (send_routing-IsShown technology _ m v)
  answered-IsShown last_protocol_routing_rsp pkt m v = send_discover_map-IsShown m v
  answered-IsShown set_tech_routing_rsp pkt m v = send_discover_map-IsShown m v
  answered-IsShown discover_map_rsp pkt m v =
      if-IsShown (status_ok pkt) _ _ (send-IsShown _ _ _ _ m v) (stall-IsShown stall_error m v)
  answered-IsShown discover_rsp pkt m v = finish_if_ok-IsShown (status_ok pkt) discovery m v
  answered-IsShown deactivate_to_idle_rsp pkt m v = finish_if_ok-IsShown (status_ok pkt) idle m v
  answered-IsShown deactivate_to_discovery_rsp pkt m v =
      if-IsShown (only_status_ok pkt) _ _ v (send-IsShown _ _ _ _ m v)
  answered-IsShown deactivate_to_discovery_idle_rsp pkt m v =
      finish_if_ok-IsShown (only_status_ok pkt) idle m v
  answered-IsShown poll_active_to_idle_rsp pkt m v =
      if-IsShown (only_status_ok pkt) _ _ v (stall-IsShown stall_error m v)
  answered-IsShown listen_active_to_idle_rsp pkt m v =
      if-IsShown (only_status_ok pkt) _ _ (listen_deactivated-IsShown m.ntf m v)
        (stall-IsShown stall_error m v)
  answered-IsShown host_select_rsp pkt m v = v

  respond_to-IsShown :
      (o : Option Transition) (rsp : Handler) (status : RequestStatus) (pkt : List ℕ) (m : Machine)
      → IsShown nx lx m
      → IsShown nx lx (respond_to o rsp status pkt m)
  unfolding respond_to
  respond_to-IsShown none rsp status pkt m v = v
  respond_to-IsShown (some t) rsp cancelled pkt m v = v
  respond_to-IsShown (some t) rsp timeout pkt m v =
      if-IsShown (is_active t m) _ _ (stall-IsShown stall_error m v) v
  respond_to-IsShown (some t) rsp success pkt m v =
      if-IsShown (is_active t m) _ _ (answered-IsShown rsp pkt m v) v

  pub respond-IsShown :
      (rsp : Handler) (status : RequestStatus) (pkt : List ℕ) (m : Machine)
      → IsShown nx lx m
      → IsShown nx lx (respond rsp status pkt m)
  unfolding respond
  respond-IsShown rsp status pkt m v = respond_to-IsShown (owner rsp) rsp status pkt m v
