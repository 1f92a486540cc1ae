-- ===== src/Sm/Notify/States.antt =====
-- Notifications to states, and the consistency of the state machine of src/nci_sm.c.
use libncicore.Common.{ℕ, true, ◌&&◌, Option, none, some, List, ◌==◌, ◌||◌}
use libncicore.Util.Types.{IntfActivationNtf, RfDeactivateNtf, nci_mode}
use libncicore.Util.Nfcid.{listen_mode}
use libncicore.Util.Ntf.{parse_discover_ntf, parse_intf_activated_ntf, parse_rf_deactivate_ntf}
use libncicore.Sm.Types.{
  State, Transition, init, error, stop, idle, discovery, w4_all_discoveries, w4_host_select,
  poll_active, listen_active, listen_sleep,
}
use libncicore.Sm.Machine.{Machine, no_param, all_discoveries}
use libncicore.Sm.Control.{handle_discovery}
use libncicore.Sm.Control.Enter.{IsConsistent}
use libncicore.Sm.Control.Methods.{handle_discovery-IsConsistent}
use libncicore.Sm.Switch.Calls.{switch_to-IsConsistent}
use libncicore.Sm.Respond.Consistent.{if-IsConsistent}
use libncicore.Sm.Notify.{
  discovery_intf_activated, discovery_ntf, w4_all_discoveries_ntf, w4_host_select_ntf,
  poll_active_ntf, listen_deactivated_ntf, listen_active_ntf, sleep_deactivated_ntf, woken,
  listen_sleep_ntf, state_ntf, notify_to, handle_ntf, activation_failed, interface_failed,
}
use libncicore.Sm.Notify.Consistent.{
  IsSound, stall-IsSound, enter-IsSound, same-IsSound, with_parsed-IsSound, intf_activated-IsSound,
  default_ntf-IsSound, deactivation_ntf-IsSound, transition_ntf-IsSound,
}

discovery_intf_activated-IsSound : (pkt : List ℕ) → IsSound (discovery_intf_activated pkt)
unfolding discovery_intf_activated
discovery_intf_activated-IsSound pkt =
    with_parsed-IsSound (parse_intf_activated_ntf pkt) _ _
      (λ n m v. intf_activated-IsSound n _ (enter-IsSound _ no_param m v))
      (λ m v. switch_to-IsConsistent idle _ (enter-IsSound poll_active no_param m v))

discovery_ntf-IsSound : (gid oid : ℕ) (pkt : List ℕ) → IsSound (discovery_ntf gid oid pkt)
unfolding discovery_ntf
discovery_ntf-IsSound gid oid pkt m v =
    if-IsConsistent (gid == 1 && oid == 3) _ _
      (with_parsed-IsSound (parse_discover_ntf true pkt) _ _
        (λ d. enter-IsSound w4_all_discoveries (all_discoveries d)) same-IsSound m v)
      (if-IsConsistent (gid == 1 && oid == 5) _ _ (discovery_intf_activated-IsSound pkt m v)
        (default_ntf-IsSound gid oid pkt m v))

w4_all_discoveries_ntf-IsSound :
    (gid oid : ℕ) (pkt : List ℕ) → IsSound (w4_all_discoveries_ntf gid oid pkt)
unfolding w4_all_discoveries_ntf
w4_all_discoveries_ntf-IsSound gid oid pkt m v =
    if-IsConsistent (gid == 1 && oid == 3) _ _
      (with_parsed-IsSound (parse_discover_ntf true pkt) handle_discovery _
        (λ d k w. handle_discovery-IsConsistent d k w) same-IsSound m v)
      (default_ntf-IsSound gid oid pkt m v)

w4_host_select_ntf-IsSound : (gid oid : ℕ) (pkt : List ℕ) → IsSound (w4_host_select_ntf gid oid pkt)
unfolding w4_host_select_ntf
w4_host_select_ntf-IsSound gid oid pkt m v =
    if-IsConsistent (gid == 0 && (oid == 7 && activation_failed pkt)) _ _
      (switch_to-IsConsistent discovery m v)
      (if-IsConsistent (gid == 1 && oid == 5) _ _
        (with_parsed-IsSound (parse_intf_activated_ntf pkt) _ _
          (λ n k w. intf_activated-IsSound n _ (enter-IsSound poll_active no_param k w))
          (λ k w. switch_to-IsConsistent discovery _ (enter-IsSound poll_active no_param k w)) m v)
        (default_ntf-IsSound gid oid pkt m v))

poll_active_ntf-IsSound : (gid oid : ℕ) (pkt : List ℕ) → IsSound (poll_active_ntf gid oid pkt)
unfolding poll_active_ntf
poll_active_ntf-IsSound gid oid pkt m v =
    if-IsConsistent (gid == 0 && (oid == 8 && interface_failed pkt)) _ _
      (switch_to-IsConsistent discovery m v) (deactivation_ntf-IsSound gid oid pkt m v)

listen_deactivated_ntf-IsSound : (n : RfDeactivateNtf) → IsSound (listen_deactivated_ntf n)
unfolding listen_deactivated_ntf
listen_deactivated_ntf-IsSound n m v =
    if-IsConsistent (n.type == 0x01 || n.type == 0x02) _ _ (enter-IsSound listen_sleep no_param m v)
      (if-IsConsistent (n.type == 0x03) _ _ (enter-IsSound discovery no_param m v)
        (stall-IsSound m v))

listen_active_ntf-IsSound : (gid oid : ℕ) (pkt : List ℕ) → IsSound (listen_active_ntf gid oid pkt)
unfolding listen_active_ntf
listen_active_ntf-IsSound gid oid pkt m v =
    if-IsConsistent (gid == 0 && (oid == 8 && interface_failed pkt)) _ _
      (switch_to-IsConsistent discovery m v)
      (if-IsConsistent (gid == 1 && oid == 6) _ _
        (with_parsed-IsSound (parse_rf_deactivate_ntf pkt) _ _ listen_deactivated_ntf-IsSound
          stall-IsSound m v)
        (default_ntf-IsSound gid oid pkt m v))

sleep_deactivated_ntf-IsSound : (n : RfDeactivateNtf) → IsSound (sleep_deactivated_ntf n)
unfolding sleep_deactivated_ntf
sleep_deactivated_ntf-IsSound n m v =
    if-IsConsistent (n.type == 0x03) _ _ (enter-IsSound discovery no_param m v) (stall-IsSound m v)

woken-IsSound : (n : IntfActivationNtf) → IsSound (woken n)
unfolding woken
woken-IsSound n m v =
    if-IsConsistent (listen_mode (nci_mode n.mode)) _ _
      (intf_activated-IsSound n _ (enter-IsSound listen_active no_param m v)) (stall-IsSound m v)

listen_sleep_ntf-IsSound : (gid oid : ℕ) (pkt : List ℕ) → IsSound (listen_sleep_ntf gid oid pkt)
unfolding listen_sleep_ntf
listen_sleep_ntf-IsSound gid oid pkt m v =
    if-IsConsistent (gid == 1 && oid == 5) _ _
      (with_parsed-IsSound (parse_intf_activated_ntf pkt) _ _ woken-IsSound stall-IsSound m v)
      (if-IsConsistent (gid == 1 && oid == 6) _ _
        (with_parsed-IsSound (parse_rf_deactivate_ntf pkt) _ _ sleep_deactivated_ntf-IsSound
          stall-IsSound m v)
        (default_ntf-IsSound gid oid pkt m v))

state_ntf-IsSound : (s : State) (gid oid : ℕ) (pkt : List ℕ) → IsSound (state_ntf s gid oid pkt)
unfolding state_ntf
state_ntf-IsSound init gid oid pkt = default_ntf-IsSound gid oid pkt
state_ntf-IsSound error gid oid pkt = default_ntf-IsSound gid oid pkt
state_ntf-IsSound stop gid oid pkt = default_ntf-IsSound gid oid pkt
state_ntf-IsSound idle gid oid pkt = default_ntf-IsSound gid oid pkt
state_ntf-IsSound discovery gid oid pkt = discovery_ntf-IsSound gid oid pkt
state_ntf-IsSound w4_all_discoveries gid oid pkt = w4_all_discoveries_ntf-IsSound gid oid pkt
state_ntf-IsSound w4_host_select gid oid pkt = w4_host_select_ntf-IsSound gid oid pkt
state_ntf-IsSound poll_active gid oid pkt = poll_active_ntf-IsSound gid oid pkt
state_ntf-IsSound listen_active gid oid pkt = listen_active_ntf-IsSound gid oid pkt
state_ntf-IsSound listen_sleep gid oid pkt = listen_sleep_ntf-IsSound gid oid pkt

notify_to-IsSound :
    (o : Option Transition) (gid oid : ℕ) (pkt : List ℕ) → IsSound (notify_to o gid oid pkt)
unfolding notify_to
notify_to-IsSound (some t) gid oid pkt m v = transition_ntf-IsSound t gid oid pkt m v
notify_to-IsSound none gid oid pkt m v = state_ntf-IsSound m.last_state gid oid pkt m v

pub handle_ntf-IsConsistent :
    (gid oid : ℕ) (pkt : List ℕ) (m : Machine)
    → IsConsistent m
    → IsConsistent (handle_ntf gid oid pkt m)
unfolding handle_ntf
handle_ntf-IsConsistent gid oid pkt m v = notify_to-IsSound m.active gid oid pkt m v
