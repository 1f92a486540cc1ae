-- ===== src/Sm/Shown/States.antt =====
-- The state signals of the notifications to states in src/nci_sm.c.
use libncicore.Common.{ℕ, true, ◌&&◌, Option, none, some, List, ◌==◌, ◌||◌}
use libncicore.Util.Types.{IntfActivationNtf, RfDeactivateNtf, nci_mode}
use libncicore.Util.Nfcid.{listen_mode}
use libncicore.Util.Ntf.{parse_discover_ntf, parse_intf_activated_ntf, parse_rf_deactivate_ntf}
use libncicore.Sm.Types.{
  State, Transition, init, error, stop, idle, discovery, w4_all_discoveries, w4_host_select,
  poll_active, listen_active, listen_sleep,
}
use libncicore.Sm.Machine.{Machine, no_param, all_discoveries}
use libncicore.Sm.Control.{handle_discovery}
use libncicore.Sm.Shown.{IsShown, if-IsShown}
use libncicore.Sm.Shown.Enter.{handle_discovery-IsShown}
use libncicore.Sm.Shown.Switch.{switch_to-IsShown}
use libncicore.Sm.Notify.{
  discovery_intf_activated, discovery_ntf, w4_all_discoveries_ntf, w4_host_select_ntf,
  poll_active_ntf, listen_deactivated_ntf, listen_active_ntf, sleep_deactivated_ntf, woken,
  listen_sleep_ntf, state_ntf, notify_to, handle_ntf, activation_failed, interface_failed,
}
use libncicore.Sm.Shown.Notices.{
  Tells, stall-Tells, enter-Tells, same-Tells, with_parsed-Tells, intf_activated-Tells,
  default_ntf-Tells, deactivation_ntf-Tells, transition_ntf-Tells,
}

module _ {nx lx : State} where
  discovery_intf_activated-Tells : (pkt : List ℕ) → Tells nx lx (discovery_intf_activated pkt)
  unfolding discovery_intf_activated
  discovery_intf_activated-Tells pkt =
      with_parsed-Tells (parse_intf_activated_ntf pkt) _ _
        (λ n m v. intf_activated-Tells n _ (enter-Tells _ no_param m v))
        (λ m v. switch_to-IsShown idle _ (enter-Tells poll_active no_param m v))

  discovery_ntf-Tells : (gid oid : ℕ) (pkt : List ℕ) → Tells nx lx (discovery_ntf gid oid pkt)
  unfolding discovery_ntf
  discovery_ntf-Tells gid oid pkt m v =
      if-IsShown (gid == 1 && oid == 3) _ _
        (with_parsed-Tells (parse_discover_ntf true pkt) _ _
          (λ d. enter-Tells w4_all_discoveries (all_discoveries d)) same-Tells m v)
        (if-IsShown (gid == 1 && oid == 5) _ _ (discovery_intf_activated-Tells pkt m v)
          (default_ntf-Tells gid oid pkt m v))

  w4_all_discoveries_ntf-Tells :
      (gid oid : ℕ) (pkt : List ℕ) → Tells nx lx (w4_all_discoveries_ntf gid oid pkt)
  unfolding w4_all_discoveries_ntf
  w4_all_discoveries_ntf-Tells gid oid pkt m v =
      if-IsShown (gid == 1 && oid == 3) _ _
        (with_parsed-Tells (parse_discover_ntf true pkt) handle_discovery _
          (λ d k w. handle_discovery-IsShown d k w) same-Tells m v)
        (default_ntf-Tells gid oid pkt m v)

  w4_host_select_ntf-Tells :
      (gid oid : ℕ) (pkt : List ℕ) → Tells nx lx (w4_host_select_ntf gid oid pkt)
  unfolding w4_host_select_ntf
  w4_host_select_ntf-Tells gid oid pkt m v =
      if-IsShown (gid == 0 && (oid == 7 && activation_failed pkt)) _ _
        (switch_to-IsShown discovery m v)
        (if-IsShown (gid == 1 && oid == 5) _ _
          (with_parsed-Tells (parse_intf_activated_ntf pkt) _ _
            (λ n k w. intf_activated-Tells n _ (enter-Tells poll_active no_param k w))
            (λ k w. switch_to-IsShown discovery _ (enter-Tells poll_active no_param k w)) m v)
          (default_ntf-Tells gid oid pkt m v))

  poll_active_ntf-Tells : (gid oid : ℕ) (pkt : List ℕ) → Tells nx lx (poll_active_ntf gid oid pkt)
  unfolding poll_active_ntf
  poll_active_ntf-Tells gid oid pkt m v =
      if-IsShown (gid == 0 && (oid == 8 && interface_failed pkt)) _ _
        (switch_to-IsShown discovery m v) (deactivation_ntf-Tells gid oid pkt m v)

  listen_deactivated_ntf-Tells : (n : RfDeactivateNtf) → Tells nx lx (listen_deactivated_ntf n)
  unfolding listen_deactivated_ntf
  listen_deactivated_ntf-Tells n m v =
      if-IsShown (n.type == 0x01 || n.type == 0x02) _ _ (enter-Tells listen_sleep no_param m v)
        (if-IsShown (n.type == 0x03) _ _ (enter-Tells discovery no_param m v) (stall-Tells m v))

  listen_active_ntf-Tells :
      (gid oid : ℕ) (pkt : List ℕ) → Tells nx lx (listen_active_ntf gid oid pkt)
  unfolding listen_active_ntf
  listen_active_ntf-Tells gid oid pkt m v =
      if-IsShown (gid == 0 && (oid == 8 && interface_failed pkt)) _ _
        (switch_to-IsShown discovery m v)
        (if-IsShown (gid == 1 && oid == 6) _ _
          (with_parsed-Tells (parse_rf_deactivate_ntf pkt) _ _ listen_deactivated_ntf-Tells
            stall-Tells m v)
          (default_ntf-Tells gid oid pkt m v))

  sleep_deactivated_ntf-Tells : (n : RfDeactivateNtf) → Tells nx lx (sleep_deactivated_ntf n)
  unfolding sleep_deactivated_ntf
  sleep_deactivated_ntf-Tells n m v =
      if-IsShown (n.type == 0x03) _ _ (enter-Tells discovery no_param m v) (stall-Tells m v)

  woken-Tells : (n : IntfActivationNtf) → Tells nx lx (woken n)
  unfolding woken
  woken-Tells n m v =
      if-IsShown (listen_mode (nci_mode n.mode)) _ _
        (intf_activated-Tells n _ (enter-Tells listen_active no_param m v)) (stall-Tells m v)

  listen_sleep_ntf-Tells : (gid oid : ℕ) (pkt : List ℕ) → Tells nx lx (listen_sleep_ntf gid oid pkt)
  unfolding listen_sleep_ntf
  listen_sleep_ntf-Tells gid oid pkt m v =
      if-IsShown (gid == 1 && oid == 5) _ _
        (with_parsed-Tells (parse_intf_activated_ntf pkt) _ _ woken-Tells stall-Tells m v)
        (if-IsShown (gid == 1 && oid == 6) _ _
          (with_parsed-Tells (parse_rf_deactivate_ntf pkt) _ _ sleep_deactivated_ntf-Tells
            stall-Tells m v)
          (default_ntf-Tells gid oid pkt m v))

  state_ntf-Tells : (s : State) (gid oid : ℕ) (pkt : List ℕ) → Tells nx lx (state_ntf s gid oid pkt)
  unfolding state_ntf
  state_ntf-Tells init gid oid pkt = default_ntf-Tells gid oid pkt
  state_ntf-Tells error gid oid pkt = default_ntf-Tells gid oid pkt
  state_ntf-Tells stop gid oid pkt = default_ntf-Tells gid oid pkt
  state_ntf-Tells idle gid oid pkt = default_ntf-Tells gid oid pkt
  state_ntf-Tells discovery gid oid pkt = discovery_ntf-Tells gid oid pkt
  state_ntf-Tells w4_all_discoveries gid oid pkt = w4_all_discoveries_ntf-Tells gid oid pkt
  state_ntf-Tells w4_host_select gid oid pkt = w4_host_select_ntf-Tells gid oid pkt
  state_ntf-Tells poll_active gid oid pkt = poll_active_ntf-Tells gid oid pkt
  state_ntf-Tells listen_active gid oid pkt = listen_active_ntf-Tells gid oid pkt
  state_ntf-Tells listen_sleep gid oid pkt = listen_sleep_ntf-Tells gid oid pkt

  notify_to-Tells :
      (o : Option Transition) (gid oid : ℕ) (pkt : List ℕ) → Tells nx lx (notify_to o gid oid pkt)
  unfolding notify_to
  notify_to-Tells (some t) gid oid pkt m v = transition_ntf-Tells t gid oid pkt m v
  notify_to-Tells none gid oid pkt m v = state_ntf-Tells m.last_state gid oid pkt m v

  pub handle_ntf-IsShown :
      (gid oid : ℕ) (pkt : List ℕ) (m : Machine)
      → IsShown nx lx m
      → IsShown nx lx (handle_ntf gid oid pkt m)
  unfolding handle_ntf
  handle_ntf-IsShown gid oid pkt m v = notify_to-Tells m.active gid oid pkt m v
