-- ===== src/Sm/Notify.antt =====
-- The notifications: `nci_sm_handle_ntf` of src/nci_sm.c, and the handlers of src/nci_state*.c and
-- src/nci_transition*.c that it calls.
pub mod Consistent
pub mod States
use libncicore.Common.{
  ℕ, zero, suc, ◌+◌, ◌*◌, Bool, true, false, ◌&&◌, ◌||◌, Option, none, some, List, [], ◌∷◌, ◌++◌,
  if◌then◌else◌, ◌==◌, leb, length,
}
use libncicore.Util.Parse.{Parse, parsed, refused, overrun}
use libncicore.Util.Types.{DiscoveryNtf, IntfActivationNtf, RfDeactivateNtf, nci_mode}
use libncicore.Util.Nfcid.{listen_mode}
use libncicore.Util.Ntf.{parse_discover_ntf, parse_intf_activated_ntf, parse_rf_deactivate_ntf}
use libncicore.Sm.Types.{
  State, Transition, InterfaceVersion, idle, discovery, w4_all_discoveries, w4_host_select,
  poll_active, listen_active, listen_sleep, reset, idle_to_discovery, deactivate_to_idle,
  deactivate_to_discovery, poll_active_to_idle, listen_active_to_idle, version_unknown, version_1,
  version_2, stall_error,
}
use libncicore.Sm.Machine.{
  Machine, init_v2_rsp, interface_activated, max_data_payload, initial_credits, credits_added,
  no_param, all_discoveries, logs, send_command,
}
use libncicore.Sm.Control.{enter_state, stall, handle_discovery}
use libncicore.Sm.Switch.{switch_to}
use libncicore.Reset.{reset_ntf_ok}

abbrev pub error_stall : Machine → Machine
error_stall m = stall stall_error m

-- The outcome of a parser. One that reads past its bytes, or hands out bytes past them, is a fault,
-- and the machine stays, where the code goes on with what it has read.
unfoldable pub with_parsed {ℓ} :
    {A : Type ℓ} → Parse A → (A → Machine → Machine) → (Machine → Machine) → Machine → Machine
with_parsed (parsed a) f g m = f a m
with_parsed refused f g m = g m
with_parsed overrun f g m = record m { fault = true }

unfoldable pub add_credits_loop : ℕ → List ℕ → Machine → Machine
add_credits_loop (suc n) (cid ∷ credits ∷ entries) m =
    add_credits_loop n entries (logs (credits_added cid credits) m)
add_credits_loop n entries m = m

-- `nci_sm_handle_conn_credits_ntf`
unfoldable pub handle_conn_credits_ntf : List ℕ → Machine → Machine
handle_conn_credits_ntf [] m = error_stall m
handle_conn_credits_ntf (n ∷ entries) m =
    if leb (2 * n) (length entries) then add_credits_loop n entries m else error_stall m

-- `nci_sm_handle_rf_deactivate_ntf`
unfoldable pub deactivated : RfDeactivateNtf → Machine → Machine
deactivated n m =
    if n.type == 0x00
    then enter_state idle no_param m
    else if n.type == 0x03
    then enter_state discovery no_param m
    else error_stall m

unfoldable pub handle_rf_deactivate_ntf : List ℕ → Machine → Machine
handle_rf_deactivate_ntf pkt m = with_parsed (parse_rf_deactivate_ntf pkt) deactivated error_stall m

-- `nci_sm_intf_activated`
unfoldable pub intf_activated : IntfActivationNtf → Machine → Machine
intf_activated n m =
    logs (interface_activated n)
      (logs (initial_credits n.num_credits) (logs (max_data_payload n.max_data_packet_size) m))

-- What a transition or a state makes of the notifications that it does not handle itself.
unfoldable pub default_ntf : ℕ → ℕ → List ℕ → Machine → Machine
default_ntf gid oid pkt m = if gid == 0 && oid == 6 then handle_conn_credits_ntf pkt m else m

abbrev pub is_version_2 : InterfaceVersion → Bool
is_version_2 version_unknown = false
is_version_2 version_1 = false
is_version_2 version_2 = true

-- CORE_RESET_NTF, where NCI 2 is spoken
unfoldable pub init_again : List ℕ → Machine → Machine
init_again pkt m =
    with_parsed (reset_ntf_ok pkt) (λ _ k. send_command 0 1 (0 ∷ 0 ∷ []) init_v2_rsp k) (λ k. k) m

unfoldable pub reset_ntf : ℕ → ℕ → List ℕ → Machine → Machine
reset_ntf gid oid pkt m =
    if gid == 0 && (oid == 0 && is_version_2 m.config.version)
    then init_again pkt m
    else default_ntf gid oid pkt m

-- A deactivation that was asked for ends the transition once its command is answered; any other
-- notification of it is kept until then.
unfoldable pub keep_deactivated : RfDeactivateNtf → Machine → Machine
keep_deactivated n m =
    if m.expecting_ntf && (n.type == 0x00 && n.reason == 0x00)
    then enter_state idle no_param m
    else record m { ntf = some n }

unfoldable pub deactivation_ntf : ℕ → ℕ → List ℕ → Machine → Machine
deactivation_ntf gid oid pkt m =
    if gid == 1 && oid == 6 then handle_rf_deactivate_ntf pkt m else default_ntf gid oid pkt m

-- `nci_transition_handle_ntf`
unfoldable pub transition_ntf : Transition → ℕ → ℕ → List ℕ → Machine → Machine
transition_ntf reset gid oid pkt m = reset_ntf gid oid pkt m
transition_ntf idle_to_discovery gid oid pkt m = default_ntf gid oid pkt m
transition_ntf deactivate_to_idle gid oid pkt m = default_ntf gid oid pkt m
transition_ntf deactivate_to_discovery gid oid pkt m = deactivation_ntf gid oid pkt m
transition_ntf poll_active_to_idle gid oid pkt m = deactivation_ntf gid oid pkt m
transition_ntf listen_active_to_idle gid oid pkt m =
    if gid == 1 && oid == 6
    then with_parsed (parse_rf_deactivate_ntf pkt) keep_deactivated error_stall m
    else default_ntf gid oid pkt m

-- A notification that is refused has no mode in it, which is a poll mode.
unfoldable pub discovery_intf_activated : List ℕ → Machine → Machine
discovery_intf_activated pkt m =
    with_parsed (parse_intf_activated_ntf pkt)
      (λ n k. intf_activated n (
        enter_state (if listen_mode (nci_mode n.mode) then listen_active else poll_active) no_param
          k))
      (λ k. switch_to idle (enter_state poll_active no_param k)) m

unfoldable pub discovery_ntf : ℕ → ℕ → List ℕ → Machine → Machine
discovery_ntf gid oid pkt m =
    if gid == 1 && oid == 3
    then with_parsed (parse_discover_ntf true pkt)
        (λ d k. enter_state w4_all_discoveries (all_discoveries d) k) (λ k. k) m
    else if gid == 1 && oid == 5
    then discovery_intf_activated pkt m
    else default_ntf gid oid pkt m

unfoldable pub w4_all_discoveries_ntf : ℕ → ℕ → List ℕ → Machine → Machine
w4_all_discoveries_ntf gid oid pkt m =
    if gid == 1 && oid == 3
    then with_parsed (parse_discover_ntf true pkt) handle_discovery (λ k. k) m
    else default_ntf gid oid pkt m

abbrev pub activation_failed : List ℕ → Bool
activation_failed (status ∷ []) = status == 0xa1
activation_failed pkt = false

unfoldable pub w4_host_select_ntf : ℕ → ℕ → List ℕ → Machine → Machine
w4_host_select_ntf gid oid pkt m =
    if gid == 0 && (oid == 7 && activation_failed pkt)
    then switch_to discovery m
    else if gid == 1 && oid == 5
    then with_parsed (parse_intf_activated_ntf pkt)
        (λ n k. intf_activated n (enter_state poll_active no_param k))
        (λ k. switch_to discovery (enter_state poll_active no_param k)) m
    else default_ntf gid oid pkt m

-- the interface errors after which the link is deactivated
abbrev pub interface_failed : List ℕ → Bool
interface_failed (status ∷ cid ∷ []) =
    status == 0x05 || (status == 0xb0 || (status == 0xb1 || status == 0xb2))
interface_failed pkt = false

unfoldable pub poll_active_ntf : ℕ → ℕ → List ℕ → Machine → Machine
poll_active_ntf gid oid pkt m =
    if gid == 0 && (oid == 8 && interface_failed pkt)
    then switch_to discovery m
    else deactivation_ntf gid oid pkt m

unfoldable pub listen_deactivated_ntf : RfDeactivateNtf → Machine → Machine
listen_deactivated_ntf n m =
    if n.type == 0x01 || n.type == 0x02
    then enter_state listen_sleep no_param m
    else if n.type == 0x03
    then enter_state discovery no_param m
    else error_stall m

unfoldable pub listen_active_ntf : ℕ → ℕ → List ℕ → Machine → Machine
listen_active_ntf gid oid pkt m =
    if gid == 0 && (oid == 8 && interface_failed pkt)
    then switch_to discovery m
    else if gid == 1 && oid == 6
    then with_parsed (parse_rf_deactivate_ntf pkt) listen_deactivated_ntf error_stall m
    else default_ntf gid oid pkt m

unfoldable pub sleep_deactivated_ntf : RfDeactivateNtf → Machine → Machine
sleep_deactivated_ntf n m =
    if n.type == 0x03 then enter_state discovery no_param m else error_stall m

unfoldable pub woken : IntfActivationNtf → Machine → Machine
woken n m =
    if listen_mode (nci_mode n.mode)
    then intf_activated n (enter_state listen_active no_param m)
    else error_stall m

unfoldable pub listen_sleep_ntf : ℕ → ℕ → List ℕ → Machine → Machine
listen_sleep_ntf gid oid pkt m =
    if gid == 1 && oid == 5
    then with_parsed (parse_intf_activated_ntf pkt) woken error_stall m
    else if gid == 1 && oid == 6
    then with_parsed (parse_rf_deactivate_ntf pkt) sleep_deactivated_ntf error_stall m
    else default_ntf gid oid pkt m

-- `nci_state_handle_ntf`
unfoldable pub state_ntf : State → ℕ → ℕ → List ℕ → Machine → Machine
state_ntf discovery gid oid pkt m = discovery_ntf gid oid pkt m
state_ntf w4_all_discoveries gid oid pkt m = w4_all_discoveries_ntf gid oid pkt m
state_ntf w4_host_select gid oid pkt m = w4_host_select_ntf gid oid pkt m
state_ntf poll_active gid oid pkt m = poll_active_ntf gid oid pkt m
state_ntf listen_active gid oid pkt m = listen_active_ntf gid oid pkt m
state_ntf listen_sleep gid oid pkt m = listen_sleep_ntf gid oid pkt m
state_ntf s gid oid pkt m = default_ntf gid oid pkt m

unfoldable pub notify_to : Option Transition → ℕ → ℕ → List ℕ → Machine → Machine
notify_to (some t) gid oid pkt m = transition_ntf t gid oid pkt m
notify_to none gid oid pkt m = state_ntf m.last_state gid oid pkt m

-- `nci_sm_handle_ntf`
unfoldable pub handle_ntf : ℕ → ℕ → List ℕ → Machine → Machine
handle_ntf gid oid pkt m = notify_to m.active gid oid pkt m
