-- ===== src/Sm/Notify/Consistent.antt =====
-- Notifications to transitions, and the consistency of the state machine of src/nci_sm.c.
use libncicore.Common.{ℕ, zero, suc, refl, true, ◌&&◌, some, List, [], ◌∷◌, ◌==◌, leb, length, ◌*◌}
use libncicore.Util.Parse.{Parse, parsed, refused, overrun}
use libncicore.Util.Types.{IntfActivationNtf, RfDeactivateNtf}
use libncicore.Util.Ntf.{parse_rf_deactivate_ntf}
use libncicore.Sm.Types.{
  State, Transition, idle, discovery, reset, idle_to_discovery, deactivate_to_idle,
  deactivate_to_discovery, poll_active_to_idle, listen_active_to_idle, stall_error,
}
use libncicore.Sm.Machine.{Param, Machine, init_v2_rsp, credits_added, no_param, logs, send_command}
use libncicore.Sm.Control.{enter_state}
use libncicore.Sm.Control.Enter.{IsConsistent}
use libncicore.Sm.Control.Methods.{enter_state-IsConsistent, stall-IsConsistent}
use libncicore.Sm.Switch.Calls.{same-IsConsistent}
use libncicore.Sm.Respond.Consistent.{logs-IsConsistent, send-IsConsistent, if-IsConsistent}
use libncicore.Reset.{reset_ntf_ok}
use libncicore.Sm.Notify.{
  with_parsed, add_credits_loop, handle_conn_credits_ntf, deactivated, handle_rf_deactivate_ntf,
  intf_activated, default_ntf, reset_ntf, keep_deactivated, deactivation_ntf, transition_ntf,
  error_stall, init_again, is_version_2,
}

-- what keeps the machine consistent
abbrev pub IsSound : (Machine → Machine) → Type 0
IsSound f = (m : Machine) → IsConsistent m → IsConsistent (f m)

pub stall-IsSound : IsSound error_stall
stall-IsSound m v = stall-IsConsistent stall_error m v.outside

pub enter-IsSound : (s : State) (p : Param) → IsSound (enter_state s p)
enter-IsSound s p m v = enter_state-IsConsistent s p m v.outside

pub same-IsSound : IsSound (λ m. m)
same-IsSound m v = v

pub with_parsed-IsSound {ℓ} :
    {A : Type ℓ} (p : Parse A) (f : A → Machine → Machine) (g : Machine → Machine)
    → ((a : A) → IsSound (f a))
    → IsSound g
    → IsSound (with_parsed p f g)
unfolding with_parsed
with_parsed-IsSound (parsed a) f g k l m v = k a m v
with_parsed-IsSound refused f g k l m v = l m v
with_parsed-IsSound overrun f g k l m v =
    same-IsConsistent m (record m { fault = true }) v (refl, refl, refl, refl, refl, refl, refl)

add_credits_loop-IsSound : (n : ℕ) (l : List ℕ) → IsSound (add_credits_loop n l)
unfolding add_credits_loop
add_credits_loop-IsSound zero l m v = v
add_credits_loop-IsSound (suc n) [] m v = v
add_credits_loop-IsSound (suc n) (c ∷ []) m v = v
add_credits_loop-IsSound (suc n) (c ∷ k ∷ l) m v =
    add_credits_loop-IsSound n l (logs (credits_added c k) m) (logs-IsConsistent _ m v)

handle_conn_credits_ntf-IsSound : (pkt : List ℕ) → IsSound (handle_conn_credits_ntf pkt)
unfolding handle_conn_credits_ntf
handle_conn_credits_ntf-IsSound [] m v = stall-IsSound m v
handle_conn_credits_ntf-IsSound (n ∷ l) m v =
    if-IsConsistent (leb (2 * n) (length l)) _ _ (add_credits_loop-IsSound n l m v)
      (stall-IsSound m v)

deactivated-IsSound : (n : RfDeactivateNtf) → IsSound (deactivated n)
unfolding deactivated
deactivated-IsSound n m v = if-IsConsistent (n.type == 0x00) _ _ (enter-IsSound idle no_param m v) (
    if-IsConsistent (n.type == 0x03) _ _ (enter-IsSound discovery no_param m v) (stall-IsSound m v))

handle_rf_deactivate_ntf-IsSound : (pkt : List ℕ) → IsSound (handle_rf_deactivate_ntf pkt)
unfolding handle_rf_deactivate_ntf
handle_rf_deactivate_ntf-IsSound pkt =
    with_parsed-IsSound (parse_rf_deactivate_ntf pkt) deactivated error_stall deactivated-IsSound
      stall-IsSound

pub intf_activated-IsSound : (n : IntfActivationNtf) → IsSound (intf_activated n)
unfolding intf_activated
intf_activated-IsSound n m v =
    logs-IsConsistent _ _ (logs-IsConsistent _ _ (logs-IsConsistent _ m v))

pub default_ntf-IsSound : (gid oid : ℕ) (pkt : List ℕ) → IsSound (default_ntf gid oid pkt)
unfolding default_ntf
default_ntf-IsSound gid oid pkt m v =
    if-IsConsistent (gid == 0 && oid == 6) _ _ (handle_conn_credits_ntf-IsSound pkt m v) v

keep_deactivated-IsSound : (n : RfDeactivateNtf) → IsSound (keep_deactivated n)
unfolding keep_deactivated
keep_deactivated-IsSound n m v =
    if-IsConsistent (m.expecting_ntf && (n.type == 0x00 && n.reason == 0x00)) _ _
      (enter-IsSound idle no_param m v)
      (same-IsConsistent m (record m { ntf = some n }) v (refl, refl, refl, refl, refl, refl, refl))

pub deactivation_ntf-IsSound : (gid oid : ℕ) (pkt : List ℕ) → IsSound (deactivation_ntf gid oid pkt)
unfolding deactivation_ntf
deactivation_ntf-IsSound gid oid pkt m v =
    if-IsConsistent (gid == 1 && oid == 6) _ _ (handle_rf_deactivate_ntf-IsSound pkt m v)
      (default_ntf-IsSound gid oid pkt m v)

init_again-IsSound : (pkt : List ℕ) → IsSound (init_again pkt)
unfolding init_again
init_again-IsSound pkt =
    with_parsed-IsSound (reset_ntf_ok pkt) (λ _ k. send_command 0 1 (0 ∷ 0 ∷ []) init_v2_rsp k)
      (λ k. k) (λ _ k w. send-IsConsistent _ _ _ _ k w) same-IsSound

reset_ntf-IsSound : (gid oid : ℕ) (pkt : List ℕ) → IsSound (reset_ntf gid oid pkt)
unfolding reset_ntf
reset_ntf-IsSound gid oid pkt m v =
    if-IsConsistent (gid == 0 && (oid == 0 && is_version_2 m.config.version)) _ _
      (init_again-IsSound pkt m v) (default_ntf-IsSound gid oid pkt m v)

pub transition_ntf-IsSound :
    (t : Transition) (gid oid : ℕ) (pkt : List ℕ) → IsSound (transition_ntf t gid oid pkt)
unfolding transition_ntf
transition_ntf-IsSound reset gid oid pkt m v = reset_ntf-IsSound gid oid pkt m v
transition_ntf-IsSound idle_to_discovery gid oid pkt m v = default_ntf-IsSound gid oid pkt m v
transition_ntf-IsSound deactivate_to_idle gid oid pkt m v = default_ntf-IsSound gid oid pkt m v
transition_ntf-IsSound deactivate_to_discovery gid oid pkt m v =
    deactivation_ntf-IsSound gid oid pkt m v
transition_ntf-IsSound poll_active_to_idle gid oid pkt m v =
    deactivation_ntf-IsSound gid oid pkt m v
transition_ntf-IsSound listen_active_to_idle gid oid pkt m v =
    if-IsConsistent (gid == 1 && oid == 6) _ _
      (with_parsed-IsSound (parse_rf_deactivate_ntf pkt) keep_deactivated error_stall
        keep_deactivated-IsSound stall-IsSound m v)
      (default_ntf-IsSound gid oid pkt m v)
