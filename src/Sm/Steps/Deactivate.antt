-- ===== src/Sm/Steps/Deactivate.antt =====
-- RF_DEACTIVATE on the way from LISTEN_ACTIVE to IDLE, in src/nci_transition_listen_active_to_idle.c:
-- the response and the notification come in either order.
use libncicore.Common.{ℕ, ◌≡◌, ◌≤◌, refl, ap, ◌∙◌, true, false, none, some, List, [], ◌∷◌, arith}
use libncicore.Util.Parse.{parsed}
use libncicore.Util.Types.{RfDeactivateNtf}
use libncicore.Util.Ntf.{parse_rf_deactivate_ntf}
use libncicore.Util.Ntf.Roundtrip.{parse_rf_deactivate_ntf_accepts}
use libncicore.Sm.Types.{idle, listen_active_to_idle, success}
use libncicore.Sm.Machine.{Machine, listen_active_to_idle_rsp, no_param, is_active}
use libncicore.Sm.Control.{enter_state}
use libncicore.Sm.Control.Methods.{enter_state_last}
use libncicore.Sm.Respond.{respond, respond_to, answered, owner, listen_deactivated}
use libncicore.Sm.Notify.{handle_ntf, notify_to, transition_ntf, keep_deactivated, with_parsed}

-- a notification is kept, where no response has come
kept :
    (m : Machine) (pkt : List ℕ) (n : RfDeactivateNtf)
    → m.active ≡ some listen_active_to_idle
    → m.expecting_ntf ≡ false
    → parse_rf_deactivate_ntf pkt ≡ parsed n
    → handle_ntf 1 6 pkt m ≡ record m { ntf = some n }
unfolding handle_ntf notify_to transition_ntf with_parsed keep_deactivated
kept m pkt n a e p = rw (a, p, e) refl

answered_ok :
    (m : Machine)
    → m.active ≡ some listen_active_to_idle
    → respond listen_active_to_idle_rsp success (0 ∷ []) m ≡ listen_deactivated m.ntf m
unfolding respond respond_to owner answered
answered_ok m a = rw (a, is_active) refl

-- the notification that was asked for, where the response has come
expected :
    (m : Machine)
    → m.active ≡ some listen_active_to_idle
    → m.expecting_ntf ≡ true
    → handle_ntf 1 6 (0 ∷ 0 ∷ []) m ≡ enter_state idle no_param m
unfolding handle_ntf notify_to transition_ntf with_parsed keep_deactivated
expected m a e =
    let accepted = (parse_rf_deactivate_ntf_accepts 0 0 []).0 (omega arith) in
    rw (a, accepted, e) refl

-- On the way from LISTEN_ACTIVE to IDLE, before anything has come, both orders end in IDLE: a
-- notification of any of the four deactivation types and then the response with status OK, or that
-- response and then the notification of the deactivation to idle that was asked for.
pub listen_active_to_idle_finishes :
    (m : Machine) (type reason : ℕ)
    → m.active ≡ some listen_active_to_idle
    → m.expecting_ntf ≡ false
    → m.ntf ≡ none
    → type ≤ 3
    → let ok = respond listen_active_to_idle_rsp success (0 ∷ []) in
      ((ok (handle_ntf 1 6 (type ∷ reason ∷ []) m)).last_state ≡ idle)
      × ((handle_ntf 1 6 (0 ∷ 0 ∷ []) (ok m)).last_state ≡ idle)
unfolding listen_deactivated
listen_active_to_idle_finishes m type reason a e f h =
    let n : RfDeactivateNtf = record { type = type; reason = reason } in
    let ok = respond listen_active_to_idle_rsp success (0 ∷ []) in
    let stored = record m { ntf = some n } in
    let waiting = record m { expecting_ntf = true } in
    let first =
      kept m (type ∷ reason ∷ []) n a e ((parse_rf_deactivate_ntf_accepts type reason []).0 h) in
    let second : ok m ≡ waiting = answered_ok m a ∙ ap (λ o. listen_deactivated o m) f in
    (
      ap (λ x. (ok x).last_state) first
          ∙ (ap (λ x. x.last_state) (answered_ok stored a) ∙ enter_state_last idle no_param stored),
      ap (λ x. (handle_ntf 1 6 (0 ∷ 0 ∷ []) x).last_state) second
          ∙ (ap (λ x. x.last_state) (expected waiting a refl)
              ∙ enter_state_last idle no_param waiting),
    )
