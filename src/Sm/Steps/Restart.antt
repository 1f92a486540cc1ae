-- ===== src/Sm/Steps/Restart.antt =====
-- A restart of src/nci_sm.c whose commands are answered, by an NFCC of either version.
use libncicore.Common.{ℕ, ◌≡◌, refl, ap, ◌∙◌, true, some, List, [], ◌∷◌, arith}
use libncicore.Util.Parse.{parsed}
use libncicore.Sm.Types.{idle, reset, success, version_1, version_2}
use libncicore.Sm.Machine.{
  Handler, Machine, reset_rsp, init_v1_rsp, init_v2_rsp, reset_set_config_rsp,
  max_logical_connections, max_control_payload, max_data_payload, no_param, logs, send_command,
}
use libncicore.Sm.Control.Methods.{enter_state_last}
use libncicore.Sm.Switch.{reset_machine}
use libncicore.Sm.Respond.{
  respond, respond_to, owner, answered, reset_answered, initialized, install,
}
use libncicore.Sm.Notify.{handle_ntf, notify_to, transition_ntf, reset_ntf, init_again, with_parsed}
use libncicore.Sm.Steps.Recovery.{reset_started}
use libncicore.Reset.{InitInfo, parse_init_v1, parse_init_v2, reset_ntf_ok, set_config}

send-active :
    (gid oid : ℕ) (pkt : List ℕ) (rsp : Handler) (m : Machine)
    → ((send_command gid oid pkt rsp m).active ≡ m.active)
      × ((send_command gid oid pkt rsp m).config ≡ m.config)
send-active gid oid pkt rsp m = ground arith

pub resetting :
    (rsp : Handler) (pkt : List ℕ) (m : Machine)
    → owner rsp ≡ some reset
    → m.active ≡ some reset
    → respond rsp success pkt m ≡ answered rsp pkt m
unfolding respond respond_to
resetting rsp pkt m o a = rw (o, a) refl

-- the response to CORE_RESET
pub reset_v1 :
    (v c : ℕ) (m : Machine)
    → m.active ≡ some reset
    → (respond reset_rsp success (0 ∷ v ∷ c ∷ []) m).active ≡ some reset
unfolding owner answered reset_answered
reset_v1 v c m a =
    ap (λ x. x.active) (resetting reset_rsp (0 ∷ v ∷ c ∷ []) m refl a)
    ∙ ((send-active 0 1 [] init_v1_rsp
          (record m { config = record m.config { version = version_1 } })).0
        ∙ a)

pub reset_v2 :
    (m : Machine)
    → m.active ≡ some reset
    → let n = respond reset_rsp success (0 ∷ []) m in
      (n.active ≡ some reset) × (n.config.version ≡ version_2)
unfolding owner answered reset_answered
reset_v2 m a =
    let e = resetting reset_rsp (0 ∷ []) m refl a in
    (ap (λ x. x.active) e ∙ a, ap (λ x. x.config.version) e)

-- CORE_RESET_NTF after it, in version 2
pub notified_v2 :
    (pkt : List ℕ) (m : Machine)
    → m.active ≡ some reset
    → m.config.version ≡ version_2
    → reset_ntf_ok pkt ≡ parsed tt
    → (handle_ntf 0 0 pkt m).active ≡ some reset
unfolding handle_ntf notify_to transition_ntf reset_ntf init_again with_parsed
notified_v2 pkt m a v p =
    let here : handle_ntf 0 0 pkt m ≡ send_command 0 1 (0 ∷ 0 ∷ []) init_v2_rsp m =
      rw (a, v, p) refl in
    ap (λ x. x.active) here ∙ ((send-active 0 1 (0 ∷ 0 ∷ []) init_v2_rsp m).0 ∙ a)

initialized_active : (i : InitInfo) (m : Machine) → (initialized (parsed i) m).active ≡ m.active
unfolding initialized
initialized_active i m =
    let installed = record m { config = install i m.config } in
    let told = logs (max_data_payload 0) (
      logs (max_control_payload i.max_control_payload)
        (logs (max_logical_connections i.max_logical_conns) installed)) in
    (send-active 0 2 (set_config m.config) reset_set_config_rsp told).0

-- CORE_INIT_RSP of either version
pub init_answered :
    (i : InitInfo) (pkt : List ℕ) (m : Machine)
    → m.active ≡ some reset
    → ((parse_init_v1 pkt ≡ parsed i) → (respond init_v1_rsp success pkt m).active ≡ some reset)
      × ((parse_init_v2 pkt ≡ parsed i) → (respond init_v2_rsp success pkt m).active ≡ some reset)
unfolding owner answered
init_answered i pkt m a =
    let same = initialized_active i m ∙ a in
    (
      λ p.
          ap (λ x. x.active) (resetting init_v1_rsp pkt m refl a)
          ∙ (ap (λ x. (initialized x m).active) p ∙ same),
      λ p.
          ap (λ x. x.active) (resetting init_v2_rsp pkt m refl a)
          ∙ (ap (λ x. (initialized x m).active) p ∙ same),
    )

pub configured_idle :
    (pkt : List ℕ) (m : Machine)
    → m.active ≡ some reset
    → (respond reset_set_config_rsp success pkt m).last_state ≡ idle
unfolding owner answered
configured_idle pkt m a =
    ap (λ x. x.last_state) (resetting reset_set_config_rsp pkt m refl a)
    ∙ enter_state_last idle no_param m

-- Whatever state it is in, and where its commands can be sent, a state machine that is reset ends
-- in IDLE when its commands are answered: by an NFCC of version 1 with status OK and a
-- CORE_INIT_RSP that its parser accepts, or by one of version 2 with a CORE_RESET_NTF between
-- them; any answer to the last command will do.
pub restart_recovers :
    (m : Machine) (v c : ℕ) (ntf pkt1 pkt2 answer : List ℕ) (i j : InitInfo)
    → m.io_sends ≡ true
    → reset_ntf_ok ntf ≡ parsed tt
    → parse_init_v1 pkt1 ≡ parsed i
    → parse_init_v2 pkt2 ≡ parsed j
    → let set_config_answered = respond reset_set_config_rsp success answer in
      ((set_config_answered (
          respond init_v1_rsp success pkt1
            (respond reset_rsp success (0 ∷ v ∷ c ∷ []) (reset_machine m)))).last_state
        ≡ idle)
      × ((set_config_answered (
            respond init_v2_rsp success pkt2 (
              handle_ntf 0 0 ntf
                (respond reset_rsp success (0 ∷ []) (reset_machine m))))).last_state
          ≡ idle)
restart_recovers m v c ntf pkt1 pkt2 answer i j e n p q =
    let r = reset_machine m in
    let a = reset_started m e in
    let (a2, v2) = reset_v2 r a in
    let r1 = respond reset_rsp success (0 ∷ v ∷ c ∷ []) r in
    let r2 = handle_ntf 0 0 ntf (respond reset_rsp success (0 ∷ []) r) in
    (
      configured_idle answer (respond init_v1_rsp success pkt1 r1)
          ((init_answered i pkt1 r1 (reset_v1 v c r a)).0 p),
      configured_idle answer (respond init_v2_rsp success pkt2 r2) (
          (init_answered j pkt2 r2
              (notified_v2 ntf (respond reset_rsp success (0 ∷ []) r) a2 v2 n)).1
            q),
    )
