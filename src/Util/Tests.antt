-- ===== src/Util/Tests.antt =====
-- The theorems about src/nci_util.c at concrete inputs.
use libncicore.Common.{ℕ, ◌≤◌, ◌<◌, ◌≡◌, ◌↔◌, refl, true, false, some, List, [], ◌∷◌, ◌++◌, arith}
use libncicore.Util.Parse.{parsed, refused, overrun, IsSafe, ◌>>=◌}
use libncicore.Util.Types.{
  Nfcid1, nci_mode, passive_poll_a, active_poll_a, passive_poll_b, iso_dep, poll_a,
}
use libncicore.Util.Nfcid.{nfcid1_equal, canonical, nfcid1_equal_iff}
use libncicore.Util.Config.{
  find_config_param, find_config_param_lem, config_param_uint, config_param_uint_lem, param_bytes,
}
use libncicore.Util.ModeParam.{parse_mode_param}
use libncicore.Util.ModeParam.Safety.{parse_poll_b_overrun}
use libncicore.Util.ModeParam.Roundtrip.{poll_a_head, poll_a_tail, parse_poll_a_roundtrip}
use libncicore.Util.Activation.{parse_activation_param}
use libncicore.Util.Activation.Safety.{parse_iso_dep_poll_b_overrun}
use libncicore.Util.Ntf.{
  mode_param, activation_param, parse_discover_ntf, parse_intf_activated_ntf,
  parse_rf_deactivate_ntf,
}
use libncicore.Util.Ntf.Safety.{parse_discover_ntf-IsSafe, parse_intf_activated_ntf-IsSafe}
use libncicore.Util.Ntf.Roundtrip.{
  activated_head, activated_tail, parse_discover_ntf_roundtrip, parse_intf_activated_ntf_roundtrip,
  parse_rf_deactivate_ntf_accepts,
}

-- an NFC-A endpoint with a four byte identifier
abbrev params_a : List ℕ
params_a = 4 ∷ 0 ∷ 4 ∷ 1 ∷ 2 ∷ 3 ∷ 4 ∷ 1 ∷ 0x20 ∷ []

abbrev discover_pkt : List ℕ
discover_pkt = 1 ∷ 4 ∷ 0 ∷ 9 ∷ (params_a ++ (2 ∷ []))

parse_discover_ntf-IsSafe_example : IsSafe (parse_discover_ntf true discover_pkt)
unfolding nci_mode
parse_discover_ntf-IsSafe_example = parse_discover_ntf-IsSafe true discover_pkt (λ e. cc)

abbrev activated_pkt : List ℕ
activated_pkt = 1 ∷ 1 ∷ 2 ∷ 0 ∷ 255 ∷ 1 ∷ 9 ∷ (params_a ++ (0 ∷ 0 ∷ 0 ∷ 0 ∷ []))

parse_intf_activated_ntf-IsSafe_example : IsSafe (parse_intf_activated_ntf activated_pkt)
unfolding nci_mode
parse_intf_activated_ntf-IsSafe_example = parse_intf_activated_ntf-IsSafe activated_pkt (λ e. cc)

parse_poll_b_overrun_example :
    (parse_mode_param passive_poll_b (11 ∷ []) ≡ overrun) ↔ ((0 < 1) × (11 ≤ 11) × (1 ≤ 11))
parse_poll_b_overrun_example = parse_poll_b_overrun (11 ∷ [])

parse_iso_dep_poll_b_overrun_example :
    (parse_activation_param iso_dep passive_poll_b (3 ∷ 0x10 ∷ []) ≡ overrun) ↔ ((1 ≤ 3) × (2 ≤ 3))
parse_iso_dep_poll_b_overrun_example = parse_iso_dep_poll_b_overrun (3 ∷ 0x10 ∷ []) (omega arith)

parse_discover_ntf_roundtrip_example : parse_discover_ntf true discover_pkt ≡ (
    mode_param true 0 params_a >>= λ param. parsed (record {
      discovery_id = 1;
      protocol = 4;
      mode = 0;
      param_len = 9;
      param_bytes = params_a;
      param = param;
      last = false;
    }))
parse_discover_ntf_roundtrip_example = parse_discover_ntf_roundtrip true 1 4 0 params_a 2 []

parse_intf_activated_ntf_roundtrip_example :
    parse_intf_activated_ntf (activated_head 1 1 2 0 255 1 params_a ++ activated_tail 0 0 0 [] [])
    ≡ (mode_param true 0 params_a >>= λ mp. activation_param 1 0 [] >>= λ ap. parsed (record {
      discovery_id = 1;
      rf_intf = 1;
      protocol = 2;
      mode = 0;
      max_data_packet_size = 255;
      num_credits = 1;
      mode_param_bytes = params_a;
      mode_param = mp;
      data_exchange_mode = 0;
      transmit_rate = 0;
      receive_rate = 0;
      activation_param_bytes = [];
      activation_param = ap;
    }))
parse_intf_activated_ntf_roundtrip_example =
    parse_intf_activated_ntf_roundtrip 1 1 2 0 255 1 params_a 0 0 0 [] []

parse_rf_deactivate_ntf_accepts_example :
    ((1 ≤ 3) → parse_rf_deactivate_ntf (1 ∷ 2 ∷ []) ≡ parsed (record { type = 1; reason = 2 }))
    × ((3 < 1) → parse_rf_deactivate_ntf (1 ∷ 2 ∷ []) ≡ refused)
    × (parse_rf_deactivate_ntf (1 ∷ []) ≡ refused)
    × (parse_rf_deactivate_ntf [] ≡ refused)
parse_rf_deactivate_ntf_accepts_example = parse_rf_deactivate_ntf_accepts 1 2 []

parse_poll_a_roundtrip_example :
    let bytes = poll_a_head 4 0 (1 ∷ 2 ∷ 3 ∷ 4 ∷ []) ++ poll_a_tail (0x20 ∷ []) [] in
    let param = poll_a (record {
      sens_res = 4 ∷ 0 ∷ [];
      nfcid1_len = 4;
      nfcid1 = 1 ∷ 2 ∷ 3 ∷ 4 ∷ 0 ∷ 0 ∷ 0 ∷ 0 ∷ 0 ∷ 0 ∷ [];
      sel_res_len = 1;
      sel_res = 0x20;
    }) in
    (parse_mode_param passive_poll_a bytes ≡ parsed param)
    × (parse_mode_param active_poll_a bytes ≡ parsed param)
parse_poll_a_roundtrip_example =
    parse_poll_a_roundtrip 4 0 (1 ∷ 2 ∷ 3 ∷ 4 ∷ []) (0x20 ∷ []) [] (omega arith)

abbrev two_params : List (ℕ × List ℕ)
two_params = (8, 1 ∷ []) ∷ (2, 0x34 ∷ 0x12 ∷ []) ∷ []

find_config_param_lem_example :
    find_config_param 2 (param_bytes two_params []) 2 ≡ some (0x34 ∷ 0x12 ∷ [])
find_config_param_lem_example = find_config_param_lem 2 two_params [] 2 (omega arith)

config_param_uint_lem_example : config_param_uint 2 (param_bytes two_params []) 2 ≡ some (2, 0x1234)
config_param_uint_lem_example =
    config_param_uint_lem 2 0x1234 2 2 two_params [] (omega arith) (omega arith) (omega arith)
      (omega arith) refl

nfcid1_equal_iff_example :
    let a : Nfcid1 = record { len = 0; bytes = [] } in
    let b : Nfcid1 = record { len = 4; bytes = 8 ∷ 1 ∷ 2 ∷ 3 ∷ [] } in
    (nfcid1_equal a b ≡ true) ↔ (canonical a ≡ canonical b)
nfcid1_equal_iff_example =
    nfcid1_equal_iff (record { len = 0; bytes = [] })
      (record { len = 4; bytes = 8 ∷ 1 ∷ 2 ∷ 3 ∷ [] })
