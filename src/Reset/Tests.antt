-- ===== src/Reset/Tests.antt =====
-- The theorems about src/nci_transition_reset.c at concrete inputs.
use libncicore.Common.{ℕ, ◌+◌, ◌*◌, ◌≡◌, some, List, [], ◌∷◌}
use libncicore.Util.Parse.{parsed}
use libncicore.Sm.Types.{Config}
use libncicore.Sm.Sample.{sample_config}
use libncicore.Reset.{parse_init_v2}
use libncicore.Reset.Init.{interface_bytes, parse_init_v2_roundtrip}

-- two interfaces, the first of them with an extension
abbrev two_interfaces : List (ℕ × List ℕ)
two_interfaces = (1, 7 ∷ []) ∷ (2, []) ∷ []

abbrev init_rsp : List ℕ
init_rsp =
    0
    ∷ 1
    ∷ 2
    ∷ 3
    ∷ 4
    ∷ 5
    ∷ 6
    ∷ 7
    ∷ 8
    ∷ 9
    ∷ 10
    ∷ 11
    ∷ 12
    ∷ 2
    ∷ interface_bytes two_interfaces (99 ∷ [])

parse_init_v2_roundtrip_example :
    parse_init_v2 init_rsp
    ≡ parsed (record {
      rf_interfaces = some (1 ∷ 2 ∷ []);
      nfcc_discovery = 1;
      nfcc_routing = 2;
      nfcc_power = 3;
      max_routing_table_size = 7 * 256 + 6;
      max_logical_conns = 5;
      max_control_payload = 8;
    })
parse_init_v2_roundtrip_example =
    parse_init_v2_roundtrip 1 2 3 4 5 6 7 8 9 10 11 12 two_interfaces (99 ∷ [])

abbrev reader : Config
reader = sample_config 0x01 0x0f5f
