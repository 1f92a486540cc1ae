-- ===== src/Reset/Init.antt =====
-- CORE_INIT_RSP of both versions, and CORE_SET_CONFIG_CMD, in src/nci_transition_reset.c.
use libncicore.Common.{
  ℕ, ◌+◌, ◌*◌, ◌/◌, ◌%◌, ◌≡◌, ◌≤◌, refl, List, [], ◌∷◌, ◌++◌, length, length-append,
  drop-length-append, arith,
}
use libncicore.Util.Parse.{parsed, IsSafe}
use libncicore.Util.Config.{param_bytes}
use libncicore.Sm.Types.{Config}
use libncicore.Reset.{
  some_if_any, parse_init_v1, interfaces, parse_init_v2, general_bytes, set_config,
}

-- Whatever bytes answer CORE_INIT, neither the parser for NCI 1 nor the one for NCI 2 reads
-- outside of them.
pub parse_init-IsSafe : (pkt : List ℕ) → IsSafe (parse_init_v1 pkt) × IsSafe (parse_init_v2 pkt)
unfolding parse_init_v1 parse_init_v2
parse_init-IsSafe pkt = (ground arith, ground arith)

-- the interfaces as the specification lays them out, each with its extensions
abbrev pub interface_bytes : List (ℕ × List ℕ) → List ℕ → List ℕ
interface_bytes [] rest = rest
interface_bytes ((i, ext) ∷ r) rest = i ∷ length ext ∷ (ext ++ interface_bytes r rest)

abbrev pub interface_ids : List (ℕ × List ℕ) → List ℕ
interface_ids [] = []
interface_ids ((i, ext) ∷ r) = i ∷ interface_ids r

interfaces-interface_bytes :
    (l : List (ℕ × List ℕ)) (rest : List ℕ)
    → interfaces (length l) (interface_bytes l rest) ≡ interface_ids l
unfolding interfaces
interfaces-interface_bytes [] rest = refl
interfaces-interface_bytes ((i, ext) ∷ r) rest = ground (
  arith,
  length-append ext (interface_bytes r rest),
  drop-length-append ext (interface_bytes r rest),
  interfaces-interface_bytes r rest,
)

length-interface_bytes :
    (l : List (ℕ × List ℕ)) (rest : List ℕ) → 2 * length l ≤ length (interface_bytes l rest)
length-interface_bytes [] rest = omega arith
length-interface_bytes ((i, ext) ∷ r) rest =
    omega (arith, length-append ext (interface_bytes r rest), length-interface_bytes r rest)

-- A response to CORE_INIT of NCI 2 with status OK, laid out with any interfaces and their
-- extensions, is parsed to its fields and the list of those interfaces in their order, whatever
-- follows them.
pub parse_init_v2_roundtrip :
    (f1 f2 f3 f4 conns size_low size_high control hci credits frame_low frame_high : ℕ)
    (l : List (ℕ × List ℕ)) (rest : List ℕ)
    → parse_init_v2 (
        0x00
        ∷ f1
        ∷ f2
        ∷ f3
        ∷ f4
        ∷ conns
        ∷ size_low
        ∷ size_high
        ∷ control
        ∷ hci
        ∷ credits
        ∷ frame_low
        ∷ frame_high
        ∷ length l
        ∷ interface_bytes l rest)
      ≡ parsed (record {
        rf_interfaces = some_if_any (length l) (interface_ids l);
        nfcc_discovery = f1;
        nfcc_routing = f2;
        nfcc_power = f3;
        max_routing_table_size = size_high * 256 + size_low;
        max_logical_conns = conns;
        max_control_payload = control;
      })
unfolding parse_init_v2
parse_init_v2_roundtrip f1 f2 f3 f4 conns size_low size_high control hci credits frame_low
      frame_high l rest =
    ground (arith, length-interface_bytes l rest, interfaces-interface_bytes l rest)

-- The payload of CORE_SET_CONFIG_CMD after a reset is the number of its parameters and those
-- parameters: a total duration of 500 in two bytes, low first, the two bail-outs off, both
-- configurations 0x30, and the same general bytes, each with its length, for ATR_RES and ATR_REQ.
pub set_config_params :
    (c : Config)
    → set_config c
      ≡ 7
        ∷ param_bytes
            ((0x00, 500 % 256 ∷ 500 / 256 ∷ [])
              ∷ (0x08, 0 ∷ [])
              ∷ (0x11, 0 ∷ [])
              ∷ (0x62, 0x30 ∷ [])
              ∷ (0x2a, 0x30 ∷ [])
              ∷ (0x61, general_bytes c)
              ∷ (0x29, general_bytes c)
              ∷ [])
            []
unfolding set_config
set_config_params c = refl
