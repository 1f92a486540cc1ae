-- ===== src/Reset.antt =====
-- src/nci_transition_reset.c: what the NFCC says of itself, and what it is told after a reset.
pub mod Init
mod Tests
use libncicore.Common.{
  ℕ, zero, suc, ◌+◌, ◌*◌, ◌/◌, ◌%◌, Bool, Option, none, some, List, [], ◌∷◌, ◌++◌, if◌then◌else◌,
  ◌==◌, leb, length, drop,
}
use libncicore.Util.Parse.{Parse, parsed, refused, overrun, ◌>>=◌, ◌>>◌, require, byte, slice}
use libncicore.Sm.Types.{Config}

-- What CORE_INIT_RSP brings.
pub record InitInfo : Type 0 where
  pub rf_interfaces : Option (List ℕ)
  pub nfcc_discovery : ℕ
  pub nfcc_routing : ℕ
  pub nfcc_power : ℕ
  pub max_routing_table_size : ℕ
  pub max_logical_conns : ℕ
  pub max_control_payload : ℕ

abbrev pub some_if_any : ℕ → List ℕ → Option (List ℕ)
some_if_any n bytes = if n == 0 then none else some bytes

-- `nci_transition_reset_init_v1_rsp`
unfoldable pub parse_init_v1 : List ℕ → Parse InitInfo
parse_init_v1 pkt = do
  require (leb 17 (length pkt))
  status ← byte pkt 0
  require (status == 0x00)
  n ← byte pkt 5
  require (length pkt == n + 17)
  rf_interfaces ← slice pkt 6 n
  discovery ← byte pkt 1
  routing ← byte pkt 2
  power ← byte pkt 3
  size_low ← byte pkt (7 + n)
  size_high ← byte pkt (8 + n)
  max_logical_conns ← byte pkt (6 + n)
  max_control_payload ← byte pkt (9 + n)
  parsed (record {
    rf_interfaces = some_if_any n rf_interfaces;
    nfcc_discovery = discovery;
    nfcc_routing = routing;
    nfcc_power = power;
    max_routing_table_size = size_high * 256 + size_low;
    max_logical_conns = max_logical_conns;
    max_control_payload = max_control_payload;
  })

-- The loop over the interfaces, each with its extensions: it respects both their number and the end
-- of the packet.
unfoldable pub interfaces : ℕ → List ℕ → List ℕ
interfaces zero bytes = []
interfaces (suc n) [] = []
interfaces (suc n) (i ∷ []) = []
interfaces (suc n) (i ∷ x ∷ r) = if leb x (length r) then i ∷ interfaces n (drop x r) else []

-- `nci_transition_reset_init_v2_rsp`
unfoldable pub parse_init_v2 : List ℕ → Parse InitInfo
unfolding interfaces
parse_init_v2 pkt = do
  require (leb 14 (length pkt))
  status ← byte pkt 0
  require (status == 0x00)
  n ← byte pkt 13
  require (leb (2 * n + 14) (length pkt))
  discovery ← byte pkt 1
  routing ← byte pkt 2
  power ← byte pkt 3
  size_low ← byte pkt 6
  size_high ← byte pkt 7
  max_logical_conns ← byte pkt 5
  max_control_payload ← byte pkt 8
  parsed (record {
    rf_interfaces = some_if_any n (interfaces n (drop 14 pkt));
    nfcc_discovery = discovery;
    nfcc_routing = routing;
    nfcc_power = power;
    max_routing_table_size = size_high * 256 + size_low;
    max_logical_conns = max_logical_conns;
    max_control_payload = max_control_payload;
  })

-- CORE_RESET_NTF has its manufacturer information whole.
unfoldable pub reset_ntf_ok : List ℕ → Parse (Unit {0})
reset_ntf_ok pkt = do
  require (leb 5 (length pkt))
  n ← byte pkt 4
  require (leb (5 + n) (length pkt))
  parsed tt

-- the general bytes of ATR_REQ and ATR_RES: the LLCP magic, VERSION, MIUX, WKS, LTO and OPT
abbrev pub general_bytes : Config → List ℕ
general_bytes c =
    0x46
    ∷ 0x66
    ∷ 0x6d
    ∷ 1
    ∷ 1
    ∷ c.llc_version
    ∷ 2
    ∷ 0x02
    ∷ 0x07
    ∷ 0xff
    ∷ 3
    ∷ 2
    ∷ (c.llc_wks / 256) % 256
    ∷ c.llc_wks % 256
    ∷ 4
    ∷ 0x01
    ∷ 0x64
    ∷ 7
    ∷ 0x01
    ∷ 0x03
    ∷ []

-- `cmd_prefix`: 7 parameters, TOTAL_DURATION (500), PA_BAIL_OUT, PB_BAIL_OUT, LN_ATR_RES_CONFIG,
-- PN_ATR_REQ_CONFIG
abbrev pub config_prefix : List ℕ
config_prefix =
    7 ∷ 0x00 ∷ 0x02 ∷ 0xf4 ∷ 0x01 ∷ 0x08 ∷ 0x01 ∷ 0x00 ∷ 0x11 ∷ 0x01 ∷ 0x00 ∷ 0x62 ∷ 0x01 ∷ 0x30
    ∷ 0x2a ∷ 0x01 ∷ 0x30 ∷ []

-- the payload of CORE_SET_CONFIG_CMD: LN_ATR_RES_GEN_BYTES and PN_ATR_REQ_GEN_BYTES after the prefix
pub set_config : Config → List ℕ
set_config c =
    config_prefix
    ++ ((0x61 ∷ length (general_bytes c) % 256 ∷ general_bytes c)
        ++ (0x29 ∷ length (general_bytes c) % 256 ∷ general_bytes c))
