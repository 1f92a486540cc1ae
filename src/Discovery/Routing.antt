-- ===== src/Discovery/Routing.antt =====
-- RF_SET_LISTEN_MODE_ROUTING_CMD in src/nci_transition_idle_to_discovery.c.
pub mod Size
pub mod IsoDep
use libncicore.Common.{
  ℕ, suc, ◌+◌, Bool, true, false, not, ◌&&◌, ◌||◌, Option, none, some, List, [], ◌∷◌, ◌++◌,
  if◌then◌else◌, ◌==◌, leb, length, bit_and, bit_or,
}
use libncicore.Sm.Types.{Config, has}
use libncicore.Sm.OpMode
use libncicore.Sm.Tech
use libncicore.Sm.Protocol

-- `cmd` after its byte `More`: the number of entries, and the entries.
pub record RoutingTable : Type 0 where
  pub count : ℕ
  pub entries : List ℕ

-- `cmd->len <= sm->max_routing_table_size + 2`, where `cmd` holds two more bytes than its entries.
-- The number of entries is a byte; there are five of them at most.
unfoldable pub add_routing_entry : ℕ → List ℕ → RoutingTable → RoutingTable
add_routing_entry max entry t =
    if leb (2 + length t.entries) (max + 2)
    then record { count = t.count + 1; entries = t.entries ++ entry }
    else t

-- type, length 3, NFCEE_ID_DH, POWER_ON, value
abbrev pub routing_entry : ℕ → ℕ → List ℕ
routing_entry type value = type ∷ 3 ∷ 0x00 ∷ 0x01 ∷ value ∷ []

abbrev pub entry_if : Bool → ℕ → List ℕ → RoutingTable → RoutingTable
entry_if wanted max entry t = if wanted then add_routing_entry max entry t else t

abbrev pub wants_nfc_dep : Config → Bool
wants_nfc_dep c =
    has c.op_mode OpMode.peer
    && (has c.op_mode (bit_or OpMode.poll OpMode.listen) && has c.techs (bit_or Tech.a Tech.f))

-- The code joins the two masks by `&`, not by `&&`.
abbrev pub wants_iso_dep : Config → Bool
wants_iso_dep c =
    has (bit_and c.op_mode (bit_or OpMode.ce OpMode.rw)) (bit_and c.techs (bit_or Tech.a Tech.b))

unfoldable pub protocol_routing_entries : Config → RoutingTable → RoutingTable
protocol_routing_entries c t =
    entry_if (wants_iso_dep c) c.max_routing_table_size (routing_entry 0x01 Protocol.iso_dep)
      (entry_if (wants_nfc_dep c) c.max_routing_table_size (routing_entry 0x01 Protocol.nfc_dep) t)

abbrev pub wants_tech_f : Config → Bool
wants_tech_f c = has c.techs Tech.f_listen && has c.op_mode (bit_or OpMode.rw OpMode.peer)

unfoldable pub tech_routing_entries : Config → RoutingTable → RoutingTable
tech_routing_entries c t =
    entry_if (has c.techs Tech.a) c.max_routing_table_size (routing_entry 0x00 0x00) (
      entry_if (has c.techs Tech.b) c.max_routing_table_size (routing_entry 0x00 0x01)
        (entry_if (wants_tech_f c) c.max_routing_table_size (routing_entry 0x00 0x02) t))

unfoldable pub mixed_routing_entries : Config → RoutingTable → RoutingTable
unfolding protocol_routing_entries tech_routing_entries
mixed_routing_entries c t = tech_routing_entries c (protocol_routing_entries c t)

-- The payload of the command: no more to come, the number of entries, the entries.
unfoldable pub set_routing : (RoutingTable → RoutingTable) → List ℕ
set_routing add_routing_entries =
    let t = add_routing_entries (record { count = 0; entries = [] }) in 0 ∷ t.count ∷ t.entries

-- which routing is configured, if any
pub data RoutingKind : Type 0 where
  mixed protocol technology no_routing : RoutingKind

unfoldable pub routing_kind : Config → RoutingKind
routing_kind c =
    if not (c.max_routing_table_size == 0)
      && (has c.op_mode OpMode.ce
          || bit_and c.op_mode (bit_or OpMode.peer OpMode.listen)
            == bit_or OpMode.peer OpMode.listen)
    then (if bit_and c.nfcc_routing 0x06 == 0x06
        then mixed
        else if bit_and c.nfcc_routing 0x06 == 0x04
        then protocol
        else if bit_and c.nfcc_routing 0x06 == 0x02
        then technology
        else no_routing)
    else no_routing
