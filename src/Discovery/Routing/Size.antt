-- ===== src/Discovery/Routing/Size.antt =====
-- How large the routing table of src/nci_transition_idle_to_discovery.c gets.
use libncicore.Common.{
  ℕ, suc, ◌+◌, ◌*◌, ◌/◌, ◌≤◌, ◌≡◌, refl, Bool, true, false, [], length, length-append, arith, min,
}
use libncicore.Sm.Types.{Config, has}
use libncicore.Sm.Tech
use libncicore.Discovery.Routing.{
  RoutingTable, add_routing_entry, routing_entry, entry_if, protocol_routing_entries,
  tech_routing_entries, mixed_routing_entries, wants_nfc_dep, wants_iso_dep, wants_tech_f,
}

-- Entries are five bytes long, and one of them at most begins past the end of the table.
pub record IsTable (max : ℕ) (t : RoutingTable) : Type 0 where
  pub whole : length t.entries ≡ 5 * t.count
  pub fits : length t.entries ≤ max + 5

add_routing_entry-IsTable :
    (max type value : ℕ) (t : RoutingTable)
    → IsTable max t
    → IsTable max (add_routing_entry max (routing_entry type value) t)
unfolding add_routing_entry
add_routing_entry-IsTable max type value t v =
    ground (arith, v.whole, v.fits, length-append t.entries (routing_entry type value))

entry_if-IsTable :
    (wanted : Bool) (max type value : ℕ) (t : RoutingTable)
    → IsTable max t
    → IsTable max (entry_if wanted max (routing_entry type value) t)
entry_if-IsTable true max type value t v = add_routing_entry-IsTable max type value t v
entry_if-IsTable false max type value t v = v

-- After `k` attempts: as many entries, or as many as begin at the end of the table or before it.
record IsFilled (max k : ℕ) (t : RoutingTable) : Type 0 where
  whole : length t.entries ≡ 5 * t.count
  filled : t.count ≡ min k (max / 5 + 1)

add_routing_entry-IsFilled :
    (max k type value : ℕ) (t : RoutingTable)
    → IsFilled max k t
    → IsFilled max (suc k) (add_routing_entry max (routing_entry type value) t)
unfolding add_routing_entry
add_routing_entry-IsFilled max k type value t v =
    ground (arith, v.whole, v.filled, length-append t.entries (routing_entry type value))

entry_if-IsFilled :
    (wanted : Bool) (max k type value : ℕ) (t : RoutingTable)
    → wanted ≡ true
    → IsFilled max k t
    → IsFilled max (suc k) (entry_if wanted max (routing_entry type value) t)
entry_if-IsFilled true max k type value t e v = add_routing_entry-IsFilled max k type value t v
entry_if-IsFilled false max k type value t e v = cc

-- Where both protocols and the three technologies want an entry, mixed routing makes as many
-- entries as the smaller of 5 and one more than a fifth of the size of the routing table; each is
-- five bytes, so the last one can reach past the size.
pub mixed_routing_entries_size :
    (c : Config)
    → wants_nfc_dep c ≡ true
    → wants_iso_dep c ≡ true
    → wants_tech_f c ≡ true
    → has c.techs Tech.b ≡ true
    → has c.techs Tech.a ≡ true
    → let t = mixed_routing_entries c (record { count = 0; entries = [] }) in
      (length t.entries ≡ 5 * t.count) × (t.count ≡ min 5 (c.max_routing_table_size / 5 + 1))
unfolding mixed_routing_entries
mixed_routing_entries_size c p i f b a =
    let max = c.max_routing_table_size in
    let empty : RoutingTable = record { count = 0; entries = [] } in
    let none_yet : IsFilled max 0 empty = record { whole = refl; filled = omega arith } in
    let filled = entry_if-IsFilled _ max 4 0x00 0x00 _ a (
      entry_if-IsFilled _ max 3 0x00 0x01 _ b (
        entry_if-IsFilled _ max 2 0x00 0x02 _ f (
          entry_if-IsFilled _ max 1 0x01 0x04 _ i
            (entry_if-IsFilled _ max 0 0x01 0x05 empty p none_yet)))) in
    (filled.whole, filled.filled)

-- Whatever the configuration, each of the three ways to fill the routing table from empty makes
-- whole entries, as many as their count says, that exceed the size of the table by at most one
-- entry.
pub routing_entries-IsTable :
    (c : Config)
    → let empty : RoutingTable = record { count = 0; entries = [] } in
      IsTable c.max_routing_table_size (mixed_routing_entries c empty)
      × IsTable c.max_routing_table_size (protocol_routing_entries c empty)
      × IsTable c.max_routing_table_size (tech_routing_entries c empty)
unfolding mixed_routing_entries
routing_entries-IsTable c =
    let max = c.max_routing_table_size in
    let empty : RoutingTable = record { count = 0; entries = [] } in
    let start : IsTable max empty = record { whole = refl; fits = omega arith } in
    let protocols =
      entry_if-IsTable (wants_iso_dep c) max 0x01 0x04 _
        (entry_if-IsTable (wants_nfc_dep c) max 0x01 0x05 empty start) in
    let technologies = λ (t : RoutingTable) (v : IsTable max t).
      entry_if-IsTable (has c.techs Tech.a) max 0x00 0x00 _ (
        entry_if-IsTable (has c.techs Tech.b) max 0x00 0x01 _
          (entry_if-IsTable (wants_tech_f c) max 0x00 0x02 t v)) in
    (technologies _ protocols, protocols, technologies empty start)
