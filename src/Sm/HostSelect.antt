-- ===== src/Sm/HostSelect.antt =====
-- The choice of a target in src/nci_state_w4_host_select.c. `insert_sorted` stands for
-- `g_slist_insert_sorted` of GLib.
pub mod Best
pub mod Insertion
mod Tests
use libncicore.Common.{ℕ, suc, ◌≡◌, Option, none, some, List, [], ◌∷◌, if◌then◌else◌, ◌==◌, ltb}
use libncicore.Util.Types.{DiscoveryNtf}
use libncicore.Sm.Protocol

-- the sign of the `gint` that a GCompareFunc returns
pub data Sign : Type 0 where
  negative zero positive : Sign

abbrev pub Compare : Type 0
Compare = DiscoveryNtf → DiscoveryNtf → Sign

-- the loop over `protocol_order`, where the protocols differ; then the discovery identifiers
unfoldable pub compare_ids : ℕ → ℕ → Sign
compare_ids a b = if ltb a b then negative else if a == b then zero else positive

unfoldable pub sort_by : List ℕ → Compare
sort_by [] a b = compare_ids a.discovery_id b.discovery_id
sort_by (p ∷ ps) a b =
    let rest = sort_by ps a b in
    if a.protocol == p then negative else if b.protocol == p then positive else rest

abbrev pub protocol_order : List ℕ
protocol_order = Protocol.nfc_dep ∷ Protocol.iso_dep ∷ Protocol.t2t ∷ []

-- `nci_state_w4_host_select_sort`
unfoldable pub sort : Compare
sort a b =
    if a.protocol == b.protocol
    then compare_ids a.discovery_id b.discovery_id
    else sort_by protocol_order a b

-- `rf_intf` of a protocol
unfoldable pub rf_interface : ℕ → ℕ
rf_interface protocol =
    if protocol == Protocol.iso_dep
    then 0x02
    else if protocol == Protocol.nfc_dep
    then 0x03
    else 0x01

-- the payload of RF_DISCOVER_SELECT_CMD
unfoldable pub discover_select : DiscoveryNtf → List ℕ
discover_select d = d.discovery_id ∷ d.protocol ∷ rf_interface d.protocol ∷ []

-- `selected->data`, where the list is not empty
unfoldable pub first_selected : List DiscoveryNtf → Option DiscoveryNtf
first_selected [] = none
first_selected (d ∷ ds) = some d

module _ (insert_sorted : Compare → List DiscoveryNtf → DiscoveryNtf → List DiscoveryNtf) where
  -- the list `selected` after a loop over the targets that are supported
  unfoldable pub select_all : List DiscoveryNtf → List DiscoveryNtf → List DiscoveryNtf
  select_all selected [] = selected
  select_all selected (d ∷ ds) = select_all (insert_sorted sort selected d) ds

  -- the target that is selected, if there is one
  unfoldable pub selected_target : List DiscoveryNtf → Option DiscoveryNtf
  selected_target l = first_selected (select_all [] l)
