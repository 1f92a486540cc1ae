-- ===== src/Sm/HostSelect/Tests.antt =====
-- The choice of a target of src/nci_state_w4_host_select.c with an insertion that is written out.
use libncicore.Common.{ℕ, none, false, List, [], ◌∷◌}
use libncicore.Util.Types.{DiscoveryNtf}
use libncicore.Sm.HostSelect.{selected_target}
use libncicore.Sm.HostSelect.Best.{IsBest, selected_target-IsBest}
use libncicore.Sm.HostSelect.Insertion.{insert_by, by_insertion}

-- a target of the protocol and the identifier
abbrev target : ℕ → ℕ → DiscoveryNtf
target id protocol = record {
  discovery_id = id;
  protocol = protocol;
  mode = 0;
  param_len = 0;
  param_bytes = [];
  param = none;
  last = false;
}

abbrev targets : List DiscoveryNtf
targets = target 1 2 ∷ target 3 4 ∷ target 2 4 ∷ []

selected_target-IsBest_example : IsBest targets (selected_target insert_by targets)
selected_target-IsBest_example = selected_target-IsBest insert_by by_insertion targets
