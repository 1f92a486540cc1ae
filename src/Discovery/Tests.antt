-- ===== src/Discovery/Tests.antt =====
-- The theorems about src/nci_transition_idle_to_discovery.c at concrete inputs.
use libncicore.Common.{◌+◌, ◌*◌, ◌/◌, ◌≡◌, refl, true, none, [], ◌∷◌, length, min, arith}
use libncicore.Sm.Types.{Config, has}
use libncicore.Sm.OpMode
use libncicore.Sm.Tech
use libncicore.Sm.Sample.{sample_config}
use libncicore.Discovery.Routing.{RoutingTable, mixed_routing_entries, protocol_routing_entries}
use libncicore.Discovery.Routing.Size.{mixed_routing_entries_size}
use libncicore.Discovery.Routing.IsoDep.{iso_dep_route_missing}
use libncicore.Discovery.Map.{wanted_techs}
use libncicore.Discovery.Config.{get_config_done, set_config, all_wanted}
use libncicore.Discovery.Config.Settle.{get_config_settles}

-- all modes, with the technologies A, B and F
abbrev everything : Config
everything = sample_config 0x1f 0x0f5f

abbrev no_entries : RoutingTable
no_entries = record { count = 0; entries = [] }

mixed_routing_entries_size_example :
    (length (mixed_routing_entries everything no_entries).entries
      ≡ 5 * (mixed_routing_entries everything no_entries).count)
    × ((mixed_routing_entries everything no_entries).count ≡ min 5 (21 / 5 + 1))
mixed_routing_entries_size_example = mixed_routing_entries_size everything refl refl refl refl refl

abbrev only_b : Config
only_b = sample_config OpMode.ce Tech.b

iso_dep_route_missing_example :
    (protocol_routing_entries only_b no_entries ≡ no_entries)
    × (has (wanted_techs only_b) Tech.b_listen ≡ true)
iso_dep_route_missing_example = iso_dep_route_missing only_b no_entries (omega arith) refl refl

get_config_settles_example :
    get_config_done everything true (0 ∷ set_config everything (all_wanted everything)) ≡ none
get_config_settles_example =
    get_config_settles everything
      (record { nfcid1_array = refl; hb_array = refl; hb_len = omega arith })
