-- ===== src/Discovery/Routing/IsoDep.antt =====
-- The ISO-DEP entry of the routing table in src/nci_transition_idle_to_discovery.c.
use libncicore.Common.{
  ℕ, ◌<◌, ◌≡◌, refl, Bool, true, false, bit_and, bit_or, not, ◌==◌, ◌&&◌, agree_on_bytes, ap, arith,
}
use libncicore.Sm.Types.{Config, has}
use libncicore.Sm.OpMode
use libncicore.Sm.Tech
use libncicore.Discovery.Routing.{RoutingTable, protocol_routing_entries}
use libncicore.Discovery.Map.{wanted_techs, tech_if}

no_common_bit : (m : ℕ) → m < 256 → has (bit_and m (bit_or OpMode.ce OpMode.rw)) Tech.b ≡ false
no_common_bit m h =
    ap (λ x. not (x == 0))
      (agree_on_bytes (λ y. bit_and (bit_and y (bit_or OpMode.ce OpMode.rw)) Tech.b) (λ _. 0) m refl
        h)

listens_b :
    (rw peer poll listen : Bool)
    → has
        (bit_and
          (tech_if true (bit_or Tech.a_listen_passive Tech.b_listen) (
            tech_if (peer && listen) (bit_or Tech.a_listen Tech.f_listen) (
              tech_if (peer && poll) (bit_or Tech.a_poll Tech.f_poll) (
                tech_if rw
                  (bit_or Tech.a_poll (bit_or Tech.b_poll (bit_or Tech.f_poll Tech.v_poll)))
                  0))))
          Tech.b)
        Tech.b_listen
      ≡ true
listens_b true true true true = refl
listens_b true true true false = refl
listens_b true true false true = refl
listens_b true true false false = refl
listens_b true false poll listen = refl
listens_b false true true true = refl
listens_b false true true false = refl
listens_b false true false true = refl
listens_b false true false false = refl
listens_b false false poll listen = refl

-- With card emulation in the operation mode, which fits a byte, and the technologies of NFC-B
-- alone enabled, no entry for ISO-DEP is put on the routing table, though listening for NFC-B is
-- among the technologies to discover.
pub iso_dep_route_missing :
    (c : Config) (t : RoutingTable)
    → c.op_mode < 256
    → c.techs ≡ Tech.b
    → has c.op_mode OpMode.ce ≡ true
    → (protocol_routing_entries c t ≡ t) × (has (wanted_techs c) Tech.b_listen ≡ true)
unfolding protocol_routing_entries wanted_techs
iso_dep_route_missing c t h b ce = (
  rw (b, no_common_bit c.op_mode h) (ground arith),
  rw (b, ce)
      (listens_b (has c.op_mode OpMode.rw) (has c.op_mode OpMode.peer) (has c.op_mode OpMode.poll)
        (has c.op_mode OpMode.listen)),
)
