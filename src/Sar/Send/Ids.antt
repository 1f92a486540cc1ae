-- ===== src/Sar/Send/Ids.antt =====
-- The identifiers of the packets in src/nci_sar.c.
use libncicore.Common.{ℕ, ◌≢◌, arith}
use libncicore.Sar.Defs.{Sar}
use libncicore.Sar.Send.{Request, send_command, send, next_id}

next_id-nonzero : (last : ℕ) → next_id last ≢ 0
unfolding next_id
next_id-nonzero last = ground arith

-- A command always gets an identifier, so that it can be sent.
pub send_command-sent : (s : Sar) (gid oid : ℕ) (r : Request) → (send_command s gid oid r).1 ≢ 0
unfolding send_command send
send_command-sent s gid oid r = next_id-nonzero s.last_packet_id
