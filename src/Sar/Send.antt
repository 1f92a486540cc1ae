-- ===== src/Sar/Send.antt =====
-- How src/nci_sar.c takes packets from its client and cancels them.
pub mod Live
pub mod Ids
use libncicore.Common.{
  ℕ, ◌+◌, ◌%◌, ◌^◌, Bool, false, Option, none, some, List, [], ◌∷◌, if◌then◌else◌, ◌==◌, get_elem?,
  bit_and, bit_or,
}
use libncicore.Sar.Defs.{
  PacketOut, LogicalConnection, Sar, Event, nci_mt_cmd_pkt, nci_control_gid_mask,
  nci_control_oid_mask, nci_data_cid_mask,
}
use libncicore.Sar.Queue.{enqueue, cancel_queue}
use libncicore.Sar.Write.{schedule_write, set_conn}

-- What the client hands over with a packet.
pub record Request : Type 0 where
  pub payload : Option (List ℕ)
  pub complete : Bool
  pub destroy : Bool
  pub user_data : ℕ

-- `++last_packet_id` on a `guint`, and once more if that is 0
unfoldable pub next_id : ℕ → ℕ
next_id last = let id = (last + 1) % 2 ^ 32 in if id == 0 then (id + 1) % 2 ^ 32 else id

unfoldable pub new_packet : ℕ → Option ℕ → ℕ → ℕ → Request → PacketOut
new_packet id conn hdr0 hdr1 r = record {
  conn = conn;
  hdr0 = hdr0;
  hdr1 = hdr1;
  hdr2 = 0;
  payload = r.payload;
  payload_pos = 0;
  complete = r.complete;
  destroy = r.destroy;
  user_data = r.user_data;
  id = id;
}

-- The caller puts the packet on its queue (`queue`); the id is the result.
unfoldable pub send : Sar → (PacketOut → Sar → Sar) → Option ℕ → ℕ → ℕ → Request → Sar × ℕ
send s queue conn hdr0 hdr1 r =
    let id = next_id s.last_packet_id in
    let out = new_packet id conn hdr0 hdr1 r in
    (schedule_write (queue out (record s { last_packet_id = id })), id)

unfoldable pub send_command : Sar → ℕ → ℕ → Request → Sar × ℕ
unfolding send
send_command s gid oid r =
    send s (λ out t. record t { cmd = enqueue t.cmd out }) none
      (bit_or nci_mt_cmd_pkt (bit_and gid nci_control_gid_mask)) (bit_and oid nci_control_oid_mask)
      r

-- `cid < max_logical_conns` is `some` here.
unfoldable pub send_data_packet : Sar → ℕ → Request → Sar × ℕ
unfolding send
send_data_packet s cid r = elim (get_elem? s.conn cid) [
  | none ↦ (s, 0)
  | some c ↦
      send s (λ out t. set_conn t cid (record c { out = enqueue c.out out })) (some cid)
        (bit_and cid nci_data_cid_mask) 0 r
]

pub cancel_conns : List LogicalConnection → ℕ → Option (List LogicalConnection × List Event)
cancel_conns [] id = none
cancel_conns (c ∷ cs) id = elim (cancel_queue c.out id) [
  | some (q, evs) ↦ some (record c { out = q } ∷ cs, evs)
  | none ↦ elim (cancel_conns cs id) [ none ↦ none | some (cs', evs) ↦ some (c ∷ cs', evs) ]
]

-- a packet that waits in a queue
unfoldable pub cancel_queued : Sar → ℕ → Sar × List Event
cancel_queued s id = elim (cancel_queue s.cmd id) [
  | some (q, evs) ↦ (record s { cmd = q }, evs)
  | none ↦ elim (cancel_conns s.conn id) [
    | none ↦ (s, [])
    | some (cs, evs) ↦ (record s { conn = cs }, evs)
  ]
]

-- A packet that is being written cannot be taken back: only its completion callback is cleared.
unfoldable pub cancel_packet : Sar → Option PacketOut → ℕ → Sar × List Event
unfolding cancel_queued
cancel_packet s none id = cancel_queued s id
cancel_packet s (some out) id =
    if out.id == id
    then (record s { writing = some (record out { complete = false }) }, [])
    else cancel_queued s id

unfoldable pub cancel : Sar → ℕ → Sar × List Event
unfolding cancel_packet
cancel s id = if id == 0 then (s, []) else cancel_packet s s.writing id
