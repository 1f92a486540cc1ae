-- ===== src/Sar/Write.antt =====
-- The write side of src/nci_sar.c: credits, segmentation and the calls of the HAL.
pub mod Credits
pub mod Segments
pub mod Live
use libncicore.Common.{
  ℕ, suc, ◌+◌, ◌-◌, ◌%◌, Bool, true, false, not, ◌&&◌, ◌||◌, Option, none, some, List, [], ◌∷◌,
  ◌++◌, if◌then◌else◌, ◌==◌, leb, ltb, length, get_elem?, set, take, drop, bit_and, bit_or,
}
use libncicore.Sar.Defs.{
  PacketOut, LogicalConnection, Sar, HalReply, Event, hal_start, hal_write, client_error,
  unlimited_credits, nci_mt_mask, nci_mt_cmd_pkt, nci_pbf, nci_pbf_clear,
}
use libncicore.Sar.Queue.{is_nil, packet_out_free, packet_out_complete, drop_first, put_back}

-- `conn->out.first && conn->credits`
unfoldable pub can_send : LogicalConnection → Bool
can_send c = not (is_nil c.out.items) && not (c.credits == 0)

-- `if (credits != SAR_UNLIMITED_CREDITS) credits--`, where there are credits
unfoldable pub spend_credit : LogicalConnection → LogicalConnection
spend_credit c = if c.credits == unlimited_credits then c else record c { credits = c.credits - 1 }

-- the first connection that may send, by its index
unfoldable pub first_ready : List LogicalConnection → Option ℕ
first_ready [] = none
first_ready (c ∷ cs) =
    if can_send c then some 0 else elim (first_ready cs) [ none ↦ none | some i ↦ some (suc i) ]

unfoldable pub any_ready : List LogicalConnection → Bool
any_ready [] = false
any_ready (c ∷ cs) = can_send c || any_ready cs

abbrev pub is_some {ℓ} : {A : Type ℓ} → Option A → Bool
is_some none = false
is_some (some x) = true

unfoldable pub can_write : Sar → Bool
can_write s =
    if is_some s.writing then false else if not (is_nil s.cmd.items) then true else any_ready s.conn

unfoldable pub schedule_write : Sar → Sar
schedule_write s = if not s.start_write && can_write s then record s { start_write = true } else s

-- `conn[cid] = c`
abbrev pub set_conn : Sar → ℕ → LogicalConnection → Sar
set_conn s cid c = record s { conn = set s.conn cid c }

-- What `nci_sar_attempt_write` does first with a data packet that it has begun: pay for its next
-- segment, or put it back to its queue. The pointer `conn` is taken to be valid: where it is not
-- (`none`), the packet is left.
unfoldable pub charge_packet : Sar → PacketOut → Option LogicalConnection → ℕ → Sar
charge_packet s out none cid = s
charge_packet s out (some c) cid =
    if c.credits == 0
    then record s { writing = none; conn = set s.conn cid (record c { out = put_back c.out out }) }
    else set_conn s cid (spend_credit c)

unfoldable pub charge_writing : Sar → Sar
charge_writing s = elim s.writing [
  | none ↦ s
  | some out ↦ elim out.conn [
    | none ↦ s
    | some cid ↦ charge_packet s out (get_elem? s.conn cid) cid
  ]
]

-- Take the first packet of the command queue.
unfoldable pub take_command : Sar → List PacketOut → Sar
take_command s [] = s
take_command s (p ∷ ps) = record s { writing = some p; cmd = drop_first s.cmd ps }

-- Take the first packet of a connection's queue, for one credit.
unfoldable pub take_packet : Sar → ℕ → LogicalConnection → List PacketOut → Sar
take_packet s cid c [] = s
take_packet s cid c (p ∷ ps) = record s {
  writing = some p;
  conn = set s.conn cid (record (spend_credit c) { out = drop_first c.out ps });
}

unfoldable pub take_data : Sar → Option ℕ → Sar
take_data s none = s
take_data s (some cid) = elim (get_elem? s.conn cid) [
  | none ↦ s
  | some c ↦ take_packet s cid c c.out.items
]

-- `nci_sar_write_queue`, and what its caller does with the queue: commands go first, then the first
-- connection that has a packet and a credit.
unfoldable pub pick_packet : Sar → Sar
unfolding take_data
pick_packet s =
    if is_some s.writing
    then s
    else if is_nil s.cmd.items
    then take_data s (first_ready s.conn)
    else take_command s s.cmd.items

abbrev pub payload_bytes : PacketOut → List ℕ
payload_bytes out = elim out.payload [ none ↦ [] | some bytes ↦ bytes ]

unfoldable pub max_payload_size : Sar → PacketOut → ℕ
max_payload_size s out =
    if bit_and out.hdr0 nci_mt_mask == nci_mt_cmd_pkt
    then s.control_payload_limit
    else s.data_payload_limit

abbrev pub remaining_payload_len : PacketOut → ℕ
remaining_payload_len out = length (payload_bytes out) - out.payload_pos

unfoldable pub last_segment : PacketOut → PacketOut
last_segment out = record out {
  hdr0 = bit_and out.hdr0 nci_pbf_clear;
  hdr2 = remaining_payload_len out % 256;
  payload_pos = out.payload_pos + remaining_payload_len out;
}

unfoldable pub more_segment : ℕ → PacketOut → PacketOut
more_segment max out = record out {
  hdr0 = bit_or out.hdr0 nci_pbf;
  hdr2 = max;
  payload_pos = out.payload_pos + max;
}

-- the header that the segment gets, and the `size` bytes of the payload from where it stood
abbrev pub segment_bytes : PacketOut → PacketOut → ℕ → List ℕ
segment_bytes new old size =
    new.hdr0 ∷ new.hdr1 ∷ new.hdr2 ∷ take size (drop old.payload_pos (payload_bytes old))

-- The next segment of at most `max` bytes of payload: the packet after it, and its bytes.
unfoldable pub next_segment : ℕ → PacketOut → PacketOut × List ℕ
next_segment max out =
    if leb (remaining_payload_len out) max
    then (last_segment out, segment_bytes (last_segment out) out (remaining_payload_len out))
    else (more_segment max out, segment_bytes (more_segment max out) out max)

-- `complete(client, ok)` and the release of the packet
unfoldable pub finish_packet : PacketOut → Bool → List Event
finish_packet out ok = packet_out_complete out ok ++ packet_out_free out

-- Hand the segment to the HAL, starting it on demand. A packet that it does not take is dropped,
-- and the next one is tried later.
unfoldable pub submit : HalReply → Sar → PacketOut → Sar × List Event
submit io s out =
    let (out', bytes) = next_segment (max_payload_size s out) out in
    let started = s.started || io.start in
    let begin : List Event = if s.started then [] else hal_start ∷ [] in
    let failed =
      schedule_write (record s { started = started; write_pending = false; writing = none }) in
    let drop_it : List Event = finish_packet out' false ++ (client_error ∷ []) in
    if started
    then (if io.write
        then (
          record s { started = true; write_pending = true; writing = some out' },
          begin ++ (hal_write bytes true ∷ []),
        )
        else (failed, begin ++ (hal_write bytes false ∷ drop_it)))
    else (failed, begin ++ drop_it)

unfoldable pub submit_writing : HalReply → Sar → Sar × List Event
submit_writing io s = elim s.writing [ none ↦ (s, []) | some out ↦ submit io s out ]

unfoldable pub attempt_write : HalReply → Sar → Sar × List Event
unfolding submit_writing
attempt_write io s =
    if s.write_pending then (s, []) else submit_writing io (pick_packet (charge_writing s))

-- the idle callback
unfoldable pub start_write_callback : HalReply → Sar → Sar × List Event
start_write_callback io s = attempt_write io (record s { start_write = false })

-- The HAL calls this once for a write that it took, so a packet is being written.
unfoldable pub write_completed : HalReply → Bool → Sar → Sar × List Event
write_completed io ok s = elim s.writing [
  | none ↦ (s, [])
  | some out ↦
      let idle = record s { write_pending = false } in
      let done = record s { write_pending = false; writing = none } in
      if ok
      then (if length (payload_bytes out) == out.payload_pos
          then ((attempt_write io done).0, finish_packet out true ++ (attempt_write io done).1)
          else attempt_write io idle)
      else (done, finish_packet out false ++ (client_error ∷ []))
]

-- Credits that the NFCC grants; `cid` is checked by the callers.
pub grant : LogicalConnection → ℕ → LogicalConnection
grant c credits =
    if ltb (0xff - c.credits) credits
    then record c { credits = unlimited_credits }
    else record c { credits = c.credits + credits }

unfoldable pub take_credits : Sar → ℕ → ℕ → Sar
take_credits s cid credits = if credits == 0 then s else elim (get_elem? s.conn cid) [
  | none ↦ s
  | some c ↦
      if is_nil c.out.items
      then set_conn s cid (grant c credits)
      else schedule_write (set_conn s cid (grant c credits))
]
