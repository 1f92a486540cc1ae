-- ===== src/Sar/Delivery.antt =====
-- A data packet on its way from one side of src/nci_sar.c to the other, over a HAL that works.
use libncicore.Common.{
  ℕ, suc, ◌<◌, ◌≡◌, refl, ap, ◌∙◌, Bool, true, false, Option, none, some, List, [], ◌∷◌, ◌++◌,
  length, get_elem?, arith, if◌then◌else◌,
}
use libncicore.Sar.Defs.{
  destroyed, PacketOut, LogicalConnection, Sar, Event, hal_write, completed, data_packet,
}
use libncicore.Sar.Queue.{enqueue, packet_out_free, packet_out_complete}
use libncicore.Sar.Write.{
  schedule_write, start_write_callback, next_segment, payload_bytes, finish_packet, set_conn,
}
use libncicore.Sar.Write.Credits.{with_buf}
use libncicore.Sar.Write.Segments.{segments}
use libncicore.Sar.Send.{Request, send, send_data_packet, next_id, new_packet}
use libncicore.Sar.Read.{array_bytes}
use libncicore.Sar.Read.Refine.{observe, read_all, joined}
use libncicore.Sar.Roundtrip.{data_out, data_out-IsData, data_packet_roundtrip}
use libncicore.Sar.NextSegment.{
  segments-later, finish_packet-next_segment, next_segment-IsData, next_segment-remaining,
}
use libncicore.Sar.Transmit.{
  accept, transmit, writes, quiet, waiting, queued, attempt_write-queued, transmit-waiting,
}

schedule_write-reset :
    (s : Sar) → record (schedule_write s) { start_write = false } ≡ record s { start_write = false }
unfolding schedule_write
schedule_write-reset s = ground arith

-- the id that the packet gets
abbrev fresh : Sar → ℕ
fresh s = next_id s.last_packet_id

-- what the sender has changed for good when it is idle again
abbrev pub after_send : Sar → Sar
after_send s = record s { last_packet_id = fresh s; start_write = false }

start_write_callback-send_data_packet :
    (s : Sar) (input : Option (List ℕ)) (q : Request)
    → let out = data_out (fresh s) 0 q in
      start_write_callback accept (send_data_packet (quiet s input) 0 q).0 ≡ (
        waiting (after_send s) input (next_segment s.data_payload_limit out).0,
        hal_write (next_segment s.data_payload_limit out).1 true ∷ [],
      )
unfolding start_write_callback send_data_packet send enqueue new_packet
start_write_callback-send_data_packet s input q =
    let out = data_out (fresh s) 0 q in
    rw (schedule_write-reset (record (queued s input out) { last_packet_id = fresh s }))
      (attempt_write-queued (after_send s) input out (data_out-IsData (fresh s) 0 q (omega arith)))

-- the bytes that the HAL has put on the wire
abbrev pub wire : List Event → List ℕ
wire [] = []
wire (hal_write bytes true ∷ evs) = bytes ++ wire evs
wire (ev ∷ evs) = wire evs

wire-finish_packet : (out : PacketOut) (ok : Bool) → wire (finish_packet out ok) ≡ []
unfolding finish_packet packet_out_free packet_out_complete
wire-finish_packet out ok = go out.complete out.destroy
  where
    go :
        (complete destroy : Bool)
        → wire (
            (if complete then completed out.user_data ok ∷ [] else [])
            ++ (if destroy then destroyed out.user_data ∷ [] else []))
          ≡ []
    go true true = refl
    go true false = refl
    go false true = refl
    go false false = refl

wire-writes :
    (ls : List (List ℕ)) (evs : List Event) → wire evs ≡ [] → wire (writes ls ++ evs) ≡ joined ls
wire-writes [] evs h = h
wire-writes (l ∷ ls) evs h = ap (λ b. l ++ b) (wire-writes ls evs h)

module _ (s : Sar) (input : Option (List ℕ)) (q : Request) where
  -- what the packet needs of the HAL, in order: its segments, its completion and its release
  abbrev on_wire : List (List ℕ)
  on_wire =
      let out = data_out (fresh s) 0 q in
      segments (suc (length (payload_bytes out))) s.data_payload_limit out

  -- the idle callback, then one round of the HAL for each segment
  abbrev pub transmission : Sar × List Event
  transmission =
      let (t, evs) = start_write_callback accept (send_data_packet (quiet s input) 0 q).0 in
      let (t', evs') = transmit (suc (length (payload_bytes (data_out (fresh s) 0 q)))) t in
      (t', evs ++ evs')

  -- A data packet that a started and idle sender with one connection of unlimited credits is given
  -- goes out, with a HAL that takes every write and a limit of 1 to 255 on the payload of a
  -- segment, as its segments, each once and in order; then it is completed and released, and the
  -- sender is idle again.
  pub data_packet_transmitted :
      s.data_payload_limit < 256
      → 0 < s.data_payload_limit
      → transmission ≡ (
        quiet (after_send s) input,
        writes on_wire ++ finish_packet (data_out (fresh s) 0 q) true,
      )
  data_packet_transmitted small positive =
      let out = data_out (fresh s) 0 q in
      let max = s.data_payload_limit in
      let n = length (payload_bytes out) in
      let d = data_out-IsData (fresh s) 0 q (omega arith) in
      rw
        (
          start_write_callback-send_data_packet s input q,
          transmit-waiting (after_send s) input small positive n (next_segment max out).0
              (next_segment-IsData 0 max out small positive d)
              (omega (arith, next_segment-remaining max out)),
          segments-later n max out,
          finish_packet-next_segment max out true,
        )
        refl

  -- What a started and idle sender with one connection of unlimited credits puts on the wire for a
  -- data packet that it is given, with a HAL that takes every write and a limit of 1 to 255 on the
  -- payload of a segment, and read in any chunks by a receiver that has no byte waiting and has
  -- collected nothing on connection 0, is delivered to its client there once with the payload that
  -- was sent, and leaves nothing collected and no byte pending.
  pub data_packet_delivered :
      (r : Sar) (c : LogicalConnection) (chunks : List (List ℕ))
      → s.data_payload_limit < 256
      → 0 < s.data_payload_limit
      → r.read_buf ≡ none
      → get_elem? r.conn 0 ≡ some c
      → array_bytes c.input ≡ []
      → joined chunks ≡ wire transmission.1
      → (kept : Option (List ℕ)) × (observe (read_all r chunks) ≡ (
        (set_conn (with_buf r none) 0 (record c { input = kept }), []),
        data_packet 0 (payload_bytes (data_out (fresh s) 0 q)) ∷ [],
      ))
        × (array_bytes kept ≡ [])
  data_packet_delivered r c chunks small positive buf at got same =
      let out = data_out (fresh s) 0 q in
      data_packet_roundtrip (fresh s) 0 s.data_payload_limit q r c chunks (omega arith) positive
        small buf at got
        (same
          ∙ ap (λ t. wire t.1) (data_packet_transmitted small positive)
          ∙ wire-writes on_wire (finish_packet out true) (wire-finish_packet out true))
