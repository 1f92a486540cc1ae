-- ===== src/Sar/Requeue.antt =====
-- A data packet that src/nci_sar.c puts back to its queue when the credits run out between two of
-- its segments.
use libncicore.Common.{
  ℕ, ◌≡◌, ◌≢◌, refl, true, false, Option, none, some, List, [], ◌∷◌, length, arith, ◌==◌, bit_and,
}
use libncicore.Sar.Defs.{
  PacketOut, LogicalConnection, Sar, HalReply, empty_queue, nci_data_cid_mask,
}
use libncicore.Sar.Queue.{put_back, enqueue}
use libncicore.Sar.Write.{
  attempt_write, charge_writing, charge_packet, pick_packet, write_completed, payload_bytes,
  submit_writing, schedule_write, can_send, first_ready,
}
use libncicore.Sar.Send.{Request, new_packet, next_id, send_data_packet}

-- The default single connection, with no credits left and nothing in its queue, while its packet
-- `out` is being written and no command waits.
abbrev pub starved : Sar → Option (List ℕ) → PacketOut → Sar
starved s input out = record s {
  write_pending = true;
  writing = some (record out { conn = some 0 });
  cmd = empty_queue;
  conn = record { credits = 0; input = input; out = empty_queue } ∷ [];
}

-- The packet is back in the queue, and `last` is still NULL.
abbrev pub put_aside : Sar → Option (List ℕ) → PacketOut → Sar
put_aside s input out = record s {
  write_pending = false;
  writing = none;
  cmd = empty_queue;
  conn =
      record {
        credits = 0;
        input = input;
        out = record { items = record out { conn = some 0 } ∷ []; last = false };
      }
      ∷ [];
}

pub differs : (a b : ℕ) → a ≢ b → (a == b) ≡ false
differs a b h = ground arith

-- The HAL is done with a segment that is not the last, and there is no credit for the next.
pub write_completed-put_aside :
    (io : HalReply) (s : Sar) (input : Option (List ℕ)) (out : PacketOut)
    → length (payload_bytes out) ≢ out.payload_pos
    → write_completed io true (starved s input out) ≡ (put_aside s input out, [])
unfolding write_completed attempt_write charge_writing put_back pick_packet first_ready can_send
    submit_writing charge_packet
write_completed-put_aside io s input out h = rw (differs _ _ h, write_completed) refl

-- With one connection that has no credits left and an empty queue, and no command waiting, a
-- packet that has a segment to go is put back when a segment is done; the next packet sent on that
-- connection is then its whole queue, and the old one is neither queued nor being written and no
-- callback of it has been called.
pub requeued_packet_lost :
    (io : HalReply) (s : Sar) (input : Option (List ℕ)) (out : PacketOut) (q : Request)
    → length (payload_bytes out) ≢ out.payload_pos
    → let (s', evs) = write_completed io true (starved s input out) in
      let (t, id) = send_data_packet s' 0 q in
      (t.writing ≡ none)
      × (t.cmd.items ≡ [])
      × ((c : LogicalConnection) × (t.conn ≡ c ∷ [])
          × (c.out.items ≡ new_packet id (some 0) (bit_and 0 nci_data_cid_mask) 0 q ∷ []))
      × (evs ≡ [])
unfolding send_data_packet schedule_write enqueue
requeued_packet_lost io s input out q h =
    let id = next_id s.last_packet_id in
    let new = new_packet id (some 0) (bit_and 0 nci_data_cid_mask) 0 q in
    let c : LogicalConnection = record {
      credits = 0;
      input = input;
      out = record { items = new ∷ []; last = true };
    } in
    rw (write_completed-put_aside io s input out h)
      (ground arith, ground arith, (c, ground arith, ground arith), refl)
