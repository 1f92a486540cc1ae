-- ===== src/Sar/Transmit.antt =====
-- The write side of src/nci_sar.c with a HAL that takes every write and reports it as done: what it
-- puts on the wire for a data packet.
use libncicore.Common.{
  ℕ, zero, suc, ◌≤◌, ◌<◌, ◌≡◌, ◌≢◌, refl, true, false, Option, none, some, List, [], ◌∷◌, ◌++◌,
  length, arith, dec_lt, append-nil, ==_iff,
}
use libncicore.Sar.Defs.{PacketOut, Sar, HalReply, Event, hal_write, empty_queue}
use libncicore.Sar.Queue.{packet_out_free, packet_out_complete, drop_first}
use libncicore.Sar.Requeue.{differs}
use libncicore.Sar.Write.{
  attempt_write, charge_writing, charge_packet, spend_credit, pick_packet, submit_writing, submit,
  write_completed, payload_bytes, remaining_payload_len, max_payload_size, next_segment,
  finish_packet, first_ready, can_send, take_data, take_packet,
}
use libncicore.Sar.Hearing.{IsData}
use libncicore.Sar.NextSegment.{
  next_segment-conn, next_segment-IsData, next_segment_shrinks, finish_packet-next_segment,
  later_segments, segments-later,
}

abbrev pub accept : HalReply
accept = record { start = true; write = true }

-- The HAL reports one write after another as done, until none is pending; one round for each.
pub transmit : ℕ → Sar → Sar × List Event
transmit zero s = (s, [])
transmit (suc rounds) s = elim s.write_pending [
  | false ↦ (s, [])
  | true ↦
      let (s', evs) = write_completed accept true s in
      let (s'', evs') = transmit rounds s' in (s'', evs ++ evs')
]

-- the writes of these segments
abbrev pub writes : List (List ℕ) → List Event
writes [] = []
writes (bytes ∷ more) = hal_write bytes true ∷ writes more

-- The default single connection, with unlimited credits and no packet but the one that is written.
module _ (s : Sar) (input : Option (List ℕ)) where
  abbrev pub quiet : Sar
  quiet = record s {
    started = true;
    write_pending = false;
    writing = none;
    cmd = empty_queue;
    conn = record { credits = 255; input = input; out = empty_queue } ∷ [];
  }

  abbrev pub begun : PacketOut → Sar
  begun out = record s {
    started = true;
    write_pending = false;
    writing = some (record out { conn = some 0 });
    cmd = empty_queue;
    conn = record { credits = 255; input = input; out = empty_queue } ∷ [];
  }

  abbrev pub waiting : PacketOut → Sar
  waiting out = record s {
    started = true;
    write_pending = true;
    writing = some (record out { conn = some 0 });
    cmd = empty_queue;
    conn = record { credits = 255; input = input; out = empty_queue } ∷ [];
  }

  data_limit :
      (out : PacketOut)
      → IsData 0 out
      → max_payload_size (begun out) (record out { conn = some 0 }) ≡ s.data_payload_limit
  unfolding max_payload_size
  data_limit out d = rw d.mt refl

  -- one segment goes out
  attempt_write-begun :
      (out : PacketOut)
      → IsData 0 out
      → attempt_write accept (begun out) ≡ (
        waiting (next_segment s.data_payload_limit out).0,
        hal_write (next_segment s.data_payload_limit out).1 true ∷ [],
      )
  unfolding attempt_write charge_writing charge_packet spend_credit pick_packet submit_writing
      submit
  attempt_write-begun out d =
      rw (data_limit out d, submit, next_segment-conn s.data_payload_limit out) refl

  -- The HAL is done with the last segment: the packet is completed and released.
  write_completed-last :
      (out : PacketOut)
      → length (payload_bytes out) ≡ out.payload_pos
      → write_completed accept true (waiting out) ≡ (quiet, finish_packet out true)
  unfolding write_completed attempt_write charge_writing pick_packet first_ready can_send take_data
      submit_writing finish_packet packet_out_free packet_out_complete
  write_completed-last out e = rw ((==_iff _ _).1 e, write_completed, append-nil) refl

  -- The HAL is done with another: the next one goes out.
  write_completed-more :
      (out : PacketOut)
      → IsData 0 out
      → length (payload_bytes out) ≢ out.payload_pos
      → write_completed accept true (waiting out) ≡ (
        waiting (next_segment s.data_payload_limit out).0,
        hal_write (next_segment s.data_payload_limit out).1 true ∷ [],
      )
  unfolding write_completed
  write_completed-more out d h = rw (differs _ _ h, write_completed) (attempt_write-begun out d)

  -- the packet is on the queue of its connection
  abbrev pub queued : PacketOut → Sar
  queued out = record quiet {
    conn =
        record { credits = 255; input = input; out = record { items = out ∷ []; last = true } }
        ∷ [];
  }

  pub attempt_write-queued :
      (out : PacketOut)
      → IsData 0 out
      → attempt_write accept (queued (record out { conn = some 0 })) ≡ (
        waiting (next_segment s.data_payload_limit out).0,
        hal_write (next_segment s.data_payload_limit out).1 true ∷ [],
      )
  unfolding max_payload_size attempt_write charge_writing can_send first_ready drop_first take_data
      take_packet spend_credit pick_packet submit_writing submit
  attempt_write-queued out d = rw (d.mt, submit, next_segment-conn s.data_payload_limit out) refl

  transmit-quiet : (rounds : ℕ) → transmit rounds quiet ≡ (quiet, [])
  unfolding transmit
  transmit-quiet zero = refl
  transmit-quiet (suc rounds) = refl

  module _ (small : s.data_payload_limit < 256) (positive : 0 < s.data_payload_limit) where
    -- Nothing is left: one round ends it.
    transmit-done :
        (f : ℕ) (out : PacketOut)
        → length (payload_bytes out) ≡ out.payload_pos
        → transmit (suc f) (waiting out)
          ≡ (quiet, writes (later_segments f s.data_payload_limit out) ++ finish_packet out true)
    unfolding transmit
    transmit-done f out e =
        rw (write_completed-last out e, (==_iff _ _).1 e, transmit-quiet f, append-nil) refl

    transmit-step :
        (rounds : ℕ) (out : PacketOut) (t : Sar) (evs : List Event)
        → write_completed accept true (waiting out) ≡ (t, evs)
        → transmit (suc rounds) (waiting out)
          ≡ ((transmit rounds t).0, evs ++ (transmit rounds t).1)
    unfolding transmit
    transmit-step rounds out t evs e = rw e refl

    pub transmit-waiting :
        (f : ℕ) (out : PacketOut)
        → IsData 0 out
        → remaining_payload_len out ≤ f
        → transmit (suc f) (waiting out)
          ≡ (quiet, writes (later_segments f s.data_payload_limit out) ++ finish_packet out true)
    transmit-waiting zero out d enough = transmit-done zero out (omega (arith, d.placed))
    transmit-waiting (suc f) out d enough =
        let next = (next_segment s.data_payload_limit out).0 in
        let rest =
          transmit-waiting f next
            (next_segment-IsData 0 s.data_payload_limit out small positive d) in
        elim (dec_lt out.payload_pos (length (payload_bytes out))) [
          | no n ↦ transmit-done (suc f) out (omega (arith, d.placed))
          | yes more ↦
              rw
                (
                  transmit-step (suc f) out (waiting next)
                      (hal_write (next_segment s.data_payload_limit out).1 true ∷ [])
                      (write_completed-more out d (omega arith)),
                  rest (
                      omega (
                        arith,
                        next_segment_shrinks s.data_payload_limit out positive (omega arith),
                      )),
                  differs (length (payload_bytes out)) out.payload_pos (omega arith),
                  segments-later f s.data_payload_limit out,
                  finish_packet-next_segment s.data_payload_limit out true,
                )
                refl
        ]
