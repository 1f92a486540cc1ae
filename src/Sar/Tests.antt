-- ===== src/Sar/Tests.antt =====
-- Runs of the model of src/nci_sar.c, and its theorems at concrete inputs.
use libncicore.Common.{
  ℕ, ◌≡◌, refl, true, false, Option, none, some, List, [], ◌∷◌, arith, inl, append-nil,
}
use libncicore.Sar.Defs.{
  PacketOut, LogicalConnection, Sar, HalReply, empty_queue, response, data_packet, hal_write,
  completed, destroyed,
}
use libncicore.Sar.Queue.{cancel_queue, packet_out_free, packet_out_complete}
use libncicore.Sar.Queue.Fifo.{QueueOp, put, remove, take_first, run_ops, IsLinked, run_ops_refines}
use libncicore.Sar.Queue.Cancel.{Cancels, cancel_queue_lem}
use libncicore.Sar.Write.{
  next_segment, last_segment, more_segment, write_completed, set_conn, start_write_callback,
  finish_packet,
}
use libncicore.Sar.Write.Segments.{segments}
use libncicore.Sar.Write.Live.{IsLive}
use libncicore.Sar.Send.{Request, new_packet, send_data_packet, send_command, next_id}
use libncicore.Sar.Read.{
  handle_control_packet, Segment, array_bytes, client_read, handle_packets, next_packet,
}
use libncicore.Sar.Read.Stream.{handle_packets_done}
use libncicore.Sar.Read.Frames.{handle_all, client_read-stream}
use libncicore.Sar.Read.Refine.{view, observe, feed, read_all, client_read_refines, read_all-joined}
use libncicore.Sar.Transmit.{quiet}
use libncicore.Sar.Delivery.{
  transmission, after_send, wire, data_packet_transmitted, data_packet_delivered,
}
use libncicore.Sar.Control.{control_message_reassembled}
use libncicore.Sar.Setup.{new}
use libncicore.Sar.Roundtrip.{data_packet_roundtrip}
use libncicore.Sar.Steps.{here, next, command, idle, Reach-IsLive}
use libncicore.Sar.Requeue.{starved, requeued_packet_lost}

-- one connection, idle
abbrev ready : Sar
ready = record {
  started = true;
  control_payload_limit = 32;
  data_payload_limit = 2;
  last_packet_id = 7;
  start_write = false;
  write_pending = false;
  writing = none;
  cmd = empty_queue;
  conn = record { credits = 255; input = none; out = empty_queue } ∷ [];
  control_in = none;
  read_buf = none;
}

abbrev hello : Request
hello = record { payload = some (1 ∷ 2 ∷ 3 ∷ []); complete = true; destroy = true; user_data = 5 }

abbrev accept : HalReply
accept = record { start = true; write = true }

abbrev outgoing : PacketOut
outgoing = record {
  conn = some 0;
  hdr0 = 0;
  hdr1 = 0;
  hdr2 = 0;
  payload = some (1 ∷ 2 ∷ 3 ∷ []);
  payload_pos = 2;
  complete = true;
  destroy = true;
  user_data = 5;
  id = 8;
}

-- RSP 40 00 with one byte, then the beginning of another packet
abbrev response_bytes : List ℕ
response_bytes = 0x40 ∷ 1 ∷ 1 ∷ 9 ∷ 0x40 ∷ []

cancel_queue_lem_example :
    Cancels
      (record { items = outgoing ∷ []; last = true })
      8
      (cancel_queue (record { items = outgoing ∷ []; last = true }) 8)
cancel_queue_lem_example = cancel_queue_lem (record { items = outgoing ∷ []; last = true }) 8

handle_packets_done_example : next_packet (handle_packets 5 ready response_bytes).1 ≡ none
handle_packets_done_example = handle_packets_done 5 ready response_bytes (omega arith)

client_read_refines_example :
    observe (client_read ready response_bytes) ≡ feed (view ready) response_bytes
client_read_refines_example = client_read_refines ready response_bytes refl

read_all-joined_example :
    observe (read_all ready ((0x40 ∷ 1 ∷ []) ∷ (1 ∷ 9 ∷ 0x40 ∷ []) ∷ []))
    ≡ observe (client_read ready response_bytes)
read_all-joined_example = read_all-joined ready ((0x40 ∷ 1 ∷ []) ∷ (1 ∷ 9 ∷ 0x40 ∷ []) ∷ []) refl

abbrev one_response : List Segment
one_response = record { hdr0 = 0x40; hdr1 = 1; hdr2 = 1; payload = 9 ∷ [] } ∷ []

client_read-stream_example :
    let (s', evs) = handle_all ready one_response in
    observe (client_read ready response_bytes) ≡ ((s', 0x40 ∷ []), evs)
client_read-stream_example = client_read-stream ready one_response (0x40 ∷ []) refl (refl, tt) refl

data_packet_roundtrip_example :
    (kept : Option (List ℕ)) × (observe
        (read_all ready ((0x10 ∷ 0 ∷ []) ∷ (2 ∷ 1 ∷ 2 ∷ 0 ∷ 0 ∷ 1 ∷ 3 ∷ []) ∷ []))
      ≡ (
        (set_conn ready 0 (record { credits = 255; input = kept; out = empty_queue }), []),
        data_packet 0 (1 ∷ 2 ∷ 3 ∷ []) ∷ [],
      ))
    × (array_bytes kept ≡ [])
unfolding segments new_packet next_segment last_segment more_segment
data_packet_roundtrip_example =
    data_packet_roundtrip 8 0 2 hello ready
      (record { credits = 255; input = none; out = empty_queue })
      ((0x10 ∷ 0 ∷ []) ∷ (2 ∷ 1 ∷ 2 ∷ 0 ∷ 0 ∷ 1 ∷ 3 ∷ []) ∷ []) (omega arith) (omega arith)
      (omega arith) refl refl refl refl

Reach-IsLive_example : IsLive (start_write_callback accept (send_command new 0 1 hello).0).0
Reach-IsLive_example =
    Reach-IsLive
      (next (next here (command new 0 1 hello)) (idle accept (send_command new 0 1 hello).0))

requeued_packet_lost_example :
    let (s', evs) = write_completed accept true (starved ready none outgoing) in
    let (t, id) = send_data_packet s' 0 hello in
    (t.writing ≡ none)
    × (t.cmd.items ≡ [])
    × ((c : LogicalConnection) × (t.conn ≡ c ∷ [])
        × (c.out.items ≡ new_packet id (some 0) 0 0 hello ∷ []))
    × (evs ≡ [])
requeued_packet_lost_example = requeued_packet_lost accept ready none outgoing hello (omega arith)

data_packet_transmitted_example : transmission ready none hello ≡ (
  quiet (after_send ready) none,
  hal_write (0x10 ∷ 0 ∷ 2 ∷ 1 ∷ 2 ∷ []) true
      ∷ hal_write (0 ∷ 0 ∷ 1 ∷ 3 ∷ []) true
      ∷ completed 5 true
      ∷ destroyed 5
      ∷ [],
)
unfolding segments new_packet next_segment last_segment more_segment finish_packet packet_out_free
    packet_out_complete next_id
data_packet_transmitted_example =
    data_packet_transmitted ready none hello (omega arith) (omega arith)

data_packet_delivered_example :
    (kept : Option (List ℕ)) × (observe
        (read_all ready (wire (transmission ready none hello).1 ∷ []))
      ≡ (
        (set_conn ready 0 (record { credits = 255; input = kept; out = empty_queue }), []),
        data_packet 0 (1 ∷ 2 ∷ 3 ∷ []) ∷ [],
      ))
    × (array_bytes kept ≡ [])
unfolding new_packet
data_packet_delivered_example =
    data_packet_delivered ready none hello ready
      (record { credits = 255; input = none; out = empty_queue })
      (wire (transmission ready none hello).1 ∷ []) (omega arith) (omega arith) refl refl refl
      (append-nil (wire (transmission ready none hello).1))

control_message_reassembled_example :
    (kept : Option (List ℕ)) × (observe
        (read_all ready ((0x50 ∷ 1 ∷ 2 ∷ 8 ∷ []) ∷ (9 ∷ 0x40 ∷ 1 ∷ 1 ∷ 7 ∷ []) ∷ []))
      ≡ ((record ready { control_in = kept }, []), response 0 1 (8 ∷ 9 ∷ 7 ∷ []) ∷ []))
    × (array_bytes kept ≡ [])
unfolding handle_control_packet
control_message_reassembled_example =
    control_message_reassembled 0x40 1 (record { byte = omega arith; kind = inl refl; flag = refl })
      ((8 ∷ 9 ∷ []) ∷ []) (7 ∷ []) ready
      ((0x50 ∷ 1 ∷ 2 ∷ 8 ∷ []) ∷ (9 ∷ 0x40 ∷ 1 ∷ 1 ∷ 7 ∷ []) ∷ []) refl refl refl

abbrev queue_ops : List QueueOp
queue_ops =
    put outgoing ∷ put (record outgoing { id = 9 }) ∷ remove 9 ∷ take_first ∷ put outgoing ∷ []

run_ops_refines_example :
    ((run_ops empty_queue queue_ops).items ≡ outgoing ∷ [])
    × IsLinked (run_ops empty_queue queue_ops)
run_ops_refines_example = run_ops_refines empty_queue queue_ops refl
