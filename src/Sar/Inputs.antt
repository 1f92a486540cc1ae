-- ===== src/Sar/Inputs.antt =====
-- What the requests of the client of src/nci_sar.c leave of the bytes that have been read.
use libncicore.Common.{
  ℕ, ◌≡◌, refl, ◌∙◌, Option, none, some, inl, inr, Option-cases, Bool-cases, ◌==◌, get_elem?, arith,
}
use libncicore.Sar.Defs.{PacketOut, LogicalConnection, Sar}
use libncicore.Sar.Queue.{cancel_queue}
use libncicore.Sar.Write.{schedule_write, set_conn, take_credits, grant}
use libncicore.Sar.Send.{
  Request, send, send_command, cancel_conns, cancel_queued, cancel_packet, cancel,
}
use libncicore.Sar.Setup.{
  reset, resize_conns, set_max_logical_connections, set_max_control_payload_size,
  set_max_data_payload_size, set_initial_credits, add_credits, empty_array,
}

-- the bytes that have been read and not been dealt with
pub record SameInput (s t : Sar) : Type 0 where
  pub read_buf : t.read_buf ≡ s.read_buf
  pub control_in : t.control_in ≡ s.control_in

pub same_input : {s t u : Sar} → SameInput s t → SameInput t u → SameInput s u
same_input p q = record {
  read_buf = q.read_buf ∙ p.read_buf;
  control_in = q.control_in ∙ p.control_in;
}

schedule_write_input : (s : Sar) → SameInput s (schedule_write s)
unfolding schedule_write
schedule_write_input s = ground arith

pub send_command_input :
    (s : Sar) (gid oid : ℕ) (r : Request) → SameInput s (send_command s gid oid r).0
unfolding send_command send
send_command_input s gid oid r =
    let k = schedule_write_input _ in record { read_buf = k.read_buf; control_in = k.control_in }

cancel_queued_input : (s : Sar) (id : ℕ) → SameInput s (cancel_queued s id).0
unfolding cancel_queued
cancel_queued_input s id = elim (Option-cases (cancel_queue s.cmd id)) [
  | inl e ↦ elim (Option-cases (cancel_conns s.conn id)) [
    | inl f ↦ rw (e, f, cancel_queued) record { read_buf = refl; control_in = refl }
    | inr (r, f) ↦ rw (e, f, cancel_queued) record { read_buf = refl; control_in = refl }
  ]
  | inr (r, e) ↦ rw (e, cancel_queued) record { read_buf = refl; control_in = refl }
]

cancel_packet_input :
    (s : Sar) (o : Option PacketOut) (id : ℕ) → SameInput s (cancel_packet s o id).0
unfolding cancel_packet
cancel_packet_input s none id = cancel_queued_input s id
cancel_packet_input s (some p) id = ground (arith, cancel_queued_input s id)

pub cancel_input : (s : Sar) (id : ℕ) → SameInput s (cancel s id).0
unfolding cancel
cancel_input s id = ground (arith, cancel_packet_input s s.writing id)

pub connections_input : (s : Sar) (max : ℕ) → SameInput s (set_max_logical_connections s max).0
unfolding set_max_logical_connections resize_conns
connections_input s max = ground arith

pub limits_input :
    (s : Sar) (max : ℕ)
    → SameInput s (set_max_control_payload_size s max)
      × SameInput s (set_max_data_payload_size s max)
unfolding set_max_control_payload_size set_max_data_payload_size
limits_input s max = ground arith

pub initial_credits_input : (s : Sar) (cid n : ℕ) → SameInput s (set_initial_credits s cid n)
unfolding set_initial_credits
initial_credits_input s cid n = elim (Option-cases (get_elem? s.conn cid)) [
  | inl e ↦ rw (e, set_initial_credits) record { read_buf = refl; control_in = refl }
  | inr (c, e) ↦ rw (e, set_initial_credits) record { read_buf = refl; control_in = refl }
]

granted_input :
    (s : Sar) (cid n : ℕ) (c : LogicalConnection)
    → SameInput s (schedule_write (set_conn s cid (grant c n)))
granted_input s cid n c =
    let k = schedule_write_input (set_conn s cid (grant c n)) in
    record { read_buf = k.read_buf; control_in = k.control_in }

pub add_credits_input : (s : Sar) (cid n : ℕ) → SameInput s (add_credits s cid n)
unfolding add_credits take_credits
add_credits_input s cid n = elim (Bool-cases (n == 0)) [
  | inl z ↦ rw (z, take_credits) record { read_buf = refl; control_in = refl }
  | inr z ↦ elim (Option-cases (get_elem? s.conn cid)) [
    | inl e ↦ rw (z, e, take_credits) record { read_buf = refl; control_in = refl }
    | inr (c, e) ↦ ground (arith, granted_input s cid n c, e, z)
  ]
]

-- A reset drops what is collected of a message, and keeps the bytes of a packet that is not whole.
pub reset_input :
    (s : Sar)
    → ((reset s).0.read_buf ≡ s.read_buf) × ((reset s).0.control_in ≡ empty_array s.control_in)
unfolding reset
reset_input s = (refl, refl)
