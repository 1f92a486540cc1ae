-- ===== src/Sar/Steps.antt =====
-- The life of a `NciSar` of src/nci_sar.c: the calls of its client and of its HAL as steps.
use libncicore.Common.{ℕ, true, false, List}
use libncicore.Sar.Defs.{Sar, HalReply}
use libncicore.Sar.Write.{start_write_callback, write_completed}
use libncicore.Sar.Write.Live.{IsLive, start_write_callback-IsLive, write_completed-IsLive}
use libncicore.Sar.Send.{Request, send_command, send_data_packet, cancel}
use libncicore.Sar.Send.Live.{send_command-IsLive, send_data_packet-IsLive, cancel-IsLive}
use libncicore.Sar.Read.{client_read}
use libncicore.Sar.Read.Live.{client_read-IsLive}
use libncicore.Sar.Setup.{
  new, start, reset, set_max_logical_connections, set_max_control_payload_size,
  set_max_data_payload_size, set_initial_credits, add_credits,
}
use libncicore.Sar.Setup.Live.{
  QueueIsEmpty, new-IsLive, start-IsLive, reset-IsLive, set_max_logical_connections-IsLive,
  set_max_control_payload_size-IsLive, set_max_data_payload_size-IsLive, set_initial_credits-IsLive,
  add_credits-IsLive, failed-IsLive,
}

-- The operations between two failures: initial credits are set where the queue is empty, as the
-- code asserts, and a write that the HAL reports as failed is answered by a reset.
pub data Step : Sar → Sar → Type 0 where
  started : (io : HalReply) (s : Sar) → Step s (start io s).0
  was_reset : (s : Sar) → Step s (reset s).0
  connections : (s : Sar) (max : ℕ) → Step s (set_max_logical_connections s max).0
  control_limit : (s : Sar) (max : ℕ) → Step s (set_max_control_payload_size s max)
  data_limit : (s : Sar) (max : ℕ) → Step s (set_max_data_payload_size s max)
  initial_credits :
      (s : Sar) (cid credits : ℕ) → QueueIsEmpty s cid → Step s (set_initial_credits s cid credits)
  credits : (s : Sar) (cid n : ℕ) → Step s (add_credits s cid n)
  command : (s : Sar) (gid oid : ℕ) (q : Request) → Step s (send_command s gid oid q).0
  packet : (s : Sar) (cid : ℕ) (q : Request) → Step s (send_data_packet s cid q).0
  cancelled : (s : Sar) (id : ℕ) → Step s (cancel s id).0
  read : (s : Sar) (bytes : List ℕ) → Step s (client_read s bytes).0
  idle : (io : HalReply) (s : Sar) → Step s (start_write_callback io s).0
  written : (io : HalReply) (s : Sar) → Step s (write_completed io true s).0
  failed : (io : HalReply) (s : Sar) → Step s (reset (write_completed io false s).0).0

pub data Reach (s : Sar) : Sar → Type 0 where
  here : Reach s s
  next : {t u : Sar} → Reach s t → Step t u → Reach s u

Step-IsLive : {s t : Sar} → Step s t → IsLive s → IsLive t
Step-IsLive (started io s) v = start-IsLive io s v
Step-IsLive (was_reset s) v = reset-IsLive s v
Step-IsLive (connections s max) v = set_max_logical_connections-IsLive s max v
Step-IsLive (control_limit s max) v = set_max_control_payload_size-IsLive s max v
Step-IsLive (data_limit s max) v = set_max_data_payload_size-IsLive s max v
Step-IsLive (initial_credits s cid n q) v = set_initial_credits-IsLive s cid n q v
Step-IsLive (credits s cid n) v = add_credits-IsLive s cid n v
Step-IsLive (command s gid oid q) v = send_command-IsLive s gid oid q v
Step-IsLive (packet s cid q) v = send_data_packet-IsLive s cid q v
Step-IsLive (cancelled s id) v = cancel-IsLive s id v
Step-IsLive (read s bytes) v = client_read-IsLive s bytes v
Step-IsLive (idle io s) v = start_write_callback-IsLive io s v
Step-IsLive (written io s) v = write_completed-IsLive io s v
Step-IsLive (failed io s) v = failed-IsLive io s v

-- From a new NciSar, after any calls and whatever the HAL answers, the write side does not stall:
-- a packet is held exactly while its write is pending, the HAL is started then, and a packet that
-- can be written has a write scheduled; initial credits are set on empty queues, and a failed
-- write is followed by a reset.
pub Reach-IsLive : {s : Sar} → Reach new s → IsLive s
Reach-IsLive here = new-IsLive
Reach-IsLive (next r st) = Step-IsLive st (Reach-IsLive r)
