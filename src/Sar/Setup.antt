-- ===== src/Sar/Setup.antt =====
-- Creation, start, reset and limits of src/nci_sar.c.
pub mod Live
use libncicore.Common.{
  ℕ, ◌-◌, Bool, true, false, ◌&&◌, Option, none, some, List, [], ◌∷◌, ◌++◌, if◌then◌else◌, ◌==◌,
  ltb, get_elem?, take, drop, replicate,
}
use libncicore.Sar.Defs.{
  PacketOut, LogicalConnection, Sar, HalReply, Event, hal_start, hal_stop, hal_cancel_write,
  empty_queue, new_connection, max_logical_conns, min_control_payload_limit, min_data_payload_limit,
  default_max_logical_connections,
}
use libncicore.Sar.Queue.{clear_queue}
use libncicore.Sar.Write.{is_some, finish_packet, set_conn, take_credits}

unfoldable pub new : Sar
new = record {
  started = false;
  control_payload_limit = min_control_payload_limit;
  data_payload_limit = min_data_payload_limit;
  last_packet_id = 0;
  start_write = false;
  write_pending = false;
  writing = none;
  cmd = empty_queue;
  conn = replicate default_max_logical_connections new_connection;
  control_in = none;
  read_buf = none;
}

-- The Boolean is the result, `self->started`.
pub start : HalReply → Sar → Sar × Bool × List Event
start io s =
    if s.started then (s, true, []) else (record s { started = io.start }, io.start, hal_start ∷ [])

-- `g_byte_array_set_size(array, 0)`, if the array is there
abbrev pub empty_array : Option (List ℕ) → Option (List ℕ)
empty_array none = none
empty_array (some bytes) = some []

pub reset_connection : LogicalConnection → LogicalConnection
reset_connection c = record { credits = 0; input = empty_array c.input; out = empty_queue }

pub reset_conns : List LogicalConnection → List LogicalConnection × List Event
reset_conns [] = ([], [])
reset_conns (c ∷ cs) =
    let (cs', evs) = reset_conns cs in (reset_connection c ∷ cs', (clear_queue c.out).1 ++ evs)

cancelled : Option PacketOut → List Event
cancelled none = []
cancelled (some out) = finish_packet out false

-- The packet that was being written is completed after all else; `read_buf` is left alone.
unfoldable pub reset : Sar → Sar × List Event
unfolding cancelled
reset s =
    let cancel_write : List Event =
      if is_some s.writing && s.write_pending then hal_cancel_write ∷ [] else [] in
    let stop : List Event = if s.started then hal_stop ∷ [] else [] in
    let (conns, freed) = reset_conns s.conn in
    let (cmd, freed_cmd) = clear_queue s.cmd in
    (
      record s {
        writing = none;
        write_pending = if is_some s.writing then false else s.write_pending;
        started = false;
        conn = conns;
        control_in = empty_array s.control_in;
        cmd = cmd;
        start_write = false;
      },
      cancel_write ++ (stop ++ (freed ++ (freed_cmd ++ cancelled s.writing))),
    )

-- The callbacks of `nci_sar_free`; the rest of it frees memory.
pub free : Sar → List Event
free s = (reset s).1

pub clear_conns : List LogicalConnection → List Event
clear_conns [] = []
clear_conns (c ∷ cs) = (clear_queue c.out).1 ++ clear_conns cs

unfoldable pub resize_conns : Sar → ℕ → Sar × List Event
resize_conns s max =
    if ltb (max_logical_conns s) max
    then (record s { conn = s.conn ++ replicate (max - max_logical_conns s) new_connection }, [])
    else if ltb max (max_logical_conns s)
    then (record s { conn = take max s.conn }, clear_conns (drop max s.conn))
    else (s, [])

unfoldable pub set_max_logical_connections : Sar → ℕ → Sar × List Event
unfolding resize_conns
set_max_logical_connections s max =
    resize_conns s (if max == 0 then default_max_logical_connections else max)

unfoldable pub set_max_control_payload_size : Sar → ℕ → Sar
set_max_control_payload_size s max =
    if ltb max min_control_payload_limit
    then record s { control_payload_limit = min_control_payload_limit }
    else record s { control_payload_limit = max }

unfoldable pub set_max_data_payload_size : Sar → ℕ → Sar
set_max_data_payload_size s max =
    if ltb max min_data_payload_limit
    then record s { data_payload_limit = min_data_payload_limit }
    else record s { data_payload_limit = max }

unfoldable pub set_initial_credits : Sar → ℕ → ℕ → Sar
set_initial_credits s cid credits = elim (get_elem? s.conn cid) [
  | none ↦ s
  | some c ↦ set_conn s cid (record c { credits = credits })
]

unfoldable pub add_credits : Sar → ℕ → ℕ → Sar
add_credits s cid credits = take_credits s cid credits
