-- ===== src/Core/Command.antt =====
-- The `NciSmIo` of src/nci_core.c: how its object carries out what a call of the state machine asks
-- for, in order. `insert_sorted` stands for `g_slist_insert_sorted` of GLib.
use libncicore.Common.{ℕ, true, false, Option, none, some, List, [], ◌∷◌, if◌then◌else◌, ◌==◌}
use libncicore.Util.Types.{DiscoveryNtf}
use libncicore.Sar.Defs.{Sar}
use libncicore.Sar.Send.{Request, send_command, cancel}
use libncicore.Sar.Setup.{
  set_max_logical_connections, set_max_control_payload_size, set_max_data_payload_size,
  set_initial_credits, add_credits,
}
use libncicore.Sm.Machine.{
  Handler, Event, Machine, host_select_rsp, next_state_changed, last_state_changed,
  interface_activated, sends, selects, io_cancelled, max_logical_connections, max_control_payload,
  max_data_payload, initial_credits, credits_added,
}
use libncicore.Sm.HostSelect.{Compare, selected_target, discover_select}
use libncicore.Core.Object.{
  NciCore, current_state_changed, next_state_changed as next_state_signal, intf_activated, emits,
  with_sar,
}

-- The response function is also called, with NCI_REQUEST_CANCELLED: all of them ignore that
-- (`respond-cancelled`).
unfoldable pub cancel_command : NciCore → NciCore
cancel_command c =
    let stopped = record c { cmd_timer = false } in
    let cancelled = with_sar (cancel c.sar c.cmd_id) stopped in
    if c.cmd_id == 0 then stopped else record cancelled { cmd_id = 0; rsp_handler = none }

abbrev pub command : List ℕ → Request
command payload = record { payload = some payload; complete = true; destroy = false; user_data = 0 }

-- `g_timeout_add`, where a command has been sent
unfoldable pub await : ℕ → ℕ → Handler → Sar × ℕ → NciCore → NciCore
await gid oid rsp (s, id) c =
    let asked = record c { sar = s; rsp_gid = gid; rsp_oid = oid; cmd_id = id } in
    if id == 0 then record asked { rsp_handler = none } else record asked {
      rsp_handler = some rsp;
      cmd_timer = if c.cmd_timeout == 0 then c.cmd_timer else true;
    }

-- `nci_core_io_send`
unfoldable pub io_send : ℕ → ℕ → List ℕ → Handler → NciCore → NciCore
io_send gid oid payload rsp c =
    let d = cancel_command c in await gid oid rsp (send_command d.sar gid oid (command payload)) d

-- `nci_core_io_cancel`
unfoldable pub io_cancel : NciCore → NciCore
io_cancel c = cancel_command (record c { rsp_handler = none })

-- the static RF connection
abbrev pub static_rf_conn_id : ℕ
static_rf_conn_id = 0

-- A call of the state machine. Its commands can be sent (`send_command-sent`), and its timeout is
-- that of the commands.
abbrev pub ready : NciCore → Machine
ready c = record c.sm { log = []; io_sends = true; io_timeout = c.cmd_timeout }

module _ (insert_sorted : Compare → List DiscoveryNtf → DiscoveryNtf → List DiscoveryNtf) where
  -- RF_DISCOVER_SELECT_CMD for the target that is selected
  unfoldable pub io_select : Option DiscoveryNtf → NciCore → NciCore
  io_select none c = c
  io_select (some d) c = io_send 1 4 (discover_select d) host_select_rsp c

  unfoldable pub perform : Event → NciCore → NciCore
  perform (next_state_changed s) c = emits next_state_signal (record c { next_state = s })
  perform (last_state_changed s) c = emits current_state_changed (record c { current_state = s })
  perform (interface_activated n) c = emits (intf_activated n) c
  perform (sends gid oid payload rsp) c = io_send gid oid payload rsp c
  perform (selects l) c = io_select (selected_target insert_sorted l) c
  perform io_cancelled c = io_cancel c
  perform (max_logical_connections n) c = with_sar (set_max_logical_connections c.sar n) c
  perform (max_control_payload n) c = record c { sar = set_max_control_payload_size c.sar n }
  perform (max_data_payload n) c = record c { sar = set_max_data_payload_size c.sar n }
  perform (initial_credits n) c = record c { sar = set_initial_credits c.sar static_rf_conn_id n }
  perform (credits_added cid n) c = record c { sar = add_credits c.sar cid n }

  unfoldable pub perform_all : List Event → NciCore → NciCore
  perform_all [] c = c
  perform_all (e ∷ es) c = perform_all es (perform e c)

  unfoldable pub run : (Machine → Machine) → NciCore → NciCore
  run f c = let m = f (ready c) in perform_all m.log (record c { sm = m })
