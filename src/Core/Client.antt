-- ===== src/Core/Client.antt =====
-- What the SAR and the main loop call in src/nci_core.c. The packets of a read are taken one by one,
-- as the loops of src/nci_sar.c do, and each of them reaches the object before the next is looked at.
use libncicore.Common.{
  ℕ, zero, suc, Bool, false, ◌&&◌, Option, none, some, List, [], ◌∷◌, ◌++◌, if◌then◌else◌, ◌==◌,
  length,
}
use libncicore.Util.Types.{DiscoveryNtf}
use libncicore.Sar.Defs.{
  Sar, HalReply, Event, completed, client_error, response, notification, data_packet,
}
use libncicore.Sar.Queue.{is_nil}
use libncicore.Sar.Write.{write_completed, start_write_callback}
use libncicore.Sar.Send.{cancel}
use libncicore.Sar.Read.{array_bytes, next_packet, handle_segment}
use libncicore.Sm.Types.{Transition, success, timeout, stall_error}
use libncicore.Sm.Machine.{Handler}
use libncicore.Sm.HostSelect.{Compare}
use libncicore.Sm.Control.{stall}
use libncicore.Sm.Switch.{switch_proc, transition_timeout}
use libncicore.Sm.Respond.{respond}
use libncicore.Sm.Notify.{handle_ntf}
use libncicore.Core.Object.{NciCore, data_packet as data_packet_signal, emits, drop_event, with_sar}
use libncicore.Core.Command.{run}

-- the object without its command
unfoldable pub give_up : NciCore → NciCore
give_up c =
    let cancelled = with_sar (cancel c.sar c.cmd_id) (record c { cmd_timer = false }) in
    record cancelled { cmd_id = 0; rsp_handler = none }

-- the object that has been answered
abbrev pub response_taken : NciCore → NciCore
response_taken c = record c { cmd_timer = false; cmd_id = 0; rsp_handler = none }

module _ (insert_sorted : Compare → List DiscoveryNtf → DiscoveryNtf → List DiscoveryNtf) where
  -- `nci_sm_error`
  unfoldable pub sm_error : NciCore → NciCore
  sm_error c = run insert_sorted (stall stall_error) c

  unfoldable pub command_completion : Bool → NciCore → NciCore
  command_completion ok c = let d = record c { cmd_id = 0 } in if ok then d else sm_error d

  unfoldable pub notify_timeout : Option Handler → NciCore → NciCore
  notify_timeout none c = c
  notify_timeout (some rsp) c = run insert_sorted (respond rsp timeout []) c

  unfoldable pub command_timeout : NciCore → NciCore
  command_timeout c = sm_error (notify_timeout c.rsp_handler (give_up c))

  unfoldable pub response_to : Option Handler → ℕ → ℕ → List ℕ → NciCore → NciCore
  response_to none gid oid payload c = c
  response_to (some rsp) gid oid payload c =
      if c.rsp_gid == gid && c.rsp_oid == oid
      then run insert_sorted (respond rsp success payload) (response_taken c)
      else c

  unfoldable pub handle_response : ℕ → ℕ → List ℕ → NciCore → NciCore
  handle_response gid oid payload c = response_to c.rsp_handler gid oid payload c

  unfoldable pub handle_notification : ℕ → ℕ → List ℕ → NciCore → NciCore
  handle_notification gid oid payload c = run insert_sorted (handle_ntf gid oid payload) c

  -- what the SAR calls, by its `NciSarClientFunctions` and by the callbacks of the packets
  unfoldable pub deliver : Event → NciCore → NciCore
  deliver client_error c = sm_error c
  deliver (response gid oid payload) c = handle_response gid oid payload c
  deliver (notification gid oid payload) c = handle_notification gid oid payload c
  deliver (data_packet cid payload) c = emits (data_packet_signal cid payload) c
  deliver (completed zero ok) c = command_completion ok c
  deliver e c = drop_event e c

  unfoldable pub deliver_all : List Event → NciCore → NciCore
  deliver_all [] c = c
  deliver_all (e ∷ es) c = deliver_all es (deliver e c)

  -- an operation of the SAR, and what it calls then
  unfoldable pub sar_does : Sar × List Event → NciCore → NciCore
  sar_does (s, evs) c = deliver_all evs (record c { sar = s })

  -- the fuel is the count of bytes
  unfoldable pub read_packets : ℕ → NciCore → List ℕ → NciCore × List ℕ
  read_packets zero c bytes = (c, bytes)
  read_packets (suc fuel) c bytes = elim (next_packet bytes) [
    | none ↦ (c, bytes)
    | some (p, rest) ↦ read_packets fuel (sar_does (handle_segment c.sar p) c) rest
  ]

  -- what is left over stays in the buffer
  unfoldable pub keep_rest : NciCore × List ℕ → NciCore
  keep_rest (c, left) = record c { sar = record c.sar { read_buf = some left } }

  unfoldable pub read_buffered : NciCore → List ℕ → NciCore
  read_buffered c [] = c
  read_buffered c (x ∷ xs) =
      let bytes = array_bytes c.sar.read_buf ++ (x ∷ xs) in
      keep_rest (read_packets (length bytes) c bytes)

  unfoldable pub read_rest : NciCore × List ℕ → NciCore
  read_rest (c, left) = read_buffered c left

  -- the bytes that the HAL has read
  unfoldable pub hal_read : NciCore → List ℕ → NciCore
  hal_read c bytes =
      if is_nil (array_bytes c.sar.read_buf)
      then read_rest (read_packets (length bytes) c bytes)
      else read_buffered c bytes

  unfoldable pub hal_written : HalReply → Bool → NciCore → NciCore
  hal_written io ok c = sar_does (write_completed io ok c.sar) c

  -- the idle callback of the SAR
  unfoldable pub hal_idle : HalReply → NciCore → NciCore
  hal_idle io c = sar_does (start_write_callback io c.sar) c

  -- the idle callback of the state machine, and the timers of its transitions
  unfoldable pub sm_idle : NciCore → NciCore
  sm_idle c = run insert_sorted switch_proc c

  unfoldable pub sm_timeout : Transition → NciCore → NciCore
  sm_timeout t c = run insert_sorted (transition_timeout t) c
