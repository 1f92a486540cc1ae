-- ===== src/Core/Inputs.antt =====
-- The calls of the state machine in src/nci_core.c leave the bytes that have been read alone.
use libncicore.Common.{
  ℕ, zero, suc, ◌≡◌, refl, ◌∙◌, Bool, true, false, Option, none, some, List, [], ◌∷◌, ◌==◌,
  get_elem?, inl, inr, Bool-cases, arith,
}
use libncicore.Util.Types.{DiscoveryNtf}
use libncicore.Sar.Defs.{
  Sar, Event, completed, destroyed, hal_start, hal_stop, hal_write, hal_cancel_write, client_error,
  response, notification, data_packet,
}
use libncicore.Sar.Send.{send_command, cancel}
use libncicore.Sar.Setup.{set_max_logical_connections}
use libncicore.Sar.Inputs.{
  SameInput, same_input, send_command_input, cancel_input, connections_input, limits_input,
  initial_credits_input, add_credits_input,
}
use libncicore.Sm.Machine.{
  Handler, Event as Request, Machine, host_select_rsp, next_state_changed, last_state_changed,
  interface_activated, sends, selects, io_cancelled, max_logical_connections, max_control_payload,
  max_data_payload, initial_credits, credits_added,
}
use libncicore.Sm.HostSelect.{Compare, selected_target, discover_select}
use libncicore.Sm.Types.{success, stall_error}
use libncicore.Sm.Control.{stall}
use libncicore.Sm.Respond.{respond}
use libncicore.Sm.Notify.{handle_ntf}
use libncicore.Core.Client.{
  response_taken, response_to, handle_response, handle_notification, sm_error, command_completion,
  deliver, deliver_all, sar_does,
}
use libncicore.Core.Object.{
  NciCore, SendData, send_data_msg_complete, send_data_msg_destroy, drop_event, drop_events,
  with_sar,
}
use libncicore.Core.Command.{
  cancel_command, command, await, io_send, io_cancel, static_rf_conn_id, io_select, perform,
  perform_all, ready, run,
}

complete-sar :
    (o : Option SendData) (ok : Bool) (c : NciCore) → (send_data_msg_complete o ok c).sar ≡ c.sar
unfolding send_data_msg_complete
complete-sar none ok c = refl
complete-sar (some d) ok c = ground arith

destroy-sar : (o : Option SendData) (c : NciCore) → (send_data_msg_destroy o c).sar ≡ c.sar
unfolding send_data_msg_destroy
destroy-sar none c = refl
destroy-sar (some d) c = ground arith

drop_event-sar : (e : Event) (c : NciCore) → (drop_event e c).sar ≡ c.sar
unfolding drop_event
drop_event-sar (completed zero ok) c = refl
drop_event-sar (completed (suc i) ok) c = complete-sar (get_elem? c.sends i) ok c
drop_event-sar (destroyed zero) c = refl
drop_event-sar (destroyed (suc i)) c = destroy-sar (get_elem? c.sends i) c
drop_event-sar hal_start c = refl
drop_event-sar hal_stop c = refl
drop_event-sar (hal_write bytes ok) c = refl
drop_event-sar hal_cancel_write c = refl
drop_event-sar client_error c = refl
drop_event-sar (response gid oid payload) c = refl
drop_event-sar (notification gid oid payload) c = refl
drop_event-sar (data_packet cid payload) c = refl

drop_events-sar : (es : List Event) (c : NciCore) → (drop_events es c).sar ≡ c.sar
unfolding drop_events
drop_events-sar [] c = refl
drop_events-sar (e ∷ es) c = drop_events-sar es (drop_event e c) ∙ drop_event-sar e c

pub with_sar-sar : (p : Sar × List Event) (c : NciCore) → (with_sar p c).sar ≡ p.0
unfolding with_sar
with_sar-sar (s, evs) c = drop_events-sar evs (record c { sar = s })

-- both objects hold the same bytes
abbrev pub SameRead : NciCore → NciCore → Type 0
SameRead c d = SameInput c.sar d.sar

same_read : (c : NciCore) → SameRead c c
same_read c = record { read_buf = refl; control_in = refl }

event_read : (e : Event) (c : NciCore) → SameRead c (drop_event e c)
event_read e c = rw (drop_event-sar e c) (same_read c)

with_sar_read :
    (p : Sar × List Event) (c : NciCore) → SameInput c.sar p.0 → SameRead c (with_sar p c)
with_sar_read p c h = rw (with_sar-sar p c) h

pub cancel_command_read : (c : NciCore) → SameRead c (cancel_command c)
unfolding cancel_command
cancel_command_read c =
    let stopped = record c { cmd_timer = false } in
    let k = with_sar_read (cancel c.sar c.cmd_id) stopped (cancel_input c.sar c.cmd_id) in
    elim (Bool-cases (c.cmd_id == 0)) [ inl e ↦ rw e (same_read c) | inr e ↦ rw e k ]

await_read :
    (gid oid : ℕ) (rsp : Handler) (p : Sar × ℕ) (c : NciCore)
    → SameInput c.sar p.0
    → SameRead c (await gid oid rsp p c)
unfolding await
await_read gid oid rsp (s, id) c h = ground (arith, h.read_buf, h.control_in)

io_send_read :
    (gid oid : ℕ) (payload : List ℕ) (rsp : Handler) (c : NciCore)
    → SameRead c (io_send gid oid payload rsp c)
unfolding io_send
io_send_read gid oid payload rsp c =
    let d = cancel_command c in
    same_input (cancel_command_read c) (
      await_read gid oid rsp (send_command d.sar gid oid (command payload)) d
        (send_command_input d.sar gid oid (command payload)))

module _ (insert_sorted : Compare → List DiscoveryNtf → DiscoveryNtf → List DiscoveryNtf) where
  io_select_read :
      (o : Option DiscoveryNtf) (c : NciCore) → SameRead c (io_select insert_sorted o c)
  unfolding io_select
  io_select_read none c = same_read c
  io_select_read (some d) c = io_send_read 1 4 (discover_select d) host_select_rsp c

  perform_read : (e : Request) (c : NciCore) → SameRead c (perform insert_sorted e c)
  unfolding perform io_cancel
  perform_read (next_state_changed s) c = same_read c
  perform_read (last_state_changed s) c = same_read c
  perform_read (interface_activated n) c = same_read c
  perform_read (sends gid oid payload rsp) c = io_send_read gid oid payload rsp c
  perform_read (selects l) c = io_select_read (selected_target insert_sorted l) c
  perform_read io_cancelled c = cancel_command_read (record c { rsp_handler = none })
  perform_read (max_logical_connections n) c =
      with_sar_read (set_max_logical_connections c.sar n) c (connections_input c.sar n)
  perform_read (max_control_payload n) c = (limits_input c.sar n).0
  perform_read (max_data_payload n) c = (limits_input c.sar n).1
  perform_read (initial_credits n) c = initial_credits_input c.sar static_rf_conn_id n
  perform_read (credits_added cid n) c = add_credits_input c.sar cid n

  perform_all_read : (es : List Request) (c : NciCore) → SameRead c (perform_all insert_sorted es c)
  unfolding perform_all
  perform_all_read [] c = same_read c
  perform_all_read (e ∷ es) c =
      same_input (perform_read e c) (perform_all_read es (perform insert_sorted e c))

  pub run_read : (f : Machine → Machine) (c : NciCore) → SameRead c (run insert_sorted f c)
  unfolding run
  run_read f c = let m = f (ready c) in perform_all_read m.log (record c { sm = m })

  notify_read :
      (o : Option Handler) (gid oid : ℕ) (p : List ℕ) (c : NciCore)
      → SameRead c (response_to insert_sorted o gid oid p c)
  unfolding response_to
  notify_read none gid oid p c = same_read c
  notify_read (some rsp) gid oid p c =
      let k = run_read (respond rsp success p) (response_taken c) in
      ground (arith, k.read_buf, k.control_in)

  deliver_read : (e : Event) (c : NciCore) → SameRead c (deliver insert_sorted e c)
  unfolding deliver handle_response handle_notification sm_error command_completion
  deliver_read client_error c = run_read (stall stall_error) c
  deliver_read (response gid oid p) c = notify_read c.rsp_handler gid oid p c
  deliver_read (notification gid oid p) c = run_read (handle_ntf gid oid p) c
  deliver_read (data_packet cid p) c = same_read c
  deliver_read (completed zero true) c = same_read c
  deliver_read (completed zero false) c = run_read (stall stall_error) (record c { cmd_id = 0 })
  deliver_read (completed (suc i) ok) c = event_read (completed (suc i) ok) c
  deliver_read (destroyed i) c = event_read (destroyed i) c
  deliver_read hal_start c = event_read hal_start c
  deliver_read hal_stop c = event_read hal_stop c
  deliver_read (hal_write bytes ok) c = event_read (hal_write bytes ok) c
  deliver_read hal_cancel_write c = event_read hal_cancel_write c

  deliver_all_read : (es : List Event) (c : NciCore) → SameRead c (deliver_all insert_sorted es c)
  unfolding deliver_all
  deliver_all_read [] c = same_read c
  deliver_all_read (e ∷ es) c =
      same_input (deliver_read e c) (deliver_all_read es (deliver insert_sorted e c))

  -- What the SAR calls leaves the bytes that it holds.
  pub sar_does_read :
      (p : Sar × List Event) (c : NciCore) → SameInput p.0 (sar_does insert_sorted p c).sar
  unfolding sar_does
  sar_does_read (s, evs) c = deliver_all_read evs (record c { sar = s })
