-- ===== src/Core/Well.antt =====
-- What holds of a `NciCore` of src/nci_core.c between two calls, and what the SAR calls.
pub mod Calls
use libncicore.Common.{
  ℕ, zero, suc, ◌≡◌, refl, sym, ap, ◌∙◌, inl, inr, Bool, false, Option, none, some, List, [], ◌∷◌,
  arith, length, ◌++◌, Option-cases,
}
use libncicore.Util.Types.{DiscoveryNtf}
use libncicore.Sar.Defs.{
  Sar, Event, completed, destroyed, hal_start, hal_stop, hal_write, hal_cancel_write, client_error,
  response, notification, data_packet,
}
use libncicore.Sar.Send.{cancel}
use libncicore.Sar.Setup.{reset}
use libncicore.Sar.Read.{array_bytes, next_packet, handle_segment}
use libncicore.Sm.Types.{State, RequestStatus, Config, success, timeout, stall_error}
use libncicore.Sm.Machine.{Handler, Machine}
use libncicore.Sm.HostSelect.{Compare}
use libncicore.Sm.Control.{stall}
use libncicore.Sm.Control.Enter.{IsConsistent}
use libncicore.Sm.Control.Methods.{stall-IsConsistent}
use libncicore.Sm.Switch.{reset_machine}
use libncicore.Sm.Switch.Calls.{reset_machine-IsConsistent, same-IsConsistent}
use libncicore.Sm.Respond.{respond}
use libncicore.Sm.Respond.Consistent.{respond-IsConsistent}
use libncicore.Sm.Notify.{handle_ntf}
use libncicore.Sm.Notify.States.{handle_ntf-IsConsistent}
use libncicore.Sm.Shown.{IsShown}
use libncicore.Sm.Shown.Enter.{stall-IsShown}
use libncicore.Sm.Shown.Switch.{reset_machine-IsShown}
use libncicore.Sm.Shown.Responses.{respond-IsShown}
use libncicore.Sm.Shown.States.{handle_ntf-IsShown}
use libncicore.Core.{CoreParamKey}
use libncicore.Core.Object.{NciCore, SendData, with_sar, emits, param_changed}
use libncicore.Core.Command.{cancel_command, ready, run}
use libncicore.Core.Client.{
  sm_error, command_completion, notify_timeout, give_up, command_timeout, response_taken,
  response_to, handle_response, handle_notification, deliver, deliver_all, sar_does, read_packets,
  keep_rest, read_buffered, read_rest, hal_read,
}
use libncicore.Core.Calls.{
  send_data_msg, keep_send, signal_changes, configure, restart_internal, changed,
}
use libncicore.Core.Kept.{IsKept, with_sar-IsKept, drop_event-IsKept}
use libncicore.Core.Awaited.{IsSound, kept-IsSound, cancel_command-IsStopped}
use libncicore.Core.Awaited.Run.{run-awaits}

-- What holds of an object between two calls.
pub record IsWell (c : NciCore) : Type 0 where
  pub sound : IsSound c
  pub consistent : IsConsistent c.sm
  pub next : c.next_state ≡ c.sm.next_state
  pub current : c.current_state ≡ c.sm.last_state

kept-IsWell : {c d : NciCore} → IsKept c d → IsWell c → IsWell d
kept-IsWell {c} {d} k v = record {
  sound = kept-IsSound k v.sound;
  consistent = same-IsConsistent c.sm d.sm v.consistent (
    ap (λ m. m.active) k.sm,
    ap (λ m. m.active_state) k.sm,
    ap (λ m. m.last_state) k.sm,
    ap (λ m. m.next_state) k.sm,
    ap (λ m. m.entering) k.sm,
    ap (λ m. m.next_pending) k.sm,
    ap (λ m. m.last_pending) k.sm,
  );
  next = k.next_state ∙ (v.next ∙ sym (ap (λ m. m.next_state) k.sm));
  current = k.current_state ∙ (v.current ∙ sym (ap (λ m. m.last_state) k.sm));
}

pub with_sar-IsWell : (p : Sar × List Event) (c : NciCore) → IsWell c → IsWell (with_sar p c)
with_sar-IsWell p c v = kept-IsWell (with_sar-IsKept p c) v

resar-IsWell : (s : Sar) (c : NciCore) → IsWell c → IsWell (record c { sar = s })
resar-IsWell s c v = record {
  sound = v.sound;
  consistent = v.consistent;
  next = v.next;
  current = v.current;
}

ready-IsConsistent : (c : NciCore) → IsConsistent c.sm → IsConsistent (ready c)
ready-IsConsistent c v =
    same-IsConsistent c.sm (ready c) v (refl, refl, refl, refl, refl, refl, refl)

-- no command
pub idle-IsWell :
    {c d : NciCore}
    → d.cmd_id ≡ 0
    → d.cmd_timer ≡ false
    → (d.sm ≡ c.sm) × (d.next_state ≡ c.next_state) × (d.current_state ≡ c.current_state)
    → IsWell c
    → IsWell d
idle-IsWell {c} {d} i t (m, n, l) v = record {
  sound = inl (i, t);
  consistent = rw m v.consistent;
  next = n ∙ (v.next ∙ sym (ap (λ x. x.next_state) m));
  current = l ∙ (v.current ∙ sym (ap (λ x. x.last_state) m));
}

pub unsent-IsWell : (c : NciCore) → IsWell c → IsWell (record c { cmd_id = 0 })
unsent-IsWell c v = record {
  sound = elim v.sound [ inl h ↦ inl (refl, h.1) | inr h ↦ inr h ];
  consistent = v.consistent;
  next = v.next;
  current = v.current;
}

-- What a call of the state machine should keep: the consistency, and what its signals tell.
pub record Keeps (f : Machine → Machine) : Type 0 where
  pub consistent : (m : Machine) → IsConsistent m → IsConsistent (f m)
  pub tells : {n l : State} (m : Machine) → IsShown n l m → IsShown n l (f m)

stall-Keeps : Keeps (stall stall_error)
stall-Keeps = record {
  consistent = λ m v. stall-IsConsistent stall_error m v.outside;
  tells = stall-IsShown stall_error;
}

respond-Keeps :
    (rsp : Handler) (status : RequestStatus) (payload : List ℕ) → Keeps (respond rsp status payload)
respond-Keeps rsp status payload = record {
  consistent = respond-IsConsistent rsp status payload;
  tells = respond-IsShown rsp status payload;
}

module _ (insert_sorted : Compare → List DiscoveryNtf → DiscoveryNtf → List DiscoveryNtf) where
  pub run-IsWell :
      (f : Machine → Machine) → Keeps f → (c : NciCore) → IsWell c → IsWell (run insert_sorted f c)
  run-IsWell f h c v =
      let (m, a, s, n, l) = run-awaits insert_sorted f c in
      let w = h.consistent (ready c) (ready-IsConsistent c v.consistent) in
      let told = h.tells (ready c) record { next = λ p. v.next; last = λ p. v.current } in
      record {
        sound = s v.sound;
        consistent = rw m w;
        next = n ∙ (told.next w.told.0 ∙ sym (ap (λ x. x.next_state) m));
        current = l ∙ (told.last w.told.1 ∙ sym (ap (λ x. x.last_state) m));
      }

  pub sm_error-IsWell : (c : NciCore) → IsWell c → IsWell (sm_error insert_sorted c)
  unfolding sm_error
  sm_error-IsWell c v = run-IsWell (stall stall_error) stall-Keeps c v

  command_completion-IsWell :
      (ok : Bool) (c : NciCore) → IsWell c → IsWell (command_completion insert_sorted ok c)
  unfolding command_completion
  command_completion-IsWell ok c v =
      let w = unsent-IsWell c v in ground (arith, w, sm_error-IsWell (record c { cmd_id = 0 }) w)

  pub give_up-IsWell : (c : NciCore) → IsWell c → IsWell (give_up c)
  unfolding give_up
  give_up-IsWell c v =
      let k = with_sar-IsKept (cancel c.sar c.cmd_id) (record c { cmd_timer = false }) in
      idle-IsWell refl k.cmd_timer (k.sm, k.next_state, k.current_state) v

  pub notify_timeout-IsWell :
      (o : Option Handler) (c : NciCore) → IsWell c → IsWell (notify_timeout insert_sorted o c)
  unfolding notify_timeout
  notify_timeout-IsWell none c v = v
  notify_timeout-IsWell (some rsp) c v =
      run-IsWell (respond rsp timeout []) (respond-Keeps rsp timeout []) c v

  pub command_timeout-IsWell : (c : NciCore) → IsWell c → IsWell (command_timeout insert_sorted c)
  unfolding command_timeout
  command_timeout-IsWell c v =
      sm_error-IsWell (notify_timeout insert_sorted c.rsp_handler (give_up c))
        (notify_timeout-IsWell c.rsp_handler (give_up c) (give_up-IsWell c v))

  response_to-IsWell :
      (o : Option Handler) (gid oid : ℕ) (payload : List ℕ) (c : NciCore)
      → IsWell c
      → IsWell (response_to insert_sorted o gid oid payload c)
  unfolding response_to
  response_to-IsWell none gid oid payload c v = v
  response_to-IsWell (some rsp) gid oid payload c v = ground (
    arith,
    v,
    run-IsWell (respond rsp success payload) (respond-Keeps rsp success payload) (response_taken c)
        (idle-IsWell refl refl (refl, refl, refl) v),
  )

  deliver-IsWell : (e : Event) (c : NciCore) → IsWell c → IsWell (deliver insert_sorted e c)
  unfolding deliver handle_response handle_notification
  deliver-IsWell client_error c v = sm_error-IsWell c v
  deliver-IsWell (response gid oid payload) c v =
      response_to-IsWell c.rsp_handler gid oid payload c v
  deliver-IsWell (notification gid oid payload) c v =
      run-IsWell (handle_ntf gid oid payload)
        record {
          consistent = handle_ntf-IsConsistent gid oid payload;
          tells = handle_ntf-IsShown gid oid payload;
        }
        c v
  deliver-IsWell (data_packet cid payload) c v = record {
    sound = v.sound;
    consistent = v.consistent;
    next = v.next;
    current = v.current;
  }
  deliver-IsWell (completed zero ok) c v = command_completion-IsWell ok c v
  deliver-IsWell (completed (suc i) ok) c v =
      kept-IsWell (drop_event-IsKept (completed (suc i) ok) c) v
  deliver-IsWell (destroyed i) c v = kept-IsWell (drop_event-IsKept (destroyed i) c) v
  deliver-IsWell hal_start c v = kept-IsWell (drop_event-IsKept hal_start c) v
  deliver-IsWell hal_stop c v = kept-IsWell (drop_event-IsKept hal_stop c) v
  deliver-IsWell (hal_write bytes ok) c v = kept-IsWell (drop_event-IsKept (hal_write bytes ok) c) v
  deliver-IsWell hal_cancel_write c v = kept-IsWell (drop_event-IsKept hal_cancel_write c) v

  deliver_all-IsWell :
      (es : List Event) (c : NciCore) → IsWell c → IsWell (deliver_all insert_sorted es c)
  unfolding deliver_all
  deliver_all-IsWell [] c v = v
  deliver_all-IsWell (e ∷ es) c v =
      deliver_all-IsWell es (deliver insert_sorted e c) (deliver-IsWell e c v)

  pub sar_does-IsWell :
      (p : Sar × List Event) (c : NciCore) → IsWell c → IsWell (sar_does insert_sorted p c)
  unfolding sar_does
  sar_does-IsWell (s, evs) c v = deliver_all-IsWell evs (record c { sar = s }) (resar-IsWell s c v)
