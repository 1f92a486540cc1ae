-- ===== src/Core/Awaited/Run.antt =====
-- How the object of src/nci_core.c carries out the requests of its state machine, one by one.
use libncicore.Common.{
  ℕ, ◌≡◌, ◌≢◌, inl, inr, refl, ap, ◌∙◌, Option, none, some, List, [], ◌∷◌, ◌==◌, ==_iff, Bool-cases,
}
use libncicore.Util.Types.{DiscoveryNtf}
use libncicore.Sar.Defs.{Sar}
use libncicore.Sar.Send.{send_command}
use libncicore.Sar.Send.Ids.{send_command-sent}
use libncicore.Sar.Setup.{set_max_logical_connections}
use libncicore.Sm.Machine.{
  Handler, Event, Machine, host_select_rsp, next_state_changed, last_state_changed,
  interface_activated, sends, selects, io_cancelled, max_logical_connections, max_control_payload,
  max_data_payload, initial_credits, credits_added,
}
use libncicore.Sm.Types.{State}
use libncicore.Sm.Shown.{next_signalled, last_signalled, shown}
use libncicore.Sm.HostSelect.{Compare, selected_target, discover_select}
use libncicore.Core.Object.{NciCore}
use libncicore.Core.Command.{
  cancel_command, command, await, io_send, io_cancel, io_select, perform, perform_all, ready, run,
}
use libncicore.Core.Kept.{IsKept, with_sar-IsKept}
use libncicore.Core.Awaited.{
  Awaited, awaited, IsSound, selects_then, then_awaits, awaits_after, kept-awaited, kept-IsSound,
  cancel_command-IsStopped,
}

-- What a request makes of the object: the response that it awaits then, and that it stays sound.
record Performs (c d : NciCore) (w : Awaited) (n l : State) : Type 0 where
  pub sm : d.sm ≡ c.sm
  pub awaits : awaited d ≡ w
  pub next : d.next_state ≡ n
  pub current : d.current_state ≡ l
  pub sound : IsSound c → IsSound d

kept-Performs : {c d : NciCore} → IsKept c d → Performs c d (awaited c) c.next_state c.current_state
kept-Performs k = record {
  sm = k.sm;
  awaits = kept-awaited k;
  next = k.next_state;
  current = k.current_state;
  sound = kept-IsSound k;
}

await-Performs :
    (gid oid : ℕ) (rsp : Handler) (p : Sar × ℕ) (c : NciCore)
    → p.1 ≢ 0
    → let d = await gid oid rsp p c in
      (d.sm ≡ c.sm)
      × (awaited d ≡ some (gid, oid, rsp))
      × (d.rsp_handler ≡ some rsp)
      × (d.next_state ≡ c.next_state)
      × (d.current_state ≡ c.current_state)
unfolding await
await-Performs gid oid rsp (s, id) c h = elim (Bool-cases (id == 0)) [
  | inl e ↦ absurd (h ((==_iff id 0).0 e))
  | inr e ↦ rw e (refl, refl, refl, refl, refl)
]

io_send-Performs :
    (gid oid : ℕ) (payload : List ℕ) (rsp : Handler) (c : NciCore)
    → Performs c (io_send gid oid payload rsp c) (some (gid, oid, rsp)) c.next_state c.current_state
unfolding io_send
io_send-Performs gid oid payload rsp c =
    let d = cancel_command c in
    let s = cancel_command-IsStopped c in
    let (m, a, h, n, l) =
      await-Performs gid oid rsp (send_command d.sar gid oid (command payload)) d
        (send_command-sent d.sar gid oid (command payload)) in
    record {
      sm = m ∙ s.sm;
      awaits = a;
      next = n ∙ s.next;
      current = l ∙ s.current;
      sound = λ v. inr (rsp, h);
    }

no_handler-awaited : (c : NciCore) → c.rsp_handler ≡ none → awaited c ≡ none
no_handler-awaited c h = rw h refl

io_cancel-Performs : (c : NciCore) → Performs c (io_cancel c) none c.next_state c.current_state
unfolding io_cancel
io_cancel-Performs c =
    let s = cancel_command-IsStopped (record c { rsp_handler = none }) in
    record {
      sm = s.sm;
      awaits =
          no_handler-awaited (cancel_command (record c { rsp_handler = none }))
            (elim s.handler [ inl h ↦ h | inr h ↦ h.0 ]);
      next = s.next;
      current = s.current;
      sound = λ v. inl (s.idle, s.timer);
    }

module _ (insert_sorted : Compare → List DiscoveryNtf → DiscoveryNtf → List DiscoveryNtf) where
  io_select-Performs :
      (o : Option DiscoveryNtf) (c : NciCore)
      → Performs c
          (io_select insert_sorted o c)
          (selects_then insert_sorted o (awaited c))
          c.next_state
          c.current_state
  unfolding io_select
  io_select-Performs none c = record {
    sm = refl;
    awaits = refl;
    next = refl;
    current = refl;
    sound = λ v. v;
  }
  io_select-Performs (some d) c = io_send-Performs 1 4 (discover_select d) host_select_rsp c

  perform-Performs :
      (e : Event) (c : NciCore)
      → Performs c
          (perform insert_sorted e c)
          (then_awaits insert_sorted e (awaited c))
          (next_signalled e c.next_state)
          (last_signalled e c.current_state)
  unfolding perform
  perform-Performs (next_state_changed s) c = record {
    sm = refl;
    awaits = refl;
    next = refl;
    current = refl;
    sound = λ v. v;
  }
  perform-Performs (last_state_changed s) c = record {
    sm = refl;
    awaits = refl;
    next = refl;
    current = refl;
    sound = λ v. v;
  }
  perform-Performs (interface_activated n) c = record {
    sm = refl;
    awaits = refl;
    next = refl;
    current = refl;
    sound = λ v. v;
  }
  perform-Performs (sends gid oid payload rsp) c = io_send-Performs gid oid payload rsp c
  perform-Performs (selects l) c = io_select-Performs (selected_target insert_sorted l) c
  perform-Performs io_cancelled c = io_cancel-Performs c
  perform-Performs (max_logical_connections n) c =
      kept-Performs (with_sar-IsKept (set_max_logical_connections c.sar n) c)
  perform-Performs (max_control_payload n) c = record {
    sm = refl;
    awaits = refl;
    next = refl;
    current = refl;
    sound = λ v. v;
  }
  perform-Performs (max_data_payload n) c = record {
    sm = refl;
    awaits = refl;
    next = refl;
    current = refl;
    sound = λ v. v;
  }
  perform-Performs (initial_credits n) c = record {
    sm = refl;
    awaits = refl;
    next = refl;
    current = refl;
    sound = λ v. v;
  }
  perform-Performs (credits_added cid n) c = record {
    sm = refl;
    awaits = refl;
    next = refl;
    current = refl;
    sound = λ v. v;
  }

  perform_all-Performs :
      (es : List Event) (c : NciCore)
      → Performs c
          (perform_all insert_sorted es c)
          (awaits_after insert_sorted es (awaited c))
          (shown next_signalled es c.next_state)
          (shown last_signalled es c.current_state)
  unfolding perform_all
  perform_all-Performs [] c = record {
    sm = refl;
    awaits = refl;
    next = refl;
    current = refl;
    sound = λ v. v;
  }
  perform_all-Performs (e ∷ es) c =
      let p = perform-Performs e c in
      let q = perform_all-Performs es (perform insert_sorted e c) in
      record {
        sm = q.sm ∙ p.sm;
        awaits = q.awaits ∙ ap (awaits_after insert_sorted es) p.awaits;
        next = q.next ∙ ap (shown next_signalled es) p.next;
        current = q.current ∙ ap (shown last_signalled es) p.current;
        sound = λ v. q.sound (p.sound v);
      }

  -- Whatever call of the state machine the object makes, the machine is what that call makes of
  -- it, and from what it asks for alone it follows which response is awaited then, the last
  -- command sent or none after a cancellation, and which states have been signalled; a command
  -- still has a response function.
  pub run-awaits :
      (f : Machine → Machine) (c : NciCore)
      → let d = run insert_sorted f c in
        let m = f (ready c) in
        (d.sm ≡ m)
        × (awaited d ≡ awaits_after insert_sorted m.log (awaited c))
        × (IsSound c → IsSound d)
        × (d.next_state ≡ shown next_signalled m.log c.next_state)
        × (d.current_state ≡ shown last_signalled m.log c.current_state)
  unfolding run
  run-awaits f c =
      let m = f (ready c) in
      let p = perform_all-Performs m.log (record c { sm = m }) in
      (p.sm, p.awaits, p.sound, p.next, p.current)
