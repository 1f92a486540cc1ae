-- ===== src/Core/Awaited.antt =====
-- The response that the object of src/nci_core.c waits for, told from what its state machine asks
-- for alone.
pub mod Run
use libncicore.Common.{
  ℕ, ◌≡◌, ◌≢◌, ◌⊎◌, inl, inr, refl, ap, ◌∙◌, false, Option, none, some, List, [], ◌∷◌, ◌==◌, ==_iff,
  Bool-cases,
}
use libncicore.Util.Types.{DiscoveryNtf}
use libncicore.Sar.Defs.{Sar}
use libncicore.Sar.Send.{send_command, cancel}
use libncicore.Sar.Send.Ids.{send_command-sent}
use libncicore.Sar.Setup.{set_max_logical_connections}
use libncicore.Sm.Machine.{
  Handler, Event, Machine, host_select_rsp, next_state_changed, last_state_changed,
  interface_activated, sends, selects, io_cancelled, max_logical_connections, max_control_payload,
  max_data_payload, initial_credits, credits_added,
}
use libncicore.Sm.Types.{State}
use libncicore.Sm.Shown.{next_signalled, last_signalled, shown}
use libncicore.Sm.HostSelect.{Compare, selected_target, discover_select}
use libncicore.Core.Object.{NciCore}
use libncicore.Core.Command.{
  cancel_command, command, await, io_send, io_cancel, io_select, perform, perform_all, ready, run,
}
use libncicore.Core.Kept.{IsKept, with_sar-IsKept}

-- the group, the opcode and the response function
abbrev pub Awaited : Type 0
Awaited = Option (ℕ × ℕ × Handler)

abbrev pub await_by : Option Handler → ℕ → ℕ → Awaited
await_by none gid oid = none
await_by (some rsp) gid oid = some (gid, oid, rsp)

abbrev pub awaited : NciCore → Awaited
awaited c = await_by c.rsp_handler c.rsp_gid c.rsp_oid

-- A command that is on its way, or a timer that runs, has a response function.
abbrev pub IsSound : NciCore → Type 0
IsSound c =
    ((c.cmd_id ≡ 0) × (c.cmd_timer ≡ false)) ⊎ ((rsp : Handler) × (c.rsp_handler ≡ some rsp))

module _ (insert_sorted : Compare → List DiscoveryNtf → DiscoveryNtf → List DiscoveryNtf) where
  abbrev pub selects_then : Option DiscoveryNtf → Awaited → Awaited
  selects_then none w = w
  selects_then (some d) w = some (1, 4, host_select_rsp)

  abbrev pub then_awaits : Event → Awaited → Awaited
  then_awaits (sends gid oid payload rsp) w = some (gid, oid, rsp)
  then_awaits (selects l) w = selects_then (selected_target insert_sorted l) w
  then_awaits io_cancelled w = none
  then_awaits e w = w

  -- the response that is awaited after the requests of a log
  abbrev pub awaits_after : List Event → Awaited → Awaited
  awaits_after [] w = w
  awaits_after (e ∷ es) w = awaits_after es (then_awaits e w)

pub kept-awaited : {c d : NciCore} → IsKept c d → awaited d ≡ awaited c
kept-awaited {c} {d} k = rw (k.rsp_handler, k.rsp_gid, k.rsp_oid) refl

pub kept-IsSound : {c d : NciCore} → IsKept c d → IsSound c → IsSound d
kept-IsSound k (inl h) = inl (k.cmd_id ∙ h.0, k.cmd_timer ∙ h.1)
kept-IsSound k (inr h) = inr (h.0, k.rsp_handler ∙ h.1)

-- A command that is cancelled leaves nothing behind but a response function that was never asked.
pub record IsStopped (c d : NciCore) : Type 0 where
  pub sm : d.sm ≡ c.sm
  pub idle : d.cmd_id ≡ 0
  pub timer : d.cmd_timer ≡ false
  pub next : d.next_state ≡ c.next_state
  pub current : d.current_state ≡ c.current_state
  pub handler : (d.rsp_handler ≡ none) ⊎ ((d.rsp_handler ≡ c.rsp_handler) × (c.cmd_id ≡ 0))

pub cancel_command-IsStopped : (c : NciCore) → IsStopped c (cancel_command c)
unfolding cancel_command
cancel_command-IsStopped c =
    let k = with_sar-IsKept (cancel c.sar c.cmd_id) (record c { cmd_timer = false }) in
    elim (Bool-cases (c.cmd_id == 0)) [
      | inl e ↦ rw e record {
        sm = refl;
        idle = (==_iff _ _).0 e;
        timer = refl;
        next = refl;
        current = refl;
        handler = inr (refl, (==_iff _ _).0 e);
      }
      | inr e ↦ rw e record {
        sm = k.sm;
        idle = refl;
        timer = k.cmd_timer;
        next = k.next_state;
        current = k.current_state;
        handler = inl refl;
      }
    ]
