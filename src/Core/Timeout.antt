-- ===== src/Core/Timeout.antt =====
-- What is left of a command of src/nci_core.c that has failed.
use libncicore.Common.{◌≡◌, ap, ◌∙◌, inl, inr, false, none, some, List, Option-cases}
use libncicore.Util.Types.{DiscoveryNtf}
use libncicore.Sm.Types.{error, stall_error}
use libncicore.Sm.Machine.{Handler}
use libncicore.Sm.HostSelect.{Compare}
use libncicore.Sm.Control.{stall}
use libncicore.Sm.Control.Methods.{stall_settles}
use libncicore.Core.Object.{NciCore}
use libncicore.Core.Command.{ready, run}
use libncicore.Core.Client.{sm_error, command_completion, notify_timeout, give_up, command_timeout}
use libncicore.Core.Awaited.{awaited, IsSound}
use libncicore.Core.Awaited.Run.{run-awaits}
use libncicore.Core.Requests.{stall-awaits}
use libncicore.Core.Well.{
  IsWell, unsent-IsWell, sm_error-IsWell, give_up-IsWell, notify_timeout-IsWell,
}

-- No command is under way, no response is awaited, and the object is in ERROR with nothing active.
pub record IsFailed (c : NciCore) : Type 0 where
  pub cmd_id : c.cmd_id ≡ 0
  pub cmd_timer : c.cmd_timer ≡ false
  pub rsp_handler : c.rsp_handler ≡ none
  pub active : c.sm.active ≡ none
  pub current_state : c.current_state ≡ error
  pub next_state : c.next_state ≡ error

nothing_awaited : (c : NciCore) → awaited c ≡ none → c.rsp_handler ≡ none
nothing_awaited c h = elim (Option-cases c.rsp_handler) [
  | inl e ↦ e
  | inr (rsp, e) ↦ absurd (some_awaited c rsp e h)
]
  where
    some_awaited : (c : NciCore) (rsp : Handler) → c.rsp_handler ≡ some rsp → awaited c ≡ none → ⊥
    some_awaited c rsp e h = cc

nothing_sent :
    (c : NciCore) → c.rsp_handler ≡ none → IsSound c → (c.cmd_id ≡ 0) × (c.cmd_timer ≡ false)
nothing_sent c e (inl h) = h
nothing_sent c e (inr h) = cc

module _ (insert_sorted : Compare → List DiscoveryNtf → DiscoveryNtf → List DiscoveryNtf) where
  sm_error-IsFailed : (c : NciCore) → IsWell c → IsFailed (sm_error insert_sorted c)
  unfolding sm_error
  sm_error-IsFailed c v =
      let d = run insert_sorted (stall stall_error) c in
      let w = sm_error-IsWell insert_sorted c v in
      let (m, a, s, n, l) = run-awaits insert_sorted (stall stall_error) c in
      let h =
        nothing_awaited d (a ∙ stall-awaits insert_sorted (awaited c) stall_error (ready c)) in
      let (i, t) = nothing_sent d h w.sound in
      let (x, y, z) = stall_settles stall_error (ready c) in
      record {
        cmd_id = i;
        cmd_timer = t;
        rsp_handler = h;
        active = ap (λ k. k.active) m ∙ x;
        current_state = w.current ∙ (ap (λ k. k.last_state) m ∙ y);
        next_state = w.next ∙ (ap (λ k. k.next_state) m ∙ z);
      }

  -- Between two calls, whatever is under way, a command that times out, one that the SAR could not
  -- send, and an error of the SAR leave the object with no command, no timer and no response
  -- function, with no transition active, and with ERROR as its current and its next state.
  pub failure_settles :
      (c : NciCore)
      → IsWell c
      → IsFailed (command_timeout insert_sorted c)
        × IsFailed (command_completion insert_sorted false c)
        × IsFailed (sm_error insert_sorted c)
  unfolding command_timeout command_completion
  failure_settles c v =
      let g = give_up-IsWell insert_sorted c v in
      (
        sm_error-IsFailed (notify_timeout insert_sorted c.rsp_handler (give_up c))
            (notify_timeout-IsWell insert_sorted c.rsp_handler (give_up c) g),
        sm_error-IsFailed (record c { cmd_id = 0 }) (unsent-IsWell c v),
        sm_error-IsFailed c v,
      )
