-- ===== src/Sm/Steps.antt =====
-- The life of the state machine of src/nci_sm.c: what `NciCore` asks of it, the responses and the
-- notifications that reach it, and its timers.
pub mod Deactivate
pub mod Requests
pub mod Credits
pub mod Discover
pub mod Recovery
pub mod Restart
mod Tests
use libncicore.Common.{ℕ, ◌≡◌, refl, ◌⊎◌, Bool, List, Option, some, none}
use libncicore.Sm.Types.{State, Transition, RequestStatus, Stall, Config}
use libncicore.Sm.Machine.{Handler, Machine}
use libncicore.Sm.Control.{stall}
use libncicore.Sm.Control.Enter.{IsConsistent}
use libncicore.Sm.Control.Methods.{stall-IsConsistent}
use libncicore.Sm.Switch.{
  switch_to, switch_proc, reset_machine, set_op_mode, set_tech, transition_timeout, new,
}
use libncicore.Sm.Switch.Calls.{
  switch_to-IsConsistent, switch_proc-IsConsistent, reset_machine-IsConsistent,
  set_op_mode-IsConsistent, set_tech-IsConsistent, transition_timeout-IsConsistent,
  new-IsConsistent, same-IsConsistent,
}
use libncicore.Sm.Respond.{respond}
use libncicore.Sm.Respond.Consistent.{respond-IsConsistent}
use libncicore.Sm.Notify.{handle_ntf}
use libncicore.Sm.Notify.States.{handle_ntf-IsConsistent}

-- `reconfigured` is a change of the parameters by `NciCore`, and `io_changed` one of what its I/O
-- answers.
pub data Step : Machine → Machine → Type 0 where
  switched : (m : Machine) (s : State) → Step m (switch_to s m)
  idled : (m : Machine) → Step m (switch_proc m)
  was_reset : (m : Machine) → Step m (reset_machine m)
  stalled : (m : Machine) (type : Stall) → Step m (stall type m)
  timed_out : (m : Machine) (t : Transition) → Step m (transition_timeout t m)
  op_mode_set : (m : Machine) (mode : ℕ) → Step m (set_op_mode mode m)
  tech_set : (m : Machine) (tech : ℕ) → Step m (set_tech tech m).0
  reconfigured : (m : Machine) (c : Config) → Step m (record m { config = c })
  io_changed :
      (m : Machine) (accepts : Bool) (ms : ℕ)
      → Step m (record m { io_sends = accepts; io_timeout = ms })
  responded :
      (m : Machine) (rsp : Handler) (status : RequestStatus) (pkt : List ℕ)
      → Step m (respond rsp status pkt m)
  notified : (m : Machine) (gid oid : ℕ) (pkt : List ℕ) → Step m (handle_ntf gid oid pkt m)

pub data Reach (m : Machine) : Machine → Type 0 where
  here : Reach m m
  next : {n o : Machine} → Reach m n → Step n o → Reach m o

Step-IsConsistent : {m n : Machine} → Step m n → IsConsistent m → IsConsistent n
Step-IsConsistent (switched m s) v = switch_to-IsConsistent s m v
Step-IsConsistent (idled m) v = switch_proc-IsConsistent m v
Step-IsConsistent (was_reset m) v = reset_machine-IsConsistent m v.outside
Step-IsConsistent (stalled m type) v = stall-IsConsistent type m v.outside
Step-IsConsistent (timed_out m t) v = transition_timeout-IsConsistent t m v
Step-IsConsistent (op_mode_set m mode) v = set_op_mode-IsConsistent mode m v
Step-IsConsistent (tech_set m tech) v = set_tech-IsConsistent tech m v
Step-IsConsistent (reconfigured m c) v =
    same-IsConsistent m (record m { config = c }) v (refl, refl, refl, refl, refl, refl, refl)
Step-IsConsistent (io_changed m accepts ms) v =
    same-IsConsistent m (record m { io_sends = accepts; io_timeout = ms }) v
      (refl, refl, refl, refl, refl, refl, refl)
Step-IsConsistent (responded m rsp status pkt) v = respond-IsConsistent rsp status pkt m v
Step-IsConsistent (notified m gid oid pkt) v = handle_ntf-IsConsistent gid oid pkt m v

-- From a new state machine of any configuration, after any requests, resets, stalls, timeouts,
-- responses and notifications, whatever is in them and whether commands can be sent: a transition
-- and a state are never active together, without a transition the next state is the last one, no
-- state is being entered, and both states have been signalled.
pub Reach-IsConsistent :
    (c : Config) (accepts : Bool) (ms : ℕ) {m : Machine}
    → Reach (new c accepts ms) m
    → IsConsistent m
Reach-IsConsistent c accepts ms here = new-IsConsistent c accepts ms
Reach-IsConsistent c accepts ms (next r s) = Step-IsConsistent s (Reach-IsConsistent c accepts ms r)
