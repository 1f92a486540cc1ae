-- ===== src/Sm/Switch.antt =====
-- The calls of `NciCore` that change the state in src/nci_sm.c.
pub mod Consistent
pub mod Calls
use libncicore.Common.{
  ℕ, Bool, true, false, not, Option, none, some, List, [], ◌∷◌, if◌then◌else◌, ◌==◌, ltb, bit_and,
}
use libncicore.Sm.Types.{
  State, Transition, Config, state_id, same_state, is_internal_state, dest, init, idle, reset,
  stall_error,
}
use libncicore.Sm.Tech
use libncicore.Sm.Machine.{Machine, no_param, without, get_transition}
use libncicore.Sm.Control.{
  start_transition, set_next_state, emit_pending_signals, stall_internal, stall, enter_internal,
}

-- What follows the transition that is under way, where that does not end in the state already: a
-- transition is put off, an internal state is entered, and anything else stalls.
unfoldable pub queue_after : Option Transition → State → Machine → Machine
queue_after (some u) next m = set_next_state next (record m { next_transition = some u })
queue_after none next m =
    if is_internal_state next then enter_internal next no_param m else stall_internal stall_error m

unfoldable pub switch_after : Transition → State → Machine → Machine
switch_after t next m =
    if same_state (dest t) next then m else queue_after (get_transition (dest t) next) next m

-- what is done with a transition that has started or has not
unfoldable pub proceed : (Machine → Machine) → Machine × Bool → Machine
proceed f (m, true) = f m
proceed f (m, false) = stall_internal stall_error m

-- the transition to IDLE, which is a reset where the state knows no other
unfoldable pub transition_to_idle : Option Transition → Transition
transition_to_idle (some t) = t
transition_to_idle none = reset

-- on the way to IDLE: what comes then
unfoldable pub queue_from_idle : Option Transition → State → Machine → Machine
queue_from_idle (some u) next m = set_next_state next (record m { next_transition = some u })
queue_from_idle none next m = stall_internal stall_error (record m { next_transition = none })

unfoldable pub switch_from_idle : State → Machine → Machine
switch_from_idle next m =
    if same_state next idle
    then set_next_state idle m
    else queue_from_idle (get_transition idle next) next m

unfoldable pub switch_by : Option Transition → State → Machine → Machine
switch_by (some t) next m = proceed (set_next_state next) (start_transition t m)
switch_by none next m =
    if is_internal_state next
    then enter_internal next no_param m
    else proceed (switch_from_idle next)
        (start_transition (transition_to_idle (get_transition m.last_state idle)) m)

unfoldable pub switch_from : Option Transition → State → Machine → Machine
switch_from (some t) next m = switch_after t next m
switch_from none next m = switch_by (get_transition m.last_state next) next m

-- `nci_sm_switch_internal`
unfoldable pub switch_internal : State → Machine → Machine
switch_internal next m =
    if same_state m.next_state next
    then m
    else emit_pending_signals (switch_from m.active next (record m { next_transition = none }))

-- `nci_sm_switch_to`: while a state is being entered the switch is put off
unfoldable pub switch_to : State → Machine → Machine
switch_to s m =
    if m.entering == 0
    then switch_internal s (record m { pending_switch = none })
    else record m { pending_switch = some s }

-- `nci_sm_switch_proc`, the idle callback
unfoldable pub switch_if : Option State → Machine → Machine
switch_if none m = m
switch_if (some s) m = switch_internal s (record m { pending_switch = none })

unfoldable pub switch_proc : Machine → Machine
switch_proc m = switch_if m.pending_switch m

-- `nci_sm_reset`
unfoldable pub reset_machine : Machine → Machine
reset_machine m =
    let cleared = record m { pending_switch = none; next_transition = none } in
    emit_pending_signals (switch_internal idle (enter_internal init no_param cleared))

-- `nci_sm_restart`
unfoldable pub restart : Machine → Machine
restart m = if ltb (state_id idle) (state_id m.next_state) then switch_to idle m else m

unfoldable pub set_op_mode : ℕ → Machine → Machine
set_op_mode mode m =
    if m.config.op_mode == mode
    then m
    else restart (record m { config = record m.config { op_mode = mode } })

-- The second component is what is returned.
unfoldable pub set_tech : ℕ → Machine → Machine × ℕ
set_tech tech m =
    let valid_techs = bit_and tech Tech.all in
    if m.config.techs == valid_techs
    then (m, 0)
    else (restart (record m { config = record m.config { techs = valid_techs } }), valid_techs)

-- `nci_transition_timeout`
unfoldable pub transition_timeout : Transition → Machine → Machine
transition_timeout t m = stall stall_error (record m { timers = without t m.timers })

-- `nci_sm_new` for a configuration and an I/O
unfoldable pub new : Config → Bool → ℕ → Machine
new c accepts ms = record {
  config = c;
  io_sends = accepts;
  io_timeout = ms;
  last_state = init;
  next_state = init;
  active_state = some init;
  active = none;
  next_transition = none;
  entering = 0;
  pending_switch = none;
  next_pending = false;
  last_pending = false;
  timers = [];
  discoveries = [];
  expecting_ntf = false;
  ntf = none;
  log = [];
  fault = false;
}
