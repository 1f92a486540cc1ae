-- ===== src/Sm/Control.antt =====
-- Starting transitions, entering states and stalling in src/nci_sm.c, with the methods
-- of the states that these call.
pub mod Frame
pub mod Enter
pub mod Methods
use libncicore.Common.{
  ℕ, ◌+◌, ◌-◌, Bool, true, false, not, ◌||◌, Option, none, some, List, [], ◌∷◌, ◌++◌, if◌then◌else◌,
  ◌==◌, bit_or,
}
use libncicore.Util.Types.{DiscoveryNtf}
use libncicore.Sm.Types.{
  State, Transition, Stall, Config, same_state, dest, has, error, stop, discovery,
  w4_all_discoveries, w4_host_select, reset, idle_to_discovery, deactivate_to_idle,
  deactivate_to_discovery, poll_active_to_idle, listen_active_to_idle, version_unknown, stall_stop,
  stall_error,
}
use libncicore.Sm.OpMode
use libncicore.Sm.Protocol
use libncicore.Sm.Start.{finish_active_transition, start}
use libncicore.Sm.Machine.{
  Param, Machine, reset_rsp, get_config_rsp, deactivate_to_idle_rsp, deactivate_to_discovery_rsp,
  poll_active_to_idle_rsp, listen_active_to_idle_rsp, next_state_changed, last_state_changed,
  selects, io_cancelled, max_data_payload, all_discoveries, host_select, logs, is_active, is_in,
  without, send_command,
}

-- `nci_state_leave`; RFST_W4_ALL_DISCOVERIES releases what it has stored
unfoldable pub leave_active_state : Machine → Machine
leave_active_state m = record m {
  active_state = none;
  discoveries = if is_in w4_all_discoveries m then [] else m.discoveries;
}

unfoldable pub finish_other : Transition → Machine → Machine
finish_other t m = if is_active t m then m else finish_active_transition m

-- The state is left where the transition has started; else no transition is active.
unfoldable pub started : Machine → Machine × Bool
started m = if m.io_sends then (leave_active_state m, true) else (record m { active = none }, false)

unfoldable pub start_transition : Transition → Machine → Machine × Bool
start_transition t m = started (start t (record (finish_other t m) { active = some t }))

unfoldable pub set_last_state : State → Machine → Machine
set_last_state s m =
    if same_state m.last_state s then m else record m { last_state = s; last_pending = true }

unfoldable pub set_next_state : State → Machine → Machine
set_next_state s m =
    if same_state m.next_state s then m else record m { next_state = s; next_pending = true }

unfoldable pub emit_next_state : Machine → Machine
emit_next_state m =
    if m.next_pending
    then logs (next_state_changed m.next_state) (record m { next_pending = false })
    else m

unfoldable pub emit_last_state : Machine → Machine
emit_last_state m =
    if m.last_pending
    then logs (last_state_changed m.last_state) (record m { last_pending = false })
    else m

-- The next state is signalled before the last one.
unfoldable pub emit_pending_signals : Machine → Machine
emit_pending_signals m = emit_last_state (emit_next_state m)

abbrev pub stall_state : Stall → State
stall_state stall_stop = stop
stall_state stall_error = error

-- A state becomes the active one, and the one before it is left.
unfoldable pub activate : State → Machine → Machine
activate s m = if is_in s m then m else record (leave_active_state m) { active_state = some s }

-- The two states that are entered here do nothing then.
unfoldable pub stall_internal : Stall → Machine → Machine
stall_internal type m =
    let s = stall_state type in
    activate s
      (set_next_state s (set_last_state s (finish_active_transition (logs io_cancelled m))))

unfoldable pub stall : Stall → Machine → Machine
stall type m = emit_pending_signals (stall_internal type m)

unfoldable pub start_next : Option Transition → State → Machine → Machine
start_next none s m = m
start_next (some t) s m = if same_state (dest t) s then m else (start_transition t m).0

-- The transition that comes next is dropped where the state is its destination.
unfoldable pub take_next_transition : State → Machine → Machine
take_next_transition s m = start_next m.next_transition s (record m { next_transition = none })

unfoldable pub set_next_if : Option Transition → State → Machine → Machine
set_next_if none s m = set_next_state s m
set_next_if (some t) s m = m

unfoldable pub settle : State → Machine → Machine
settle s m = set_next_if m.active s m

-- `nci_sm_enter_state_internal` around the enter or reenter method of the state, which do the same
-- in every state.
unfoldable pub enter_with : (Machine → Machine) → State → Machine → Machine
enter_with method s m =
    let begun = finish_active_transition (record m { entering = m.entering + 1 }) in
    let taken = take_next_transition s (method (activate s begun)) in
    let settled = settle s (set_last_state s taken) in
    record settled { entering = settled.entering - 1 }

-- `nci_sm_supports_protocol`
unfoldable pub supports_protocol : Config → ℕ → Bool
supports_protocol c protocol =
    if protocol == Protocol.t2t || protocol == Protocol.t5t
    then has c.op_mode OpMode.rw
    else if protocol == Protocol.iso_dep
    then has c.op_mode (bit_or OpMode.rw OpMode.ce)
    else if protocol == Protocol.nfc_dep
    then has c.op_mode OpMode.peer
    else false

unfoldable pub supported : Config → List DiscoveryNtf → List DiscoveryNtf
supported c [] = []
supported c (d ∷ l) =
    let rest = supported c l in if supports_protocol c d.protocol then d ∷ rest else rest

-- The targets to choose from go into the log, one of them is selected. With none the switch to
-- DISCOVERY is put off, since a state is being entered then.
unfoldable pub select_target : List DiscoveryNtf → Machine → Machine
select_target [] m = record m { pending_switch = some discovery }
select_target (d ∷ ds) m = if m.io_sends then logs (selects (d ∷ ds)) m else m

-- `nci_state_w4_host_select_entered`: a target is selected whose protocol is supported.
unfoldable pub host_select_entered : Param → Machine → Machine
host_select_entered (host_select l) m = select_target (supported m.config l) m
host_select_entered p m = m

-- `nci_sm_enter_state` for RFST_W4_HOST_SELECT
unfoldable pub enter_host_select : Param → Machine → Machine
enter_host_select p m = emit_pending_signals (enter_with (host_select_entered p) w4_host_select m)

-- `nci_state_w4_all_discoveries_handle_discovery`
unfoldable pub handle_discovery : DiscoveryNtf → Machine → Machine
handle_discovery d m =
    let stored = record m { discoveries = m.discoveries ++ (d ∷ []) } in
    if d.last then enter_host_select (host_select stored.discoveries) stored else stored

unfoldable pub all_discoveries_entered : Param → Machine → Machine
all_discoveries_entered (all_discoveries d) m = handle_discovery d (record m { discoveries = [] })
all_discoveries_entered p m = record m { discoveries = [] }

-- `nci_state_enter` and `nci_state_reenter`
unfoldable pub entered : State → Param → Machine → Machine
entered discovery p m = logs (max_data_payload 0) m
entered w4_all_discoveries p m = all_discoveries_entered p m
entered w4_host_select p m = host_select_entered p m
entered s p m = m

unfoldable pub enter_internal : State → Param → Machine → Machine
enter_internal s p m = enter_with (entered s p) s m

unfoldable pub enter_state : State → Param → Machine → Machine
enter_state s p m = emit_pending_signals (enter_internal s p m)
