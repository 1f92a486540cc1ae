-- ===== src/Sm/Machine.antt =====
-- `struct nci_sm_object` of src/nci_sm.c, its transition timers and the fields of its states and
-- transitions, as one record. What it asks of its `NciSmIo` and of its SAR, and the signals that it
-- emits, are a log.
use libncicore.Common.{ℕ, Bool, false, Option, none, some, List, [], ◌∷◌, ◌++◌, if◌then◌else◌}
use libncicore.Util.Types.{DiscoveryNtf, IntfActivationNtf, RfDeactivateNtf}
use libncicore.Sm.Types.{
  State, Transition, Config, same_state, same_transition, idle, discovery, w4_all_discoveries,
  w4_host_select, poll_active, listen_active, listen_sleep, idle_to_discovery, deactivate_to_idle,
  deactivate_to_discovery, poll_active_to_idle, listen_active_to_idle,
}

-- The response functions. Each of them belongs to one transition, or to a state.
pub data Handler : Type 0 where
  reset_rsp init_v1_rsp init_v2_rsp reset_set_config_rsp : Handler
  get_config_rsp set_config_rsp set_mixed_routing_rsp set_protocol_routing_rsp : Handler
  last_protocol_routing_rsp set_tech_routing_rsp discover_map_rsp discover_rsp : Handler
  deactivate_to_idle_rsp deactivate_to_discovery_rsp deactivate_to_discovery_idle_rsp : Handler
  poll_active_to_idle_rsp listen_active_to_idle_rsp host_select_rsp : Handler

pub data Event : Type 0 where
  next_state_changed last_state_changed : State → Event
  interface_activated : IntfActivationNtf → Event
  sends : ℕ → ℕ → List ℕ → Handler → Event
  selects : List DiscoveryNtf → Event
  io_cancelled : Event
  max_logical_connections max_control_payload max_data_payload : ℕ → Event
  initial_credits : ℕ → Event
  credits_added : ℕ → ℕ → Event

-- The parameter of a state: `NciParamW4AllDiscoveries`, `NciParamW4HostSelect`.
pub data Param : Type 0 where
  no_param : Param
  all_discoveries : DiscoveryNtf → Param
  host_select : List DiscoveryNtf → Param

-- `io_sends` is what `io->send` answers, `io_timeout` what `io->timeout` does. `timers` are the
-- transitions whose timeout is pending. A parser that reads past its bytes, or hands
-- out bytes past them, sets `fault`.
pub record Machine : Type 0 where
  pub config : Config
  pub io_sends : Bool
  pub io_timeout : ℕ
  pub last_state : State
  pub next_state : State
  pub active_state : Option State
  pub active : Option Transition
  pub next_transition : Option Transition
  pub entering : ℕ
  pub pending_switch : Option State
  pub next_pending : Bool
  pub last_pending : Bool
  pub timers : List Transition
  pub discoveries : List DiscoveryNtf
  pub expecting_ntf : Bool
  pub ntf : Option RfDeactivateNtf
  pub log : List Event
  pub fault : Bool

abbrev pub logs : Event → Machine → Machine
logs e m = record m { log = m.log ++ (e ∷ []) }

abbrev pub is_active : Transition → Machine → Bool
is_active t m = elim m.active [ none ↦ false | some u ↦ same_transition u t ]

abbrev pub is_in : State → Machine → Bool
is_in s m = elim m.active_state [ none ↦ false | some u ↦ same_state u s ]

-- `gutil_source_clear` of the timeout of a transition
abbrev pub without : Transition → List Transition → List Transition
without t [] = []
without t (u ∷ l) = if same_transition u t then without t l else u ∷ without t l

-- `nci_sm_send_command`, which succeeds where `io_sends` says so
abbrev pub send_command : ℕ → ℕ → List ℕ → Handler → Machine → Machine
send_command gid oid payload rsp m = if m.io_sends then logs (sends gid oid payload rsp) m else m

-- `nci_state_get_transition` for what `nci_sm_new` adds
unfoldable pub get_transition : State → State → Option Transition
get_transition discovery idle = some deactivate_to_idle
get_transition w4_all_discoveries idle = some deactivate_to_idle
get_transition w4_host_select idle = some deactivate_to_idle
get_transition listen_sleep idle = some deactivate_to_idle
get_transition poll_active discovery = some deactivate_to_discovery
get_transition listen_active discovery = some deactivate_to_discovery
get_transition idle discovery = some idle_to_discovery
get_transition poll_active idle = some poll_active_to_idle
get_transition listen_active idle = some listen_active_to_idle
get_transition from to = none
