-- ===== src/Sm/Types.antt =====
-- The enumerations and the configuration of the state machine: include/nci_types.h,
-- src/nci_types_p.h and `struct nci_sm` of src/nci_sm.h.
use libncicore.Common.{ℕ, Bool, not, Option, List, ◌==◌, ltb, bit_and}
use libncicore.Util.Types.{Nfcid1}

-- `NCI_STATE`
pub data State : Type 0 where
  init error stop idle discovery w4_all_discoveries w4_host_select : State
  poll_active listen_active listen_sleep : State

abbrev pub state_id : State → ℕ
state_id init = 0
state_id error = 1
state_id stop = 2
state_id idle = 3
state_id discovery = 4
state_id w4_all_discoveries = 5
state_id w4_host_select = 6
state_id poll_active = 7
state_id listen_active = 8
state_id listen_sleep = 9

-- States are compared by their pointers; there is one object for each.
abbrev pub same_state : State → State → Bool
same_state a b = state_id a == state_id b

abbrev pub is_internal_state : State → Bool
is_internal_state s = ltb (state_id s) (state_id idle)

-- the transitions that `nci_sm_new` makes, each of them one object
pub data Transition : Type 0 where
  reset idle_to_discovery deactivate_to_idle deactivate_to_discovery : Transition
  poll_active_to_idle listen_active_to_idle : Transition

abbrev pub transition_id : Transition → ℕ
transition_id reset = 0
transition_id idle_to_discovery = 1
transition_id deactivate_to_idle = 2
transition_id deactivate_to_discovery = 3
transition_id poll_active_to_idle = 4
transition_id listen_active_to_idle = 5

abbrev pub same_transition : Transition → Transition → Bool
same_transition a b = transition_id a == transition_id b

-- `transition->dest`
abbrev pub dest : Transition → State
dest reset = idle
dest idle_to_discovery = discovery
dest deactivate_to_idle = idle
dest deactivate_to_discovery = discovery
dest poll_active_to_idle = idle
dest listen_active_to_idle = idle

-- `NCI_REQUEST_STATUS`
pub data RequestStatus : Type 0 where
  success timeout cancelled : RequestStatus

-- `NCI_INTERFACE_VERSION`
pub data InterfaceVersion : Type 0 where
  version_unknown version_1 version_2 : InterfaceVersion

-- `NCI_STALL`
pub data Stall : Type 0 where
  stall_stop stall_error : Stall

pub record AtsHb : Type 0 where
  pub len : ℕ
  pub bytes : List ℕ

-- `struct nci_sm`, less its states and its I/O, with the defaults of `struct nci_sm_object`
pub record Config : Type 0 where
  pub rf_interfaces : Option (List ℕ)
  pub max_routing_table_size : ℕ
  pub techs : ℕ
  pub version : InterfaceVersion
  pub nfcc_discovery : ℕ
  pub nfcc_routing : ℕ
  pub nfcc_power : ℕ
  pub op_mode : ℕ
  pub llc_version : ℕ
  pub llc_wks : ℕ
  pub la_nfcid1 : Nfcid1
  pub li_a_hb : AtsHb
  pub default_la_nfcid1 : Nfcid1
  pub default_li_a_hb : AtsHb

-- `x & mask` as a condition
abbrev pub has : ℕ → ℕ → Bool
has x mask = not (bit_and x mask == 0)
