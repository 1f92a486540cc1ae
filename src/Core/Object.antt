-- ===== src/Core/Object.antt =====
-- `NciCoreObject` of src/nci_core.c, and the callbacks of its data messages.
use libncicore.Common.{
  ℕ, suc, Bool, Option, none, some, List, [], ◌∷◌, ◌++◌, if◌then◌else◌, get_elem?,
}
use libncicore.Util.Types.{IntfActivationNtf}
use libncicore.Sar.Defs.{Sar, completed, destroyed, Event as SarEvent}
use libncicore.Sm.Types.{State}
use libncicore.Sm.Machine.{Handler, Machine}
use libncicore.Core.{CoreParamKey}

-- What the object does to the outside: its signals, the calls of the completion and of the destroy
-- callback of a data message, and the calls of the HAL.
pub data Output : Type 0 where
  current_state_changed next_state_changed : Output
  intf_activated : IntfActivationNtf → Output
  data_packet : ℕ → List ℕ → Output
  param_changed : CoreParamKey → Output
  message_completed : ℕ → Bool → Output
  message_destroyed : ℕ → Output
  hal : SarEvent → Output

-- `NciCoreSendData`, with whether the callbacks are there
pub record SendData : Type 0 where
  pub complete : Bool
  pub destroy : Bool
  pub user_data : ℕ

-- `cmd_timer` says whether `cmd_timeout_id` is not 0. `sends` are the blocks of `NciCoreSendData`
-- that have been allocated: the block at i is the user data i + 1 of its packet, and a command has
-- the user data 0.
pub record NciCore : Type 0 where
  pub sm : Machine
  pub sar : Sar
  pub cmd_id : ℕ
  pub cmd_timer : Bool
  pub cmd_timeout : ℕ
  pub rsp_gid : ℕ
  pub rsp_oid : ℕ
  pub rsp_handler : Option Handler
  pub current_state : State
  pub next_state : State
  pub sends : List SendData
  pub output : List Output

abbrev pub emits : Output → NciCore → NciCore
emits o c = record c { output = c.output ++ (o ∷ []) }

-- `nci_core_send_data_msg_complete`
unfoldable pub send_data_msg_complete : Option SendData → Bool → NciCore → NciCore
send_data_msg_complete none ok c = c
send_data_msg_complete (some send) ok c =
    if send.complete then emits (message_completed send.user_data ok) c else c

-- `nci_core_send_data_msg_destroy`
unfoldable pub send_data_msg_destroy : Option SendData → NciCore → NciCore
send_data_msg_destroy none c = c
send_data_msg_destroy (some send) c =
    if send.destroy then emits (message_destroyed send.user_data) c else c

-- What the SAR calls while it carries out a request of the state machine: the callbacks of the data
-- messages that it drops.
unfoldable pub drop_event : SarEvent → NciCore → NciCore
drop_event (completed (suc i) ok) c = send_data_msg_complete (get_elem? c.sends i) ok c
drop_event (destroyed (suc i)) c = send_data_msg_destroy (get_elem? c.sends i) c
drop_event e c = emits (hal e) c

unfoldable pub drop_events : List SarEvent → NciCore → NciCore
drop_events [] c = c
drop_events (e ∷ es) c = drop_events es (drop_event e c)

-- a request to the SAR
unfoldable pub with_sar : Sar × List SarEvent → NciCore → NciCore
with_sar (s, evs) c = drop_events evs (record c { sar = s })
