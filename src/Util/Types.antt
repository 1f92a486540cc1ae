-- ===== src/Util/Types.antt =====
-- The enumerations and structures of include/nci_types.h that the parsers fill in. A `GUtilData` is
-- the list of its bytes; a union is a data type with a constructor for each member.
use libncicore.Common.{ℕ, Bool, Option, List, if◌then◌else◌, ◌==◌}

-- `NCI_MODE`; any other value of the byte is `unknown`.
pub data NciMode : Type 0 where
  passive_poll_a passive_poll_b passive_poll_f active_poll_a active_poll_f passive_poll_v : NciMode
  passive_listen_a passive_listen_b passive_listen_f active_listen_a active_listen_f : NciMode
  passive_listen_v unknown : NciMode

unfoldable pub nci_mode : ℕ → NciMode
nci_mode b =
    if b == 0x00
    then passive_poll_a
    else if b == 0x01
    then passive_poll_b
    else if b == 0x02
    then passive_poll_f
    else if b == 0x03
    then active_poll_a
    else if b == 0x05
    then active_poll_f
    else if b == 0x06
    then passive_poll_v
    else if b == 0x80
    then passive_listen_a
    else if b == 0x81
    then passive_listen_b
    else if b == 0x82
    then passive_listen_f
    else if b == 0x83
    then active_listen_a
    else if b == 0x85
    then active_listen_f
    else if b == 0x86
    then passive_listen_v
    else unknown

-- `NCI_RF_INTERFACE`
pub data RfInterface : Type 0 where
  nfcee_direct frame iso_dep nfc_dep proprietary other_interface : RfInterface

pub rf_interface : ℕ → RfInterface
rf_interface b =
    if b == 0x00
    then nfcee_direct
    else if b == 0x01
    then frame
    else if b == 0x02
    then iso_dep
    else if b == 0x03
    then nfc_dep
    else if b == 0x80
    then proprietary
    else other_interface

pub record ModeParamPollA : Type 0 where
  pub sens_res : List ℕ
  pub nfcid1_len : ℕ
  pub nfcid1 : List ℕ
  pub sel_res_len : ℕ
  pub sel_res : ℕ

pub record ModeParamPollB : Type 0 where
  pub nfcid0 : List ℕ
  pub fsc : ℕ
  pub app_data : List ℕ
  pub prot_info : List ℕ

pub record ModeParamPollF : Type 0 where
  pub bitrate : ℕ
  pub nfcid2 : List ℕ

pub record ModeParamPollV : Type 0 where
  pub res_flag : ℕ
  pub dsfid : ℕ
  pub uid : List ℕ

pub record ModeParamListenF : Type 0 where
  pub nfcid2 : List ℕ

pub data ModeParam : Type 0 where
  poll_a : ModeParamPollA → ModeParam
  poll_b : ModeParamPollB → ModeParam
  poll_f : ModeParamPollF → ModeParam
  poll_v : ModeParamPollV → ModeParam
  listen_f : ModeParamListenF → ModeParam

pub record IsoDepPollA : Type 0 where
  pub fsc : ℕ
  pub t1 : List ℕ
  pub t0 : ℕ
  pub ta : ℕ
  pub tb : ℕ
  pub tc : ℕ

pub record IsoDepPollB : Type 0 where
  pub mbli : ℕ
  pub did : ℕ
  pub hlr : List ℕ

pub record IsoDepListenA : Type 0 where
  pub fsd : ℕ
  pub did : ℕ

pub record IsoDepListenB : Type 0 where
  pub nfcid0 : List ℕ
  pub param : List ℕ
  pub hlc : List ℕ

pub record NfcDepPoll : Type 0 where
  pub nfcid3 : List ℕ
  pub did : ℕ
  pub bs : ℕ
  pub br : ℕ
  pub to : ℕ
  pub pp : ℕ
  pub g : List ℕ

pub record NfcDepListen : Type 0 where
  pub nfcid3 : List ℕ
  pub did : ℕ
  pub bs : ℕ
  pub br : ℕ
  pub pp : ℕ
  pub g : List ℕ

pub data ActivationParam : Type 0 where
  iso_dep_poll_a : IsoDepPollA → ActivationParam
  iso_dep_poll_b : IsoDepPollB → ActivationParam
  iso_dep_listen_a : IsoDepListenA → ActivationParam
  iso_dep_listen_b : IsoDepListenB → ActivationParam
  nfc_dep_poll : NfcDepPoll → ActivationParam
  nfc_dep_listen : NfcDepListen → ActivationParam

-- `param_bytes` is NULL where the list is empty.
pub record DiscoveryNtf : Type 0 where
  pub discovery_id : ℕ
  pub protocol : ℕ
  pub mode : ℕ
  pub param_len : ℕ
  pub param_bytes : List ℕ
  pub param : Option ModeParam
  pub last : Bool

pub record IntfActivationNtf : Type 0 where
  pub discovery_id : ℕ
  pub rf_intf : ℕ
  pub protocol : ℕ
  pub mode : ℕ
  pub max_data_packet_size : ℕ
  pub num_credits : ℕ
  pub mode_param_bytes : List ℕ
  pub mode_param : Option ModeParam
  pub data_exchange_mode : ℕ
  pub transmit_rate : ℕ
  pub receive_rate : ℕ
  pub activation_param_bytes : List ℕ
  pub activation_param : Option ActivationParam

pub record RfDeactivateNtf : Type 0 where
  pub type : ℕ
  pub reason : ℕ

-- `NciNfcid1`
pub record Nfcid1 : Type 0 where
  pub len : ℕ
  pub bytes : List ℕ
