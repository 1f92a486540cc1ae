-- ===== src/Sar/Defs.antt =====
-- The data of src/nci_sar.c. A `GBytes` or a `GByteArray` is the list of its bytes, and a pointer
-- that may be NULL an `Option`. The calls that the code makes on its HAL, on its client and on the
-- callbacks of a packet are values of `Event`, in the order in which they are made; `hal_write` has
-- the bytes of its chunks and the HAL's answer.
use libncicore.Common.{ℕ, Bool, false, Option, none, List, [], length}

abbrev pub default_max_logical_connections : ℕ
default_max_logical_connections = 1

abbrev pub min_control_payload_limit : ℕ
min_control_payload_limit = 0x20

abbrev pub min_data_payload_limit : ℕ
min_data_payload_limit = 0x01

abbrev pub unlimited_credits : ℕ
unlimited_credits = 0xff

abbrev pub nci_mt_mask : ℕ
nci_mt_mask = 0xe0

abbrev pub nci_mt_data_pkt : ℕ
nci_mt_data_pkt = 0x00

abbrev pub nci_mt_cmd_pkt : ℕ
nci_mt_cmd_pkt = 0x20

abbrev pub nci_mt_rsp_pkt : ℕ
nci_mt_rsp_pkt = 0x40

abbrev pub nci_mt_ntf_pkt : ℕ
nci_mt_ntf_pkt = 0x60

abbrev pub nci_pbf : ℕ
nci_pbf = 0x10

-- ~NCI_PBF, as a byte
abbrev pub nci_pbf_clear : ℕ
nci_pbf_clear = 0xef

abbrev pub nci_control_gid_mask : ℕ
nci_control_gid_mask = 0x0f

abbrev pub nci_control_oid_mask : ℕ
nci_control_oid_mask = 0x3f

abbrev pub nci_data_cid_mask : ℕ
nci_data_cid_mask = 0x0f

abbrev pub nci_data_cr_mask : ℕ
nci_data_cr_mask = 0x03

-- `struct nci_sar_packet_out`. `conn` is the index of the logical connection that the pointer
-- names; `complete` and `destroy` say whether the callback is there.
pub record PacketOut : Type 0 where
  pub conn : Option ℕ
  pub hdr0 : ℕ
  pub hdr1 : ℕ
  pub hdr2 : ℕ
  pub payload : Option (List ℕ)
  pub payload_pos : ℕ
  pub complete : Bool
  pub destroy : Bool
  pub user_data : ℕ
  pub id : ℕ

-- `NciSarPacketOutQueue`. `items` is the chain of `next` pointers from `first`. `last` says whether
-- the `last` pointer is there: the code sets it to nothing but NULL and the end of the chain.
pub record PacketOutQueue : Type 0 where
  pub items : List PacketOut
  pub last : Bool

abbrev pub empty_queue : PacketOutQueue
empty_queue = record { items = []; last = false }

-- `struct nci_sar_logical_connection`; `input` is the field `in`.
pub record LogicalConnection : Type 0 where
  pub credits : ℕ
  pub input : Option (List ℕ)
  pub out : PacketOutQueue

abbrev pub new_connection : LogicalConnection
new_connection = record { credits = 0; input = none; out = empty_queue }

-- `struct nci_sar`. The array `conn` has `max_logical_conns` entries, so the field is the length of
-- the list. `start_write` says whether `start_write_id` is not 0.
pub record Sar : Type 0 where
  pub started : Bool
  pub control_payload_limit : ℕ
  pub data_payload_limit : ℕ
  pub last_packet_id : ℕ
  pub start_write : Bool
  pub write_pending : Bool
  pub writing : Option PacketOut
  pub cmd : PacketOutQueue
  pub conn : List LogicalConnection
  pub control_in : Option (List ℕ)
  pub read_buf : Option (List ℕ)

abbrev pub max_logical_conns : Sar → ℕ
max_logical_conns s = length s.conn

-- What the HAL would answer to `start` and to `write`, for the one call of each that an operation
-- makes at most.
pub record HalReply : Type 0 where
  pub start : Bool
  pub write : Bool

pub data Event : Type 0 where
  hal_start : Event
  hal_stop : Event
  hal_write : List ℕ → Bool → Event
  hal_cancel_write : Event
  completed : ℕ → Bool → Event
  destroyed : ℕ → Event
  client_error : Event
  response : ℕ → ℕ → List ℕ → Event
  notification : ℕ → ℕ → List ℕ → Event
  data_packet : ℕ → List ℕ → Event
