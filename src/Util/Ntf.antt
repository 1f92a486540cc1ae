-- ===== src/Util/Ntf.antt =====
-- The notification parsers of src/nci_util.c.
pub mod Safety
pub mod Roundtrip
use libncicore.Common.{
  ℕ, ◌+◌, Bool, true, false, not, ◌&&◌, ◌||◌, Option, none, some, List, [], ◌∷◌, if◌then◌else◌,
  ◌==◌, ltb, leb, length, get_or,
}
use libncicore.Util.Parse.{
  Parse, parsed, refused, overrun, ◌>>=◌, ◌>>◌, require, byte, slice, optional,
}
use libncicore.Util.Types.{
  nci_mode, rf_interface, ModeParam, ActivationParam, DiscoveryNtf, IntfActivationNtf,
  RfDeactivateNtf,
}
use libncicore.Util.ModeParam.{parse_mode_param}
use libncicore.Util.Activation.{parse_activation_param}

abbrev pub is_empty : List ℕ → Bool
is_empty [] = true
is_empty (x ∷ xs) = false

-- The parameters of a mode, where there are some and the caller has room for them.
unfoldable pub mode_param : Bool → ℕ → List ℕ → Parse (Option ModeParam)
mode_param wanted mode bytes =
    if is_empty bytes || not wanted
    then parsed none
    else optional (parse_mode_param (nci_mode mode) bytes)

-- The first argument says whether the caller gives a place for the mode parameters.
unfoldable pub parse_discover_ntf : Bool → List ℕ → Parse DiscoveryNtf
parse_discover_ntf wanted pkt = do
  require (leb 5 (length pkt))
  n ← byte pkt 3
  require (leb (5 + n) (length pkt))
  discovery_id ← byte pkt 0
  protocol ← byte pkt 1
  mode ← byte pkt 2
  param_bytes ← slice pkt 4 n
  notification_type ← byte pkt (4 + n)
  param ← mode_param wanted mode param_bytes
  parsed (record {
    discovery_id = discovery_id;
    protocol = protocol;
    mode = mode;
    param_len = n;
    param_bytes = param_bytes;
    param = param;
    last = not (notification_type == 2);
  })

pub activation_param : ℕ → ℕ → List ℕ → Parse (Option ActivationParam)
activation_param intf mode bytes =
    if is_empty bytes
    then parsed none
    else optional (parse_activation_param (rf_interface intf) (nci_mode mode) bytes)

pub parse_intf_activated_ntf : List ℕ → Parse IntfActivationNtf
unfolding mode_param activation_param
parse_intf_activated_ntf pkt = do
  require (ltb 6 (length pkt))
  n ← byte pkt 6
  m ← if ltb (10 + n) (length pkt) then byte pkt (10 + n) else parsed 0
  require (leb (11 + n + m) (length pkt))
  discovery_id ← byte pkt 0
  rf_intf ← byte pkt 1
  protocol ← byte pkt 2
  mode ← byte pkt 3
  max_data_packet_size ← byte pkt 4
  num_credits ← byte pkt 5
  mode_param_bytes ← slice pkt 7 n
  data_exchange_mode ← byte pkt (7 + n)
  transmit_rate ← byte pkt (8 + n)
  receive_rate ← byte pkt (9 + n)
  activation_param_bytes ← slice pkt (11 + n) m
  mp ← mode_param true mode mode_param_bytes
  ap ← activation_param rf_intf mode activation_param_bytes
  parsed (record {
    discovery_id = discovery_id;
    rf_intf = rf_intf;
    protocol = protocol;
    mode = mode;
    max_data_packet_size = max_data_packet_size;
    num_credits = num_credits;
    mode_param_bytes = mode_param_bytes;
    mode_param = mp;
    data_exchange_mode = data_exchange_mode;
    transmit_rate = transmit_rate;
    receive_rate = receive_rate;
    activation_param_bytes = activation_param_bytes;
    activation_param = ap;
  })

-- Idle, Sleep, Sleep_AF and Discovery are the types from 0 to 3.
pub parse_rf_deactivate_ntf : List ℕ → Parse RfDeactivateNtf
parse_rf_deactivate_ntf pkt = do
  require (leb 2 (length pkt))
  type ← byte pkt 0
  reason ← byte pkt 1
  require (type == 0x00 || (type == 0x03 || (type == 0x01 || type == 0x02)))
  parsed (record { type = type; reason = reason })
