-- ===== src/Util/Ntf/Safety.antt =====
-- The notification parsers of src/nci_util.c and the ends of their packets.
use libncicore.Common.{ℕ, ◌+◌, ◌≢◌, Bool, true, false, List, [], ◌∷◌, take, drop, get_or, arith}
use libncicore.Util.Parse.{Parse, parsed, refused, overrun, IsSafe, optional}
use libncicore.Util.Types.{nci_mode, rf_interface, passive_poll_b}
use libncicore.Util.ModeParam.Safety.{parse_mode_param-IsSafe}
use libncicore.Util.Activation.Safety.{parse_activation_param-IsSafe}
use libncicore.Util.Ntf.{
  mode_param, activation_param, parse_discover_ntf, parse_intf_activated_ntf,
  parse_rf_deactivate_ntf,
}

optional-IsSafe {ℓ} : {A : Type ℓ} (p : Parse A) → IsSafe p → IsSafe (optional p)
optional-IsSafe (parsed a) h = tt
optional-IsSafe refused h = tt
optional-IsSafe overrun h = h

mode_param-IsSafe :
    (wanted : Bool) (mode : ℕ) (bytes : List ℕ)
    → nci_mode mode ≢ passive_poll_b
    → IsSafe (mode_param wanted mode bytes)
unfolding mode_param
mode_param-IsSafe wanted mode [] h = tt
mode_param-IsSafe false mode (x ∷ xs) h = tt
mode_param-IsSafe true mode (x ∷ xs) h =
    optional-IsSafe _ (parse_mode_param-IsSafe (nci_mode mode) (x ∷ xs) h)

activation_param-IsSafe :
    (intf mode : ℕ) (bytes : List ℕ)
    → nci_mode mode ≢ passive_poll_b
    → IsSafe (activation_param intf mode bytes)
unfolding activation_param
activation_param-IsSafe intf mode [] h = tt
activation_param-IsSafe intf mode (x ∷ xs) h =
    optional-IsSafe _
      (parse_activation_param-IsSafe (x ∷ xs) (omega arith) (rf_interface intf) (nci_mode mode) h)

-- RF_DISCOVER_NTF: whatever is in the packet, its parser reads nothing past the packet's end or
-- past its parameters, unless the mode in it is passive poll B.
pub parse_discover_ntf-IsSafe :
    (wanted : Bool) (pkt : List ℕ)
    → nci_mode (get_or pkt 2 0) ≢ passive_poll_b
    → IsSafe (parse_discover_ntf wanted pkt)
unfolding parse_discover_ntf
parse_discover_ntf-IsSafe wanted pkt h =
    ground (arith, mode_param-IsSafe wanted (get_or pkt 2 0) (take (get_or pkt 3 0) (drop 4 pkt)) h)

-- RF_INTF_ACTIVATED_NTF: whatever is in the packet, its parser reads nothing past the packet's end
-- or past either block of its parameters, unless the mode in it is passive poll B.
pub parse_intf_activated_ntf-IsSafe :
    (pkt : List ℕ)
    → nci_mode (get_or pkt 3 0) ≢ passive_poll_b
    → IsSafe (parse_intf_activated_ntf pkt)
unfolding parse_intf_activated_ntf
parse_intf_activated_ntf-IsSafe pkt h =
    let n = get_or pkt 6 0 in
    let m = get_or pkt (10 + n) 0 in
    let mode = get_or pkt 3 0 in
    ground (
      arith,
      mode_param-IsSafe true mode (take n (drop 7 pkt)) h,
      activation_param-IsSafe (get_or pkt 1 0) mode (take m (drop (11 + n) pkt)) h,
    )

-- RF_DEACTIVATE_NTF: no packet makes the parser read past its end.
pub parse_rf_deactivate_ntf-IsSafe : (pkt : List ℕ) → IsSafe (parse_rf_deactivate_ntf pkt)
unfolding parse_rf_deactivate_ntf
parse_rf_deactivate_ntf-IsSafe pkt = ground arith
