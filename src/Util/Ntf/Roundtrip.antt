-- ===== src/Util/Ntf/Roundtrip.antt =====
-- The notification parsers of src/nci_util.c and the packets of the specification.
use libncicore.Common.{
  ℕ, suc, ◌+◌, ◌≤◌, ◌<◌, ◌≡◌, refl, Bool, true, not, List, [], ◌∷◌, ◌++◌, length, length-append,
  take, drop, get_or, arith, ◌==◌, take-length-append, ap, ◌∙◌, get_or-append_right,
  drop-append_right,
}
use libncicore.Util.Parse.{parsed, refused, ◌>>=◌}
use libncicore.Util.Ntf.{
  mode_param, activation_param, parse_discover_ntf, parse_intf_activated_ntf,
  parse_rf_deactivate_ntf,
}

-- the byte right after a block
get_or-length : (xs : List ℕ) (y : ℕ) (rest : List ℕ) → get_or (xs ++ (y ∷ rest)) (length xs) 0 ≡ y
get_or-length [] y rest = refl
get_or-length (x ∷ xs) y rest = get_or-length xs y rest

-- RF_DISCOVER_NTF as table 52 of the specification lays it out
abbrev pub discover_ntf_bytes : ℕ → ℕ → ℕ → List ℕ → ℕ → List ℕ → List ℕ
discover_ntf_bytes discovery_id protocol mode params type rest =
    discovery_id ∷ protocol ∷ mode ∷ length params ∷ (params ++ (type ∷ rest))

-- A packet laid out as table 52 of the specification has RF_DISCOVER_NTF is parsed to its fields,
-- whatever follows it, as far as its parameters do not make their own parser fault.
pub parse_discover_ntf_roundtrip :
    (wanted : Bool) (discovery_id protocol mode : ℕ) (params : List ℕ) (type : ℕ) (rest : List ℕ)
    → parse_discover_ntf wanted (discover_ntf_bytes discovery_id protocol mode params type rest) ≡ (
        mode_param wanted mode params >>= λ param. parsed (record {
          discovery_id = discovery_id;
          protocol = protocol;
          mode = mode;
          param_len = length params;
          param_bytes = params;
          param = param;
          last = not (type == 2);
        }))
unfolding parse_discover_ntf
parse_discover_ntf_roundtrip wanted i p mode params type rest =
    let pkt = discover_ntf_bytes i p mode params type rest in
    let four : 4 + length params ≡ suc (suc (suc (suc (length params)))) = omega arith in
    let type_at : get_or pkt (4 + length params) 0 ≡ type =
      rw four (get_or-length params type rest) in
    ground
      (arith, type_at, take-length-append params (type ∷ rest), length-append params (type ∷ rest))

-- RF_DEACTIVATE_NTF: of the packets of two bytes or more exactly those whose first is one of the
-- four deactivation types are accepted, and give that type and the reason after it; shorter ones
-- are refused.
pub parse_rf_deactivate_ntf_accepts :
    (type reason : ℕ) (rest : List ℕ)
    → ((type ≤ 3)
        → parse_rf_deactivate_ntf (type ∷ reason ∷ rest)
          ≡ parsed (record { type = type; reason = reason }))
      × ((3 < type) → parse_rf_deactivate_ntf (type ∷ reason ∷ rest) ≡ refused)
      × (parse_rf_deactivate_ntf (type ∷ []) ≡ refused)
      × (parse_rf_deactivate_ntf [] ≡ refused)
unfolding parse_rf_deactivate_ntf
parse_rf_deactivate_ntf_accepts type reason rest =
    (λ h. ground arith, λ h. ground arith, ground arith, ground arith)

-- RF_INTF_ACTIVATED_NTF as table 61 of the specification lays it out: what stands before the mode
-- parameters, and what stands after them
abbrev pub activated_head : ℕ → ℕ → ℕ → ℕ → ℕ → ℕ → List ℕ → List ℕ
activated_head discovery_id intf protocol mode max_size credits mode_params =
    discovery_id ∷ intf ∷ protocol ∷ mode ∷ max_size ∷ credits ∷ length mode_params ∷ mode_params

abbrev pub activated_tail : ℕ → ℕ → ℕ → List ℕ → List ℕ → List ℕ
activated_tail exchange_mode tx rx params rest =
    exchange_mode ∷ tx ∷ rx ∷ length params ∷ (params ++ rest)

-- A packet laid out as table 61 of the specification has RF_INTF_ACTIVATED_NTF is parsed to its
-- fields, whatever follows it, as far as its two blocks of parameters do not make their own
-- parsers fault.
pub parse_intf_activated_ntf_roundtrip :
    (discovery_id intf protocol mode max_size credits : ℕ) (mode_params : List ℕ)
    (exchange_mode tx rx : ℕ) (params rest : List ℕ)
    → parse_intf_activated_ntf (
        activated_head discovery_id intf protocol mode max_size credits mode_params
        ++ activated_tail exchange_mode tx rx params rest)
      ≡ (mode_param true mode mode_params >>= λ mp. activation_param intf mode params >>= λ ap.
          parsed (record {
            discovery_id = discovery_id;
            rf_intf = intf;
            protocol = protocol;
            mode = mode;
            max_data_packet_size = max_size;
            num_credits = credits;
            mode_param_bytes = mode_params;
            mode_param = mp;
            data_exchange_mode = exchange_mode;
            transmit_rate = tx;
            receive_rate = rx;
            activation_param_bytes = params;
            activation_param = ap;
          }))
unfolding parse_intf_activated_ntf
parse_intf_activated_ntf_roundtrip i f p mode max c mps em tx rx params rest =
    let tail = activated_tail em tx rx params rest in
    let head = activated_head i f p mode max c mps in
    let n = length mps in
    let size : length head ≡ 7 + n = omega arith in
    let at = λ (k : ℕ). get_or-append_right head tail k 0 in
    let at7 : get_or (head ++ tail) (7 + n) 0 ≡ em =
      ap (λ j. get_or (head ++ tail) j 0) (omega arith) ∙ at 0 in
    let at8 : get_or (head ++ tail) (8 + n) 0 ≡ tx =
      ap (λ j. get_or (head ++ tail) j 0) (omega arith) ∙ at 1 in
    let at9 : get_or (head ++ tail) (9 + n) 0 ≡ rx =
      ap (λ j. get_or (head ++ tail) j 0) (omega arith) ∙ at 2 in
    let at10 : get_or (head ++ tail) (10 + n) 0 ≡ length params =
      ap (λ j. get_or (head ++ tail) j 0) (omega arith) ∙ at 3 in
    let from11 : drop (11 + n) (head ++ tail) ≡ params ++ rest =
      ap (λ j. drop j (head ++ tail)) (omega arith) ∙ drop-append_right head tail 4 in
    let block : take (length params) (drop (11 + n) (head ++ tail)) ≡ params =
      ap (take (length params)) from11 ∙ take-length-append params rest in
    ground (
      arith,
      at7,
      at8,
      at9,
      at10,
      block,
      take-length-append mps tail,
      length-append head tail,
      length-append mps tail,
      length-append params rest,
    )
