-- ===== src/Discovery/Config.antt =====
-- CORE_GET_CONFIG_RSP and CORE_SET_CONFIG_CMD in src/nci_transition_idle_to_discovery.c: what the
-- NFCC reports is compared with what the state machine wants, and the rest is set.
pub mod Settle
use libncicore.Common.{
  ℕ, suc, ◌+◌, ◌-◌, ◌%◌, Bool, true, false, not, ◌&&◌, ◌||◌, Option, none, some, List, [], ◌∷◌,
  ◌++◌, if◌then◌else◌, ◌==◌, leb, length, take, drop, get_or, bit_and, bit_or,
}
use libncicore.Util.Parse.{padded}
use libncicore.Util.Types.{Nfcid1}
use libncicore.Util.Nfcid.{nfcid1_equal, bytes_eq}
use libncicore.Util.Config.{find_config_param, config_param_uint, config_param_nfcid1}
use libncicore.Sm.Types.{Config, AtsHb, has}
use libncicore.Sm.OpMode
use libncicore.Sm.Tech

-- `NCI_CONFIG_LA_SENS_RES_1` and the others that are read and set here
abbrev pub la_sens_res_1_id : ℕ
la_sens_res_1_id = 0x30

abbrev pub la_sel_info_id : ℕ
la_sel_info_id = 0x32

abbrev pub la_nfcid1_id : ℕ
la_nfcid1_id = 0x33

abbrev pub lf_protocol_type_id : ℕ
lf_protocol_type_id = 0x50

abbrev pub li_a_hist_by_id : ℕ
li_a_hist_by_id = 0x59

-- Whether the parameter is as expected, and the byte to set: the bits out of the mask are kept.
unfoldable pub config_byte_ok : ℕ → List ℕ → ℕ → ℕ → ℕ → Bool × ℕ
config_byte_ok nparams params id expected mask = elim (config_param_uint nparams params id) [
  | none ↦ (false, expected)
  | some (size, value) ↦
      if size == 1
      then (if bit_and (value % 256) mask == expected
          then (true, expected)
          else (false, bit_or expected (bit_and (value % 256) (255 - mask))))
      else (false, expected)
]

unfoldable pub la_sens_res_1_expected : Config → ℕ
la_sens_res_1_expected c =
    let len = c.la_nfcid1.len in
    if len == 0
    then 0x00
    else if len == 4
    then 0x00
    else if len == 7
    then 0x40
    else if len == 10
    then 0x80
    else 0

unfoldable pub la_nfcid1_expected : Config → Nfcid1
la_nfcid1_expected c =
    let id = c.la_nfcid1 in
    if id.len == 4 || (id.len == 7 || id.len == 10)
    then record { len = id.len; bytes = padded 10 (take id.len id.bytes) }
    else record { len = 4; bytes = padded 10 (0x08 ∷ []) }

abbrev pub listens_as_peer : Config → Bool
listens_as_peer c =
    bit_and c.op_mode (bit_or OpMode.listen OpMode.peer) == bit_or OpMode.listen OpMode.peer

unfoldable pub la_sel_info_expected : Config → ℕ
la_sel_info_expected c =
    let ce = if has c.op_mode OpMode.ce then bit_or 0 0x20 else 0 in
    if listens_as_peer c then bit_or ce 0x40 else ce

unfoldable pub lf_protocol_type_expected : Config → ℕ
lf_protocol_type_expected c = if listens_as_peer c && has c.techs Tech.f_listen then 0x02 else 0

unfoldable pub config_nfcid1_ok : ℕ → List ℕ → ℕ → Nfcid1 → Bool
config_nfcid1_ok nparams params id expected = elim (config_param_nfcid1 nparams params id) [
  | none ↦ false
  | some value ↦ nfcid1_equal value expected
]

-- Where the parameter is missing, an empty value is taken to be right.
unfoldable pub hb_ok : ℕ → List ℕ → ℕ → AtsHb → Bool
hb_ok nparams params id hb = elim (find_config_param nparams params id) [
  | none ↦ hb.len == 0
  | some value ↦ length value == hb.len && (hb.len == 0 || bytes_eq value (take hb.len hb.bytes))
]

-- The flags `CORE_SET_CONFIG_FLAGS`, and the values to set.
pub record Wanted : Type 0 where
  pub set_la_sens_res_1 : Bool
  pub set_la_sel_info : Bool
  pub set_la_nfcid1 : Bool
  pub set_lf_protocol_type : Bool
  pub set_li_a_hb : Bool
  pub la_sens_res_1 : ℕ
  pub la_sel_info : ℕ
  pub la_nfcid1 : Nfcid1
  pub lf_protocol_type : ℕ

-- with no answer to compare with: all of them
unfoldable pub all_wanted : Config → Wanted
all_wanted c = record {
  set_la_sens_res_1 = true;
  set_la_sel_info = true;
  set_la_nfcid1 = true;
  set_lf_protocol_type = true;
  set_li_a_hb = true;
  la_sens_res_1 = la_sens_res_1_expected c;
  la_sel_info = la_sel_info_expected c;
  la_nfcid1 = la_nfcid1_expected c;
  lf_protocol_type = lf_protocol_type_expected c;
}

unfoldable pub compare_config : Config → ℕ → List ℕ → Wanted
compare_config c n params =
    let (sens_ok, sens) =
      config_byte_ok n params la_sens_res_1_id (la_sens_res_1_expected c) 0xc0 in
    let (sel_ok, sel) = config_byte_ok n params la_sel_info_id (la_sel_info_expected c) 0x60 in
    let (lf_ok, lf) =
      config_byte_ok n params lf_protocol_type_id (lf_protocol_type_expected c) 0x02 in
    record {
      set_la_sens_res_1 = not sens_ok;
      set_la_sel_info = not sel_ok;
      set_la_nfcid1 = not (config_nfcid1_ok n params la_nfcid1_id (la_nfcid1_expected c));
      set_lf_protocol_type = not lf_ok;
      set_li_a_hb = not (hb_ok n params li_a_hist_by_id c.li_a_hb);
      la_sens_res_1 = sens;
      la_sel_info = sel;
      la_nfcid1 = la_nfcid1_expected c;
      lf_protocol_type = lf;
    }

abbrev pub nothing_wanted : Wanted → Bool
nothing_wanted w = not (
    w.set_la_sens_res_1
    || (w.set_la_sel_info || (w.set_la_nfcid1 || (w.set_lf_protocol_type || w.set_li_a_hb))))

abbrev pub param_if : Bool → ℕ → ℕ → List ℕ → ℕ × List ℕ → ℕ × List ℕ
param_if wanted id len value (n, bytes) =
    if wanted then (n + 1, bytes ++ (id ∷ len ∷ value)) else (n, bytes)

-- The number of parameters, and their bytes.
unfoldable pub set_config : Config → Wanted → List ℕ
set_config c w =
    let (n, bytes) =
      param_if w.set_li_a_hb li_a_hist_by_id c.li_a_hb.len (take c.li_a_hb.len c.li_a_hb.bytes) (
        param_if w.set_lf_protocol_type lf_protocol_type_id 1 (w.lf_protocol_type ∷ []) (
          param_if w.set_la_nfcid1 la_nfcid1_id w.la_nfcid1.len
            (take w.la_nfcid1.len w.la_nfcid1.bytes)
            (param_if w.set_la_sel_info la_sel_info_id 1 (w.la_sel_info ∷ [])
              (param_if w.set_la_sens_res_1 la_sens_res_1_id 1 (w.la_sens_res_1 ∷ []) (0, []))))) in
    n ∷ bytes

-- What follows CORE_GET_CONFIG_RSP: nothing to set (`none`), or the payload of CORE_SET_CONFIG_CMD.
-- The arguments are whether the request succeeded, and its payload.
pub get_config_done : Config → Bool → List ℕ → Option (List ℕ)
unfolding compare_config all_wanted set_config
get_config_done c ok [] = some (set_config c (all_wanted c))
get_config_done c ok (status ∷ []) = some (set_config c (all_wanted c))
get_config_done c ok (status ∷ n ∷ params) =
    let w = compare_config c n params in
    if ok && status == 0x00
    then (if nothing_wanted w then none else some (set_config c w))
    else some (set_config c (all_wanted c))

-- the payload of CORE_GET_CONFIG_CMD
abbrev pub get_config : List ℕ
get_config =
    5 ∷ la_sens_res_1_id ∷ la_sel_info_id ∷ la_nfcid1_id ∷ lf_protocol_type_id ∷ li_a_hist_by_id
    ∷ []
