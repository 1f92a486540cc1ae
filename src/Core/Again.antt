-- ===== src/Core/Again.antt =====
-- `nci_core_set_params` of src/nci_core.c twice with the same parameters.
use libncicore.Common.{
  ◌≡◌, refl, sym, ap, ◌∙◌, true, List, [], ◌∷◌, ==_iff, take, min, arith, bit_or,
}
use libncicore.Util.Nfcid.{nfcid1_equal_iff, bytes_eq_complete}
use libncicore.Sm.Types.{Config}
use libncicore.Sm.Machine.{Machine}
use libncicore.Core.{
  set_params, restart_if_changed, CoreParam, CoreParamKey, set_la_nfcid1, set_li_a_hb, set_param,
  reset_param, get_la_nfcid1, get_li_a_hb, hb_equal, param_equal, param_keys, changes, reset_params,
  apply_params, set_params_config, llc_version, llc_wks, la_nfcid1, li_a_hb, unknown,
  llc_version_key, llc_wks_key, la_nfcid1_key, li_a_hb_key,
}

-- a configuration whose parameters are reset
abbrev defaults : Config → Config
defaults c = record c {
  llc_version = 0x11;
  llc_wks = bit_or 0x0003 0x01;
  la_nfcid1 = c.default_la_nfcid1;
  li_a_hb = c.default_li_a_hb;
}

reset-defaults : (c : Config) → reset_params param_keys c ≡ defaults c
unfolding reset_params reset_param
reset-defaults c = refl

-- What is not a parameter stays.
set_param-defaults : (p : CoreParam) (c : Config) → defaults (set_param p c) ≡ defaults c
unfolding set_param set_la_nfcid1 set_li_a_hb
set_param-defaults (llc_version v) c = refl
set_param-defaults (llc_wks v) c = refl
set_param-defaults (la_nfcid1 v) c = ground arith
set_param-defaults (li_a_hb v) c = refl
set_param-defaults unknown c = refl

apply-defaults : (ps : List CoreParam) (c : Config) → defaults (apply_params ps c) ≡ defaults c
unfolding apply_params
apply-defaults [] c = refl
apply-defaults (p ∷ ps) c = apply-defaults ps (set_param p c) ∙ set_param-defaults p c

same-equal : (k : CoreParamKey) (c : Config) → param_equal k c c ≡ true
unfolding param_equal hb_equal
same-equal llc_version_key c = (==_iff c.llc_version c.llc_version).1 refl
same-equal llc_wks_key c = (==_iff c.llc_wks c.llc_wks).1 refl
same-equal la_nfcid1_key c = (nfcid1_equal_iff (get_la_nfcid1 c) (get_la_nfcid1 c)).1 refl
same-equal li_a_hb_key c =
    let v = take (min (get_li_a_hb c).len 15) (get_li_a_hb c).bytes in
    rw ((==_iff (get_li_a_hb c).len (get_li_a_hb c).len).1 refl) (bytes_eq_complete v v refl)

no_changes : (ks : List CoreParamKey) (c : Config) → changes ks c c ≡ []
unfolding changes
no_changes [] c = refl
no_changes (k ∷ ks) c = rw (same-equal k c) (no_changes ks c)

twice :
    (ps : List CoreParam) (c : Config)
    → let d = set_params_config true ps c in set_params_config true ps d ≡ d
unfolding set_params_config reset_params reset_param
twice ps c =
    let d = apply_params ps (defaults c) in
    ap (apply_params ps) (reset-defaults d ∙ apply-defaults ps (defaults c))

-- Where the configuration is what parameters set after a reset of all of them have made of some
-- configuration, setting the same parameters with a reset once more changes nothing, signals no
-- change and does not restart the state machine.
pub set_params_again :
    (ps : List CoreParam) (c : Config) (m : Machine)
    → m.config ≡ set_params_config true ps c
    → set_params true ps m ≡ (m, [])
unfolding set_params restart_if_changed
set_params_again ps c m e =
    let d = set_params_config true ps m.config in
    let same : d ≡ m.config = ap (set_params_config true ps) e ∙ (twice ps c ∙ sym e) in
    let quiet : changes param_keys m.config d ≡ [] =
      ap (changes param_keys m.config) same ∙ no_changes param_keys m.config in
    rw (quiet, same) refl
