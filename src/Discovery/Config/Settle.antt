-- ===== src/Discovery/Config/Settle.antt =====
-- What src/nci_transition_idle_to_discovery.c makes of an NFCC that has the parameters that it set.
use libncicore.Common.{
  ℕ, ◌≤◌, ◌<◌, ◌≡◌, refl, ap, ◌∙◌, true, ◌||◌, none, some, List, [], ◌∷◌, ◌==◌, ==_iff, length,
  take, bit_and, arith, append_assoc, append-nil, length-take, length-append, length-replicate,
  take-length-append, replicate, ◌-◌, ◌%◌,
}
use libncicore.Util.Nfcid.{nfcid1_equal_iff, bytes_eq_complete}
use libncicore.Util.Config.{
  find_config_param, config_param_nfcid1, param_bytes, first_value, find_config_param_lem,
  config_param_uint_lem, little_endian,
}
use libncicore.Util.Parse.{padded}
use libncicore.Sm.Types.{Config}
use libncicore.Discovery.Config.{
  config_byte_ok, la_sens_res_1_expected, la_nfcid1_expected, la_sel_info_expected,
  lf_protocol_type_expected, config_nfcid1_ok, hb_ok, all_wanted, compare_config, set_config,
  get_config_done, la_sens_res_1_id, la_sel_info_id, la_nfcid1_id, lf_protocol_type_id,
  li_a_hist_by_id,
}

-- the arrays of the configuration
pub record IsSized (c : Config) : Type 0 where
  pub nfcid1_array : length c.la_nfcid1.bytes ≡ 10
  pub hb_array : length c.li_a_hb.bytes ≡ 15
  pub hb_len : c.li_a_hb.len ≤ 15

length-padded : (v : List ℕ) → length v ≤ 10 → length (padded 10 v) ≡ 10
length-padded v h = omega (
  arith,
  length-append v (replicate (10 - length v) 0),
  length-replicate {A = ℕ} (10 - length v) 0,
)

take-padded : (n : ℕ) (v : List ℕ) → n ≤ 10 → length v ≤ 10 → length (take n (padded 10 v)) ≡ n
take-padded n v h k = omega (arith, length-take n (padded 10 v), length-padded v k)

module _ (c : Config) (z : IsSized c) where
  sens_masked : bit_and (la_sens_res_1_expected c) 0xc0 ≡ la_sens_res_1_expected c
  unfolding la_sens_res_1_expected
  sens_masked = ground arith

  sens_byte : la_sens_res_1_expected c < 256
  unfolding la_sens_res_1_expected
  sens_byte = ground arith

  sel_masked : bit_and (la_sel_info_expected c) 0x60 ≡ la_sel_info_expected c
  unfolding la_sel_info_expected
  sel_masked = ground arith

  sel_byte : la_sel_info_expected c < 256
  unfolding la_sel_info_expected
  sel_byte = ground arith

  lf_masked : bit_and (lf_protocol_type_expected c) 0x02 ≡ lf_protocol_type_expected c
  unfolding lf_protocol_type_expected
  lf_masked = ground arith

  lf_byte : lf_protocol_type_expected c < 256
  unfolding lf_protocol_type_expected
  lf_byte = ground arith

  nfcid1_length :
      length (take (la_nfcid1_expected c).len (la_nfcid1_expected c).bytes)
      ≡ (la_nfcid1_expected c).len
  unfolding la_nfcid1_expected
  nfcid1_length =
      let id = c.la_nfcid1 in
      ground (
        arith,
        z.nfcid1_array,
        take-padded id.len (take id.len id.bytes),
        length-take id.len id.bytes,
      )

  hb_length : length (take c.li_a_hb.len c.li_a_hb.bytes) ≡ c.li_a_hb.len
  hb_length = omega (arith, z.hb_array, z.hb_len, length-take c.li_a_hb.len c.li_a_hb.bytes)

  -- what is set, as a list of parameters
  reported : List (ℕ × List ℕ)
  reported =
      (la_sens_res_1_id, la_sens_res_1_expected c ∷ [])
      ∷ (la_sel_info_id, la_sel_info_expected c ∷ [])
      ∷ (la_nfcid1_id, take (la_nfcid1_expected c).len (la_nfcid1_expected c).bytes)
      ∷ (lf_protocol_type_id, lf_protocol_type_expected c ∷ [])
      ∷ (li_a_hist_by_id, take c.li_a_hb.len c.li_a_hb.bytes)
      ∷ []

  settled : set_config c (all_wanted c) ≡ 5 ∷ param_bytes reported []
  unfolding set_config all_wanted reported
  settled = rw (nfcid1_length, hb_length, append-nil, append_assoc) refl

  found :
      (id : ℕ) {v : List ℕ}
      → first_value (take 5 reported) id ≡ some v
      → find_config_param 5 (param_bytes reported []) id ≡ some v
  unfolding reported
  found id e = find_config_param_lem 5 reported [] id (omega arith) ∙ e

  byte_settled :
      (id expected mask : ℕ)
      → first_value (take 5 reported) id ≡ some (expected ∷ [])
      → expected < 256
      → bit_and expected mask ≡ expected
      → config_byte_ok 5 (param_bytes reported []) id expected mask ≡ (true, expected)
  unfolding config_byte_ok reported
  byte_settled id expected mask at small masked =
      let same : expected % 256 ≡ expected = omega arith in
      let le : little_endian 1 expected ≡ expected ∷ [] = rw same refl in
      let value =
        config_param_uint_lem 1 expected id 5 reported [] (omega arith) (omega arith) (omega arith)
          (omega arith) (at ∙ rw le refl) in
      rw (value, config_byte_ok, same, masked, (==_iff expected expected).1 refl) refl

  -- The identifier that is wanted has its length, and zeros after it.
  nfcid1_filled :
      let e = la_nfcid1_expected c in
      (padded 10 (take e.len e.bytes) ≡ e.bytes)
      × ((e.len == 4 || (e.len == 7 || e.len == 10)) ≡ true)
  unfolding la_nfcid1_expected
  nfcid1_filled =
      let id = c.la_nfcid1 in
      let w = take id.len id.bytes in
      ground (
        arith,
        z.nfcid1_array,
        length-take id.len id.bytes,
        take-length-append w (replicate (10 - length w) 0),
      )

  nfcid1_stored :
      config_param_nfcid1 5 (param_bytes reported []) la_nfcid1_id ≡ some (la_nfcid1_expected c)
  unfolding config_param_nfcid1 reported
  nfcid1_stored =
      let e = la_nfcid1_expected c in
      rw
        (
          found la_nfcid1_id {v = take e.len e.bytes} refl,
          config_param_nfcid1,
          nfcid1_filled.0,
          nfcid1_length,
          nfcid1_filled.1,
        )
        refl

  nfcid1_settled :
      config_nfcid1_ok 5 (param_bytes reported []) la_nfcid1_id (la_nfcid1_expected c) ≡ true
  unfolding config_nfcid1_ok
  nfcid1_settled =
      let e = la_nfcid1_expected c in
      rw (nfcid1_stored, config_nfcid1_ok) ((nfcid1_equal_iff e e).1 refl)

  hb_settled : hb_ok 5 (param_bytes reported []) li_a_hist_by_id c.li_a_hb ≡ true
  unfolding hb_ok reported
  hb_settled =
      let v = take c.li_a_hb.len c.li_a_hb.bytes in
      rw
        (
          found li_a_hist_by_id {v = v} refl,
          hb_ok,
          hb_length,
          (==_iff c.li_a_hb.len _).1 refl,
          bytes_eq_complete v v refl,
        )
        (ground arith)

  sens_settled :
      config_byte_ok 5 (param_bytes reported []) la_sens_res_1_id (la_sens_res_1_expected c) 0xc0
      ≡ (true, la_sens_res_1_expected c)
  unfolding reported
  sens_settled =
      byte_settled la_sens_res_1_id (la_sens_res_1_expected c) 0xc0 refl sens_byte sens_masked

  sel_settled :
      config_byte_ok 5 (param_bytes reported []) la_sel_info_id (la_sel_info_expected c) 0x60
      ≡ (true, la_sel_info_expected c)
  unfolding reported
  sel_settled = byte_settled la_sel_info_id (la_sel_info_expected c) 0x60 refl sel_byte sel_masked

  lf_settled :
      config_byte_ok 5
        (param_bytes reported [])
        lf_protocol_type_id
        (lf_protocol_type_expected c)
        0x02
      ≡ (true, lf_protocol_type_expected c)
  unfolding reported
  lf_settled =
      byte_settled lf_protocol_type_id (lf_protocol_type_expected c) 0x02 refl lf_byte lf_masked

  nothing_left : get_config_done c true (0 ∷ 5 ∷ param_bytes reported []) ≡ none
  unfolding get_config_done compare_config
  nothing_left = rw (sens_settled, sel_settled, lf_settled, nfcid1_settled, hb_settled) refl

  -- With the two arrays of the configuration of their declared sizes and the length of the
  -- historical bytes inside theirs: where the answer to CORE_GET_CONFIG is status OK and the five
  -- parameters as CORE_SET_CONFIG_CMD sets them all, nothing is left to set, so the transition
  -- goes on without a second command.
  pub get_config_settles : get_config_done c true (0 ∷ set_config c (all_wanted c)) ≡ none
  get_config_settles = ap (λ l. get_config_done c true (0 ∷ l)) settled ∙ nothing_left
