-- ===== src/Util/ModeParam/Roundtrip.antt =====
-- The mode parameter parsers of src/nci_util.c and the tables of the specification.
use libncicore.Common.{
  ℕ, ◌+◌, ◌-◌, ◌/◌, ◌^◌, ◌≤◌, ◌<◌, ◌≡◌, refl, ap, ◌∙◌, List, [], ◌∷◌, ◌++◌, length, length-append,
  take, get_or, arith, take-length-append, take_all, get_or-append_right,
}
use libncicore.Util.Parse.{parsed, padded}
use libncicore.Util.Types.{passive_poll_a, active_poll_a, passive_poll_b, poll_a, poll_b}
use libncicore.Util.ModeParam.{parse_poll_a, parse_poll_b, parse_mode_param, fsc_of}

-- NFC-A poll mode, table 54: an identifier of at most ten bytes, then the SEL_RES response
abbrev pub poll_a_head : ℕ → ℕ → List ℕ → List ℕ
poll_a_head s0 s1 nfcid1 = s0 ∷ s1 ∷ length nfcid1 ∷ nfcid1

abbrev pub poll_a_tail : List ℕ → List ℕ → List ℕ
poll_a_tail sel_res rest = length sel_res ∷ (sel_res ++ rest)

first-append : (xs rest : List ℕ) → 0 < length xs → get_or (xs ++ rest) 0 0 ≡ get_or xs 0 0
first-append [] rest h = absurd (omega arith)
first-append (x ∷ xs) rest h = refl

poll_a_roundtrip :
    (s0 s1 : ℕ) (nfcid1 sel_res rest : List ℕ)
    → length nfcid1 ≤ 10
    → parse_poll_a (poll_a_head s0 s1 nfcid1 ++ poll_a_tail sel_res rest)
      ≡ parsed (
          poll_a (record {
            sens_res = s0 ∷ s1 ∷ [];
            nfcid1_len = length nfcid1;
            nfcid1 = padded 10 nfcid1;
            sel_res_len = length sel_res;
            sel_res = get_or sel_res 0 0;
          }))
unfolding parse_poll_a
poll_a_roundtrip s0 s1 id [] rest h =
    let head = poll_a_head s0 s1 id in
    let tail = poll_a_tail [] rest in
    let n = length id in
    let at : get_or (head ++ tail) (n + 3) 0 ≡ 0 =
      ap (λ j. get_or (head ++ tail) j 0) (omega arith) ∙ get_or-append_right head tail 0 0 in
    ground (arith, at, take-length-append id tail, length-append id tail)
poll_a_roundtrip s0 s1 id (x ∷ xs) rest h =
    let head = poll_a_head s0 s1 id in
    let tail = poll_a_tail (x ∷ xs) rest in
    let n = length id in
    let at : get_or (head ++ tail) (n + 3) 0 ≡ length (x ∷ xs) =
      ap (λ j. get_or (head ++ tail) j 0) (omega arith) ∙ get_or-append_right head tail 0 0 in
    let sel : get_or (head ++ tail) (n + 4) 0 ≡ x =
      ap (λ j. get_or (head ++ tail) j 0) (omega arith) ∙ get_or-append_right head tail 1 0 in
    ground
      (arith, at, sel, take-length-append id tail, length-append id tail, length-append xs rest)

-- Parameters of NFC-A in poll mode, passive or active, laid out as in table 54 with an identifier
-- of at most ten bytes, are parsed to their fields, whatever follows them; a shorter identifier is
-- filled up with zeros.
pub parse_poll_a_roundtrip :
    (s0 s1 : ℕ) (nfcid1 sel_res rest : List ℕ)
    → length nfcid1 ≤ 10
    → let bytes = poll_a_head s0 s1 nfcid1 ++ poll_a_tail sel_res rest in
      let param = poll_a (record {
        sens_res = s0 ∷ s1 ∷ [];
        nfcid1_len = length nfcid1;
        nfcid1 = padded 10 nfcid1;
        sel_res_len = length sel_res;
        sel_res = get_or sel_res 0 0;
      }) in
      (parse_mode_param passive_poll_a bytes ≡ parsed param)
      × (parse_mode_param active_poll_a bytes ≡ parsed param)
unfolding parse_mode_param
parse_poll_a_roundtrip s0 s1 id sel rest h =
    let e = poll_a_roundtrip s0 s1 id sel rest h in (e, ground (arith, e))

-- the fields of NFC-B in poll mode, table 56
abbrev pub poll_b_bytes : List ℕ → List ℕ → List ℕ → List ℕ
poll_b_bytes nfcid0 app_data prot_info =
    (8 + length prot_info) ∷ (nfcid0 ++ (app_data ++ prot_info))

-- Parameters of NFC-B in poll mode with three bytes or more of protocol information are parsed to
-- their fields; the frame size is that of the upper half of the second of those bytes.
pub parse_poll_b_roundtrip :
    (i0 i1 i2 i3 a0 a1 a2 a3 p0 p1 p2 : ℕ) (more : List ℕ)
    → parse_mode_param passive_poll_b
        (poll_b_bytes (i0 ∷ i1 ∷ i2 ∷ i3 ∷ []) (a0 ∷ a1 ∷ a2 ∷ a3 ∷ []) (p0 ∷ p1 ∷ p2 ∷ more))
      ≡ parsed (
          poll_b (record {
            nfcid0 = i0 ∷ i1 ∷ i2 ∷ i3 ∷ [];
            fsc = fsc_of (p1 / 2 ^ 4);
            app_data = a0 ∷ a1 ∷ a2 ∷ a3 ∷ [];
            prot_info = p0 ∷ p1 ∷ p2 ∷ more;
          }))
unfolding parse_mode_param parse_poll_b
parse_poll_b_roundtrip i0 i1 i2 i3 a0 a1 a2 a3 p0 p1 p2 more =
    let info = p0 ∷ p1 ∷ p2 ∷ more in
    let size : 8 + length info - 8 ≡ length info = omega arith in
    let all : take (8 + length info - 8) info ≡ info =
      take_all (8 + length info - 8) info (omega arith) in
    ground (arith, all)
