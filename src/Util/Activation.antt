-- ===== src/Util/Activation.antt =====
-- The activation parameter parsers of src/nci_util.c.
pub mod Safety
use libncicore.Common.{
  ℕ, ◌+◌, ◌-◌, ◌/◌, ◌^◌, Bool, true, false, not, ◌&&◌, List, [], ◌∷◌, if◌then◌else◌, ◌==◌, ltb, leb,
  length, bit_and,
}
use libncicore.Util.Parse.{Parse, parsed, refused, ◌>>=◌, ◌>>◌, require, byte, slice}
use libncicore.Util.Types.{
  NciMode, passive_poll_a, passive_poll_b, passive_poll_f, active_poll_a, active_poll_f,
  passive_poll_v, passive_listen_a, passive_listen_b, passive_listen_f, active_listen_a,
  active_listen_f, passive_listen_v, unknown, RfInterface, nfcee_direct, frame, iso_dep, nfc_dep,
  proprietary, other_interface, ActivationParam, iso_dep_poll_a, iso_dep_poll_b, iso_dep_listen_a,
  iso_dep_listen_b, nfc_dep_poll, nfc_dep_listen,
}
use libncicore.Util.ModeParam.{fsc_of}

-- `t0 & flag`
abbrev pub has : ℕ → ℕ → Bool
has t0 flag = not (bit_and t0 flag == 0)

-- a pointer that moves on if its byte is there
abbrev pub step_if : Bool → ℕ → ℕ
step_if b i = if b then i + 1 else i

-- an interface byte, 0 where it is absent
abbrev pub byte_if : Bool → List ℕ → ℕ → Parse ℕ
byte_if b bytes i = if b then byte bytes i else parsed 0

-- Indices count from `bytes`: the ATS is `bytes[1]` to `bytes[ats_len]`.
pub parse_iso_dep_poll_a : List ℕ → Parse ActivationParam
parse_iso_dep_poll_a bytes = do
  ats_len ← byte bytes 0
  require (leb 1 ats_len && leb (ats_len + 1) (length bytes))
  t0 ← byte bytes 1
  let tb_at = step_if (has t0 0x10) 2
  let tc_at = step_if (has t0 0x20) tb_at
  let t1_at = step_if (has t0 0x40) tc_at
  require (leb t1_at (1 + ats_len))
  ta ← byte_if (has t0 0x10) bytes 2
  tb ← byte_if (has t0 0x20) bytes tb_at
  tc ← byte_if (has t0 0x40) bytes tc_at
  t1 ← slice bytes t1_at (1 + ats_len - t1_at)
  parsed (
      iso_dep_poll_a
        (record { fsc = fsc_of (bit_and t0 0x0f); t1 = t1; t0 = t0; ta = ta; tb = tb; tc = tc }))

pub parse_iso_dep_listen_a : List ℕ → Parse ActivationParam
parse_iso_dep_listen_a bytes = do
  require (ltb 0 (length bytes))
  b2 ← byte bytes 0
  parsed (iso_dep_listen_a (record { fsd = fsc_of (b2 / 2 ^ 4); did = bit_and b2 0x0f }))

-- The length of the input is not looked at.
pub parse_iso_dep_poll_b : List ℕ → Parse ActivationParam
parse_iso_dep_poll_b bytes = do
  attrib_length ← byte bytes 0
  require (leb 1 attrib_length)
  b1 ← byte bytes 1
  hlr ← if leb 2 attrib_length then slice bytes 2 (attrib_length - 1) else parsed []
  parsed
      (iso_dep_poll_b (record { mbli = bit_and b1 0xf0 / 2 ^ 4; did = bit_and b1 0x0f; hlr = hlr }))

pub parse_iso_dep_listen_b : List ℕ → Parse ActivationParam
parse_iso_dep_listen_b bytes = do
  cmdlen ← byte bytes 0
  require (leb 8 cmdlen && ltb cmdlen (length bytes))
  nfcid0 ← slice bytes 1 4
  param ← slice bytes 5 4
  hlc ← if ltb 8 cmdlen then slice bytes 9 (cmdlen - 8) else parsed []
  parsed (iso_dep_listen_b (record { nfcid0 = nfcid0; param = param; hlc = hlc }))

pub parse_nfc_dep_poll : List ℕ → Parse ActivationParam
parse_nfc_dep_poll bytes = do
  atr_res_len ← byte bytes 0
  require (leb 15 atr_res_len && leb (atr_res_len + 1) (length bytes))
  nfcid3 ← slice bytes 1 10
  did ← byte bytes 11
  bs ← byte bytes 12
  br ← byte bytes 13
  to ← byte bytes 14
  pp ← byte bytes 15
  g ← if ltb 15 atr_res_len then slice bytes 16 (atr_res_len - 15) else parsed []
  parsed (
      nfc_dep_poll
        (record { nfcid3 = nfcid3; did = did; bs = bs; br = br; to = to; pp = pp; g = g }))

pub parse_nfc_dep_listen : List ℕ → Parse ActivationParam
parse_nfc_dep_listen bytes = do
  atr_req_len ← byte bytes 0
  require (leb 14 atr_req_len && leb (atr_req_len + 1) (length bytes))
  nfcid3 ← slice bytes 1 10
  did ← byte bytes 11
  bs ← byte bytes 12
  br ← byte bytes 13
  pp ← byte bytes 14
  g ← if ltb 14 atr_req_len then slice bytes 15 (atr_req_len - 14) else parsed []
  parsed (nfc_dep_listen (record { nfcid3 = nfcid3; did = did; bs = bs; br = br; pp = pp; g = g }))

parse_iso_dep : NciMode → List ℕ → Parse ActivationParam
parse_iso_dep passive_poll_a bytes = parse_iso_dep_poll_a bytes
parse_iso_dep active_poll_a bytes = parse_iso_dep_poll_a bytes
parse_iso_dep passive_listen_a bytes = parse_iso_dep_listen_a bytes
parse_iso_dep active_listen_a bytes = parse_iso_dep_listen_a bytes
parse_iso_dep passive_poll_b bytes = parse_iso_dep_poll_b bytes
parse_iso_dep passive_listen_b bytes = parse_iso_dep_listen_b bytes
parse_iso_dep _ bytes = refused

parse_nfc_dep : NciMode → List ℕ → Parse ActivationParam
parse_nfc_dep active_poll_a bytes = parse_nfc_dep_poll bytes
parse_nfc_dep active_poll_f bytes = parse_nfc_dep_poll bytes
parse_nfc_dep passive_poll_a bytes = parse_nfc_dep_poll bytes
parse_nfc_dep passive_poll_f bytes = parse_nfc_dep_poll bytes
parse_nfc_dep active_listen_a bytes = parse_nfc_dep_listen bytes
parse_nfc_dep active_listen_f bytes = parse_nfc_dep_listen bytes
parse_nfc_dep passive_listen_a bytes = parse_nfc_dep_listen bytes
parse_nfc_dep passive_listen_f bytes = parse_nfc_dep_listen bytes
parse_nfc_dep _ bytes = refused

pub parse_activation_param : RfInterface → NciMode → List ℕ → Parse ActivationParam
unfolding parse_iso_dep parse_nfc_dep
parse_activation_param iso_dep mode bytes = parse_iso_dep mode bytes
parse_activation_param nfc_dep mode bytes = parse_nfc_dep mode bytes
parse_activation_param _ mode bytes = refused
