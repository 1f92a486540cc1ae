-- ===== src/Util/ModeParam.antt =====
-- `nci_parse_mode_param` of src/nci_util.c.
pub mod Safety
pub mod Roundtrip
use libncicore.Common.{
  ℕ, zero, suc, ◌+◌, ◌-◌, ◌/◌, ◌^◌, ◌||◌, Bool, true, false, not, ◌&&◌, List, [], ◌∷◌, ◌++◌,
  if◌then◌else◌, ◌==◌, ltb, leb, length, get_or, replicate,
}
use libncicore.Util.Parse.{Parse, parsed, refused, ◌>>=◌, ◌>>◌, require, byte, slice, padded}
use libncicore.Util.Types.{
  NciMode, passive_poll_a, passive_poll_b, passive_poll_f, active_poll_a, active_poll_f,
  passive_poll_v, passive_listen_a, passive_listen_b, passive_listen_f, active_listen_a,
  active_listen_f, passive_listen_v, unknown, ModeParam, poll_a, poll_b, poll_f, poll_v, listen_f,
}

-- The frame size for a four bit index; what is not in the table is taken as its last entry.
abbrev pub fsc_table : List ℕ
fsc_table = 16 ∷ 24 ∷ 32 ∷ 40 ∷ 48 ∷ 64 ∷ 96 ∷ 128 ∷ 256 ∷ []

pub fsc_of : ℕ → ℕ
fsc_of fsci = if ltb fsci 9 then get_or fsc_table fsci 0 else get_or fsc_table 8 0

pub parse_poll_a : List ℕ → Parse ModeParam
parse_poll_a bytes = do
  require (leb 4 (length bytes))
  s0 ← byte bytes 0
  s1 ← byte bytes 1
  n ← byte bytes 2
  require (leb n 10 && leb (n + 4) (length bytes))
  m ← byte bytes (n + 3)
  require (leb (n + 4 + m) (length bytes))
  nfcid1 ← slice bytes 3 n
  sel_res ← if m == 0 then parsed 0 else byte bytes (n + 4)
  parsed (
      poll_a (record {
        sens_res = s0 ∷ s1 ∷ [];
        nfcid1_len = n;
        nfcid1 = padded 10 nfcid1;
        sel_res_len = m;
        sel_res = sel_res;
      }))

-- Only the presence of the first byte is checked.
pub parse_poll_b : List ℕ → Parse ModeParam
unfolding fsc_of
parse_poll_b bytes = do
  require (leb 1 (length bytes))
  n ← byte bytes 0
  require (leb 11 n)
  b10 ← byte bytes 10
  nfcid0 ← slice bytes 1 4
  app_data ← slice bytes 5 4
  prot_info ← slice bytes 9 (n - 8)
  parsed (
      poll_b (record {
        nfcid0 = nfcid0;
        fsc = fsc_of (b10 / 2 ^ 4);
        app_data = app_data;
        prot_info = prot_info;
      }))

pub parse_poll_f : List ℕ → Parse ModeParam
parse_poll_f bytes = do
  require (ltb 1 (length bytes))
  n ← byte bytes 1
  require (leb 8 n && leb (n + 2) (length bytes))
  bitrate ← byte bytes 0
  nfcid2 ← slice bytes 2 8
  parsed (poll_f (record { bitrate = bitrate; nfcid2 = nfcid2 }))

pub parse_listen_f : List ℕ → Parse ModeParam
parse_listen_f bytes = do
  require (ltb 0 (length bytes))
  n ← byte bytes 0
  require (leb (n + 1) (length bytes))
  require (n == 0 || n == 8)
  nfcid2 ← if n == 0 then parsed [] else slice bytes 1 8
  parsed (listen_f (record { nfcid2 = nfcid2 }))

pub parse_poll_v : List ℕ → Parse ModeParam
parse_poll_v bytes = do
  require (leb 10 (length bytes))
  res_flag ← byte bytes 0
  dsfid ← byte bytes 1
  uid ← slice bytes 2 8
  parsed (poll_v (record { res_flag = res_flag; dsfid = dsfid; uid = uid }))

pub parse_mode_param : NciMode → List ℕ → Parse ModeParam
unfolding parse_poll_a parse_poll_b parse_poll_f parse_listen_f parse_poll_v
parse_mode_param active_poll_a bytes = if length bytes == 0 then refused else parse_poll_a bytes
parse_mode_param passive_poll_a bytes = parse_poll_a bytes
parse_mode_param passive_poll_b bytes = parse_poll_b bytes
parse_mode_param active_poll_f bytes = parse_poll_f bytes
parse_mode_param passive_poll_f bytes = parse_poll_f bytes
parse_mode_param active_listen_f bytes = parse_listen_f bytes
parse_mode_param passive_listen_f bytes = parse_listen_f bytes
parse_mode_param passive_poll_v bytes = parse_poll_v bytes
parse_mode_param passive_listen_v bytes = refused
parse_mode_param passive_listen_a bytes = refused
parse_mode_param passive_listen_b bytes = refused
parse_mode_param active_listen_a bytes = refused
parse_mode_param unknown bytes = refused
