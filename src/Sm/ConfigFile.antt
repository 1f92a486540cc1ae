-- ===== src/Sm/ConfigFile.antt =====
-- The configuration file of src/nci_sm.c, `nci_sm_parse_config`. A string is the list of its
-- characters, and a key file what `g_key_file_get_string` of GLib finds in it.
pub mod Bounds
mod Tests
use libncicore.Common.{
  ℕ, ◌+◌, ◌-◌, ◌*◌, ◌/◌, ◌%◌, ◌^◌, Bool, true, false, ◌||◌, Option, none, some, List, [], ◌∷◌, ◌++◌,
  if◌then◌else◌, ◌==◌, leb, ltb, length, take, drop, replicate, bit_or,
}
use libncicore.Util.Types.{Nfcid1}
use libncicore.Sm.Types.{AtsHb, Config}
use libncicore.Sm.Tech

-- `Technologies`, `LA_NFCID1` and `LI_A_HB` of the section `Configuration`
pub record KeyFile : Type 0 where
  pub technologies : Option (List ℕ)
  pub la_nfcid1 : Option (List ℕ)
  pub li_a_hb : Option (List ℕ)

-- Functions of GLib and of libglibutil: `g_strstrip`, `g_strsplit_set` at the separators, whether
-- `g_ascii_strcasecmp` is 0, and `gutil_hex2bin`.
pub record TextFunctions : Type 0 where
  pub strip : List ℕ → List ℕ
  pub split : List ℕ → List (List ℕ)
  pub same : List ℕ → List ℕ → Bool
  pub hex2bin : List ℕ → Option (List ℕ)

-- `-A`, `Poll` and `Listen`, in ASCII
abbrev poll_name : ℕ → List ℕ
poll_name c = 80 ∷ 111 ∷ 108 ∷ 108 ∷ 45 ∷ c ∷ []

abbrev listen_name : ℕ → List ℕ
listen_name c = 76 ∷ 105 ∷ 115 ∷ 116 ∷ 101 ∷ 110 ∷ 45 ∷ c ∷ []

abbrev type_v : ℕ
type_v = bit_or Tech.v_poll Tech.v_listen

-- `nci_tech_options`, of the names A, B, F and V
abbrev pub tech_options : List (List ℕ × ℕ)
tech_options =
    (65 ∷ [], Tech.a)
    ∷ (66 ∷ [], Tech.b)
    ∷ (70 ∷ [], Tech.f)
    ∷ (86 ∷ [], type_v)
    ∷ (poll_name 65, Tech.a_poll)
    ∷ (poll_name 66, Tech.b_poll)
    ∷ (poll_name 70, Tech.f_poll)
    ∷ (poll_name 86, Tech.v_poll)
    ∷ (listen_name 65, Tech.a_listen)
    ∷ (listen_name 66, Tech.b_listen)
    ∷ (listen_name 70, Tech.f_listen)
    ∷ (listen_name 86, Tech.v_listen)
    ∷ []

abbrev tech_default : ℕ
tech_default = bit_or Tech.a (bit_or Tech.b Tech.f)

-- a cleared identifier
abbrev cleared_nfcid1 : Nfcid1
cleared_nfcid1 = record { len = 0; bytes = replicate 10 0 }

-- bytes that are written over the first ones of an array
abbrev pub overwrite : List ℕ → List ℕ → List ℕ
overwrite bytes array = bytes ++ drop (length bytes) array

-- `memset(array + at, 0, n)`: with `none` where that goes past the array
unfoldable pub clear_from : ℕ → ℕ → List ℕ → Option (List ℕ)
clear_from at n array =
    if leb (at + n) (length array)
    then some (take at array ++ (replicate n 0 ++ drop (at + n) array))
    else none

-- `a - b` on a `gsize` of 64 bits
abbrev pub size_minus : ℕ → ℕ → ℕ
size_minus a b = (2 ^ 64 + a - b) % 2 ^ 64

unfoldable pub with_bytes : ℕ → Option (List ℕ) → Option AtsHb
with_bytes n none = none
with_bytes n (some bytes) = some (record { len = n; bytes = bytes })

-- `default_li_a_hb`, from a string that has been stripped and its bytes. The bytes are cleared from
-- where they end, for 15 less the length of the string.
unfoldable pub install_hb : ℕ → List ℕ → AtsHb → Option AtsHb
install_hb len bin out =
    let n = len / 2 % 256 in
    let copied = overwrite (take n bin) out.bytes in
    if ltb n 15
    then with_bytes n (clear_from n (size_minus 15 len) copied)
    else some (record { len = n; bytes = copied })

abbrev pub with_hb : Config → Option AtsHb → Option Config
with_hb c none = none
with_hb c (some hb) = some (record c { default_li_a_hb = hb })

module _ (text : TextFunctions) where
  unfoldable pub find_tech : List (List ℕ × ℕ) → List ℕ → Option ℕ
  find_tech [] name = none
  find_tech ((option, tech) ∷ rest) name =
      let found = find_tech rest name in if text.same name option then some tech else found

  abbrev or_tech : ℕ → Option ℕ → ℕ
  or_tech techs none = techs
  or_tech techs (some tech) = bit_or techs tech

  unfoldable pub add_techs : ℕ → List (List ℕ) → ℕ
  add_techs techs [] = techs
  add_techs techs (name ∷ names) =
      add_techs (or_tech techs (find_tech tech_options (text.strip name))) names

  unfoldable pub parse_technologies : Option (List ℕ) → Config → Config
  parse_technologies none c = c
  parse_technologies (some value) c =
      let techs = add_techs 0 (text.split value) in
      record c { techs = if techs == 0 then tech_default else techs }

  -- Where it cannot be parsed, the default is cleared.
  unfoldable pub nfcid1_from : Option (List ℕ) → ℕ → Config → Config
  nfcid1_from none len c = record c { default_la_nfcid1 = cleared_nfcid1 }
  nfcid1_from (some bin) len c =
      let id : Nfcid1 = record {
        len = len / 2 % 256;
        bytes = overwrite bin c.default_la_nfcid1.bytes;
      } in
      record c { default_la_nfcid1 = id; la_nfcid1 = id }

  unfoldable pub parse_la_nfcid1 : Option (List ℕ) → Config → Config
  parse_la_nfcid1 none c = c
  parse_la_nfcid1 (some value) c =
      let s = text.strip value in
      let len = length s in
      if len == 0
      then record c { default_la_nfcid1 = cleared_nfcid1 }
      else if len == 8 || (len == 14 || len == 20)
      then nfcid1_from (text.hex2bin s) len c
      else c

  unfoldable pub hb_from : Option (List ℕ) → ℕ → Config → Option Config
  hb_from none len c = some c
  hb_from (some bin) len c = with_hb c (install_hb len bin c.default_li_a_hb)

  -- `none` where the code writes past the object
  unfoldable pub parse_li_a_hb : Option (List ℕ) → Config → Option Config
  parse_li_a_hb none c = some c
  parse_li_a_hb (some value) c =
      let s = text.strip value in
      if leb (length s) 30 then hb_from (text.hex2bin s) (length s) c else some c

  unfoldable pub parse_config : KeyFile → Config → Option Config
  parse_config file c =
      parse_li_a_hb file.li_a_hb
        (parse_la_nfcid1 file.la_nfcid1 (parse_technologies file.technologies c))
