-- ===== src/Sm/ConfigFile/Tests.antt =====
-- The configuration file of src/nci_sm.c with text functions that are written out.
use libncicore.Common.{
  ℕ, ◌+◌, ◌-◌, ◌*◌, ◌≤◌, ◌≡◌, ◌↔◌, refl, ◌&&◌, Option, none, some, List, [], ◌∷◌, if◌then◌else◌,
  leb, length, arith,
}
use libncicore.Sm.Types.{Config}
use libncicore.Sm.Sample.{sample_config}
use libncicore.Sm.ConfigFile.{TextFunctions, parse_li_a_hb}
use libncicore.Sm.ConfigFile.Bounds.{li_a_hb_overrun}
use libncicore.Util.Nfcid.{bytes_eq}

abbrev digit : ℕ → Option ℕ
digit c = if leb 48 c && leb c 57 then some (c - 48) else none

-- digits 0 to 9 only
abbrev pair : Option ℕ → Option ℕ → Option (List ℕ) → Option (List ℕ)
pair (some hi) (some lo) (some rest) = some ((16 * hi + lo) ∷ rest)
pair hi lo rest = none

abbrev decimal : List ℕ → Option (List ℕ)
decimal [] = some []
decimal (c ∷ []) = none
decimal (c ∷ d ∷ cs) = pair (digit c) (digit d) (decimal cs)

abbrev plain_text : TextFunctions
plain_text = record { strip = λ s. s; split = λ s. s ∷ []; same = bytes_eq; hex2bin = decimal }

-- eight bytes
abbrev eight : List ℕ
eight = 49 ∷ 49 ∷ 50 ∷ 50 ∷ 51 ∷ 51 ∷ 52 ∷ 52 ∷ 49 ∷ 49 ∷ 50 ∷ 50 ∷ 51 ∷ 51 ∷ 52 ∷ 52 ∷ []

abbrev eight_bytes : List ℕ
eight_bytes = 0x11 ∷ 0x22 ∷ 0x33 ∷ 0x44 ∷ 0x11 ∷ 0x22 ∷ 0x33 ∷ 0x44 ∷ []

abbrev with_historical_bytes : Config
with_historical_bytes = record (sample_config 0x01 0x0f5f) {
  default_li_a_hb = (sample_config 0x01 0x0f5f).li_a_hb;
}

li_a_hb_overrun_example :
    (parse_li_a_hb plain_text (some eight) with_historical_bytes ≡ none)
    ↔ ((8 ≤ length eight_bytes) × (length eight_bytes ≤ 14))
li_a_hb_overrun_example =
    li_a_hb_overrun plain_text eight eight_bytes with_historical_bytes refl refl refl (omega arith)
