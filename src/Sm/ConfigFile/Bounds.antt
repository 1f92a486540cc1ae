-- ===== src/Sm/ConfigFile/Bounds.antt =====
-- The historical bytes of the configuration file of src/nci_sm.c, and where the code writes them.
use libncicore.Common.{
  ℕ, ◌+◌, ◌-◌, ◌*◌, ◌/◌, ◌%◌, ◌≤◌, ◌<◌, ◌≡◌, ◌↔◌, refl, ◌∙◌, true, Option, none, some, List, leb,
  length, drop, arith, take_all, length-append, length-drop,
}
use libncicore.Sm.Types.{AtsHb, Config}
use libncicore.Sm.ConfigFile.{
  TextFunctions, overwrite, clear_from, size_minus, install_hb, with_bytes, with_hb, hb_from,
  parse_li_a_hb,
}

clear_from-none :
    (at n : ℕ) (array : List ℕ) → (clear_from at n array ≡ none) ↔ (length array < at + n)
unfolding clear_from
clear_from-none at n array = ground arith

size_short : (len : ℕ) → len ≤ 15 → size_minus 15 len ≡ 15 - len
size_short len h = omega arith

size_long : (len : ℕ) → 15 < len → len ≤ 30 → 15 < size_minus 15 len
size_long len h k = omega arith

length-overwrite :
    (bytes array : List ℕ)
    → length bytes ≤ length array
    → length (overwrite bytes array) ≡ length array
length-overwrite bytes array h =
    omega (arith, length-append bytes (drop (length bytes) array), length-drop (length bytes) array)

-- the length that is stored
half : (len k : ℕ) → len ≡ 2 * k → k ≤ 15 → len / 2 % 256 ≡ k
half len k e h = omega arith

with_bytes-none : (n : ℕ) (o : Option (List ℕ)) → (with_bytes n o ≡ none) ↔ (o ≡ none)
unfolding with_bytes
with_bytes-none n none = (λ e. refl, λ e. refl)
with_bytes-none n (some bytes) = (λ e. cc, λ e. cc)

-- the range that is cleared
cleared_range : (len k : ℕ) → len ≡ 2 * k → k ≤ 15 → (15 < k + size_minus 15 len) ↔ (8 ≤ k)
cleared_range len k e h = omega arith

install_hb-none :
    (len : ℕ) (bin : List ℕ) (out : AtsHb)
    → length out.bytes ≡ 15
    → len ≡ 2 * length bin
    → length bin ≤ 15
    → (install_hb len bin out ≡ none) ↔ ((8 ≤ length bin) × (length bin ≤ 14))
unfolding install_hb
install_hb-none len bin out f e h =
    let k = length bin in
    let n = half len k e h in
    let copied = overwrite bin out.bytes in
    let c : length copied ≡ 15 = length-overwrite bin out.bytes (omega (arith, f, h)) ∙ f in
    let range = cleared_range len k e h in
    let size = size_minus 15 len in
    rw (n, take_all k bin (omega arith))
      (ground (
        arith,
        with_bytes-none k (clear_from k size copied),
        clear_from-none k size copied,
        c,
        range,
        h,
      ))

with_hb-none : (c : Config) (o : Option AtsHb) → (with_hb c o ≡ none) ↔ (o ≡ none)
with_hb-none c none = (λ e. refl, λ e. refl)
with_hb-none c (some hb) = (λ e. cc, λ e. cc)

-- Where the string of LI_A_HB in the configuration file is accepted as at most 15 bytes, of two
-- digits each, into an array of 15 bytes, the code writes past that array exactly where the bytes
-- are 8 to 14.
pub li_a_hb_overrun :
    (text : TextFunctions) (value bin : List ℕ) (c : Config)
    → length c.default_li_a_hb.bytes ≡ 15
    → text.hex2bin (text.strip value) ≡ some bin
    → length (text.strip value) ≡ 2 * length bin
    → length bin ≤ 15
    → (parse_li_a_hb text (some value) c ≡ none) ↔ ((8 ≤ length bin) × (length bin ≤ 14))
unfolding parse_li_a_hb hb_from
li_a_hb_overrun text value bin c f p e h =
    let len = length (text.strip value) in
    let short : leb len 30 ≡ true = ground (arith, e, h) in
    let i = install_hb-none len bin c.default_li_a_hb f e h in
    let w = with_hb-none c (install_hb len bin c.default_li_a_hb) in
    rw (short, p) (λ q. i.0 (w.0 q), λ q. w.1 (i.1 q))
