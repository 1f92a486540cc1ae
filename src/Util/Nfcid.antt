-- ===== src/Util/Nfcid.antt =====
-- NFCID1 and the direction of a mode, in src/nci_util.c.
use libncicore.Common.{
  ℕ, suc, zero, ◌≡◌, ◌↔◌, refl, ap, Bool, true, false, ◌&&◌, ◌||◌, Option, none, some, List, [],
  ◌∷◌, if◌then◌else◌, ◌==◌, min, get_or, take, arith, ◌∙◌, sym, ◌<◌,
}
use libncicore.Util.Types.{
  Nfcid1, NciMode, passive_listen_a, passive_listen_b, passive_listen_f, active_listen_a,
  active_listen_f, passive_listen_v,
}

pub nfcid1_dynamic : Nfcid1 → Bool
nfcid1_dynamic id = id.len == 0 || (id.len == 4 && get_or id.bytes 0 0 == 0x08)

-- `!memcmp`
pub bytes_eq : List ℕ → List ℕ → Bool
bytes_eq [] [] = true
bytes_eq [] (y ∷ ys) = false
bytes_eq (x ∷ xs) [] = false
bytes_eq (x ∷ xs) (y ∷ ys) = x == y && bytes_eq xs ys

pub nfcid1_equal : Nfcid1 → Nfcid1 → Bool
nfcid1_equal id1 id2 =
    if id1.len == id2.len
    then (if id1.len == 4 && get_or id1.bytes 0 0 == 0x08
        then get_or id1.bytes 0 0 == get_or id2.bytes 0 0
        else bytes_eq (take (min id1.len 10) id1.bytes) (take (min id1.len 10) id2.bytes))
    else if id1.len == 0
    then nfcid1_dynamic id2
    else if id2.len == 0
    then nfcid1_dynamic id1
    else false

pub listen_mode : NciMode → Bool
listen_mode passive_listen_a = true
listen_mode passive_listen_b = true
listen_mode passive_listen_f = true
listen_mode active_listen_a = true
listen_mode active_listen_f = true
listen_mode passive_listen_v = true
listen_mode _ = false

-- Two dynamic identifiers are one; any other is its length and as many bytes.
pub canonical : Nfcid1 → Option (ℕ × List ℕ)
canonical id = if nfcid1_dynamic id then none else some (id.len, take (min id.len 10) id.bytes)

bytes_eq_sound : (xs ys : List ℕ) → bytes_eq xs ys ≡ true → xs ≡ ys
unfolding bytes_eq
bytes_eq_sound [] [] h = refl
bytes_eq_sound [] (y ∷ ys) h = cc
bytes_eq_sound (x ∷ xs) [] h = cc
bytes_eq_sound (x ∷ xs) (y ∷ ys) h = ground (arith, bytes_eq_sound xs ys)

bytes_eq_refl : (xs : List ℕ) → bytes_eq xs xs ≡ true
unfolding bytes_eq
bytes_eq_refl [] = refl
bytes_eq_refl (x ∷ xs) = ground (arith, bytes_eq_refl xs)

pub bytes_eq_complete : (xs ys : List ℕ) → xs ≡ ys → bytes_eq xs ys ≡ true
bytes_eq_complete xs ys e = rw (← e) (bytes_eq_refl xs)

-- the first of at least one byte
get_or-take : (n : ℕ) (xs : List ℕ) → 0 < n → get_or (take n xs) 0 0 ≡ get_or xs 0 0
get_or-take zero xs h = absurd (omega arith)
get_or-take (suc n) [] h = refl
get_or-take (suc n) (x ∷ xs) h = refl

first_same :
    (n : ℕ) (xs ys : List ℕ) → 0 < n → take n xs ≡ take n ys → get_or xs 0 0 ≡ get_or ys 0 0
first_same n xs ys h e = sym (get_or-take n xs h) ∙ ap (λ l. get_or l 0 0) e ∙ get_or-take n ys h

-- nci_nfcid1_equal holds of two identifiers exactly where both are dynamic, or neither is and they
-- have the same length and the same bytes, ten at most.
pub nfcid1_equal_iff : (a b : Nfcid1) → (nfcid1_equal a b ≡ true) ↔ (canonical a ≡ canonical b)
unfolding nfcid1_equal canonical nfcid1_dynamic
nfcid1_equal_iff a b =
    let xs = take (min a.len 10) a.bytes in
    let ys = take (min a.len 10) b.bytes in
    let same = first_same (min a.len 10) a.bytes b.bytes in
    (
      λ h. ground (arith, bytes_eq_sound xs ys, same),
      λ h. ground (arith, bytes_eq_complete xs ys, same),
    )
