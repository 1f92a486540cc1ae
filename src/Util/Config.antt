-- ===== src/Util/Config.antt =====
-- Configuration parameters, in src/nci_util.c.
use libncicore.Common.{
  ℕ, zero, suc, ◌+◌, ◌*◌, ◌/◌, ◌%◌, ◌^◌, ◌≤◌, ◌<◌, ◌≡◌, refl, ap, ◌∙◌, ◌&&◌, ◌||◌, Option, none,
  some, List, [], ◌∷◌, ◌++◌, if◌then◌else◌, ◌==◌, ltb, leb, length, take, drop, arith,
  take-length-append, drop-length-append, length-append,
}
use libncicore.Util.Parse.{padded}
use libncicore.Util.Types.{Nfcid1}

-- The loop: the first of the `nparams` parameters with that id, if the bytes reach so far.
pub find_config_param : ℕ → List ℕ → ℕ → Option (List ℕ)
find_config_param zero bytes id = none
find_config_param (suc n) [] id = none
find_config_param (suc n) (t ∷ []) id = none
find_config_param (suc n) (t ∷ l ∷ r) id =
    if leb l (length r)
    then (if t == id then some (take l r) else find_config_param n (drop l r) id)
    else none

-- `*value += ((guint) bytes[i]) << (8 * i)` on a `guint`, from byte `i` on
pub config_uint_loop : ℕ → ℕ → List ℕ → ℕ
config_uint_loop value i [] = value
config_uint_loop value i (x ∷ xs) =
    config_uint_loop ((value + (x * 2 ^ (8 * i)) % 2 ^ 32) % 2 ^ 32) (suc i) xs

-- The size of the value, and the value; 0 is `none`.
pub config_param_uint : ℕ → List ℕ → ℕ → Option (ℕ × ℕ)
unfolding config_uint_loop
config_param_uint nparams bytes id = elim (find_config_param nparams bytes id) [
  | none ↦ none
  | some v ↦
      if ltb 0 (length v) && leb (length v) 4 then some (length v, config_uint_loop 0 0 v) else none
]

-- FALSE is `none`.
unfoldable pub config_param_nfcid1 : ℕ → List ℕ → ℕ → Option Nfcid1
config_param_nfcid1 nparams bytes id = elim (find_config_param nparams bytes id) [
  | none ↦ none
  | some v ↦
      if length v == 4 || (length v == 7 || length v == 10)
      then some (record { len = length v; bytes = padded 10 v })
      else none
]

-- a list of parameters, as they are laid out
abbrev pub param_bytes : List (ℕ × List ℕ) → List ℕ → List ℕ
param_bytes [] rest = rest
param_bytes ((t, v) ∷ ps) rest = t ∷ length v ∷ (v ++ param_bytes ps rest)

-- the value of the first that has that id
abbrev pub first_value : List (ℕ × List ℕ) → ℕ → Option (List ℕ)
first_value [] id = none
first_value ((t, v) ∷ ps) id = if t == id then some v else first_value ps id

-- In parameters laid out one after another, with anything after them, the search among the first
-- n, which is at most their number, gives the value of the first of those that has the id, and
-- fails where none has.
pub find_config_param_lem :
    (n : ℕ) (ps : List (ℕ × List ℕ)) (rest : List ℕ) (id : ℕ)
    → n ≤ length ps
    → find_config_param n (param_bytes ps rest) id ≡ first_value (take n ps) id
unfolding find_config_param
find_config_param_lem zero ps rest id h = refl
find_config_param_lem (suc n) [] rest id h = absurd (omega arith)
find_config_param_lem (suc n) ((t, v) ∷ ps) rest id h = ground (
  arith,
  take-length-append v (param_bytes ps rest),
  drop-length-append v (param_bytes ps rest),
  length-append v (param_bytes ps rest),
  find_config_param_lem n ps rest id,
)

-- the `k` bytes of a number, the lowest first
abbrev pub little_endian : ℕ → ℕ → List ℕ
little_endian zero n = []
little_endian (suc k) n = n % 256 ∷ little_endian k (n / 256)

length-little_endian : (k n : ℕ) → length (little_endian k n) ≡ k
length-little_endian zero n = refl
length-little_endian (suc k) n = ap suc (length-little_endian k (n / 256))

-- The bytes are put together again, from one to four of them.
little_endian_value : (k n : ℕ) → k ≤ 4 → n < 256 ^ k → config_uint_loop 0 0 (little_endian k n) ≡ n
unfolding config_uint_loop
little_endian_value zero n h hn = omega arith
little_endian_value (suc zero) n h hn = omega arith
little_endian_value (suc (suc zero)) n h hn = omega arith
little_endian_value (suc (suc (suc zero))) n h hn = omega arith
little_endian_value (suc (suc (suc (suc zero)))) n h hn = omega arith
little_endian_value (suc (suc (suc (suc (suc k))))) n h hn = absurd (omega arith)

found_uint :
    (k n : ℕ) (v : List ℕ) (nparams : ℕ) (bytes : List ℕ) (id : ℕ)
    → find_config_param nparams bytes id ≡ some v
    → length v ≡ k
    → 0 < k
    → k ≤ 4
    → config_uint_loop 0 0 v ≡ n
    → config_param_uint nparams bytes id ≡ some (k, n)
unfolding config_param_uint
found_uint k n v nparams bytes id e l h0 h4 w = rw (e, config_param_uint) (ground arith)

-- A parameter that holds a number in one to four bytes is read as that number, with its size,
-- where it is the first of its id among the parameters searched.
pub config_param_uint_lem :
    (k n id nparams : ℕ) (ps : List (ℕ × List ℕ)) (rest : List ℕ)
    → 0 < k
    → k ≤ 4
    → n < 256 ^ k
    → nparams ≤ length ps
    → first_value (take nparams ps) id ≡ some (little_endian k n)
    → config_param_uint nparams (param_bytes ps rest) id ≡ some (k, n)
config_param_uint_lem k n id nparams ps rest h0 h4 hn hp first =
    found_uint k n (little_endian k n) nparams (param_bytes ps rest) id
      (find_config_param_lem nparams ps rest id hp ∙ first) (length-little_endian k n) h0 h4
      (little_endian_value k n h4 hn)
