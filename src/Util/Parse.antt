-- ===== src/Util/Parse.antt =====
-- How the parsers of src/nci_util.c read their input. A pointer and a length are the list of the
-- bytes. A read at an index past them is `overrun`, and so is a `GUtilData` that reaches past them,
-- of which the parser itself only stores the pointer and the size; FALSE and NULL are `refused`.
use libncicore.Common.{
  ℕ, ◌+◌, ◌-◌, Bool, true, false, Option, none, some, List, ◌++◌, if◌then◌else◌, ltb, leb, length,
  get_or, take, drop, replicate,
}

pub data Parse {ℓ} (A : Type ℓ) : Type ℓ where
  parsed : A → Parse A
  refused : Parse A
  overrun : Parse A

infixl 5 ◌>>=◌
abbrev pub ◌>>=◌ {ℓ κ} : {A : Type ℓ} {B : Type κ} → Parse A → (A → Parse B) → Parse B
parsed a >>= f = f a
refused >>= f = refused
overrun >>= f = overrun

infixl 5 ◌>>◌
abbrev pub ◌>>◌ {ℓ} : {B : Type ℓ} → Parse (Unit {0}) → Parse B → Parse B
m >> k = m >>= λ _. k

-- A condition of the code, whose other branch is FALSE or NULL.
abbrev pub require : Bool → Parse (Unit {0})
require true = parsed tt
require false = refused

-- `bytes[i]`
abbrev pub byte : List ℕ → ℕ → Parse ℕ
byte bytes i = if ltb i (length bytes) then parsed (get_or bytes i 0) else overrun

-- the `n` bytes from `bytes + i`
abbrev pub slice : List ℕ → ℕ → ℕ → Parse (List ℕ)
slice bytes i n = if leb (i + n) (length bytes) then parsed (take n (drop i bytes)) else overrun

-- an array of `n` bytes that begins with these, cleared before
abbrev pub padded : ℕ → List ℕ → List ℕ
padded n bytes = bytes ++ replicate (n - length bytes) 0

-- A call whose NULL or FALSE is stored, not passed on.
abbrev pub optional {ℓ} : {A : Type ℓ} → Parse A → Parse (Option A)
optional (parsed a) = parsed (some a)
optional refused = parsed none
optional overrun = overrun

-- The parser stays inside its input.
abbrev pub IsSafe {ℓ} : {A : Type ℓ} → Parse A → Type 0
IsSafe (parsed a) = Unit
IsSafe refused = Unit
IsSafe overrun = ⊥
