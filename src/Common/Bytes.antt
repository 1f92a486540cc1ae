-- ===== src/Common/Bytes.antt =====
-- Facts about bit masks over a byte, proved by checking every value.
use Prim.Native.Nat.{ℕ, zero, suc, ◌<◌}
use mathlib.Core.Path.{◌≡◌}
use mathlib.Core.Bool.{Bool, true, ◌&&◌}
use native.Mathlib.Omega.{arith}
use libncicore.Common.Tests.{◌==◌, ==_iff, ltb, ltb→lt}

abbrev pub all_below : ℕ → (ℕ → Bool) → Bool
all_below zero p = true
all_below (suc n) p = p n && all_below n p

pub all_below_sound : (n : ℕ) (p : ℕ → Bool) (x : ℕ) → all_below n p ≡ true → x < n → p x ≡ true
all_below_sound zero p x h lt = absurd (omega arith)
all_below_sound (suc n) p x h lt = ground (arith, all_below_sound n p x)

-- Two functions that agree on every byte.
pub agree_on_bytes :
    (f g : ℕ → ℕ) (x : ℕ) → all_below 256 (λ y. f y == g y) ≡ true → x < 256 → f x ≡ g x
agree_on_bytes f g x h lt = (==_iff _ _).0 (all_below_sound 256 (λ y. f y == g y) x h lt)

-- A function that is below a bound on every byte.
pub bounded_on_bytes :
    (f : ℕ → ℕ) (b x : ℕ) → all_below 256 (λ y. ltb (f y) b) ≡ true → x < 256 → f x < b
bounded_on_bytes f b x h lt = ltb→lt _ _ (all_below_sound 256 (λ y. ltb (f y) b) x h lt)
