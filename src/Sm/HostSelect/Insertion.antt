-- ===== src/Sm/HostSelect/Insertion.antt =====
-- An insertion into a sorted list, for the targets of src/nci_state_w4_host_select.c.
use libncicore.Common.{
  ℕ, ◌≡◌, ◌≢◌, ◌↔◌, ◌⊎◌, inl, inr, Bool, true, false, List, [], ◌∷◌, if◌then◌else◌, ◌≤◌, ◌<◌, arith,
  All, Bool-cases,
}
use libncicore.Util.Types.{DiscoveryNtf}
use libncicore.Sm.HostSelect.{Sign, negative, zero, positive, Compare, compare_ids, sort_by, sort}
use libncicore.Sm.HostSelect.Best.{Preferred, preferred, IsSorted, Has, Inserts, rank}

abbrev is_positive : Sign → Bool
is_positive negative = false
is_positive zero = false
is_positive positive = true

abbrev pub insert_by : Compare → List DiscoveryNtf → DiscoveryNtf → List DiscoveryNtf
insert_by cmp [] d = d ∷ []
insert_by cmp (x ∷ xs) d =
    let rest = insert_by cmp xs d in if is_positive (cmp d x) then x ∷ rest else d ∷ x ∷ xs

not_positive : (a b : DiscoveryNtf) → Preferred a b → sort a b ≢ positive
unfolding sort sort_by compare_ids
not_positive a b h = ground arith

order :
    (r s t i j k : ℕ)
    → (r < s) ⊎ ((r ≡ s) × (i ≤ j))
    → (s < t) ⊎ ((s ≡ t) × (j ≤ k))
    → (r < t) ⊎ ((r ≡ t) × (i ≤ k))
order r s t i j k p q = ground arith

trans : (a b c : DiscoveryNtf) → sort a b ≢ positive → sort b c ≢ positive → sort a c ≢ positive
trans a b c p q = not_positive a c (
    order (rank a.protocol) (rank b.protocol) (rank c.protocol) a.discovery_id b.discovery_id
      c.discovery_id (preferred a b p) (preferred b c q))

reversed : (a b : DiscoveryNtf) → is_positive (sort a b) ≡ true → sort b a ≢ positive
unfolding sort sort_by compare_ids
reversed a b h = ground arith

not_after : (x : Sign) → is_positive x ≡ false → x ≢ positive
not_after negative h = λ e. cc
not_after zero h = λ e. cc
not_after positive h = cc

preferred_to_all :
    (d x : DiscoveryNtf) (l : List DiscoveryNtf)
    → sort d x ≢ positive
    → All (λ e. sort x e ≢ positive) l
    → All (λ e. sort d e ≢ positive) l
preferred_to_all d x [] h a = tt
preferred_to_all d x (y ∷ ys) h a = (trans d x y h a.0, preferred_to_all d x ys h a.1)

insert-All :
    (x : DiscoveryNtf) (l : List DiscoveryNtf) (d : DiscoveryNtf)
    → sort x d ≢ positive
    → All (λ e. sort x e ≢ positive) l
    → All (λ e. sort x e ≢ positive) (insert_by sort l d)
insert-All x [] d h a = (h, tt)
insert-All x (y ∷ ys) d h a = ground (arith, insert-All x ys d h a.1)

insert-IsSorted :
    (l : List DiscoveryNtf) (d : DiscoveryNtf) → IsSorted l → IsSorted (insert_by sort l d)
insert-IsSorted [] d h = (tt, tt)
insert-IsSorted (x ∷ xs) d h = elim (Bool-cases (is_positive (sort d x))) [
  | inl e ↦ rw e (insert-All x xs d (reversed d x e) h.0, insert-IsSorted xs d h.1)
  | inr e ↦ let q = not_after (sort d x) e in rw e ((q, preferred_to_all d x xs q h.0), h)
]

insert-Has :
    (l : List DiscoveryNtf) (d e : DiscoveryNtf) → Has e (insert_by sort l d) ↔ ((e ≡ d) ⊎ Has e l)
insert-Has [] d e = ground arith
insert-Has (x ∷ xs) d e = ground (arith, insert-Has xs d e)

pub by_insertion : Inserts insert_by
by_insertion = record { sorted = insert-IsSorted; member = insert-Has }
