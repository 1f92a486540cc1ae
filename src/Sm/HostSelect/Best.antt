-- ===== src/Sm/HostSelect/Best.antt =====
-- Which target src/nci_state_w4_host_select.c selects.
use libncicore.Common.{
  ℕ, ◌≤◌, ◌<◌, ◌≡◌, ◌≢◌, ◌⊎◌, ◌↔◌, inl, inr, refl, Option, none, some, List, [], ◌∷◌, if◌then◌else◌,
  ◌==◌, arith, All,
}
use libncicore.Util.Types.{DiscoveryNtf}
use libncicore.Sm.Protocol
use libncicore.Sm.HostSelect.{
  positive, Compare, compare_ids, sort_by, protocol_order, sort, select_all, first_selected,
  selected_target,
}

-- a smaller rank for what is preferred: NFC-DEP, then ISO-DEP, then type 2 tags, then all else
abbrev pub rank : ℕ → ℕ
rank p =
    if p == Protocol.nfc_dep
    then 0
    else if p == Protocol.iso_dep
    then 1
    else if p == Protocol.t2t
    then 2
    else 3

-- `a` is preferred to `b`, or as good.
abbrev pub Preferred : DiscoveryNtf → DiscoveryNtf → Type 0
Preferred a b =
    (rank a.protocol < rank b.protocol)
    ⊎ ((rank a.protocol ≡ rank b.protocol) × (a.discovery_id ≤ b.discovery_id))

-- The first element is not after any of the others, and so for the rest of the list.
abbrev pub IsSorted : List DiscoveryNtf → Type 0
IsSorted [] = Unit
IsSorted (d ∷ ds) = All (λ e. sort d e ≢ positive) ds × IsSorted ds

-- `d` is in the list.
abbrev pub Has : DiscoveryNtf → List DiscoveryNtf → Type 0
Has d [] = ⊥
Has d (e ∷ es) = (d ≡ e) ⊎ Has d es

by_id :
    (a b : DiscoveryNtf)
    → compare_ids a.discovery_id b.discovery_id ≢ positive
    → a.discovery_id ≤ b.discovery_id
unfolding compare_ids
by_id a b h = ground arith

by_protocol :
    (a b : DiscoveryNtf)
    → a.protocol ≢ b.protocol
    → sort_by protocol_order a b ≢ positive
    → Preferred a b
unfolding sort_by
by_protocol a b ne h = ground (arith, by_id a b, ne)

pub preferred : (a b : DiscoveryNtf) → sort a b ≢ positive → Preferred a b
unfolding sort
preferred a b h = ground (arith, by_id a b, by_protocol a b)

-- The first element of a sorted list is as good as any of it.
first-Preferred :
    (d e : DiscoveryNtf) (ds : List DiscoveryNtf)
    → All (λ x. sort d x ≢ positive) ds
    → Has e ds
    → Preferred d e
first-Preferred d e [] a h = absurd h
first-Preferred d e (x ∷ xs) a (inl p) = rw p (preferred d x a.0)
first-Preferred d e (x ∷ xs) a (inr h) = first-Preferred d e xs a.1 h

itself : (d : DiscoveryNtf) → Preferred d d
itself d = inr (refl, omega arith)

-- What a choice among the targets of a list should be.
abbrev pub IsBest : List DiscoveryNtf → Option DiscoveryNtf → Type 0
IsBest l none = (e : DiscoveryNtf) → ¬ Has e l
IsBest l (some d) = Has d l × ((e : DiscoveryNtf) → Has e l → Preferred d e)

first-IsBest : (l : List DiscoveryNtf) → IsSorted l → IsBest l (first_selected l)
unfolding first_selected
first-IsBest [] h = λ e m. m
first-IsBest (d ∷ ds) h =
    (inl refl, λ e m. elim m [ inl p ↦ rw p (itself d) | inr m' ↦ first-Preferred d e ds h.0 m' ])

-- What is documented of the insertion into a sorted list: the element is in the list then, with
-- what was there, and the list is sorted again.
pub record Inserts (insert_sorted : Compare → List DiscoveryNtf → DiscoveryNtf → List DiscoveryNtf)
    : Type 0 where
  pub sorted :
      (l : List DiscoveryNtf) (d : DiscoveryNtf) → IsSorted l → IsSorted (insert_sorted sort l d)
  pub member :
      (l : List DiscoveryNtf) (d e : DiscoveryNtf)
      → Has e (insert_sorted sort l d) ↔ ((e ≡ d) ⊎ Has e l)

module _ (insert_sorted : Compare → List DiscoveryNtf → DiscoveryNtf → List DiscoveryNtf)
    (ins : Inserts insert_sorted) where
  select_all-IsSorted :
      (s l : List DiscoveryNtf) → IsSorted s → IsSorted (select_all insert_sorted s l)
  unfolding select_all
  select_all-IsSorted s [] h = h
  select_all-IsSorted s (d ∷ ds) h =
      select_all-IsSorted (insert_sorted sort s d) ds (ins.sorted s d h)

  select_all-Has :
      (s l : List DiscoveryNtf) (e : DiscoveryNtf)
      → Has e (select_all insert_sorted s l) ↔ (Has e s ⊎ Has e l)
  unfolding select_all
  select_all-Has s [] e = ground arith
  select_all-Has s (d ∷ ds) e =
      ground (arith, select_all-Has (insert_sorted sort s d) ds e, ins.member s d e)

  same-IsBest :
      (l k : List DiscoveryNtf) (o : Option DiscoveryNtf)
      → ((e : DiscoveryNtf) → Has e k ↔ Has e l)
      → IsBest k o
      → IsBest l o
  same-IsBest l k none s h = λ e m. h e ((s e).1 m)
  same-IsBest l k (some d) s h = ((s d).0 h.0, λ e m. h.1 e ((s e).1 m))

  -- With an insertion that keeps a list sorted and adds its element, a target is selected from any
  -- list that is not empty: it is in the list, no target has a protocol that comes before its own
  -- (NFC-DEP, ISO-DEP, type 2 tags, all others), and among those whose protocol is as good none
  -- has a smaller identifier.
  pub selected_target-IsBest : (l : List DiscoveryNtf) → IsBest l (selected_target insert_sorted l)
  unfolding selected_target
  selected_target-IsBest l =
      let k = select_all insert_sorted [] l in
      same-IsBest l k (first_selected k) (λ e. ground (arith, select_all-Has [] l e))
        (first-IsBest k (select_all-IsSorted [] l tt))
