-- ===== src/Sar/Queue/Cancel.antt =====
-- What `nci_sar_cancel_queue` of src/nci_sar.c takes out of a queue.
use libncicore.Common.{
  ℕ, ◌≡◌, ◌≢◌, refl, ap, Bool, true, false, Option, none, some, List, [], ◌∷◌, ◌++◌, if◌then◌else◌,
  ◌==◌, All, arith, ==_iff, Bool-cases, inl, inr,
}
use libncicore.Sar.Defs.{PacketOut, PacketOutQueue, Event}
use libncicore.Sar.Queue.{
  is_nil, packet_out_free, drop_first, cancel_rest, cancel_items, cancel_queue,
}

pub cancel_queue_nonempty :
    (q : PacketOutQueue) (id : ℕ) {r : PacketOutQueue × List Event}
    → cancel_queue q id ≡ some r
    → is_nil q.items ≡ false
unfolding cancel_queue
cancel_queue_nonempty q id h = go q.items h
  where
    go :
        (ps : List PacketOut) {r : PacketOutQueue × List Event}
        → cancel_items q ps id ≡ some r
        → is_nil ps ≡ false
    go [] h = cc
    go (p ∷ ps) h = refl

abbrev pub IsOther : ℕ → PacketOut → Type 0
IsOther id p = p.id ≢ id

-- The packets before the one that is taken out, that one, and those after it.
pub record Taken (id : ℕ) (items : List PacketOut) : Type 0 where
  pub before : List PacketOut
  pub packet : PacketOut
  pub after : List PacketOut
  pub place : items ≡ before ++ (packet ∷ after)
  pub found : packet.id ≡ id
  pub first : All (IsOther id) before

abbrev pub nonempty_last : List PacketOut → Bool → Bool
nonempty_last [] b = false
nonempty_last (p ∷ ps) b = b

-- What a cancellation does: with no packet of that id, nothing; else the first such packet is
-- released and the others stay in their order.
abbrev pub Cancels : PacketOutQueue → ℕ → Option (PacketOutQueue × List Event) → Type 0
Cancels q id none = All (IsOther id) q.items
Cancels q id (some (q', evs)) =
    (t : Taken id q.items) × (q'.items ≡ t.before ++ t.after) × (evs ≡ packet_out_free t.packet)

abbrev CancelsRest : List PacketOut → ℕ → Option (PacketOut × List PacketOut × Bool) → Type 0
CancelsRest ps id none = All (IsOther id) ps
CancelsRest ps id (some (x, r, end)) =
    (t : Taken id ps) × (r ≡ t.before ++ t.after) × (x ≡ t.packet) × (end ≡ is_nil t.after)

module _ {id : ℕ} (p : PacketOut) where
  -- the packet itself
  abbrev taken_here : (ps : List PacketOut) → p.id ≡ id → Taken id (p ∷ ps)
  taken_here ps e = record {
    before = [];
    packet = p;
    after = ps;
    place = refl;
    found = e;
    first = tt;
  }

  -- one after it
  abbrev taken_later : {ps : List PacketOut} → p.id ≢ id → Taken id ps → Taken id (p ∷ ps)
  taken_later ne t = record {
    before = p ∷ t.before;
    packet = t.packet;
    after = t.after;
    place = ap (λ l. p ∷ l) t.place;
    found = t.found;
    first = (ne, t.first);
  }

  CancelsRest-later :
      (ps : List PacketOut) (o : Option (PacketOut × List PacketOut × Bool))
      → p.id ≢ id
      → CancelsRest ps id o
      → CancelsRest (p ∷ ps) id (elim o [ none ↦ none | some (x, r, end) ↦ some (x, p ∷ r, end) ])
  CancelsRest-later ps none ne c = (ne, c)
  CancelsRest-later ps (some (x, r, end)) ne (t, e, f, g) =
      (taken_later ne t, ap (λ l. p ∷ l) e, f, g)

  Cancels-later :
      (q : PacketOutQueue) (ps : List PacketOut) (o : Option (PacketOut × List PacketOut × Bool))
      → q.items ≡ p ∷ ps
      → p.id ≢ id
      → CancelsRest ps id o
      → Cancels q id (elim o [
        | none ↦ none
        | some (x, r, end) ↦
            some (record { items = p ∷ r; last = if end then true else q.last }, packet_out_free x)
      ])
  Cancels-later q ps none at ne c = rw at (ne, c)
  Cancels-later q ps (some (x, r, end)) at ne (t, e, f, g) =
      rw at (taken_later ne t, ap (λ l. p ∷ l) e, ap packet_out_free f)

differ : (a b : ℕ) → (a == b) ≡ false → a ≢ b
differ a b h = ground arith

cancel_rest_lem : (ps : List PacketOut) (id : ℕ) → CancelsRest ps id (cancel_rest ps id)
unfolding cancel_rest
cancel_rest_lem [] id = tt
cancel_rest_lem (p ∷ ps) id = elim (Bool-cases (p.id == id)) [
  | inl e ↦ rw (e, cancel_rest) (taken_here p ps ((==_iff _ _).0 e), refl, refl, refl)
  | inr e ↦
      rw (e, cancel_rest)
        (CancelsRest-later p ps (cancel_rest ps id) (differ _ _ e) (cancel_rest_lem ps id))
]

cancel_items_lem :
    (q : PacketOutQueue) (ps : List PacketOut) (id : ℕ)
    → q.items ≡ ps
    → Cancels q id (cancel_items q ps id)
unfolding cancel_items drop_first
cancel_items_lem q [] id at = rw at tt
cancel_items_lem q (p ∷ ps) id at = elim (Bool-cases (p.id == id)) [
  | inl e ↦ rw (e, cancel_items, at) (taken_here p ps ((==_iff _ _).0 e), refl, refl)
  | inr e ↦
      rw (e, cancel_items)
        (Cancels-later p q ps (cancel_rest ps id) at (differ _ _ e) (cancel_rest_lem ps id))
]

-- Cancelling an id in a queue takes out the first packet of that id and no other, keeps the order
-- of the rest, and releases that packet alone; it fails exactly where no packet has the id.
pub cancel_queue_lem : (q : PacketOutQueue) (id : ℕ) → Cancels q id (cancel_queue q id)
unfolding cancel_queue
cancel_queue_lem q id = cancel_items_lem q q.items id refl
