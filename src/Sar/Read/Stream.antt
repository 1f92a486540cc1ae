-- ===== src/Sar/Read/Stream.antt =====
-- `nci_sar_hal_client_read` of src/nci_sar.c against its specification: a byte stream that is cut
-- into packets, wherever the HAL cuts its reads.
use libncicore.Common.{
  ℕ, zero, suc, ◌+◌, ◌≤◌, ◌≡◌, refl, sym, ◌∙◌, none, some, List, [], ◌∷◌, ◌++◌, append_assoc,
  length, length-append, length-drop, take-append, drop-append, arith, Option-cases, inl, inr,
}
use libncicore.Sar.Defs.{Sar}
use libncicore.Sar.Read.{Segment, next_packet, handle_segment, handle_packets}

pub next_packet-append :
    (a b : List ℕ) {p : Segment} {r : List ℕ}
    → next_packet a ≡ some (p, r)
    → next_packet (a ++ b) ≡ some (p, r ++ b)
next_packet-append [] b h = cc
next_packet-append (h0 ∷ []) b h = cc
next_packet-append (h0 ∷ h1 ∷ []) b h = cc
next_packet-append (h0 ∷ h1 ∷ h2 ∷ r) b h =
    ground (arith, take-append h2 r b, drop-append h2 r b, length-append r b)

pub next_packet_shorter :
    (a : List ℕ) {p : Segment} {r : List ℕ} → next_packet a ≡ some (p, r) → length r + 3 ≤ length a
next_packet_shorter [] h = cc
next_packet_shorter (h0 ∷ []) h = cc
next_packet_shorter (h0 ∷ h1 ∷ []) h = cc
next_packet_shorter (h0 ∷ h1 ∷ h2 ∷ r) h = ground (arith, length-drop h2 r)

-- One round of the loop, when a whole packet is there.
pub step :
    (f : ℕ) (s : Sar) (a : List ℕ) {p : Segment} {r : List ℕ}
    → next_packet a ≡ some (p, r)
    → handle_packets (suc f) s a ≡ (
      (handle_packets f (handle_segment s p).0 r).0,
      (handle_packets f (handle_segment s p).0 r).1,
      (handle_segment s p).1 ++ (handle_packets f (handle_segment s p).0 r).2,
    )
unfolding handle_packets
step f s a e = rw (e, handle_packets)

-- The loop stands still when no whole packet is there.
pub stop : (f : ℕ) (s : Sar) (a : List ℕ) → next_packet a ≡ none → handle_packets f s a ≡ (s, a, [])
unfolding handle_packets
stop zero s a e = refl
stop (suc f) s a e = rw (e, handle_packets)

-- With fuel for every byte the loop over the packets ends by its own test: no whole packet is
-- left.
pub handle_packets_done :
    (f : ℕ) (s : Sar) (a : List ℕ) → length a ≤ f → next_packet (handle_packets f s a).1 ≡ none
unfolding handle_packets
handle_packets_done zero s [] h = refl
handle_packets_done zero s (x ∷ a) h = absurd (omega arith)
handle_packets_done (suc f) s a h = elim (Option-cases (next_packet a)) [
  | inl e ↦ rw (stop (suc f) s a e) e
  | inr ((p, r), e) ↦
      rw (step f s a e)
        (handle_packets_done f (handle_segment s p).0 r (omega (arith, next_packet_shorter a e)))
]

pub left_shorter : (f : ℕ) (s : Sar) (a : List ℕ) → length (handle_packets f s a).1 ≤ length a
unfolding handle_packets
left_shorter zero s a = omega arith
left_shorter (suc f) s a = elim (Option-cases (next_packet a)) [
  | inl e ↦ rw (stop (suc f) s a e) (omega arith)
  | inr ((p, r), e) ↦
      rw (step f s a e)
        (omega (arith, left_shorter f (handle_segment s p).0 r, next_packet_shorter a e))
]

-- More fuel than there are bytes makes no difference.
pub handle_packets_fuel :
    (f g : ℕ) (s : Sar) (a : List ℕ)
    → length a ≤ f
    → length a ≤ g
    → handle_packets f s a ≡ handle_packets g s a
handle_packets_fuel zero g s [] h k = stop zero s [] refl ∙ sym (stop g s [] refl)
handle_packets_fuel zero g s (x ∷ a) h k = absurd (omega arith)
handle_packets_fuel (suc f) zero s [] h k = stop (suc f) s [] refl ∙ sym (stop zero s [] refl)
handle_packets_fuel (suc f) zero s (x ∷ a) h k = absurd (omega arith)
handle_packets_fuel (suc f) (suc g) s a h k = elim (Option-cases (next_packet a)) [
  | inl e ↦ stop (suc f) s a e ∙ sym (stop (suc g) s a e)
  | inr ((p, r), e) ↦
      let ih =
        handle_packets_fuel f g (handle_segment s p).0 r (omega (arith, next_packet_shorter a e))
          (omega (arith, next_packet_shorter a e)) in
      rw (step f s a e, step g s a e, ih) refl
]

-- The loop over `a ++ b` does what the loop over `a` does, and goes on with what is left and `b`.
pub handle_packets-append :
    (f g : ℕ) (s : Sar) (a b : List ℕ)
    → length a ≤ f
    → length (a ++ b) ≤ g
    → let (s', left, evs) = handle_packets f s a in
      let (s'', left', evs') = handle_packets g s' (left ++ b) in
      handle_packets g s (a ++ b) ≡ (s'', left', evs ++ evs')
handle_packets-append zero g s [] b h k = rw (stop zero s [] refl) refl
handle_packets-append zero g s (x ∷ a) b h k = absurd (omega arith)
handle_packets-append (suc f) zero s [] b h k = rw (stop (suc f) s [] refl) refl
handle_packets-append (suc f) zero s (x ∷ a) b h k = absurd (omega arith)
handle_packets-append (suc f) (suc g) s a b h k = elim (Option-cases (next_packet a)) [
  | inl e ↦ rw (stop (suc f) s a e) refl
  | inr ((p, r), e) ↦
      let s1 = (handle_segment s p).0 in
      let left = (handle_packets f s1 r).1 in
      let short = next_packet_shorter a e in
      let fits : length (r ++ b) ≤ g = omega (arith, length-append r b, length-append a b) in
      let fits' : length (left ++ b) ≤ g =
        omega (arith, left_shorter f s1 r, length-append r b, length-append left b) in
      rw (step f s a e, step g s (a ++ b) (next_packet-append a b e))
        (rw (handle_packets-append f g s1 r b (omega arith) fits) (
          rw
            (
              handle_packets_fuel (suc g) g (handle_packets f s1 r).0 (left ++ b) (omega arith)
                  fits',
              append_assoc,
            )
            refl))
]
