-- ===== src/Sar/Read/Buffer.antt =====
-- The packet handlers of src/nci_sar.c and `read_buf`, which is for `nci_sar_hal_client_read`.
use libncicore.Common.{
  ℕ, suc, zero, ◌≡◌, refl, Option, none, some, List, get_elem?, arith, Option-cases, inl, inr,
  bit_and,
}
use libncicore.Sar.Defs.{Sar, LogicalConnection, nci_data_cid_mask, nci_data_cr_mask}
use libncicore.Sar.Write.Credits.{with_buf, take_credits-with_buf}
use libncicore.Sar.Read.{
  Segment, next_packet, handle_segment, handle_data_segment, handle_control_segment, collect_on,
  handle_packets,
}

handle_control_segment-with_buf :
    (s : Sar) (b : Option (List ℕ)) (p : Segment)
    → handle_control_segment (with_buf s b) p
      ≡ (with_buf (handle_control_segment s p).0 b, (handle_control_segment s p).1)
unfolding handle_control_segment
handle_control_segment-with_buf s b p = ground arith

collect_on-with_buf :
    (s : Sar) (b : Option (List ℕ)) (cid : ℕ) (p : Segment) (c : Option LogicalConnection)
    → collect_on (with_buf s b) cid p c
      ≡ (with_buf (collect_on s cid p c).0 b, (collect_on s cid p c).1)
unfolding collect_on
collect_on-with_buf s b cid p none = refl
collect_on-with_buf s b cid p (some c) = refl

handle_data_segment-with_buf :
    (s : Sar) (b : Option (List ℕ)) (p : Segment)
    → handle_data_segment (with_buf s b) p
      ≡ (with_buf (handle_data_segment s p).0 b, (handle_data_segment s p).1)
unfolding handle_data_segment
handle_data_segment-with_buf s b p =
    let cid = bit_and p.hdr0 nci_data_cid_mask in
    elim (Option-cases (get_elem? s.conn cid)) [
      | inl e ↦ rw (e, handle_data_segment)
      | inr (c, e) ↦
          rw
            (
              e,
              handle_data_segment,
              take_credits-with_buf s b cid (bit_and p.hdr1 nci_data_cr_mask),
            )
            (collect_on-with_buf _ b cid p _)
    ]

pub handle_segment-with_buf :
    (s : Sar) (b : Option (List ℕ)) (p : Segment)
    → handle_segment (with_buf s b) p ≡ (with_buf (handle_segment s p).0 b, (handle_segment s p).1)
unfolding handle_segment
handle_segment-with_buf s b p =
    ground (arith, handle_data_segment-with_buf s b p, handle_control_segment-with_buf s b p)

pub handle_packets-with_buf :
    (fuel : ℕ) (s : Sar) (b : Option (List ℕ)) (bytes : List ℕ)
    → let (s', left, evs) = handle_packets fuel s bytes in
      handle_packets fuel (with_buf s b) bytes ≡ (with_buf s' b, left, evs)
unfolding handle_packets
handle_packets-with_buf zero s b bytes = refl
handle_packets-with_buf (suc fuel) s b bytes = elim (Option-cases (next_packet bytes)) [
  | inl e ↦ rw (e, handle_packets)
  | inr ((p, rest), e) ↦
      rw (e, handle_packets, handle_segment-with_buf s b p)
        (rw (handle_packets-with_buf fuel (handle_segment s p).0 b rest) refl)
]
