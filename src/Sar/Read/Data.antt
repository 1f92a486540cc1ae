-- ===== src/Sar/Read/Data.antt =====
-- What one segment does to the data that is collected on a logical connection.
use libncicore.Common.{ℕ, ◌≡◌, refl, Option, some, List, [], ◌∷◌, ◌++◌, get_elem?, drop, bit_and}
use libncicore.Sar.Defs.{
  Sar, LogicalConnection, data_packet, nci_mt_mask, nci_data_cid_mask, nci_pbf, nci_data_cr_mask,
}
use libncicore.Sar.Write.{set_conn}
use libncicore.Sar.Write.Credits.{take_credits-zero}
use libncicore.Sar.Read.{
  Segment, segment_bytes, array_bytes, handle_segment, handle_data_segment, collect_on,
  collect_data,
}

-- A data segment that brings no credits goes to its connection.
pub handle_segment_data :
    (s : Sar) (p : Segment) (cid : ℕ) (c : LogicalConnection)
    → bit_and p.hdr0 nci_mt_mask ≡ 0
    → bit_and p.hdr0 nci_data_cid_mask ≡ cid
    → bit_and p.hdr1 nci_data_cr_mask ≡ 0
    → get_elem? s.conn cid ≡ some c
    → handle_segment s p ≡ (
      set_conn s cid (record c { input = (collect_data cid c.input p).0 }),
      (collect_data cid c.input p).1,
    )
unfolding handle_segment handle_data_segment collect_on
handle_segment_data s p cid c mt eq h1 e =
    let e' : get_elem? s.conn (bit_and p.hdr0 nci_data_cid_mask) ≡ some c = rw eq e in
    rw
      (
        mt,
        handle_data_segment,
        e',
        h1,
        take_credits-zero s (bit_and p.hdr0 nci_data_cid_mask),
        e',
        eq,
      )
      refl

module _ (cid : ℕ) (input : Option (List ℕ)) (p : Segment) where
  pub collect_data_only :
      array_bytes input ≡ []
      → bit_and p.hdr0 nci_pbf ≡ 0
      → collect_data cid input p ≡ (input, data_packet cid p.payload ∷ [])
  unfolding collect_data
  collect_data_only e b = rw (e, b) refl

  pub collect_data_first :
      array_bytes input ≡ []
      → bit_and p.hdr0 nci_pbf ≡ nci_pbf
      → collect_data cid input p ≡ (some (segment_bytes p), [])
  unfolding collect_data
  collect_data_first e b = rw (e, b) refl

  module _ {x : ℕ} {xs : List ℕ} (e : array_bytes input ≡ x ∷ xs) where
    pub collect_data_more :
        bit_and p.hdr0 nci_pbf ≡ nci_pbf
        → collect_data cid input p ≡ (some ((x ∷ xs) ++ p.payload), [])
    unfolding collect_data
    collect_data_more b = rw (e, b) refl

    pub collect_data_last :
        bit_and p.hdr0 nci_pbf ≡ 0
        → collect_data cid input p
          ≡ (some [], data_packet cid (drop 3 ((x ∷ xs) ++ p.payload)) ∷ [])
    unfolding collect_data
    collect_data_last b = rw (e, b) refl
