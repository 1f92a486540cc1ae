-- ===== src/Sar/Control.antt =====
-- How src/nci_sar.c puts together a response or a notification that comes in segments.
use libncicore.Common.{
  ℕ, ◌<◌, ◌≡◌, refl, ap, ◌∙◌, ◌⊎◌, inl, inr, true, Option, none, some, List, [], ◌∷◌, ◌++◌, length,
  All, append_assoc, bit_and, ==_iff, append-nil,
}
use libncicore.Sar.Defs.{
  Sar, Event, nci_mt_mask, nci_mt_rsp_pkt, nci_mt_ntf_pkt, nci_pbf, nci_control_gid_mask,
  nci_control_oid_mask,
}
use libncicore.Sar.Header.{with_pbf, mt-with_pbf, gid-with_pbf, pbf-with_pbf}
use libncicore.Sar.Write.Credits.{with_buf}
use libncicore.Sar.Read.{
  Segment, segment_bytes, array_bytes, same_message, handle_control_packet, handle_control_segment,
  handle_segment, client_read,
}
use libncicore.Sar.Read.Frames.{IsWhole, stream, handle_all, client_read-stream}
use libncicore.Sar.Read.Refine.{observe, read_all, read_all-joined, joined}

-- the header of a response or of a notification, in its last segment
pub record IsControl (h0 : ℕ) : Type 0 where
  pub byte : h0 < 256
  pub kind : (bit_and h0 nci_mt_mask ≡ nci_mt_rsp_pkt) ⊎ (bit_and h0 nci_mt_mask ≡ nci_mt_ntf_pkt)
  pub flag : bit_and h0 nci_pbf ≡ 0

abbrev pub part_of : ℕ → ℕ → List ℕ → Segment
part_of h0 h1 part = record { hdr0 = with_pbf h0; hdr1 = h1; hdr2 = length part; payload = part }

abbrev pub end_of : ℕ → ℕ → List ℕ → Segment
end_of h0 h1 end = record { hdr0 = h0; hdr1 = h1; hdr2 = length end; payload = end }

-- A message in segments: all but the last have the packet boundary flag.
abbrev pub control_segments : ℕ → ℕ → List (List ℕ) → List ℕ → List Segment
control_segments h0 h1 [] end = end_of h0 h1 end ∷ []
control_segments h0 h1 (part ∷ parts) end = part_of h0 h1 part ∷ control_segments h0 h1 parts end

control_segments-IsWhole :
    (h0 h1 : ℕ) (parts : List (List ℕ)) (end : List ℕ)
    → All IsWhole (control_segments h0 h1 parts end)
control_segments-IsWhole h0 h1 [] end = (refl, tt)
control_segments-IsWhole h0 h1 (part ∷ parts) end = (refl, control_segments-IsWhole h0 h1 parts end)

-- A segment of either type goes to the collected control message.
handle_segment_control :
    (s : Sar) (p : Segment)
    → (bit_and p.hdr0 nci_mt_mask ≡ nci_mt_rsp_pkt) ⊎ (bit_and p.hdr0 nci_mt_mask ≡ nci_mt_ntf_pkt)
    → handle_segment s p ≡ handle_control_segment s p
unfolding handle_segment
handle_segment_control s p (inl e) = rw e refl
handle_segment_control s p (inr e) = rw e refl

module _ (h0 h1 : ℕ) (d : IsControl h0) where
  part_kind :
      (bit_and (with_pbf h0) nci_mt_mask ≡ nci_mt_rsp_pkt)
      ⊎ (bit_and (with_pbf h0) nci_mt_mask ≡ nci_mt_ntf_pkt)
  part_kind = rw (mt-with_pbf h0 d.byte) d.kind

  same_message-part :
      (rest part : List ℕ) → same_message (with_pbf h0 ∷ h1 ∷ rest) (part_of h0 h1 part) ≡ true
  unfolding same_message
  same_message-part rest part =
      rw
        (
          (==_iff (bit_and (with_pbf h0) nci_mt_mask) _).1 refl,
          (==_iff (bit_and (with_pbf h0) nci_control_gid_mask) _).1 refl,
          (==_iff (bit_and h1 nci_control_oid_mask) _).1 refl,
        )
        refl

  same_message-end :
      (rest end : List ℕ) → same_message (with_pbf h0 ∷ h1 ∷ rest) (end_of h0 h1 end) ≡ true
  unfolding same_message
  same_message-end rest end =
      rw
        (
          mt-with_pbf h0 d.byte,
          gid-with_pbf h0 d.byte,
          (==_iff (bit_and h0 nci_mt_mask) _).1 refl,
          (==_iff (bit_and h0 nci_control_gid_mask) _).1 refl,
          (==_iff (bit_and h1 nci_control_oid_mask) _).1 refl,
        )
        refl

  -- what the client gets
  abbrev pub delivery : List ℕ → List Event
  delivery =
      handle_control_packet (bit_and h0 nci_mt_mask) (bit_and h0 nci_control_gid_mask)
        (bit_and h1 nci_control_oid_mask)

  -- The first segment of several.
  handle_first :
      (s : Sar) (part : List ℕ)
      → array_bytes s.control_in ≡ []
      → handle_segment s (part_of h0 h1 part)
        ≡ (record s { control_in = some (segment_bytes (part_of h0 h1 part)) }, [])
  unfolding handle_control_segment
  handle_first s part e =
      handle_segment_control s (part_of h0 h1 part) part_kind
      ∙ rw (e, handle_control_segment, pbf-with_pbf h0 d.byte) refl

  -- The only segment.
  handle_only :
      (s : Sar) (end : List ℕ)
      → array_bytes s.control_in ≡ []
      → handle_segment s (end_of h0 h1 end) ≡ (s, delivery end)
  unfolding handle_control_segment
  handle_only s end e =
      handle_segment_control s (end_of h0 h1 end) d.kind
      ∙ rw (e, handle_control_segment, d.flag) refl

  -- A segment after the first: `n` and `sofar` are what is collected after the first two bytes.
  module _ (s : Sar) (n : ℕ) (sofar : List ℕ)
      (e : array_bytes s.control_in ≡ with_pbf h0 ∷ h1 ∷ n ∷ sofar) where
    handle_part :
        (part : List ℕ)
        → handle_segment s (part_of h0 h1 part)
          ≡ (record s { control_in = some (with_pbf h0 ∷ h1 ∷ n ∷ (sofar ++ part)) }, [])
    unfolding handle_control_segment
    handle_part part =
        handle_segment_control s (part_of h0 h1 part) part_kind
        ∙ rw (e, handle_control_segment, same_message-part (n ∷ sofar) part, pbf-with_pbf h0 d.byte)
            refl

    handle_end :
        (end : List ℕ)
        → handle_segment s (end_of h0 h1 end)
          ≡ (record s { control_in = some [] }, delivery (sofar ++ end))
    unfolding handle_control_segment
    handle_end end =
        handle_segment_control s (end_of h0 h1 end) d.kind
        ∙ rw (e, handle_control_segment, same_message-end (n ∷ sofar) end, d.flag) refl

  hear_rest :
      (parts : List (List ℕ)) (end : List ℕ) (s : Sar) (n : ℕ) (sofar : List ℕ)
      → array_bytes s.control_in ≡ with_pbf h0 ∷ h1 ∷ n ∷ sofar
      → handle_all s (control_segments h0 h1 parts end)
        ≡ (record s { control_in = some [] }, delivery (sofar ++ (joined parts ++ end)))
  unfolding handle_all
  hear_rest [] end s n sofar e = rw (handle_end s n sofar e end, append-nil) refl
  hear_rest (part ∷ parts) end s n sofar e =
      rw
        (
          handle_part s n sofar e part,
          hear_rest parts end
              (record s { control_in = some (with_pbf h0 ∷ h1 ∷ n ∷ (sofar ++ part)) }) n
              (sofar ++ part) refl,
          append_assoc,
          append_assoc,
        )
        refl

  -- From the first segment, with nothing collected.
  hear_control :
      (parts : List (List ℕ)) (end : List ℕ) (s : Sar)
      → array_bytes s.control_in ≡ []
      → (kept : Option (List ℕ)) × (handle_all s (control_segments h0 h1 parts end)
          ≡ (record s { control_in = kept }, delivery (joined parts ++ end)))
        × (array_bytes kept ≡ [])
  unfolding handle_all
  hear_control [] end s e = (s.control_in, rw (handle_only s end e, append-nil) refl, e)
  hear_control (part ∷ parts) end s e =
      let s' = record s { control_in = some (segment_bytes (part_of h0 h1 part)) } in
      (
        some [],
        rw (handle_first s part e, hear_rest parts end s' (length part) part refl, append_assoc)
            refl,
        refl,
      )

  -- A response or a notification in any number of segments, whatever their sizes and however the
  -- HAL cuts them into reads, is delivered once, with its group and operation and the whole
  -- payload, by a receiver that has collected no control message and has no byte waiting; nothing
  -- but what is collected changes, and nothing is left of it.
  pub control_message_reassembled :
      (parts : List (List ℕ)) (end : List ℕ) (s : Sar) (chunks : List (List ℕ))
      → s.read_buf ≡ none
      → array_bytes s.control_in ≡ []
      → joined chunks ≡ stream (control_segments h0 h1 parts end) []
      → (kept : Option (List ℕ)) × (observe (read_all s chunks)
          ≡ ((record (with_buf s none) { control_in = kept }, []), delivery (joined parts ++ end)))
        × (array_bytes kept ≡ [])
  control_message_reassembled parts end s chunks buf e same =
      let (kept, heard, empty) = hear_control parts end (with_buf s none) e in
      (
        kept,
        read_all-joined s chunks (rw buf refl)
            ∙ ap (λ b. observe (client_read s b)) same
            ∙ client_read-stream s (control_segments h0 h1 parts end) [] buf
                (control_segments-IsWhole h0 h1 parts end) refl
            ∙ rw heard refl,
        empty,
      )
