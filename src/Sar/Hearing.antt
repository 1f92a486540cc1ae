-- ===== src/Sar/Hearing.antt =====
-- How a receiver of src/nci_sar.c hears the segments of a data packet.
use libncicore.Common.{
  ℕ, zero, suc, ◌+◌, ◌<◌, ◌≡◌, refl, ap, ◌∙◌, Option, some, List, [], ◌∷◌, ◌++◌, take, drop,
  take-add, take-append-drop, get_elem?, set-set, get_elem?-set, bit_and, arith, dec_lt,
}
use libncicore.Sar.Defs.{
  PacketOut, LogicalConnection, Sar, data_packet, nci_mt_mask, nci_data_cid_mask,
}
use libncicore.Sar.Header.{
  with_pbf, mt-with_pbf, mt-without_pbf, cid-with_pbf, cid-without_pbf, pbf-with_pbf,
  pbf-without_pbf, with_pbf_byte,
}
use libncicore.Sar.Write.{payload_bytes, remaining_payload_len, more_segment, set_conn}
use libncicore.Sar.Write.Segments.{
  IsPlaced, sent, sent_more, sent_last, sent_one_more, sent_one_last, more_of, last_of,
}
use libncicore.Sar.Read.{segment_bytes, array_bytes, handle_segment, collect_data}
use libncicore.Sar.Read.Data.{
  handle_segment_data, collect_data_only, collect_data_first, collect_data_more, collect_data_last,
}
use libncicore.Sar.Read.Frames.{handle_all}

-- the header of a data packet on a connection
pub record IsData (cid : ℕ) (out : PacketOut) : Type 0 where
  pub byte : out.hdr0 < 256
  pub mt : bit_and out.hdr0 nci_mt_mask ≡ 0
  pub channel : bit_and out.hdr0 nci_data_cid_mask ≡ cid
  pub no_credits : out.hdr1 ≡ 0
  pub placed : IsPlaced out

from_start :
    (max : ℕ) (out : PacketOut)
    → out.payload_pos ≡ 0
    → take max (drop out.payload_pos (payload_bytes out))
      ≡ take (out.payload_pos + max) (payload_bytes out)
from_start max out e = go out.payload_pos e
  where
    go :
        (pos : ℕ)
        → pos ≡ 0
        → take max (drop pos (payload_bytes out)) ≡ take (pos + max) (payload_bytes out)
    go pos e = rw e (take-add 0 max (payload_bytes out))

all_from_start :
    (out : PacketOut)
    → out.payload_pos ≡ 0
    → drop out.payload_pos (payload_bytes out) ≡ payload_bytes out
all_from_start out e = ap (λ n. drop n (payload_bytes out)) e

module _ (cid max : ℕ) (small : max < 256) (positive : 0 < max) where
  pub more-IsData :
      (out : PacketOut)
      → IsData cid out
      → max < remaining_payload_len out
      → IsData cid (more_segment max out)
  unfolding more_segment
  more-IsData out d m = record {
    byte = with_pbf_byte out.hdr0 d.byte;
    mt = mt-with_pbf out.hdr0 d.byte ∙ d.mt;
    channel = cid-with_pbf out.hdr0 d.byte ∙ d.channel;
    no_credits = d.no_credits;
    placed = omega arith;
  }

  -- One segment, with the data that its connection has collected.
  module _ (out : PacketOut) (d : IsData cid out) (r : Sar) (c : LogicalConnection)
      (at : get_elem? r.conn cid ≡ some c) where
    handle_more : handle_segment r (more_of max out) ≡ (
      set_conn r cid (record c { input = (collect_data cid c.input (more_of max out)).0 }),
      (collect_data cid c.input (more_of max out)).1,
    )
    handle_more =
        handle_segment_data r (more_of max out) cid c (mt-with_pbf out.hdr0 d.byte ∙ d.mt)
          (cid-with_pbf out.hdr0 d.byte ∙ d.channel) (rw d.no_credits refl) at

    handle_last : handle_segment r (last_of out) ≡ (
      set_conn r cid (record c { input = (collect_data cid c.input (last_of out)).0 }),
      (collect_data cid c.input (last_of out)).1,
    )
    handle_last =
        handle_segment_data r (last_of out) cid c (mt-without_pbf out.hdr0 d.byte ∙ d.mt)
          (cid-without_pbf out.hdr0 d.byte ∙ d.channel) (rw d.no_credits refl) at

  -- The segments that follow the first: what is collected is the header and the payload so far.
  hear_rest :
      (f : ℕ) (out : PacketOut) (r : Sar) (c : LogicalConnection) (h0 h1 h2 : ℕ)
      → IsData cid out
      → remaining_payload_len out < f
      → get_elem? r.conn cid ≡ some c
      → array_bytes c.input ≡ h0 ∷ h1 ∷ h2 ∷ take out.payload_pos (payload_bytes out)
      → handle_all r (sent f max out)
        ≡ (set_conn r cid (record c { input = some [] }), data_packet cid (payload_bytes out) ∷ [])
  unfolding handle_all more_segment
  hear_rest zero out r c h0 h1 h2 d enough at got = absurd (omega arith)
  hear_rest (suc f) out r c h0 h1 h2 d enough at got =
      elim (dec_lt max (remaining_payload_len out)) [
        | yes m ↦
            let pos = out.payload_pos in
            let all = payload_bytes out in
            let c' = record c {
              input = some ((h0 ∷ h1 ∷ h2 ∷ take pos all) ++ take max (drop pos all));
            } in
            let flag = pbf-with_pbf out.hdr0 d.byte in
            let joined_up = ap (λ t. h0 ∷ h1 ∷ h2 ∷ t) (take-add pos max all) in
            rw (sent_more f max out d.placed m, sent_one_more max out m, handle_all)
              (rw
                (
                  handle_more out d r c at,
                  collect_data_more cid c.input (more_of max out) got flag,
                  hear_rest f (more_segment max out) (set_conn r cid c') c' h0 h1 h2
                      (more-IsData out d m) (omega arith) (get_elem?-set r.conn cid c' at)
                      joined_up,
                  set-set,
                )
                refl)
        | no n ↦
            let flag = pbf-without_pbf out.hdr0 d.byte in
            rw
              (
                sent_last f max out d.placed (omega arith),
                sent_one_last max out small (omega arith),
                handle_all,
              )
              (rw
                (
                  handle_last out d r c at,
                  collect_data_last cid c.input (last_of out) got flag,
                  take-append-drop,
                )
                refl)
      ]

  -- From the first segment, with nothing collected: the payload is delivered once, whole, and
  -- nothing is left of it.
  pub hear_first :
      (f : ℕ) (out : PacketOut) (r : Sar) (c : LogicalConnection)
      → IsData cid out
      → out.payload_pos ≡ 0
      → remaining_payload_len out < f
      → get_elem? r.conn cid ≡ some c
      → array_bytes c.input ≡ []
      → (kept : Option (List ℕ)) × (handle_all r (sent f max out)
          ≡ (set_conn r cid (record c { input = kept }), data_packet cid (payload_bytes out) ∷ []))
        × (array_bytes kept ≡ [])
  unfolding handle_all more_segment
  hear_first zero out r c d start enough at got = absurd (omega arith)
  hear_first (suc f) out r c d start enough at got = elim (dec_lt max (remaining_payload_len out)) [
    | yes m ↦
        let c' = record c { input = some (segment_bytes (more_of max out)) } in
        let flag = pbf-with_pbf out.hdr0 d.byte in
        let part = ap (λ t. with_pbf out.hdr0 ∷ out.hdr1 ∷ max ∷ t) (from_start max out start) in
        (
          some [],
          rw (sent_more f max out d.placed m, sent_one_more max out m, handle_all)
              (rw
                (
                  handle_more out d r c at,
                  collect_data_first cid c.input (more_of max out) got flag,
                  hear_rest f (more_segment max out) (set_conn r cid c') c' (with_pbf out.hdr0)
                      out.hdr1 max (more-IsData out d m) (omega arith)
                      (get_elem?-set r.conn cid c' at) part,
                  set-set,
                )
                refl),
          refl,
        )
    | no n ↦
        let flag = pbf-without_pbf out.hdr0 d.byte in
        (
          c.input,
          rw
              (
                sent_last f max out d.placed (omega arith),
                sent_one_last max out small (omega arith),
                handle_all,
              )
              (rw
                (
                  handle_last out d r c at,
                  collect_data_only cid c.input (last_of out) got flag,
                  all_from_start out start,
                )
                refl),
          got,
        )
  ]
