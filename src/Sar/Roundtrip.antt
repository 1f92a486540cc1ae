-- ===== src/Sar/Roundtrip.antt =====
-- A data packet that one side of src/nci_sar.c cuts into segments, at the other side.
use libncicore.Common.{
  ℕ, suc, ◌<◌, ◌≡◌, refl, ap, ◌∙◌, Option, none, some, List, [], ◌∷◌, length, get_elem?, bit_and,
  arith, all_below, all_below_sound, ==_iff, ◌==◌, true,
}
use libncicore.Sar.Defs.{PacketOut, LogicalConnection, Sar, data_packet, nci_data_cid_mask}
use libncicore.Sar.Header.{mt_of_cid, cid_of_cid, cid_small}
use libncicore.Sar.Write.{payload_bytes, set_conn}
use libncicore.Sar.Write.Credits.{with_buf}
use libncicore.Sar.Write.Segments.{segments, sent, sent-IsWhole, segments-stream}
use libncicore.Sar.Send.{Request, new_packet}
use libncicore.Sar.Read.{array_bytes, client_read}
use libncicore.Sar.Read.Frames.{client_read-stream}
use libncicore.Sar.Read.Refine.{observe, read_all, read_all-joined, joined}
use libncicore.Sar.Hearing.{IsData, hear_first}

cid_table : all_below 16 (λ y. bit_and y nci_data_cid_mask == y) ≡ true
cid_table = refl

cid_fits : (cid : ℕ) → cid < 16 → bit_and cid nci_data_cid_mask ≡ cid
cid_fits cid h =
    (==_iff _ _).0 (all_below_sound 16 (λ y. bit_and y nci_data_cid_mask == y) cid cid_table h)

data_out_start :
    (id cid : ℕ) (q : Request)
    → (new_packet id (some cid) (bit_and cid nci_data_cid_mask) 0 q).payload_pos ≡ 0
unfolding new_packet
data_out_start id cid q = refl

-- What `nci_sar_send_data_packet` puts on the queue of connection `cid`.
abbrev pub data_out : ℕ → ℕ → Request → PacketOut
data_out id cid q = new_packet id (some cid) (bit_and cid nci_data_cid_mask) 0 q

pub data_out-IsData : (id cid : ℕ) (q : Request) → cid < 16 → IsData cid (data_out id cid q)
unfolding new_packet
data_out-IsData id cid q h =
    let same = cid_fits cid h in
    let b : cid < 256 = omega arith in
    record {
      byte = omega (arith, cid_small cid b);
      mt = mt_of_cid cid b;
      channel = cid_of_cid cid b ∙ same;
      no_credits = refl;
      placed = omega arith;
    }

-- Any data packet for a connection below 16, cut into segments of any size from 1 to 255 and read
-- in any chunks by a receiver that has collected nothing on that connection and has no byte
-- waiting, is delivered there once with the payload that was sent, and leaves nothing collected
-- and no byte pending.
pub data_packet_roundtrip :
    (id cid max : ℕ) (q : Request) (r : Sar) (c : LogicalConnection) (chunks : List (List ℕ))
    → cid < 16
    → 0 < max
    → max < 256
    → r.read_buf ≡ none
    → get_elem? r.conn cid ≡ some c
    → array_bytes c.input ≡ []
    → joined chunks
      ≡ joined (segments (suc (length (payload_bytes (data_out id cid q)))) max (data_out id cid q))
    → (kept : Option (List ℕ)) × (observe (read_all r chunks) ≡ (
      (set_conn (with_buf r none) cid (record c { input = kept }), []),
      data_packet cid (payload_bytes (data_out id cid q)) ∷ [],
    ))
      × (array_bytes kept ≡ [])
data_packet_roundtrip id cid max q r c chunks hc hp hs buf at got same =
    let out = data_out id cid q in
    let f = suc (length (payload_bytes out)) in
    let d = data_out-IsData id cid q hc in
    let (kept, heard, empty) =
      hear_first cid max hs hp f out (with_buf r none) c d (data_out_start id cid q) (omega arith)
        at got in
    (
      kept,
      read_all-joined r chunks (rw buf refl)
          ∙ ap (λ b. observe (client_read r b)) (same ∙ segments-stream max hs f out)
          ∙ client_read-stream r (sent f max out) [] buf (sent-IsWhole max hs f out d.placed) refl
          ∙ rw heard refl,
      empty,
    )
