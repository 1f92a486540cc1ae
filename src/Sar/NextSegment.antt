-- ===== src/Sar/NextSegment.antt =====
-- What `nci_sar_attempt_write` of src/nci_sar.c keeps of a packet when it takes a segment of it.
use libncicore.Common.{
  ℕ, suc, ◌≤◌, ◌<◌, ◌≡◌, ◌∙◌, Bool, some, List, [], ◌∷◌, length, arith, ◌==◌, if◌then◌else◌, dec_lt,
}
use libncicore.Sar.Defs.{PacketOut}
use libncicore.Sar.Queue.{packet_out_free, packet_out_complete}
use libncicore.Sar.Write.{
  payload_bytes, remaining_payload_len, next_segment, more_segment, last_segment, finish_packet,
}
use libncicore.Sar.Header.{without_pbf_byte, mt-without_pbf, cid-without_pbf}
use libncicore.Sar.Write.Segments.{segments, next_segment_last, next_segment_more}
use libncicore.Sar.Hearing.{IsData, more-IsData}

pub next_segment-conn :
    (max : ℕ) (out : PacketOut)
    → next_segment max (record out { conn = some 0 })
      ≡ (record (next_segment max out).0 { conn = some 0 }, (next_segment max out).1)
unfolding next_segment last_segment more_segment
next_segment-conn max out = ground arith

-- A segment keeps the header of a data packet, but for its flag, and the callbacks.
pub next_segment-IsData :
    (cid max : ℕ) (out : PacketOut)
    → max < 256
    → 0 < max
    → IsData cid out
    → IsData cid (next_segment max out).0
unfolding next_segment last_segment
next_segment-IsData cid max out small positive d = elim (dec_lt max (remaining_payload_len out)) [
  | yes m ↦ rw (next_segment_more max out m) (more-IsData cid max small positive out d m)
  | no n ↦ rw (next_segment_last max out (omega arith)) (record {
    byte = without_pbf_byte out.hdr0 d.byte;
    mt = mt-without_pbf out.hdr0 d.byte ∙ d.mt;
    channel = cid-without_pbf out.hdr0 d.byte ∙ d.channel;
    no_credits = d.no_credits;
    placed = omega (arith, d.placed);
  })
]

pub next_segment-remaining :
    (max : ℕ) (out : PacketOut)
    → remaining_payload_len (next_segment max out).0 ≤ length (payload_bytes out)
unfolding next_segment last_segment more_segment
next_segment-remaining max out = ground arith

pub next_segment_shrinks :
    (max : ℕ) (out : PacketOut)
    → 0 < max
    → 0 < remaining_payload_len out
    → remaining_payload_len (next_segment max out).0 < remaining_payload_len out
unfolding next_segment last_segment more_segment
next_segment_shrinks max out positive h = ground arith

pub finish_packet-next_segment :
    (max : ℕ) (out : PacketOut) (ok : Bool)
    → finish_packet (next_segment max out).0 ok ≡ finish_packet out ok
unfolding next_segment last_segment more_segment finish_packet packet_out_free packet_out_complete
finish_packet-next_segment max out ok = ground arith

-- the segments after the one that is being written
abbrev pub later_segments : ℕ → ℕ → PacketOut → List (List ℕ)
later_segments fuel max out =
    if length (payload_bytes out) == out.payload_pos then [] else segments fuel max out

pub segments-later :
    (fuel max : ℕ) (out : PacketOut)
    → segments (suc fuel) max out
      ≡ (next_segment max out).1 ∷ later_segments fuel max (next_segment max out).0
unfolding segments
segments-later fuel max out = ground arith
