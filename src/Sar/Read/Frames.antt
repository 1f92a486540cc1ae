-- ===== src/Sar/Read/Frames.antt =====
-- What src/nci_sar.c makes of a byte stream that is a sequence of packets.
use libncicore.Common.{
  ℕ, zero, suc, ◌≤◌, ◌≡◌, refl, ◌∙◌, none, some, List, [], ◌∷◌, ◌++◌, length, length-append,
  take-length-append, drop-length-append, arith, All,
}
use libncicore.Sar.Defs.{Sar, Event}
use libncicore.Sar.Write.Credits.{with_buf}
use libncicore.Sar.Read.{
  Segment, segment_bytes, next_packet, handle_segment, handle_packets, client_read,
}
use libncicore.Sar.Read.Stream.{step, stop}
use libncicore.Sar.Read.Refine.{observe, feed, client_read_refines}

-- the third header byte is the length of the payload
abbrev pub IsWhole : Segment → Type 0
IsWhole p = p.hdr2 ≡ length p.payload

abbrev pub stream : List Segment → List ℕ → List ℕ
stream [] left = left
stream (p ∷ ps) left = segment_bytes p ++ stream ps left

-- the packets in turn
unfoldable pub handle_all : Sar → List Segment → Sar × List Event
handle_all s [] = (s, [])
handle_all s (p ∷ ps) =
    let (s', evs) = handle_segment s p in let (s'', evs') = handle_all s' ps in (s'', evs ++ evs')

next_packet-segment :
    (p : Segment) (rest : List ℕ)
    → IsWhole p
    → next_packet (segment_bytes p ++ rest) ≡ some (p, rest)
next_packet-segment p rest w = rw w (
    ground (
      arith,
      take-length-append p.payload rest,
      drop-length-append p.payload rest,
      length-append p.payload rest,
    ))

handle_packets-stream :
    (ps : List Segment) (left : List ℕ) (s : Sar)
    → All IsWhole ps
    → next_packet left ≡ none
    → (f : ℕ) → length (stream ps left) ≤ f
    → handle_packets f s (stream ps left) ≡ ((handle_all s ps).0, left, (handle_all s ps).1)
unfolding handle_all
handle_packets-stream [] left s w cut f h = stop f s left cut
handle_packets-stream (p ∷ ps) left s w cut zero h = absurd (omega arith)
handle_packets-stream (p ∷ ps) left s w cut (suc f) h =
    step f s (segment_bytes p ++ stream ps left) (next_packet-segment p (stream ps left) w.0)
    ∙ rw
        (handle_packets-stream ps left (handle_segment s p).0 w.1 cut f
          (omega (arith, length-append p.payload (stream ps left))))
        refl

-- With no read buffer, a read of a sequence of whole packets and of the beginning of one more
-- handles exactly those packets, each once and in order, and keeps the rest.
pub client_read-stream :
    (s : Sar) (ps : List Segment) (left : List ℕ)
    → s.read_buf ≡ none
    → All IsWhole ps
    → next_packet left ≡ none
    → let (s', evs) = handle_all (with_buf s none) ps in
      observe (client_read s (stream ps left)) ≡ ((s', left), evs)
unfolding feed
client_read-stream s ps left empty w cut =
    client_read_refines s (stream ps left) (rw empty refl)
    ∙ rw
        (
          empty,
          handle_packets-stream ps left (with_buf s none) w cut (length (stream ps left))
              (omega arith),
        )
        refl
