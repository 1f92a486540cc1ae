-- ===== src/Sar/Write/Segments.antt =====
-- The segments that src/nci_sar.c makes of a packet.
use libncicore.Common.{
  ℕ, zero, suc, ◌%◌, ◌≤◌, ◌<◌, ◌≡◌, refl, List, [], ◌∷◌, if◌then◌else◌, ◌==◌, length, length-take,
  length-drop, take, drop, take_all, arith, All, Bool-cases, inl, inr,
}
use libncicore.Sar.Defs.{PacketOut}
use libncicore.Sar.Header.{with_pbf, without_pbf}
use libncicore.Sar.Read
use libncicore.Sar.Read.{Segment}
use libncicore.Sar.Read.Refine.{joined}
use libncicore.Sar.Read.Frames.{IsWhole, stream}
use libncicore.Sar.Write.{
  next_segment, last_segment, more_segment, payload_bytes, remaining_payload_len, segment_bytes,
}

-- The position in the payload is inside it.
abbrev pub IsPlaced : PacketOut → Type 0
IsPlaced out = out.payload_pos ≤ length (payload_bytes out)

-- What the HAL is given for one packet, if it takes all of it: the loop of `nci_sar_attempt_write`
-- and `nci_sar_write_completed` over the segments. Each takes a byte or is the last, so one more
-- than the count of bytes is enough fuel.
unfoldable pub segments : ℕ → ℕ → PacketOut → List (List ℕ)
segments zero max out = []
segments (suc fuel) max out =
    let (out', bytes) = next_segment max out in
    let rest = segments fuel max out' in
    if length (payload_bytes out') == out'.payload_pos then bytes ∷ [] else bytes ∷ rest

pub next_segment_last :
    (max : ℕ) (out : PacketOut)
    → remaining_payload_len out ≤ max
    → next_segment max out
      ≡ (last_segment out, segment_bytes (last_segment out) out (remaining_payload_len out))
unfolding next_segment
next_segment_last max out h = ground arith

pub next_segment_more :
    (max : ℕ) (out : PacketOut)
    → max < remaining_payload_len out
    → next_segment max out ≡ (more_segment max out, segment_bytes (more_segment max out) out max)
unfolding next_segment
next_segment_more max out h = ground arith

-- A segment never leaves the payload, and moves on in it by the bytes that it carries.
pub next_segment-IsPlaced :
    (max : ℕ) (out : PacketOut) → IsPlaced out → IsPlaced (next_segment max out).0
unfolding next_segment last_segment more_segment
next_segment-IsPlaced max out h = ground arith

-- The segment that `next_segment` writes, as its receiver takes it apart.
pub sent_one : ℕ → PacketOut → Segment
sent_one max out =
    let out' = (next_segment max out).0 in
    record {
      hdr0 = out'.hdr0;
      hdr1 = out'.hdr1;
      hdr2 = out'.hdr2;
      payload = take out'.hdr2 (drop out.payload_pos (payload_bytes out));
    }

pub sent : ℕ → ℕ → PacketOut → List Segment
sent zero max out = []
sent (suc fuel) max out =
    let out' = (next_segment max out).0 in
    let rest = sent fuel max out' in
    if length (payload_bytes out') == out'.payload_pos
    then sent_one max out ∷ []
    else sent_one max out ∷ rest

module _ (max : ℕ) (small : max < 256) where
  sent_one-bytes :
      (out : PacketOut) → (next_segment max out).1 ≡ Read.segment_bytes (sent_one max out)
  unfolding sent_one next_segment last_segment more_segment
  sent_one-bytes out = ground arith

  sent_one-IsWhole : (out : PacketOut) → IsPlaced out → IsWhole (sent_one max out)
  unfolding sent_one next_segment last_segment more_segment
  sent_one-IsWhole out h = ground (
    arith,
    length-take (remaining_payload_len out) (drop out.payload_pos (payload_bytes out)),
    length-take max (drop out.payload_pos (payload_bytes out)),
    length-drop out.payload_pos (payload_bytes out),
  )

  pub sent-IsWhole : (f : ℕ) (out : PacketOut) → IsPlaced out → All IsWhole (sent f max out)
  unfolding sent
  sent-IsWhole zero out h = tt
  sent-IsWhole (suc f) out h = ground (
    arith,
    sent_one-IsWhole out h,
    sent-IsWhole f (next_segment max out).0 (next_segment-IsPlaced max out h),
  )

  pub segments-stream :
      (f : ℕ) (out : PacketOut) → joined (segments f max out) ≡ stream (sent f max out) []
  unfolding segments sent
  segments-stream zero out = refl
  segments-stream (suc f) out =
      elim (Bool-cases
        (length (payload_bytes (next_segment max out).0) == (next_segment max out).0.payload_pos)) [
          | inl e ↦ rw (e, sent_one-bytes out) refl
          | inr e ↦ rw (e, sent_one-bytes out, segments-stream f (next_segment max out).0) refl
        ]

pub sent_more :
    (f max : ℕ) (out : PacketOut)
    → IsPlaced out
    → max < remaining_payload_len out
    → sent (suc f) max out ≡ sent_one max out ∷ sent f max (more_segment max out)
unfolding sent more_segment
sent_more f max out h m = rw (next_segment_more max out m, sent) (ground arith)

pub sent_last :
    (f max : ℕ) (out : PacketOut)
    → IsPlaced out
    → remaining_payload_len out ≤ max
    → sent (suc f) max out ≡ sent_one max out ∷ []
unfolding sent last_segment
sent_last f max out h m = rw (next_segment_last max out m, sent) (ground arith)

abbrev pub more_of : ℕ → PacketOut → Segment
more_of max out = record {
  hdr0 = with_pbf out.hdr0;
  hdr1 = out.hdr1;
  hdr2 = max;
  payload = take max (drop out.payload_pos (payload_bytes out));
}

abbrev pub last_of : PacketOut → Segment
last_of out = record {
  hdr0 = without_pbf out.hdr0;
  hdr1 = out.hdr1;
  hdr2 = remaining_payload_len out;
  payload = drop out.payload_pos (payload_bytes out);
}

pub sent_one_more :
    (max : ℕ) (out : PacketOut)
    → max < remaining_payload_len out
    → sent_one max out ≡ more_of max out
unfolding sent_one more_segment
sent_one_more max out m = rw (next_segment_more max out m) refl

pub sent_one_last :
    (max : ℕ) (out : PacketOut)
    → max < 256
    → remaining_payload_len out ≤ max
    → sent_one max out ≡ last_of out
unfolding sent_one last_segment
sent_one_last max out small m =
    let e : remaining_payload_len out % 256 ≡ remaining_payload_len out = omega arith in
    let all = drop out.payload_pos (payload_bytes out) in
    rw
      (
        next_segment_last max out m,
        e,
        take_all (remaining_payload_len out) all
            (omega (arith, length-drop out.payload_pos (payload_bytes out))),
      )
      refl
