-- ===== src/Sar/Read.antt =====
-- The read side of src/nci_sar.c: the byte stream of the HAL is cut into packets, and segmented
-- packets are put together again.
pub mod Buffer
pub mod Stream
pub mod Refine
pub mod Frames
pub mod Data
pub mod Live
use libncicore.Common.{
  ℕ, zero, suc, Bool, not, ◌&&◌, Option, none, some, List, [], ◌∷◌, ◌++◌, if◌then◌else◌, ◌==◌, leb,
  length, get_elem?, get_or, take, drop, bit_and,
}
use libncicore.Sar.Defs.{
  LogicalConnection, Sar, Event, client_error, response, notification, data_packet, nci_mt_mask,
  nci_mt_data_pkt, nci_mt_rsp_pkt, nci_mt_ntf_pkt, nci_pbf, nci_control_gid_mask,
  nci_control_oid_mask, nci_data_cid_mask, nci_data_cr_mask,
}
use libncicore.Sar.Queue.{is_nil}
use libncicore.Sar.Write.{set_conn, take_credits}

-- `packet[0]`, `packet[1]`, `packet[2]` and the payload of that many bytes
pub record Segment : Type 0 where
  pub hdr0 : ℕ
  pub hdr1 : ℕ
  pub hdr2 : ℕ
  pub payload : List ℕ

abbrev pub segment_mt : Segment → ℕ
segment_mt p = bit_and p.hdr0 nci_mt_mask

abbrev pub segment_pbf : Segment → Bool
segment_pbf p = not (bit_and p.hdr0 nci_pbf == 0)

abbrev pub segment_bytes : Segment → List ℕ
segment_bytes p = p.hdr0 ∷ p.hdr1 ∷ p.hdr2 ∷ p.payload

-- A `GByteArray` that may be NULL. Both NULL and the empty array mean that nothing is collected.
abbrev pub array_bytes : Option (List ℕ) → List ℕ
array_bytes none = []
array_bytes (some bytes) = bytes

unfoldable pub handle_control_packet : ℕ → ℕ → ℕ → List ℕ → List Event
handle_control_packet mt gid oid payload =
    if mt == nci_mt_rsp_pkt
    then response gid oid payload ∷ []
    else notification gid oid payload ∷ []

-- the header of the segment against that of the first one
unfoldable pub same_message : List ℕ → Segment → Bool
same_message input p =
    segment_mt p == bit_and (get_or input 0 0) nci_mt_mask
    && (bit_and p.hdr0 nci_control_gid_mask == bit_and (get_or input 0 0) nci_control_gid_mask
        && (bit_and p.hdr1 nci_control_oid_mask == bit_and (get_or input 1 0) nci_control_oid_mask))

-- After the last segment the array is there again, and empty.
unfoldable pub handle_control_segment : Sar → Segment → Sar × List Event
handle_control_segment s p =
    let input = array_bytes s.control_in in
    let gid = bit_and p.hdr0 nci_control_gid_mask in
    let oid = bit_and p.hdr1 nci_control_oid_mask in
    if not (is_nil input)
    then (if same_message input p
        then (if segment_pbf p then (record s { control_in = some (input ++ p.payload) }, []) else (
          record s { control_in = some [] },
          handle_control_packet (segment_mt p) gid oid (drop 3 (input ++ p.payload)),
        ))
        else (s, client_error ∷ []))
    else if segment_pbf p
    then (record s { control_in = some (segment_bytes p) }, [])
    else (s, handle_control_packet (segment_mt p) gid oid p.payload)

-- what is collected on a connection after a segment, and what is delivered
pub collect_data : ℕ → Option (List ℕ) → Segment → Option (List ℕ) × List Event
collect_data cid input p =
    if not (is_nil (array_bytes input))
    then (if segment_pbf p
        then (some (array_bytes input ++ p.payload), [])
        else (some [], data_packet cid (drop 3 (array_bytes input ++ p.payload)) ∷ []))
    else if segment_pbf p
    then (some (segment_bytes p), [])
    else (input, data_packet cid p.payload ∷ [])

-- `conn->in`, on the connection that the credits have gone to
pub collect_on : Sar → ℕ → Segment → Option LogicalConnection → Sar × List Event
collect_on s cid p none = (s, [])
collect_on s cid p (some c) = (
  set_conn s cid (record c { input = (collect_data cid c.input p).0 }),
  (collect_data cid c.input p).1,
)

-- Each segment brings its credits; `cid < max_logical_conns` is `some` here.
pub handle_data_segment : Sar → Segment → Sar × List Event
unfolding collect_on
handle_data_segment s p =
    let cid = bit_and p.hdr0 nci_data_cid_mask in
    elim (get_elem? s.conn cid) [
      | none ↦ (s, client_error ∷ [])
      | some _ ↦
          let s' = take_credits s cid (bit_and p.hdr1 nci_data_cr_mask) in
          collect_on s' cid p (get_elem? s'.conn cid)
    ]

unfoldable pub handle_segment : Sar → Segment → Sar × List Event
handle_segment s p =
    if segment_mt p == nci_mt_data_pkt
    then handle_data_segment s p
    else if segment_mt p == nci_mt_rsp_pkt
    then handle_control_segment s p
    else if segment_mt p == nci_mt_ntf_pkt
    then handle_control_segment s p
    else (s, client_error ∷ [])

-- `len > 2 && len >= bytes[2] + 3`: the first packet and the bytes after it
abbrev pub next_packet : List ℕ → Option (Segment × List ℕ)
next_packet [] = none
next_packet (h0 ∷ []) = none
next_packet (h0 ∷ h1 ∷ []) = none
next_packet (h0 ∷ h1 ∷ h2 ∷ r) =
    if leb h2 (length r)
    then some (record { hdr0 = h0; hdr1 = h1; hdr2 = h2; payload = take h2 r }, drop h2 r)
    else none

-- Both loops of `nci_sar_hal_client_read`. The first argument is fuel: a round takes three bytes or
-- more, so the count of bytes is enough.
pub handle_packets : ℕ → Sar → List ℕ → Sar × List ℕ × List Event
handle_packets zero s bytes = (s, bytes, [])
handle_packets (suc fuel) s bytes = elim (next_packet bytes) [
  | none ↦ (s, bytes, [])
  | some (p, rest) ↦
      let (s', evs) = handle_segment s p in
      let (s'', left, evs') = handle_packets fuel s' rest in (s'', left, evs ++ evs')
]

-- what is left over goes to the end of `read_buf`, and whole packets are taken from its front
pub buffer_rest : Sar → List ℕ → Sar × List Event
buffer_rest s [] = (s, [])
buffer_rest s (x ∷ xs) =
    let bytes = array_bytes s.read_buf ++ (x ∷ xs) in
    let (s', left, evs) = handle_packets (length bytes) s bytes in
    (record s' { read_buf = some left }, evs)

-- with nothing in `read_buf`, packets are taken where they stand
pub read_direct : Sar → List ℕ → Sar × List Event
read_direct s bytes =
    let (s', left, evs) = handle_packets (length bytes) s bytes in
    let (s'', evs') = buffer_rest s' left in (s'', evs ++ evs')

pub client_read : Sar → List ℕ → Sar × List Event
unfolding buffer_rest read_direct
client_read s bytes =
    if is_nil (array_bytes s.read_buf) then read_direct s bytes else buffer_rest s bytes

-- `nci_sar_hal_client_error`
pub client_error_forward : Sar → Sar × List Event
client_error_forward s = (s, client_error ∷ [])
