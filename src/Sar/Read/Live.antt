-- ===== src/Sar/Read/Live.antt =====
-- Reading in src/nci_sar.c, and scheduled writes.
use libncicore.Common.{
  ℕ, zero, suc, refl, List, [], ◌∷◌, ◌++◌, get_elem?, bit_and, length, arith, Option-cases, inl,
  inr,
}
use libncicore.Sar.Defs.{Sar, nci_data_cid_mask, nci_data_cr_mask}
use libncicore.Sar.Write.{can_send, can_write, take_credits}
use libncicore.Sar.Write.Live.{IsLive}
use libncicore.Sar.Write.Live.Conns.{take_credits-IsLive, set_conn_same-IsLive}
use libncicore.Sar.Read.{
  Segment, array_bytes, next_packet, handle_segment, handle_control_segment, handle_data_segment,
  collect_on, collect_data, handle_packets, buffer_rest, read_direct, client_read,
}

collect_on-IsLive :
    (s : Sar) (cid : ℕ) (p : Segment)
    → IsLive s
    → IsLive (collect_on s cid p (get_elem? s.conn cid)).0
unfolding collect_on
collect_on-IsLive s cid p v = elim (Option-cases (get_elem? s.conn cid)) [
  | inl e ↦ rw (e, collect_on) v
  | inr (c, e) ↦
      rw (e, collect_on)
        (set_conn_same-IsLive s cid (record c { input = (collect_data cid c.input p).0 }) e
          (unfold can_send in refl) v)
]

handle_data_segment-IsLive : (s : Sar) (p : Segment) → IsLive s → IsLive (handle_data_segment s p).0
unfolding handle_data_segment
handle_data_segment-IsLive s p v =
    let cid = bit_and p.hdr0 nci_data_cid_mask in
    let credits = bit_and p.hdr1 nci_data_cr_mask in
    elim (Option-cases (get_elem? s.conn cid)) [
      | inl e ↦ rw (e, handle_data_segment) v
      | inr (c, e) ↦
          rw (e, handle_data_segment)
            (collect_on-IsLive (take_credits s cid credits) cid p
              (take_credits-IsLive s cid credits v))
    ]

handle_control_segment-IsLive :
    (s : Sar) (p : Segment) → IsLive s → IsLive (handle_control_segment s p).0
unfolding handle_control_segment can_write
handle_control_segment-IsLive s p v = ground arith

handle_segment-IsLive : (s : Sar) (p : Segment) → IsLive s → IsLive (handle_segment s p).0
unfolding handle_segment
handle_segment-IsLive s p v =
    ground (arith, handle_data_segment-IsLive s p v, handle_control_segment-IsLive s p v)

handle_packets-IsLive :
    (f : ℕ) (s : Sar) (bytes : List ℕ) → IsLive s → IsLive (handle_packets f s bytes).0
unfolding handle_packets
handle_packets-IsLive zero s bytes v = v
handle_packets-IsLive (suc f) s bytes v = elim (Option-cases (next_packet bytes)) [
  | inl e ↦ rw (e, handle_packets) v
  | inr ((p, rest), e) ↦
      rw (e, handle_packets)
        (handle_packets-IsLive f (handle_segment s p).0 rest (handle_segment-IsLive s p v))
]

buffer_rest-IsLive : (s : Sar) (bytes : List ℕ) → IsLive s → IsLive (buffer_rest s bytes).0
unfolding buffer_rest can_write
buffer_rest-IsLive s [] v = v
buffer_rest-IsLive s (x ∷ xs) v =
    let all = array_bytes s.read_buf ++ (x ∷ xs) in
    let w = handle_packets-IsLive (length all) s all v in
    record { held = w.held; up = w.up; awake = w.awake }

pub client_read-IsLive : (s : Sar) (bytes : List ℕ) → IsLive s → IsLive (client_read s bytes).0
unfolding client_read read_direct
client_read-IsLive s bytes v = ground (
  arith,
  buffer_rest-IsLive s bytes v,
  buffer_rest-IsLive _ (handle_packets (length bytes) s bytes).1
      (handle_packets-IsLive (length bytes) s bytes v),
)
