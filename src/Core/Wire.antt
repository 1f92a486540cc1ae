-- ===== src/Core/Wire.antt =====
-- A response that src/nci_core.c reads from its HAL in one packet.
use libncicore.Common.{
  ℕ, suc, ◌≡◌, refl, ap, ◌∙◌, true, Option, none, some, List, [], ◌∷◌, ◌==◌, leb, length, drop,
  arith, take_all, bit_and,
}
use libncicore.Util.Types.{DiscoveryNtf}
use libncicore.Sar.Defs.{Sar, response, notification, nci_control_oid_mask}
use libncicore.Sar.Read.{
  Segment, array_bytes, next_packet, handle_segment, handle_control_segment, handle_control_packet,
}
use libncicore.Sm.Types.{success}
use libncicore.Sm.Machine.{Handler}
use libncicore.Sm.HostSelect.{Compare}
use libncicore.Sm.Respond.{respond}
use libncicore.Sm.Notify.{handle_ntf}
use libncicore.Core.Object.{NciCore}
use libncicore.Core.Command.{run}
use libncicore.Core.Client.{
  response_taken, response_to, handle_response, handle_notification, deliver, deliver_all, sar_does,
  read_packets, read_buffered, read_rest, hal_read,
}
use libncicore.Core.Awaited.{awaited, await_by}

-- a response and a notification of the core group, each in one packet
abbrev pub core_response : ℕ → List ℕ → List ℕ
core_response oid payload = 0x40 ∷ oid ∷ length payload ∷ payload

abbrev pub core_notification : ℕ → List ℕ → List ℕ
core_notification oid payload = 0x60 ∷ oid ∷ length payload ∷ payload

abbrev segment : ℕ → ℕ → List ℕ → Segment
segment hdr0 oid payload = record {
  hdr0 = hdr0;
  hdr1 = oid;
  hdr2 = length payload;
  payload = payload;
}

-- Nothing has been read that was not dealt with.
pub record IsRead (s : Sar) : Type 0 where
  pub read_buf : array_bytes s.read_buf ≡ []
  pub control_in : array_bytes s.control_in ≡ []

drop-length : (l : List ℕ) → drop (length l) l ≡ []
drop-length [] = refl
drop-length (x ∷ xs) = drop-length xs

whole_packet :
    (hdr0 oid : ℕ) (p : List ℕ)
    → next_packet (hdr0 ∷ oid ∷ length p ∷ p) ≡ some (segment hdr0 oid p, [])
whole_packet hdr0 oid p =
    let e : leb (length p) (length p) ≡ true = ground arith in
    rw (e, take_all (length p) p (omega arith), drop-length p) refl

response_segment :
    (s : Sar) (oid : ℕ) (p : List ℕ)
    → array_bytes s.control_in ≡ []
    → bit_and oid nci_control_oid_mask ≡ oid
    → handle_segment s (segment 0x40 oid p) ≡ (s, response 0 oid p ∷ [])
unfolding handle_segment handle_control_segment handle_control_packet
response_segment s oid p h m = rw (h, m) refl

notification_segment :
    (s : Sar) (oid : ℕ) (p : List ℕ)
    → array_bytes s.control_in ≡ []
    → bit_and oid nci_control_oid_mask ≡ oid
    → handle_segment s (segment 0x60 oid p) ≡ (s, notification 0 oid p ∷ [])
unfolding handle_segment handle_control_segment handle_control_packet
notification_segment s oid p h m = rw (h, m) refl

awaited_fields :
    (o : Option Handler) (g k gid oid : ℕ) (rsp : Handler)
    → await_by o g k ≡ some (gid, oid, rsp)
    → (o ≡ some rsp) × (g ≡ gid) × (k ≡ oid)
awaited_fields none g k gid oid rsp h = cc
awaited_fields (some r) g k gid oid rsp h = (cc, cc, cc)

module _ (insert_sorted : Compare → List DiscoveryNtf → DiscoveryNtf → List DiscoveryNtf) where
  one_packet :
      (k : ℕ) (c : NciCore) (bytes : List ℕ) (p : Segment)
      → next_packet bytes ≡ some (p, [])
      → read_packets insert_sorted (suc (suc k)) c bytes
        ≡ (sar_does insert_sorted (handle_segment c.sar p) c, [])
  unfolding read_packets
  one_packet k c bytes p e = rw (e, read_packets) refl

  read_alone :
      (c : NciCore) (hdr0 oid : ℕ) (p : List ℕ)
      → array_bytes c.sar.read_buf ≡ []
      → hal_read insert_sorted c (hdr0 ∷ oid ∷ length p ∷ p)
        ≡ sar_does insert_sorted (handle_segment c.sar (segment hdr0 oid p)) c
  unfolding hal_read read_rest read_buffered
  read_alone c hdr0 oid p h =
      let whole =
        one_packet (suc (length p)) c (hdr0 ∷ oid ∷ length p ∷ p) (segment hdr0 oid p)
          (whole_packet hdr0 oid p) in
      rw h (ap read whole)
    where
      read : NciCore × List ℕ → NciCore
      read r = read_rest insert_sorted r

  -- The response that is awaited reaches its response function.
  pub response_read :
      (c : NciCore) (oid : ℕ) (rsp : Handler) (p : List ℕ)
      → IsRead c.sar
      → awaited c ≡ some (0, oid, rsp)
      → bit_and oid nci_control_oid_mask ≡ oid
      → hal_read insert_sorted c (core_response oid p)
        ≡ run insert_sorted (respond rsp success p) (response_taken c)
  unfolding sar_does deliver_all deliver handle_response response_to
  response_read c oid rsp p v w m =
      let (h, g, k) = awaited_fields c.rsp_handler c.rsp_gid c.rsp_oid 0 oid rsp w in
      let same : (oid == oid) ≡ true = ground arith in
      read_alone c 0x40 oid p v.read_buf
      ∙ rw (response_segment c.sar oid p v.control_in m, h, g, k, same) refl

  -- A notification reaches the state machine.
  pub notification_read :
      (c : NciCore) (oid : ℕ) (p : List ℕ)
      → IsRead c.sar
      → bit_and oid nci_control_oid_mask ≡ oid
      → hal_read insert_sorted c (core_notification oid p)
        ≡ run insert_sorted (handle_ntf 0 oid p) c
  unfolding sar_does deliver_all deliver handle_notification
  notification_read c oid p v m =
      read_alone c 0x60 oid p v.read_buf ∙ rw (notification_segment c.sar oid p v.control_in m) refl
