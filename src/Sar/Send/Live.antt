-- ===== src/Sar/Send/Live.antt =====
-- Sending and cancelling in src/nci_sar.c, and scheduled writes.
use libncicore.Common.{
  ℕ, ◌≡◌, refl, true, false, Option, none, some, List, [], ◌∷◌, get_elem?, arith, Option-cases,
  Bool-cases, inl, inr, ◌==◌,
}
use libncicore.Sar.Defs.{PacketOut, PacketOutQueue, LogicalConnection, Sar, Event}
use libncicore.Sar.Queue.{is_nil, cancel_queue}
use libncicore.Sar.Queue.Cancel.{cancel_queue_nonempty}
use libncicore.Sar.Write.{is_some, can_send, can_write, any_ready}
use libncicore.Sar.Write.Live.{IsLive, schedule_write-IsLive}
use libncicore.Sar.Send.{
  Request, send_command, send_data_packet, cancel_conns, cancel_queued, cancel_packet, cancel,
}

pub send_command-IsLive :
    (s : Sar) (gid oid : ℕ) (q : Request) → IsLive s → IsLive (send_command s gid oid q).0
unfolding send_command
send_command-IsLive s gid oid q v = schedule_write-IsLive _ v.held v.up

pub send_data_packet-IsLive :
    (s : Sar) (cid : ℕ) (q : Request) → IsLive s → IsLive (send_data_packet s cid q).0
unfolding send_data_packet
send_data_packet-IsLive s cid q v = elim (Option-cases (get_elem? s.conn cid)) [
  | inl e ↦ rw (e, send_data_packet) v
  | inr (c, e) ↦ rw (e, send_data_packet) (schedule_write-IsLive _ v.held v.up)
]

-- A connection whose queue loses a packet was no less ready before.
abbrev KeepsReady : List LogicalConnection → Option (List LogicalConnection × List Event) → Type 0
KeepsReady cs none = Unit
KeepsReady cs (some (cs', evs)) = any_ready cs' ≡ true → any_ready cs ≡ true

can_send-cancel :
    (c : LogicalConnection) (q : PacketOutQueue)
    → is_nil c.out.items ≡ false
    → can_send (record c { out = q }) ≡ true
    → can_send c ≡ true
unfolding can_send
can_send-cancel c q h r = ground arith

KeepsReady-later :
    (c : LogicalConnection) (cs : List LogicalConnection)
    (o : Option (List LogicalConnection × List Event))
    → KeepsReady cs o
    → KeepsReady (c ∷ cs) (elim o [ none ↦ none | some (cs', evs) ↦ some (c ∷ cs', evs) ])
unfolding any_ready
KeepsReady-later c cs none k = tt
KeepsReady-later c cs (some (cs', evs)) k = λ r. ground (arith, k)

cancel_conns-KeepsReady :
    (cs : List LogicalConnection) (id : ℕ) → KeepsReady cs (cancel_conns cs id)
unfolding cancel_conns any_ready
cancel_conns-KeepsReady [] id = tt
cancel_conns-KeepsReady (c ∷ cs) id = elim (Option-cases (cancel_queue c.out id)) [
  | inl e ↦
      rw (e, cancel_conns)
        (KeepsReady-later c cs (cancel_conns cs id) (cancel_conns-KeepsReady cs id))
  | inr ((q, evs), e) ↦
      rw (e, cancel_conns)
        (λ r. ground (arith, can_send-cancel c q (cancel_queue_nonempty c.out id e)))
]

cancel_queued-IsLive : (s : Sar) (id : ℕ) → IsLive s → IsLive (cancel_queued s id).0
unfolding cancel_queued can_write
cancel_queued-IsLive s id v = elim (Option-cases (cancel_queue s.cmd id)) [
  | inr ((q, evs), e) ↦
      let full = cancel_queue_nonempty s.cmd id e in
      rw (e, cancel_queued)
        (record { held = v.held; up = v.up; awake = λ r. ground (arith, v.awake) })
  | inl e ↦ elim (Option-cases (cancel_conns s.conn id)) [
    | inl f ↦ rw (e, cancel_queued, f) v
    | inr ((cs, evs), f) ↦
        let keep = cancel_conns-KeepsReady s.conn id in
        let keep' : any_ready cs ≡ true → any_ready s.conn ≡ true = rw f at keep in
        rw (e, cancel_queued, f)
          (record { held = v.held; up = v.up; awake = λ r. ground (arith, v.awake, keep') })
  ]
]

-- the packet that is being written, with its callback cleared
silent-IsLive :
    (s : Sar) (out : PacketOut)
    → s.writing ≡ some out
    → IsLive s
    → IsLive (record s { writing = some (record out { complete = false }) })
unfolding can_write
silent-IsLive s out e v =
    let w : is_some s.writing ≡ true = rw e refl in
    record { held = ground (arith, v.held); up = v.up; awake = λ r. cc }

pub cancel-IsLive : (s : Sar) (id : ℕ) → IsLive s → IsLive (cancel s id).0
unfolding cancel cancel_packet
cancel-IsLive s id v = elim (Bool-cases (id == 0)) [
  | inl z ↦ simp (z, cancel) v
  | inr z ↦ elim (Option-cases s.writing) [
    | inl e ↦ simp (z, cancel, e, cancel_packet) (cancel_queued-IsLive s id v)
    | inr (out, e) ↦ elim (Bool-cases (out.id == id)) [
      | inl m ↦ simp (z, cancel, e, cancel_packet, m) (silent-IsLive s out e v)
      | inr m ↦ simp (z, cancel, e, cancel_packet, m) (cancel_queued-IsLive s id v)
    ]
  ]
]
