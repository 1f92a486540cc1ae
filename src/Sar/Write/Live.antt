-- ===== src/Sar/Write/Live.antt =====
-- Whether the write side of src/nci_sar.c can stall: packets that are held, and scheduled writes.
pub mod Conns
use libncicore.Common.{
  ℕ, zero, suc, ◌≡◌, refl, ◌∙◌, true, false, ◌||◌, none, some, List, [], ◌∷◌, get_elem?, set, arith,
  length, ◌==◌, Option-cases, Bool-cases, inl, inr,
}
use libncicore.Sar.Defs.{PacketOut, LogicalConnection, Sar, HalReply}
use libncicore.Sar.Queue.{is_nil}
use libncicore.Sar.Write.{
  is_some, can_send, can_write, any_ready, first_ready, schedule_write, charge_packet,
  charge_writing, pick_packet, take_packet, take_command, take_data, submit, submit_writing,
  attempt_write, write_completed, start_write_callback, take_credits, set_conn, grant,
  payload_bytes,
}

-- A packet is held exactly while its write is pending, and then the HAL is started; a packet that
-- can be written has a write scheduled.
pub record IsLive (s : Sar) : Type 0 where
  pub held : is_some s.writing ≡ s.write_pending
  pub up : s.write_pending ≡ true → s.started ≡ true
  pub awake : can_write s ≡ true → s.start_write ≡ true

pub schedule_write-awake :
    (s : Sar) → can_write (schedule_write s) ≡ true → (schedule_write s).start_write ≡ true
unfolding schedule_write can_write
schedule_write-awake s h = ground arith

pub schedule_write-IsLive :
    (s : Sar)
    → is_some s.writing ≡ s.write_pending
    → (s.write_pending ≡ true → s.started ≡ true)
    → IsLive (schedule_write s)
schedule_write-IsLive s h u = record {
  held = (unfold schedule_write in ground arith);
  up = (unfold schedule_write in ground arith);
  awake = schedule_write-awake s;
}

first_ready_sound :
    (cs : List LogicalConnection) {i : ℕ}
    → first_ready cs ≡ some i
    → (c : LogicalConnection) × (get_elem? cs i ≡ some c) × (can_send c ≡ true)
unfolding first_ready
first_ready_sound [] h = cc
first_ready_sound (c ∷ cs) {i} h = elim (Bool-cases (can_send c)) [
  | inl t ↦ let e : 0 ≡ i = ground arith in (c, rw (← e) refl, t)
  | inr t ↦ elim (Option-cases (first_ready cs)) [
    | inl n ↦ absurd (ground arith)
    | inr (j, n) ↦
        let (c', at, ready) = first_ready_sound cs n in
        let e : suc j ≡ i = ground arith in (c', rw (← e) at, ready)
  ]
]

first_ready-none : (cs : List LogicalConnection) → first_ready cs ≡ none → any_ready cs ≡ false
unfolding first_ready any_ready
first_ready-none [] h = refl
first_ready-none (c ∷ cs) h = ground (arith, first_ready-none cs)

-- With nothing to write after it, there was nothing that could be written.
module _ (s : Sar) where
  pending-take_command : (ps : List PacketOut) → (take_command s ps).write_pending ≡ s.write_pending
  unfolding take_command
  pending-take_command [] = refl
  pending-take_command (p ∷ ps) = refl

  pending-take_packet :
      (cid : ℕ) (c : LogicalConnection) (ps : List PacketOut)
      → (take_packet s cid c ps).write_pending ≡ s.write_pending
  unfolding take_packet
  pending-take_packet cid c [] = refl
  pending-take_packet cid c (p ∷ ps) = refl

  pending-take_data : (take_data s (first_ready s.conn)).write_pending ≡ s.write_pending
  unfolding take_data
  pending-take_data = elim (Option-cases (first_ready s.conn)) [
    | inl e ↦ rw e refl
    | inr (i, e) ↦ elim (Option-cases (get_elem? s.conn i)) [
      | inl f ↦ rw (e, take_data, f) refl
      | inr (c, f) ↦ rw (e, take_data, f) (pending-take_packet i c c.out.items)
    ]
  ]

  pending-charge_writing : (charge_writing s).write_pending ≡ s.write_pending
  unfolding charge_writing charge_packet
  pending-charge_writing = ground arith

  take_packet_busy :
      (cid : ℕ) (c : LogicalConnection) (ps : List PacketOut)
      → is_nil ps ≡ false
      → is_some (take_packet s cid c ps).writing ≡ true
  unfolding take_packet
  take_packet_busy cid c [] h = cc
  take_packet_busy cid c (p ∷ ps) h = refl

  take_data_busy :
      {i : ℕ} → first_ready s.conn ≡ some i → is_some (take_data s (some i)).writing ≡ true
  unfolding take_data
  take_data_busy {i} h =
      let (c, at, ready) = first_ready_sound s.conn h in
      rw (at, take_data)
        (take_packet_busy i c c.out.items (unfold can_send in ground (arith, ready)))

  take_data_done :
      is_some s.writing ≡ false
      → is_nil s.cmd.items ≡ true
      → is_some (take_data s (first_ready s.conn)).writing ≡ false
      → can_write (take_data s (first_ready s.conn)) ≡ false
  unfolding take_data can_write
  take_data_done w n h = elim (Option-cases (first_ready s.conn)) [
    | inl e ↦ rw e (rw (w, n) (first_ready-none s.conn e))
    | inr (i, e) ↦ absurd (ground (arith, take_data_busy e, rw e at h))
  ]

  take_command_busy :
      (ps : List PacketOut) → is_nil ps ≡ false → is_some (take_command s ps).writing ≡ true
  unfolding take_command
  take_command_busy [] h = cc
  take_command_busy (p ∷ ps) h = refl

  pick_done : is_some (pick_packet s).writing ≡ false → can_write (pick_packet s) ≡ false
  unfolding pick_packet
  pick_done h = ground (arith, take_command_busy s.cmd.items, take_data_done)

  submit-IsLive : (io : HalReply) (out : PacketOut) → IsLive (submit io s out).0
  unfolding submit can_write
  submit-IsLive io out =
      let failed = record s {
        started = s.started || io.start;
        write_pending = false;
        writing = none;
      } in
      let scheduled = schedule_write-IsLive failed refl (λ e. cc) in
      elim (Bool-cases (s.started || io.start)) [
        | inl e ↦ elim (Bool-cases io.write) [
          | inl w ↦ rw (e, submit, w) (record { held = refl; up = λ _. refl; awake = λ k. cc })
          | inr w ↦ rw (e, submit, w) (rw e at scheduled)
        ]
        | inr e ↦ rw (e, submit) (rw e at scheduled)
      ]

  pending-pick_packet : (pick_packet s).write_pending ≡ s.write_pending
  unfolding pick_packet
  pending-pick_packet = ground (arith, pending-take_command s.cmd.items, pending-take_data)

submit_writing-IsLive :
    (io : HalReply) (s : Sar)
    → s.write_pending ≡ false
    → (is_some s.writing ≡ false → can_write s ≡ false)
    → IsLive (submit_writing io s).0
unfolding submit_writing
submit_writing-IsLive io s p h = elim (Option-cases s.writing) [
  | inl e ↦
      rw (e, submit_writing)
        (record {
          held = rw (e, p) refl;
          up = λ q. absurd (ground (arith, q));
          awake = λ q. absurd (ground (arith, h (rw e refl), q));
        })
  | inr (out, e) ↦ rw (e, submit_writing) (submit-IsLive s io out)
]

pub attempt_write_pending :
    (io : HalReply) (s : Sar) → s.write_pending ≡ true → attempt_write io s ≡ (s, [])
unfolding attempt_write
attempt_write_pending io s p = ground arith

pub attempt_write_idle :
    (io : HalReply) (s : Sar)
    → s.write_pending ≡ false
    → attempt_write io s ≡ submit_writing io (pick_packet (charge_writing s))
unfolding attempt_write
attempt_write_idle io s p = ground arith

-- Whatever the HAL answers, an attempt to write leaves nothing behind that could be written and is
-- not scheduled.
pub attempt_write-IsLive :
    (io : HalReply) (s : Sar) → (s.write_pending ≡ true → IsLive s) → IsLive (attempt_write io s).0
attempt_write-IsLive io s h = elim (Bool-cases s.write_pending) [
  | inl p ↦ rw (attempt_write_pending io s p) (h p)
  | inr p ↦ rw (attempt_write_idle io s p) (
      submit_writing-IsLive io (pick_packet (charge_writing s))
        (pending-pick_packet (charge_writing s) ∙ pending-charge_writing s ∙ p)
        (pick_done (charge_writing s)))
]

-- A write that ends well is followed by the next one, as far as there is one.
pub write_completed-IsLive :
    (io : HalReply) (s : Sar) → IsLive s → IsLive (write_completed io true s).0
unfolding write_completed
write_completed-IsLive io s v = elim (Option-cases s.writing) [
  | inl e ↦ simp (e, write_completed) v
  | inr (out, e) ↦
      let idle = record s { write_pending = false; writing = some out } in
      let done = record s { write_pending = false; writing = none } in
      elim (Bool-cases (length (payload_bytes out) == out.payload_pos)) [
        | inl f ↦
            simp (e, write_completed, f)
              (attempt_write-IsLive io done (λ q. absurd (ground (arith, q))))
        | inr f ↦
            simp (e, write_completed, f)
              (attempt_write-IsLive io idle (λ q. absurd (ground (arith, q))))
      ]
]

-- A write that fails leaves the packet behind; the packets after it are for the client, which is
-- told of the error.
pub write_completed_error-held :
    (io : HalReply) (s : Sar)
    → IsLive s
    → let s' = (write_completed io false s).0 in
      (is_some s'.writing ≡ s'.write_pending) × (s'.write_pending ≡ true → s'.started ≡ true)
unfolding write_completed
write_completed_error-held io s v = ground arith

-- the idle callback, which is due
pub start_write_callback-IsLive :
    (io : HalReply) (s : Sar) → IsLive s → IsLive (start_write_callback io s).0
unfolding start_write_callback can_write
start_write_callback-IsLive io s v =
    attempt_write-IsLive io (record s { start_write = false })
      (λ p. record { held = v.held; up = v.up; awake = ground arith })
