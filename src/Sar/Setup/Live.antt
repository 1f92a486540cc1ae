-- ===== src/Sar/Setup/Live.antt =====
-- Creation, reset and the limits of src/nci_sar.c, and scheduled writes.
use libncicore.Common.{
  ℕ, zero, suc, ◌-◌, ◌≡◌, refl, true, false, none, some, List, [], ◌∷◌, ◌++◌, take, replicate,
  get_elem?, arith, Option-cases, Bool-cases, inl, inr, ◌==◌, ltb, if◌then◌else◌,
}
use libncicore.Sar.Defs.{
  LogicalConnection, Sar, HalReply, new_connection, max_logical_conns,
  default_max_logical_connections,
}
use libncicore.Sar.Queue.{is_nil, clear_queue}
use libncicore.Sar.Write.{is_some, can_send, can_write, any_ready, write_completed}
use libncicore.Sar.Write.Live.{IsLive, write_completed_error-held}
use libncicore.Sar.Write.Live.Conns.{set_conn-IsLive, take_credits-IsLive}
use libncicore.Sar.Setup.{
  new, start, reset, reset_connection, reset_conns, resize_conns, set_max_logical_connections,
  set_max_control_payload_size, set_max_data_payload_size, set_initial_credits, add_credits,
}

pub new-IsLive : IsLive new
unfolding new can_write any_ready can_send
new-IsLive = ground arith

pub start-IsLive : (io : HalReply) (s : Sar) → IsLive s → IsLive (start io s).0
unfolding start can_write
start-IsLive io s v = ground arith

pub reset_conns_idle : (cs : List LogicalConnection) → any_ready (reset_conns cs).0 ≡ false
unfolding reset_conns reset_connection any_ready can_send
reset_conns_idle [] = refl
reset_conns_idle (c ∷ cs) = reset_conns_idle cs

-- A reset needs less: that nothing is pending with no packet held.
pub reset_held-IsLive : (s : Sar) → is_some s.writing ≡ s.write_pending → IsLive (reset s).0
unfolding reset can_write clear_queue
reset_held-IsLive s h = record {
  held = ground arith;
  up = λ p. absurd (ground arith);
  awake = λ r. ground (arith, reset_conns_idle s.conn);
}

pub reset-IsLive : (s : Sar) → IsLive s → IsLive (reset s).0
reset-IsLive s v = reset_held-IsLive s v.held

-- a failed write, and the reset that follows it
pub failed-IsLive :
    (io : HalReply) (s : Sar) → IsLive s → IsLive (reset (write_completed io false s).0).0
failed-IsLive io s v =
    reset_held-IsLive (write_completed io false s).0 (write_completed_error-held io s v).0

pub add_credits-IsLive : (s : Sar) (cid n : ℕ) → IsLive s → IsLive (add_credits s cid n)
unfolding add_credits
add_credits-IsLive s cid n v = take_credits-IsLive s cid n v

any_ready-append_new :
    (cs : List LogicalConnection) (n : ℕ)
    → any_ready (cs ++ replicate n new_connection) ≡ any_ready cs
unfolding any_ready can_send
any_ready-append_new [] zero = refl
any_ready-append_new [] (suc n) = any_ready-append_new [] n
any_ready-append_new (c ∷ cs) n = ground (arith, any_ready-append_new cs n)

any_ready-take :
    (n : ℕ) (cs : List LogicalConnection) → any_ready (take n cs) ≡ true → any_ready cs ≡ true
unfolding any_ready
any_ready-take zero cs h = cc
any_ready-take (suc n) [] h = h
any_ready-take (suc n) (c ∷ cs) h = ground (arith, any_ready-take n cs)

resize_conns-IsLive : (s : Sar) (max : ℕ) → IsLive s → IsLive (resize_conns s max).0
unfolding resize_conns can_write
resize_conns-IsLive s max v = elim (Bool-cases (ltb (max_logical_conns s) max)) [
  | inl g ↦
      rw (g, resize_conns)
        (record {
          held = v.held;
          up = v.up;
          awake =
              λ r. ground (arith, v.awake, any_ready-append_new s.conn (max - max_logical_conns s));
        })
  | inr g ↦ elim (Bool-cases (ltb max (max_logical_conns s))) [
    | inl l ↦
        rw (g, resize_conns, l)
          (record {
            held = v.held;
            up = v.up;
            awake = λ r. ground (arith, v.awake, any_ready-take max s.conn);
          })
    | inr l ↦ rw (g, resize_conns, l) v
  ]
]

pub set_max_logical_connections-IsLive :
    (s : Sar) (max : ℕ) → IsLive s → IsLive (set_max_logical_connections s max).0
unfolding set_max_logical_connections
set_max_logical_connections-IsLive s max v =
    resize_conns-IsLive s (if max == 0 then default_max_logical_connections else max) v

pub set_max_control_payload_size-IsLive :
    (s : Sar) (max : ℕ) → IsLive s → IsLive (set_max_control_payload_size s max)
unfolding set_max_control_payload_size can_write
set_max_control_payload_size-IsLive s max v = ground arith

pub set_max_data_payload_size-IsLive :
    (s : Sar) (max : ℕ) → IsLive s → IsLive (set_max_data_payload_size s max)
unfolding set_max_data_payload_size can_write
set_max_data_payload_size-IsLive s max v = ground arith

-- The queue should be empty at that point, as the code asserts.
abbrev pub QueueIsEmpty : Sar → ℕ → Type 0
QueueIsEmpty s cid = elim (get_elem? s.conn cid) [
  | none ↦ Unit {0}
  | some c ↦ is_nil c.out.items ≡ true
]

pub set_initial_credits-IsLive :
    (s : Sar) (cid credits : ℕ)
    → QueueIsEmpty s cid
    → IsLive s
    → IsLive (set_initial_credits s cid credits)
unfolding set_initial_credits
set_initial_credits-IsLive s cid credits q v = elim (Option-cases (get_elem? s.conn cid)) [
  | inl e ↦ rw (e, set_initial_credits) v
  | inr (c, e) ↦
      let empty : is_nil c.out.items ≡ true = rw (e, QueueIsEmpty) at q in
      rw (e, set_initial_credits)
        (set_conn-IsLive s cid (record c { credits = credits }) (unfold can_send in ground arith) v)
]
