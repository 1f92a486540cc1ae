-- ===== src/Sar/Write/Live/Conns.antt =====
-- The write side of src/nci_sar.c and changes of its connections: credits that arrive and data that
-- is collected.
use libncicore.Common.{
  ℕ, zero, suc, ◌≡◌, refl, true, false, some, List, [], ◌∷◌, get_elem?, set, arith, ◌==◌,
  Option-cases, Bool-cases, inl, inr,
}
use libncicore.Sar.Defs.{LogicalConnection, Sar}
use libncicore.Sar.Queue.{is_nil}
use libncicore.Sar.Write.{can_send, can_write, any_ready, take_credits, set_conn, grant}
use libncicore.Sar.Write.Live.{IsLive, schedule_write-IsLive}

any_ready-set :
    (cs : List LogicalConnection) (i : ℕ) (c : LogicalConnection)
    → can_send c ≡ false
    → any_ready (set cs i c) ≡ true
    → any_ready cs ≡ true
unfolding any_ready
any_ready-set [] i c h r = r
any_ready-set (d ∷ cs) zero c h r = ground arith
any_ready-set (d ∷ cs) (suc i) c h r = ground (arith, any_ready-set cs i c h)

-- A connection that cannot send makes nothing writable.
pub set_conn-IsLive :
    (s : Sar) (cid : ℕ) (c : LogicalConnection)
    → can_send c ≡ false
    → IsLive s
    → IsLive (set_conn s cid c)
unfolding can_write
set_conn-IsLive s cid c h v = record {
  held = v.held;
  up = v.up;
  awake = λ r. ground (arith, v.awake, any_ready-set s.conn cid c h);
}

-- Credits wake up a connection that waits for them.
pub take_credits-IsLive :
    (s : Sar) (cid credits : ℕ) → IsLive s → IsLive (take_credits s cid credits)
unfolding take_credits
take_credits-IsLive s cid credits v = elim (Bool-cases (credits == 0)) [
  | inl z ↦ rw (z, take_credits) v
  | inr z ↦ elim (Option-cases (get_elem? s.conn cid)) [
    | inl e ↦ rw (z, take_credits, e) v
    | inr (c, e) ↦
        let granted = set_conn s cid (grant c credits) in
        elim (Bool-cases (is_nil c.out.items)) [
          | inl n ↦
              let idle : can_send (grant c credits) ≡ false =
                unfold can_send grant in ground arith in
              rw (z, take_credits, e, n) (set_conn-IsLive s cid (grant c credits) idle v)
          | inr n ↦ rw (z, take_credits, e, n) (schedule_write-IsLive granted v.held v.up)
        ]
  ]
]

-- A connection that changes in nothing but what it has collected is as ready as it was.
any_ready-set_same :
    (cs : List LogicalConnection) (i : ℕ) (c : LogicalConnection) {d : LogicalConnection}
    → get_elem? cs i ≡ some d
    → can_send c ≡ can_send d
    → any_ready (set cs i c) ≡ any_ready cs
unfolding any_ready
any_ready-set_same [] i c h e = refl
any_ready-set_same (d ∷ cs) zero c h e = ground arith
any_ready-set_same (d ∷ cs) (suc i) c h e = ground (arith, any_ready-set_same cs i c h e)

pub set_conn_same-IsLive :
    (s : Sar) (cid : ℕ) (c : LogicalConnection) {d : LogicalConnection}
    → get_elem? s.conn cid ≡ some d
    → can_send c ≡ can_send d
    → IsLive s
    → IsLive (set_conn s cid c)
unfolding can_write
set_conn_same-IsLive s cid c at e v = record {
  held = v.held;
  up = v.up;
  awake = λ r. ground (arith, v.awake, any_ready-set_same s.conn cid c at e);
}
