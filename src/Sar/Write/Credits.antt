-- ===== src/Sar/Write/Credits.antt =====
-- Credits of a logical connection (`nci_sar_take_credits` of src/nci_sar.c).
use libncicore.Common.{
  ℕ, ◌+◌, ◌≤◌, min, ◌≡◌, refl, Option, List, get_elem?, set, arith, Option-cases, inl, inr,
}
use libncicore.Sar.Defs.{Sar, LogicalConnection}
use libncicore.Sar.Write.{take_credits, grant, schedule_write, can_write}

abbrev pub with_buf : Sar → Option (List ℕ) → Sar
with_buf s b = record s { read_buf = b }

schedule_write-with_buf :
    (s : Sar) (b : Option (List ℕ)) → schedule_write (with_buf s b) ≡ with_buf (schedule_write s) b
unfolding schedule_write can_write
schedule_write-with_buf s b = ground arith

pub take_credits-with_buf :
    (s : Sar) (b : Option (List ℕ)) (cid credits : ℕ)
    → take_credits (with_buf s b) cid credits ≡ with_buf (take_credits s cid credits) b
unfolding take_credits
take_credits-with_buf s b cid credits = elim (Option-cases (get_elem? s.conn cid)) [
  | inl e ↦ rw (e, take_credits) (ground arith)
  | inr (c, e) ↦
      rw (e, take_credits)
        (ground
          (arith, schedule_write-with_buf (record s { conn = set s.conn cid (grant c credits) }) b))
]

-- Granting credits to a connection that holds at most 255 gives the sum, or 255 where the sum is
-- more.
pub grant_saturates :
    (c : LogicalConnection) (n : ℕ)
    → c.credits ≤ 255
    → (grant c n).credits ≡ min 255 (c.credits + n)
unfolding grant
grant_saturates c n h = ground arith

pub take_credits-zero : (s : Sar) (cid : ℕ) → take_credits s cid 0 ≡ s
unfolding take_credits
take_credits-zero s cid = refl
