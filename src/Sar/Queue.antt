-- ===== src/Sar/Queue.antt =====
-- The packet queues of src/nci_sar.c.
pub mod Cancel
pub mod Fifo
use libncicore.Common.{
  ℕ, Bool, true, false, Option, none, some, List, [], ◌∷◌, ◌++◌, if◌then◌else◌, ◌==◌,
}
use libncicore.Sar.Defs.{PacketOut, PacketOutQueue, Event, completed, destroyed, empty_queue}

abbrev pub is_nil {ℓ} : {A : Type ℓ} → List A → Bool
is_nil [] = true
is_nil (x ∷ xs) = false

-- `out->destroy(out->user_data)`, if there is such a callback; the rest frees memory.
unfoldable pub packet_out_free : PacketOut → List Event
packet_out_free out = if out.destroy then destroyed out.user_data ∷ [] else []

-- `out->complete(client, ok, user_data)`, if there is such a callback
unfoldable pub packet_out_complete : PacketOut → Bool → List Event
packet_out_complete out ok = if out.complete then completed out.user_data ok ∷ [] else []

-- the tail of `nci_sar_send`: with `last` NULL the queue is taken to be empty
unfoldable pub enqueue : PacketOutQueue → PacketOut → PacketOutQueue
enqueue q out =
    if q.last
    then record { items = q.items ++ (out ∷ []); last = true }
    else record { items = out ∷ []; last = true }

-- `first` moves on, and `last` is reset when nothing is left
unfoldable pub drop_first : PacketOutQueue → List PacketOut → PacketOutQueue
drop_first q rest = record { items = rest; last = if is_nil rest then false else q.last }

-- the packet goes back to the front; `last` is left alone
unfoldable pub put_back : PacketOutQueue → PacketOut → PacketOutQueue
put_back q out = record q { items = out ∷ q.items }

pub free_all : List PacketOut → List Event
free_all [] = []
free_all (p ∷ ps) = packet_out_free p ++ free_all ps

unfoldable pub clear_queue : PacketOutQueue → PacketOutQueue × List Event
clear_queue q = (empty_queue, free_all q.items)

-- The loop over the packets after the first: what is taken out, what is left, and whether the last
-- packet was taken out.
pub cancel_rest : List PacketOut → ℕ → Option (PacketOut × List PacketOut × Bool)
cancel_rest [] id = none
cancel_rest (p ∷ ps) id =
    if p.id == id
    then some (p, ps, is_nil ps)
    else elim (cancel_rest ps id) [ none ↦ none | some (x, r, end) ↦ some (x, p ∷ r, end) ]

pub cancel_items : PacketOutQueue → List PacketOut → ℕ → Option (PacketOutQueue × List Event)
cancel_items q [] id = none
cancel_items q (p ∷ ps) id =
    if p.id == id then some (drop_first q ps, packet_out_free p) else elim (cancel_rest ps id) [
      | none ↦ none
      | some (x, r, end) ↦
          some (record { items = p ∷ r; last = if end then true else q.last }, packet_out_free x)
    ]

-- FALSE is `none`. If the last packet goes, `last` becomes the one before it.
pub cancel_queue : PacketOutQueue → ℕ → Option (PacketOutQueue × List Event)
unfolding cancel_items
cancel_queue q id = cancel_items q q.items id
