-- ===== src/Sar/Queue/Fifo.antt =====
-- The packet queues of src/nci_sar.c as lists: what their two pointers hold after any operations.
use libncicore.Common.{
  ℕ, ◌≡◌, refl, sym, ap, ◌∙◌, Bool, not, Option, none, some, List, [], ◌∷◌, ◌++◌, if◌then◌else◌,
  ◌==◌, Bool-cases, Option-cases, inl, inr, arith,
}
use libncicore.Sar.Defs.{PacketOut, PacketOutQueue, Event}
use libncicore.Sar.Queue.{
  is_nil, enqueue, drop_first, clear_queue, cancel_rest, cancel_items, cancel_queue,
}

-- What is done to a queue, but for a packet that is put back.
pub data QueueOp : Type 0 where
  put : PacketOut → QueueOp
  take_first : QueueOp
  remove : ℕ → QueueOp
  clear : QueueOp

abbrev after_take : PacketOutQueue → List PacketOut → PacketOutQueue
after_take q [] = q
after_take q (p ∷ ps) = drop_first q ps

abbrev after_remove : PacketOutQueue → Option (PacketOutQueue × List Event) → PacketOutQueue
after_remove q none = q
after_remove q (some (q', evs)) = q'

abbrev pub run_op : PacketOutQueue → QueueOp → PacketOutQueue
run_op q (put out) = enqueue q out
run_op q take_first = after_take q q.items
run_op q (remove id) = after_remove q (cancel_queue q id)
run_op q clear = (clear_queue q).0

abbrev pub run_ops : PacketOutQueue → List QueueOp → PacketOutQueue
run_ops q [] = q
run_ops q (op ∷ ops) = run_ops (run_op q op) ops

-- The same on a list of packets.
abbrev pub without_first : ℕ → List PacketOut → List PacketOut
without_first id [] = []
without_first id (p ∷ ps) = if p.id == id then ps else p ∷ without_first id ps

abbrev tail_of : List PacketOut → List PacketOut
tail_of [] = []
tail_of (p ∷ ps) = ps

abbrev pub list_op : List PacketOut → QueueOp → List PacketOut
list_op ps (put out) = ps ++ (out ∷ [])
list_op ps take_first = tail_of ps
list_op ps (remove id) = without_first id ps
list_op ps clear = []

abbrev pub list_ops : List PacketOut → List QueueOp → List PacketOut
list_ops ps [] = ps
list_ops ps (op ∷ ops) = list_ops (list_op ps op) ops

-- `last` is set exactly where there is a packet.
abbrev pub IsLinked : PacketOutQueue → Type 0
IsLinked q = q.last ≡ not (is_nil q.items)

cancel_rest-none :
    (ps : List PacketOut) (id : ℕ) → cancel_rest ps id ≡ none → without_first id ps ≡ ps
unfolding cancel_rest
cancel_rest-none [] id h = refl
cancel_rest-none (p ∷ ps) id h = ground (arith, cancel_rest-none ps id)

cancel_rest-some :
    (ps : List PacketOut) (id : ℕ) {x : PacketOut} {r : List PacketOut} {end : Bool}
    → cancel_rest ps id ≡ some (x, r, end)
    → without_first id ps ≡ r
unfolding cancel_rest
cancel_rest-some [] id h = cc
cancel_rest-some (p ∷ ps) id h = elim (Bool-cases (p.id == id)) [
  | inl e ↦ ground arith
  | inr e ↦ elim (Option-cases (cancel_rest ps id)) [
    | inl n ↦ absurd (ground arith)
    | inr ((x', r', end'), n) ↦ ground (arith, cancel_rest-some ps id n)
  ]
]

abbrev queue_of : List PacketOut → Bool → PacketOutQueue
queue_of ps last = record { items = ps; last = last }

put_lem :
    (ps : List PacketOut) (last : Bool) (out : PacketOut)
    → last ≡ not (is_nil ps)
    → ((enqueue (queue_of ps last) out).items ≡ ps ++ (out ∷ []))
      × IsLinked (enqueue (queue_of ps last) out)
unfolding enqueue
put_lem [] last out h = rw h (refl, refl)
put_lem (p ∷ ps) last out h = rw h (refl, refl)

take_lem :
    (ps : List PacketOut) (last : Bool)
    → last ≡ not (is_nil ps)
    → ((after_take (queue_of ps last) ps).items ≡ tail_of ps)
      × IsLinked (after_take (queue_of ps last) ps)
unfolding drop_first
take_lem [] last h = (refl, h)
take_lem (p ∷ []) last h = (refl, refl)
take_lem (p ∷ x ∷ ps) last h = (refl, h)

remove_lem :
    (ps : List PacketOut) (last : Bool) (id : ℕ)
    → last ≡ not (is_nil ps)
    → let r = run_op (queue_of ps last) (remove id) in (r.items ≡ without_first id ps) × IsLinked r
unfolding cancel_queue cancel_items drop_first
remove_lem [] last id h = (refl, h)
remove_lem (p ∷ ps) last id h = elim (Bool-cases (p.id == id)) [
  | inl e ↦ rw (e, cancel_items) (take_lem (p ∷ ps) last h)
  | inr e ↦ elim (Option-cases (cancel_rest ps id)) [
    | inl n ↦ rw (e, cancel_items, n) (ap (λ t. p ∷ t) (sym (cancel_rest-none ps id n)), h)
    | inr ((x, r, end), n) ↦
        rw (e, cancel_items, n)
          (ap (λ t. p ∷ t) (sym (cancel_rest-some ps id n)), ground (arith, h))
  ]
]

run_op_lem :
    (q : PacketOutQueue) (op : QueueOp)
    → IsLinked q
    → ((run_op q op).items ≡ list_op q.items op) × IsLinked (run_op q op)
unfolding clear_queue
run_op_lem q (put out) h = put_lem q.items q.last out h
run_op_lem q take_first h = take_lem q.items q.last h
run_op_lem q (remove id) h = remove_lem q.items q.last id h
run_op_lem q clear h = (refl, refl)

-- Whatever packets are put on a queue, taken from its front, cancelled and cleared, its two
-- pointers hold what the same operations make of a list: a packet goes to the end, the first one
-- comes out, a cancellation takes the first packet of its id. The queue is one whose last is set
-- exactly where it has a packet, and it stays so.
pub run_ops_refines :
    (q : PacketOutQueue) (ops : List QueueOp)
    → IsLinked q
    → ((run_ops q ops).items ≡ list_ops q.items ops) × IsLinked (run_ops q ops)
run_ops_refines q [] h = (refl, h)
run_ops_refines q (op ∷ ops) h =
    let (same, linked) = run_op_lem q op h in
    let (rest, after) = run_ops_refines (run_op q op) ops linked in
    (rest ∙ ap (λ ps. list_ops ps ops) same, after)
