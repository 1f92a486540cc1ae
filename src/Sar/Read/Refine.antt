-- ===== src/Sar/Read/Refine.antt =====
-- `nci_sar_hal_client_read` of src/nci_sar.c and a byte stream with a list of pending bytes.
-- The view of a state forgets whether an empty `read_buf` is NULL.
use libncicore.Common.{
  ℕ, ◌≤◌, ◌≡◌, refl, sym, ap, ◌∙◌, none, List, [], ◌∷◌, ◌++◌, append-nil, append_assoc, length,
  length-append, Bool-cases, true, arith, inl, inr,
}
use libncicore.Sar.Defs.{Sar, Event}
use libncicore.Sar.Queue.{is_nil}
use libncicore.Sar.Write.Credits.{with_buf}
use libncicore.Sar.Read.{
  array_bytes, next_packet, handle_packets, buffer_rest, read_direct, client_read,
}
use libncicore.Sar.Read.Buffer.{handle_packets-with_buf}
use libncicore.Sar.Read.Stream.{
  left_shorter, stop, handle_packets_done, handle_packets_fuel, handle_packets-append,
}

-- the state without its buffer, and the bytes that wait
abbrev pub View : Type 0
View = Sar × List ℕ

abbrev pub view : Sar → View
view s = (with_buf s none, array_bytes s.read_buf)

-- what a read leaves and calls, seen so
abbrev pub observe : Sar × List Event → View × List Event
observe r = (view r.0, r.1)

-- The specification of a read: whole packets are handled, the rest waits.
unfoldable pub feed : View → List ℕ → View × List Event
feed (s, pending) bytes =
    let all = pending ++ bytes in
    let (s', left, evs) = handle_packets (length all) s all in ((s', left), evs)

-- Between two reads the buffer holds no whole packet.
abbrev pub IsCut : Sar → Type 0
IsCut s = next_packet (array_bytes s.read_buf) ≡ none

feed_of :
    (s : Sar) (pending bytes : List ℕ)
    → feed (with_buf s none, pending) bytes ≡ (
        let (s', left, evs) = handle_packets (length (pending ++ bytes)) s (pending ++ bytes) in
        ((with_buf s' none, left), evs))
unfolding feed
feed_of s pending bytes =
    rw (handle_packets-with_buf (length (pending ++ bytes)) s none (pending ++ bytes)) refl

-- With bytes in the buffer, or with no more bytes.
buffer_rest_refines :
    (s : Sar) (bytes : List ℕ) → IsCut s → observe (buffer_rest s bytes) ≡ feed (view s) bytes
unfolding buffer_rest
buffer_rest_refines s [] cut =
    rw (feed_of s (array_bytes s.read_buf) [], append-nil)
      (rw (stop (length (array_bytes s.read_buf)) s (array_bytes s.read_buf) cut) refl)
buffer_rest_refines s (x ∷ xs) cut = rw (feed_of s (array_bytes s.read_buf) (x ∷ xs)) refl

pub read_buf-handle_packets :
    (f : ℕ) (s : Sar) (bytes : List ℕ) → (handle_packets f s bytes).0.read_buf ≡ s.read_buf
read_buf-handle_packets f s bytes =
    ap (λ t. t.0.read_buf) (handle_packets-with_buf f s s.read_buf bytes)

-- What no whole packet begins goes to an empty buffer as it is.
buffer_rest_pending :
    (s : Sar) (left : List ℕ)
    → array_bytes s.read_buf ≡ []
    → next_packet left ≡ none
    → ◌≡◌ {A = View × List Event} (observe (buffer_rest s left)) ((with_buf s none, left), [])
buffer_rest_pending s left empty cut =
    buffer_rest_refines s left (rw empty refl)
    ∙ feed_of s (array_bytes s.read_buf) left
    ∙ rw (empty, stop (length left) s left cut) refl

-- with an empty buffer
read_direct_refines :
    (s : Sar) (bytes : List ℕ)
    → array_bytes s.read_buf ≡ []
    → observe (read_direct s bytes) ≡ feed (view s) bytes
unfolding read_direct
read_direct_refines s bytes empty =
    let (s', left, evs) = handle_packets (length bytes) s bytes in
    let pending =
      buffer_rest_pending s' left
        (ap array_bytes (read_buf-handle_packets (length bytes) s bytes) ∙ empty)
        (handle_packets_done (length bytes) s bytes (omega arith)) in
    ap {B = View × List Event} (λ t. (t.0, evs ++ t.1)) pending
    ∙ rw (append-nil, empty, feed_of s [] bytes) refl

is_nil-true : (xs : List ℕ) → is_nil xs ≡ true → xs ≡ []
is_nil-true [] h = refl
is_nil-true (x ∷ xs) h = cc

-- In a state whose buffer holds no whole packet, a read makes the calls of the byte stream
-- specification in the same order and leaves the same state and pending bytes.
pub client_read_refines :
    (s : Sar) (bytes : List ℕ) → IsCut s → observe (client_read s bytes) ≡ feed (view s) bytes
unfolding client_read
client_read_refines s bytes cut = elim (Bool-cases (is_nil (array_bytes s.read_buf))) [
  | inl e ↦ rw (e, client_read) (read_direct_refines s bytes (is_nil-true _ e))
  | inr e ↦ rw (e, client_read) (buffer_rest_refines s bytes cut)
]

pub client_read-IsCut : (s : Sar) (bytes : List ℕ) → IsCut s → IsCut (client_read s bytes).0
unfolding feed
client_read-IsCut s bytes cut =
    let all = array_bytes s.read_buf ++ bytes in
    rw (ap (λ (t : View × List Event). t.0.1) (client_read_refines s bytes cut))
      (handle_packets_done (length all) (with_buf s none) all (omega arith))

pub feed-append :
    (v : View) (a b : List ℕ)
    → let (v', evs) = feed v a in
      let (v'', evs') = feed v' b in feed v (a ++ b) ≡ (v'', evs ++ evs')
unfolding feed
feed-append (s, pending) a b =
    let (s', left, evs) = handle_packets (length (pending ++ a)) s (pending ++ a) in
    let bound : length (left ++ b) ≤ length ((pending ++ a) ++ b) = omega (
      arith,
      left_shorter (length (pending ++ a)) s (pending ++ a),
      length-append left b,
      length-append (pending ++ a) b,
    ) in
    rw
      (
        ← append_assoc,
        handle_packets-append (length (pending ++ a)) (length ((pending ++ a) ++ b)) s
            (pending ++ a) b (omega arith) (omega arith),
        handle_packets_fuel (length ((pending ++ a) ++ b)) (length (left ++ b)) s' (left ++ b) bound
            (omega arith),
      )
      refl

-- Reads one after another, as the HAL makes them.
pub read_all : Sar → List (List ℕ) → Sar × List Event
read_all s [] = (s, [])
read_all s (bytes ∷ more) =
    let (s', evs) = client_read s bytes in let (s'', evs') = read_all s' more in (s'', evs ++ evs')

abbrev pub joined : List (List ℕ) → List ℕ
joined [] = []
joined (bytes ∷ more) = bytes ++ joined more

read_all-feed :
    (s : Sar) (chunks : List (List ℕ))
    → IsCut s
    → observe (read_all s chunks) ≡ feed (view s) (joined chunks)
unfolding read_all buffer_rest
read_all-feed s [] cut = buffer_rest_refines s [] cut
read_all-feed s (bytes ∷ more) cut =
    rw
      (
        feed-append (view s) bytes (joined more),
        ← client_read_refines s bytes cut,
        ← read_all-feed (client_read s bytes).0 more (client_read-IsCut s bytes cut),
      )
      refl

-- However the HAL cuts a byte stream into reads, the client is called the same way, and the state
-- and the pending bytes after it are the same as after one read of the whole, from a state whose
-- buffer holds no whole packet.
pub read_all-joined :
    (s : Sar) (chunks : List (List ℕ))
    → IsCut s
    → observe (read_all s chunks) ≡ observe (client_read s (joined chunks))
read_all-joined s chunks cut =
    read_all-feed s chunks cut ∙ sym (client_read_refines s (joined chunks) cut)
