-- ===== src/Sm/Steps/Credits.antt =====
-- CORE_CONN_CREDITS_NTF, in whatever state it comes.
use libncicore.Common.{
  ℕ, ◌*◌, ◌≤◌, ◌≡◌, refl, ◌∙◌, Option, none, some, List, [], ◌∷◌, ◌++◌, arith, length, append_assoc,
  append-nil,
}
use libncicore.Sm.Types.{
  State, Transition, init, error, stop, idle, discovery, w4_all_discoveries, w4_host_select,
  poll_active, listen_active, listen_sleep, reset, idle_to_discovery, deactivate_to_idle,
  deactivate_to_discovery, poll_active_to_idle, listen_active_to_idle,
}
use libncicore.Sm.Machine.{Event, Machine, credits_added, logs}
use libncicore.Sm.Notify.{
  handle_ntf, notify_to, transition_ntf, state_ntf, default_ntf, reset_ntf, deactivation_ntf,
  discovery_ntf, w4_all_discoveries_ntf, w4_host_select_ntf, poll_active_ntf, listen_active_ntf,
  listen_sleep_ntf, handle_conn_credits_ntf, add_credits_loop,
}

transition_credits :
    (t : Transition) (pkt : List ℕ) (m : Machine)
    → transition_ntf t 0 6 pkt m ≡ handle_conn_credits_ntf pkt m
unfolding transition_ntf reset_ntf deactivation_ntf default_ntf
transition_credits reset pkt m = refl
transition_credits idle_to_discovery pkt m = refl
transition_credits deactivate_to_idle pkt m = refl
transition_credits deactivate_to_discovery pkt m = refl
transition_credits poll_active_to_idle pkt m = refl
transition_credits listen_active_to_idle pkt m = refl

state_credits :
    (s : State) (pkt : List ℕ) (m : Machine) → state_ntf s 0 6 pkt m ≡ handle_conn_credits_ntf pkt m
unfolding state_ntf discovery_ntf w4_all_discoveries_ntf w4_host_select_ntf poll_active_ntf
    listen_active_ntf listen_sleep_ntf deactivation_ntf default_ntf
state_credits init pkt m = refl
state_credits error pkt m = refl
state_credits stop pkt m = refl
state_credits idle pkt m = refl
state_credits discovery pkt m = refl
state_credits w4_all_discoveries pkt m = refl
state_credits w4_host_select pkt m = refl
state_credits poll_active pkt m = refl
state_credits listen_active pkt m = refl
state_credits listen_sleep pkt m = refl

notify_credits :
    (o : Option Transition) (pkt : List ℕ) (m : Machine)
    → notify_to o 0 6 pkt m ≡ handle_conn_credits_ntf pkt m
unfolding notify_to
notify_credits (some t) pkt m = transition_credits t pkt m
notify_credits none pkt m = state_credits m.last_state pkt m

-- the entries of the notification as bytes, and what they ask of the SAR
abbrev pub credit_bytes : List (ℕ × ℕ) → List ℕ → List ℕ
credit_bytes [] rest = rest
credit_bytes ((cid, n) ∷ l) rest = cid ∷ n ∷ credit_bytes l rest

abbrev pub credit_events : List (ℕ × ℕ) → List Event
credit_events [] = []
credit_events ((cid, n) ∷ l) = credits_added cid n ∷ credit_events l

added :
    (l : List (ℕ × ℕ)) (rest : List ℕ) (m : Machine)
    → add_credits_loop (length l) (credit_bytes l rest) m
      ≡ record m { log = m.log ++ credit_events l }
unfolding add_credits_loop
added [] rest m = rw append-nil refl
added ((cid, n) ∷ l) rest m = added l rest (logs (credits_added cid n) m) ∙ rw append_assoc refl

long_enough : (l : List (ℕ × ℕ)) (rest : List ℕ) → 2 * length l ≤ length (credit_bytes l rest)
long_enough [] rest = omega arith
long_enough ((cid, n) ∷ l) rest = omega (arith, long_enough l rest)

-- In every state and during every transition a credits notification that is laid out as the
-- specification has it, with anything after its entries, hands each of its entries to the SAR, in
-- their order, and changes nothing else.
pub conn_credits_anywhere :
    (l : List (ℕ × ℕ)) (rest : List ℕ) (m : Machine)
    → handle_ntf 0 6 (length l ∷ credit_bytes l rest) m
      ≡ record m { log = m.log ++ credit_events l }
unfolding handle_ntf handle_conn_credits_ntf
conn_credits_anywhere l rest m =
    notify_credits m.active (length l ∷ credit_bytes l rest) m
    ∙ ground (arith, long_enough l rest, added l rest m)
