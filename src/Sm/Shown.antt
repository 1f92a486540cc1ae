-- ===== src/Sm/Shown.antt =====
-- The state signals of src/nci_sm.c: what a client that listens to them takes the states for.
pub mod Enter
pub mod Switch
pub mod Responses
pub mod Notices
pub mod States
use libncicore.Common.{
  ℕ, ◌+◌, ◌-◌, ◌≡◌, refl, ap, ◌∙◌, sym, Bool, true, false, Option, none, some, List, [], ◌∷◌, ◌++◌,
  if◌then◌else◌, arith,
}
use libncicore.Util.Types.{DiscoveryNtf}
use libncicore.Sm.Types.{
  State, Transition, same_state, reset, idle_to_discovery, deactivate_to_idle,
  deactivate_to_discovery, poll_active_to_idle, listen_active_to_idle,
}
use libncicore.Sm.Machine.{
  Handler, Event, Machine, reset_rsp, next_state_changed, last_state_changed, sends, logs,
  is_active, send_command,
}
use libncicore.Sm.Start.{arm, reset_config, finished, finish, finish_active_transition, start}
use libncicore.Sm.Control.{
  leave_active_state, finish_other, started, start_transition, set_last_state, set_next_state,
  emit_next_state, emit_last_state, emit_pending_signals, stall_state, activate, stall_internal,
  stall, start_next, take_next_transition, set_next_if, settle, enter_with, select_target,
  supported, host_select_entered, enter_host_select, handle_discovery, all_discoveries_entered,
  entered, enter_internal, enter_state,
}

-- the next and the last state as they have been signalled
abbrev pub next_signalled : Event → State → State
next_signalled (next_state_changed t) s = t
next_signalled e s = s

abbrev pub last_signalled : Event → State → State
last_signalled (last_state_changed t) s = t
last_signalled e s = s

abbrev pub shown : (Event → State → State) → List Event → State → State
shown f [] s = s
shown f (e ∷ es) s = shown f es (f e s)

shown-append :
    (f : Event → State → State) (es : List Event) (e : Event) (s : State)
    → shown f (es ++ (e ∷ [])) s ≡ f e (shown f es s)
shown-append f [] e s = refl
shown-append f (x ∷ xs) e s = shown-append f xs e (f x s)

-- A client that took the states for `n` and `l` before the log knows both states, but for those
-- whose signal is pending.
pub record IsShown (n l : State) (m : Machine) : Type 0 where
  pub next : m.next_pending ≡ false → shown next_signalled m.log n ≡ m.next_state
  pub last : m.last_pending ≡ false → shown last_signalled m.log l ≡ m.last_state

-- a change of other fields
pub same-IsShown :
    {n l : State} {m k : Machine}
    → (k.log ≡ m.log)
      × (k.next_state ≡ m.next_state)
      × (k.last_state ≡ m.last_state)
      × (k.next_pending ≡ m.next_pending)
      × (k.last_pending ≡ m.last_pending)
    → IsShown n l m
    → IsShown n l k
same-IsShown {n} {l} (g, a, b, p, q) v = record {
  next = λ e. ap (λ x. shown next_signalled x n) g ∙ (v.next (sym p ∙ e) ∙ sym a);
  last = λ e. ap (λ x. shown last_signalled x l) g ∙ (v.last (sym q ∙ e) ∙ sym b);
}

module _ {n l : State} where
  -- an event that is no signal of a state
  pub logs-IsShown :
      (e : Event) (m : Machine)
      → ((s : State) → (next_signalled e s ≡ s) × (last_signalled e s ≡ s))
      → IsShown n l m
      → IsShown n l (logs e m)
  logs-IsShown e m h v = record {
    next = λ p.
        shown-append next_signalled m.log e n ∙ ((h (shown next_signalled m.log n)).0 ∙ v.next p);
    last = λ p.
        shown-append last_signalled m.log e l ∙ ((h (shown last_signalled m.log l)).1 ∙ v.last p);
  }

  pub send-IsShown :
      (gid oid : ℕ) (payload : List ℕ) (rsp : Handler) (m : Machine)
      → IsShown n l m
      → IsShown n l (send_command gid oid payload rsp m)
  send-IsShown gid oid payload rsp m v =
      ground (arith, v, logs-IsShown (sends gid oid payload rsp) m (λ s. (refl, refl)) v)

  pub if-IsShown :
      (b : Bool) (m k : Machine) → IsShown n l m → IsShown n l k → IsShown n l (if b then m else k)
  if-IsShown true m k v w = v
  if-IsShown false m k v w = w

  arm-IsShown : (t : Transition) (m : Machine) → IsShown n l m → IsShown n l (arm t m)
  arm-IsShown t m v = ground (arith, v.next, v.last)

  finished-IsShown : (t : Transition) (m : Machine) → IsShown n l m → IsShown n l (finished t m)
  unfolding finished
  finished-IsShown reset m v = record { next = v.next; last = v.last }
  finished-IsShown idle_to_discovery m v = record { next = v.next; last = v.last }
  finished-IsShown deactivate_to_idle m v = record { next = v.next; last = v.last }
  finished-IsShown deactivate_to_discovery m v = record { next = v.next; last = v.last }
  finished-IsShown poll_active_to_idle m v = record { next = v.next; last = v.last }
  finished-IsShown listen_active_to_idle m v = record { next = v.next; last = v.last }

  finish-IsShown : (o : Option Transition) (m : Machine) → IsShown n l m → IsShown n l (finish o m)
  unfolding finish
  finish-IsShown none m v = v
  finish-IsShown (some t) m v =
      finished-IsShown t (record m { active = none }) record { next = v.next; last = v.last }

  pub finish_active-IsShown :
      (m : Machine) → IsShown n l m → IsShown n l (finish_active_transition m)
  unfolding finish_active_transition
  finish_active-IsShown m v = finish-IsShown m.active m v

  start-IsShown : (t : Transition) (m : Machine) → IsShown n l m → IsShown n l (start t m)
  unfolding start
  start-IsShown reset m v =
      let a = arm-IsShown reset m v in
      send-IsShown 0 0 (0x00 ∷ []) reset_rsp
        (record (arm reset m) { config = reset_config m.config })
        record { next = a.next; last = a.last }
  start-IsShown idle_to_discovery m v = send-IsShown _ _ _ _ _ (arm-IsShown idle_to_discovery m v)
  start-IsShown deactivate_to_idle m v = send-IsShown _ _ _ _ _ (arm-IsShown deactivate_to_idle m v)
  start-IsShown deactivate_to_discovery m v =
      send-IsShown _ _ _ _ _ (arm-IsShown deactivate_to_discovery m v)
  start-IsShown poll_active_to_idle m v =
      send-IsShown _ _ _ _ _ (arm-IsShown poll_active_to_idle m v)
  start-IsShown listen_active_to_idle m v = send-IsShown _ _ _ _ _ (
      arm-IsShown listen_active_to_idle (record m { expecting_ntf = false; ntf = none })
        record { next = v.next; last = v.last })

  finish_other-IsShown :
      (t : Transition) (m : Machine) → IsShown n l m → IsShown n l (finish_other t m)
  unfolding finish_other
  finish_other-IsShown t m v = if-IsShown (is_active t m) _ _ v (finish_active-IsShown m v)

  started-IsShown : (m : Machine) → IsShown n l m → IsShown n l (started m).0
  unfolding started leave_active_state
  started-IsShown m v = ground (arith, v.next, v.last)

  pub start_transition-IsShown :
      (t : Transition) (m : Machine) → IsShown n l m → IsShown n l (start_transition t m).0
  unfolding start_transition
  start_transition-IsShown t m v =
      let w = finish_other-IsShown t m v in
      started-IsShown _ (
        start-IsShown t (record (finish_other t m) { active = some t })
          record { next = w.next; last = w.last })

  pub set_last_state-IsShown :
      (s : State) (m : Machine) → IsShown n l m → IsShown n l (set_last_state s m)
  unfolding set_last_state
  set_last_state-IsShown s m v =
      if-IsShown (same_state m.last_state s) _ _ v record { next = v.next; last = λ e. cc }

  pub set_next_state-IsShown :
      (s : State) (m : Machine) → IsShown n l m → IsShown n l (set_next_state s m)
  unfolding set_next_state
  set_next_state-IsShown s m v =
      if-IsShown (same_state m.next_state s) _ _ v record { next = λ e. cc; last = v.last }

  emit_next-IsShown : (m : Machine) → IsShown n l m → IsShown n l (emit_next_state m)
  unfolding emit_next_state
  emit_next-IsShown m v =
      let e = next_state_changed m.next_state in
      if-IsShown m.next_pending _ _
        record {
          next = λ p. shown-append next_signalled m.log e n;
          last = λ p. shown-append last_signalled m.log e l ∙ v.last p;
        }
        v

  emit_last-IsShown : (m : Machine) → IsShown n l m → IsShown n l (emit_last_state m)
  unfolding emit_last_state
  emit_last-IsShown m v =
      let e = last_state_changed m.last_state in
      if-IsShown m.last_pending _ _
        record {
          next = λ p. shown-append next_signalled m.log e n ∙ v.next p;
          last = λ p. shown-append last_signalled m.log e l;
        }
        v

  pub emit-IsShown : (m : Machine) → IsShown n l m → IsShown n l (emit_pending_signals m)
  unfolding emit_pending_signals
  emit-IsShown m v = emit_last-IsShown (emit_next_state m) (emit_next-IsShown m v)
