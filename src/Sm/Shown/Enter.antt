-- ===== src/Sm/Shown/Enter.antt =====
-- The state signals of entering states and of stalls in src/nci_sm.c.
use libncicore.Common.{◌+◌, refl, Option, none, some, List, [], ◌∷◌, ◌++◌}
use libncicore.Util.Types.{DiscoveryNtf}
use libncicore.Sm.Types.{
  State, Transition, Stall, same_state, dest, init, error, stop, idle, discovery,
  w4_all_discoveries, w4_host_select, poll_active, listen_active, listen_sleep,
}
use libncicore.Sm.Machine.{
  Param, Machine, selects, io_cancelled, max_data_payload, no_param, all_discoveries, host_select,
  is_in,
}
use libncicore.Sm.Control.{
  leave_active_state, activate, stall_internal, stall, start_next, take_next_transition,
  set_next_if, settle, enter_with, select_target, supported, host_select_entered, enter_host_select,
  handle_discovery, all_discoveries_entered, entered, enter_internal, enter_state,
}
use libncicore.Sm.Shown.{
  IsShown, emit-IsShown, finish_active-IsShown, if-IsShown, logs-IsShown, set_last_state-IsShown,
  set_next_state-IsShown, start_transition-IsShown,
}

module _ {n l : State} where
  activate-IsShown : (s : State) (m : Machine) → IsShown n l m → IsShown n l (activate s m)
  unfolding activate leave_active_state
  activate-IsShown s m v = if-IsShown (is_in s m) _ _ v record { next = v.next; last = v.last }

  pub stall_internal-IsShown :
      (type : Stall) (m : Machine) → IsShown n l m → IsShown n l (stall_internal type m)
  unfolding stall_internal
  stall_internal-IsShown type m v = activate-IsShown _ _ (
      set_next_state-IsShown _ _ (
        set_last_state-IsShown _ _
          (finish_active-IsShown _ (logs-IsShown io_cancelled m (λ s. (refl, refl)) v))))

  pub stall-IsShown : (type : Stall) (m : Machine) → IsShown n l m → IsShown n l (stall type m)
  unfolding stall
  stall-IsShown type m v = emit-IsShown _ (stall_internal-IsShown type m v)

  start_next-IsShown :
      (o : Option Transition) (s : State) (m : Machine)
      → IsShown n l m
      → IsShown n l (start_next o s m)
  unfolding start_next
  start_next-IsShown none s m v = v
  start_next-IsShown (some t) s m v =
      if-IsShown (same_state (dest t) s) _ _ v (start_transition-IsShown t m v)

  settle-IsShown :
      (o : Option Transition) (s : State) (m : Machine)
      → IsShown n l m
      → IsShown n l (set_next_if o s m)
  unfolding set_next_if
  settle-IsShown none s m v = set_next_state-IsShown s m v
  settle-IsShown (some t) s m v = v

  enter_with-IsShown :
      (f : Machine → Machine)
      → ((k : Machine) → IsShown n l k → IsShown n l (f k))
      → (s : State) (m : Machine) → IsShown n l m
      → IsShown n l (enter_with f s m)
  unfolding enter_with take_next_transition settle
  enter_with-IsShown f h s m v =
      let begun =
        finish_active-IsShown (record m { entering = m.entering + 1 })
          record { next = v.next; last = v.last } in
      let at = h _ (activate-IsShown s _ begun) in
      let taken = start_next-IsShown _ s _ record { next = at.next; last = at.last } in
      let w = settle-IsShown _ s _ (set_last_state-IsShown s _ taken) in
      record { next = w.next; last = w.last }

  select_target-IsShown :
      (d : List DiscoveryNtf) (m : Machine) → IsShown n l m → IsShown n l (select_target d m)
  unfolding select_target
  select_target-IsShown [] m v = record { next = v.next; last = v.last }
  select_target-IsShown (d ∷ ds) m v =
      if-IsShown m.io_sends _ _ (logs-IsShown (selects (d ∷ ds)) m (λ s. (refl, refl)) v) v

  host_select_entered-IsShown :
      (p : Param) (m : Machine) → IsShown n l m → IsShown n l (host_select_entered p m)
  unfolding host_select_entered
  host_select_entered-IsShown no_param m v = v
  host_select_entered-IsShown (all_discoveries d) m v = v
  host_select_entered-IsShown (host_select d) m v = select_target-IsShown (supported m.config d) m v

  enter_host_select-IsShown :
      (p : Param) (m : Machine) → IsShown n l m → IsShown n l (enter_host_select p m)
  unfolding enter_host_select
  enter_host_select-IsShown p m v = emit-IsShown _ (
      enter_with-IsShown (host_select_entered p) (host_select_entered-IsShown p) w4_host_select m v)

  pub handle_discovery-IsShown :
      (d : DiscoveryNtf) (m : Machine) → IsShown n l m → IsShown n l (handle_discovery d m)
  unfolding handle_discovery
  handle_discovery-IsShown d m v =
      let stored : IsShown n l (record m { discoveries = m.discoveries ++ (d ∷ []) }) = record {
        next = v.next;
        last = v.last;
      } in
      if-IsShown d.last _ _ (enter_host_select-IsShown _ _ stored) stored

  all_discoveries_entered-IsShown :
      (p : Param) (m : Machine) → IsShown n l m → IsShown n l (all_discoveries_entered p m)
  unfolding all_discoveries_entered
  all_discoveries_entered-IsShown no_param m v = record { next = v.next; last = v.last }
  all_discoveries_entered-IsShown (host_select d) m v = record { next = v.next; last = v.last }
  all_discoveries_entered-IsShown (all_discoveries d) m v =
      handle_discovery-IsShown d (record m { discoveries = [] })
        record { next = v.next; last = v.last }

  entered-IsShown :
      (s : State) (p : Param) (m : Machine) → IsShown n l m → IsShown n l (entered s p m)
  unfolding entered
  entered-IsShown discovery p m v = logs-IsShown (max_data_payload 0) m (λ s. (refl, refl)) v
  entered-IsShown w4_all_discoveries p m v = all_discoveries_entered-IsShown p m v
  entered-IsShown w4_host_select p m v = host_select_entered-IsShown p m v
  entered-IsShown init p m v = v
  entered-IsShown error p m v = v
  entered-IsShown stop p m v = v
  entered-IsShown idle p m v = v
  entered-IsShown poll_active p m v = v
  entered-IsShown listen_active p m v = v
  entered-IsShown listen_sleep p m v = v

  pub enter_internal-IsShown :
      (s : State) (p : Param) (m : Machine) → IsShown n l m → IsShown n l (enter_internal s p m)
  unfolding enter_internal
  enter_internal-IsShown s p m v = enter_with-IsShown (entered s p) (entered-IsShown s p) s m v

  pub enter_state-IsShown :
      (s : State) (p : Param) (m : Machine) → IsShown n l m → IsShown n l (enter_state s p m)
  unfolding enter_state
  enter_state-IsShown s p m v = emit-IsShown _ (enter_internal-IsShown s p m v)
