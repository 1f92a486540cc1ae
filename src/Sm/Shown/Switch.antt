-- ===== src/Sm/Shown/Switch.antt =====
-- The state signals of the calls in src/nci_sm.c.
use libncicore.Common.{ℕ, Bool, true, false, Option, none, some, ◌==◌, ltb, bit_and, arith}
use libncicore.Sm.Types.{
  State, Transition, state_id, same_state, is_internal_state, dest, init, idle, stall_error,
}
use libncicore.Sm.Tech
use libncicore.Sm.Machine.{Machine, no_param, without, get_transition}
use libncicore.Sm.Control.{start_transition, set_next_state}
use libncicore.Sm.Switch.{
  queue_after, switch_after, proceed, transition_to_idle, queue_from_idle, switch_from_idle,
  switch_by, switch_from, switch_internal, switch_to, switch_if, switch_proc, reset_machine,
  restart, set_op_mode, set_tech, transition_timeout,
}
use libncicore.Sm.Shown.{
  IsShown, if-IsShown, start_transition-IsShown, set_next_state-IsShown, emit-IsShown,
}
use libncicore.Sm.Shown.Enter.{stall_internal-IsShown, stall-IsShown, enter_internal-IsShown}

module _ {n l : State} where
  queue_after-IsShown :
      (o : Option Transition) (s : State) (m : Machine)
      → IsShown n l m
      → IsShown n l (queue_after o s m)
  unfolding queue_after
  queue_after-IsShown (some u) s m v =
      set_next_state-IsShown s (record m { next_transition = some u })
        record { next = v.next; last = v.last }
  queue_after-IsShown none s m v =
      if-IsShown (is_internal_state s) _ _ (enter_internal-IsShown s no_param m v)
        (stall_internal-IsShown stall_error m v)

  switch_after-IsShown :
      (t : Transition) (s : State) (m : Machine) → IsShown n l m → IsShown n l (switch_after t s m)
  unfolding switch_after
  switch_after-IsShown t s m v =
      if-IsShown (same_state (dest t) s) _ _ v (queue_after-IsShown _ s m v)

  queue_from_idle-IsShown :
      (o : Option Transition) (s : State) (m : Machine)
      → IsShown n l m
      → IsShown n l (queue_from_idle o s m)
  unfolding queue_from_idle
  queue_from_idle-IsShown (some u) s m v =
      set_next_state-IsShown s (record m { next_transition = some u })
        record { next = v.next; last = v.last }
  queue_from_idle-IsShown none s m v =
      stall_internal-IsShown stall_error (record m { next_transition = none })
        record { next = v.next; last = v.last }

  switch_from_idle-IsShown :
      (s : State) (m : Machine) → IsShown n l m → IsShown n l (switch_from_idle s m)
  unfolding switch_from_idle
  switch_from_idle-IsShown s m v =
      if-IsShown (same_state s idle) _ _ (set_next_state-IsShown idle m v)
        (queue_from_idle-IsShown _ s m v)

  proceed-IsShown :
      (f : Machine → Machine) (p : Machine × Bool)
      → ((m : Machine) → IsShown n l m → IsShown n l (f m))
      → IsShown n l p.0
      → IsShown n l (proceed f p)
  unfolding proceed
  proceed-IsShown f (m, true) h v = h m v
  proceed-IsShown f (m, false) h v = stall_internal-IsShown stall_error m v

  switch_by-IsShown :
      (o : Option Transition) (s : State) (m : Machine)
      → IsShown n l m
      → IsShown n l (switch_by o s m)
  unfolding switch_by
  switch_by-IsShown (some t) s m v =
      proceed-IsShown (set_next_state s) (start_transition t m) (set_next_state-IsShown s)
        (start_transition-IsShown t m v)
  switch_by-IsShown none s m v =
      let t = transition_to_idle (get_transition m.last_state idle) in
      if-IsShown (is_internal_state s) _ _ (enter_internal-IsShown s no_param m v) (
        proceed-IsShown (switch_from_idle s) (start_transition t m) (switch_from_idle-IsShown s)
          (start_transition-IsShown t m v))

  switch_from-IsShown :
      (o : Option Transition) (s : State) (m : Machine)
      → IsShown n l m
      → IsShown n l (switch_from o s m)
  unfolding switch_from
  switch_from-IsShown (some t) s m v = switch_after-IsShown t s m v
  switch_from-IsShown none s m v = switch_by-IsShown _ s m v

  switch_internal-IsShown :
      (s : State) (m : Machine) → IsShown n l m → IsShown n l (switch_internal s m)
  unfolding switch_internal
  switch_internal-IsShown s m v = if-IsShown (same_state m.next_state s) _ _ v (
      emit-IsShown _ (
        switch_from-IsShown m.active s (record m { next_transition = none })
          record { next = v.next; last = v.last }))

  pub switch_to-IsShown : (s : State) (m : Machine) → IsShown n l m → IsShown n l (switch_to s m)
  unfolding switch_to
  switch_to-IsShown s m v =
      if-IsShown (m.entering == 0) _ _
        (switch_internal-IsShown s (record m { pending_switch = none })
          record { next = v.next; last = v.last })
        record { next = v.next; last = v.last }

  switch_if-IsShown : (o : Option State) (m : Machine) → IsShown n l m → IsShown n l (switch_if o m)
  unfolding switch_if
  switch_if-IsShown none m v = v
  switch_if-IsShown (some s) m v =
      switch_internal-IsShown s (record m { pending_switch = none })
        record { next = v.next; last = v.last }

  pub switch_proc-IsShown : (m : Machine) → IsShown n l m → IsShown n l (switch_proc m)
  unfolding switch_proc
  switch_proc-IsShown m v = switch_if-IsShown m.pending_switch m v

  pub reset_machine-IsShown : (m : Machine) → IsShown n l m → IsShown n l (reset_machine m)
  unfolding reset_machine
  reset_machine-IsShown m v = emit-IsShown _ (
      switch_internal-IsShown idle _ (
        enter_internal-IsShown init no_param
          (record m { pending_switch = none; next_transition = none })
          record { next = v.next; last = v.last }))

  restart-IsShown : (m : Machine) → IsShown n l m → IsShown n l (restart m)
  unfolding restart
  restart-IsShown m v =
      if-IsShown (ltb (state_id idle) (state_id m.next_state)) _ _ (switch_to-IsShown idle m v) v

  pub set_op_mode-IsShown :
      (mode : ℕ) (m : Machine) → IsShown n l m → IsShown n l (set_op_mode mode m)
  unfolding set_op_mode
  set_op_mode-IsShown mode m v = if-IsShown (m.config.op_mode == mode) _ _ v (
      restart-IsShown (record m { config = record m.config { op_mode = mode } })
        record { next = v.next; last = v.last })

  pub set_tech-IsShown : (tech : ℕ) (m : Machine) → IsShown n l m → IsShown n l (set_tech tech m).0
  unfolding set_tech
  set_tech-IsShown tech m v =
      let k = record m { config = record m.config { techs = bit_and tech Tech.all } } in
      ground (arith, v, restart-IsShown k record { next = v.next; last = v.last })

  pub transition_timeout-IsShown :
      (t : Transition) (m : Machine) → IsShown n l m → IsShown n l (transition_timeout t m)
  unfolding transition_timeout
  transition_timeout-IsShown t m v =
      stall-IsShown stall_error (record m { timers = without t m.timers })
        record { next = v.next; last = v.last }
