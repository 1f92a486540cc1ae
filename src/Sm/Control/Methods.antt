-- ===== src/Sm/Control/Methods.antt =====
-- Entering any state of src/nci_sm.c, with the method of that state, and stalling.
use libncicore.Common.{◌≡◌, refl, sym, ◌∙◌, inl, none, List, [], ◌∷◌, ◌++◌, arith}
use libncicore.Util.Types.{DiscoveryNtf}
use libncicore.Sm.Types.{
  State, Stall, init, error, stop, idle, discovery, w4_all_discoveries, w4_host_select, poll_active,
  listen_active, listen_sleep,
}
use libncicore.Sm.Machine.{
  Param, Machine, io_cancelled, no_param, all_discoveries, host_select, logs,
}
use libncicore.Sm.Start.{finish_active_transition}
use libncicore.Sm.Control.{
  set_last_state, set_next_state, stall_internal, stall_state, activate, leave_active_state,
  enter_with, host_select_entered, select_target, supported, enter_host_select, handle_discovery,
  all_discoveries_entered, entered, enter_internal, enter_state, stall,
}
use libncicore.Sm.Control.Frame.{finish_active_transition-IsFrame}
use libncicore.Sm.Control.Enter.{
  IsKeeping, IsEntered, IsConsistent, set_last_state-IsTold, set_next_state-IsTold,
  enter_with-IsEntered, emit-IsConsistent, emit-IsKeeping, emit-IsTold,
}

select_target-IsKeeping : (l : List DiscoveryNtf) → IsKeeping (select_target l)
unfolding select_target
select_target-IsKeeping [] m x = (x, refl)
select_target-IsKeeping (d ∷ ds) m x = ground (arith, x)

host_select_entered-IsKeeping : (p : Param) → IsKeeping (host_select_entered p)
unfolding host_select_entered
host_select_entered-IsKeeping no_param m x = (x, refl)
host_select_entered-IsKeeping (all_discoveries d) m x = (x, refl)
host_select_entered-IsKeeping (host_select l) m x =
    select_target-IsKeeping (supported m.config l) m x

enter_host_select-IsKeeping : (p : Param) → IsKeeping (enter_host_select p)
unfolding enter_host_select
enter_host_select-IsKeeping p m x =
    let e =
      enter_with-IsEntered (host_select_entered p) (host_select_entered-IsKeeping p) w4_host_select
        m in
    let (k, d) = emit-IsKeeping (enter_with (host_select_entered p) w4_host_select m) e.exclusive in
    (k, d ∙ e.depth)

pub handle_discovery-IsKeeping : (d : DiscoveryNtf) → IsKeeping (handle_discovery d)
unfolding handle_discovery
handle_discovery-IsKeeping d m x =
    let stored = record m { discoveries = m.discoveries ++ (d ∷ []) } in
    ground (arith, enter_host_select-IsKeeping (host_select stored.discoveries) stored x)

all_discoveries_entered-IsKeeping : (p : Param) → IsKeeping (all_discoveries_entered p)
unfolding all_discoveries_entered
all_discoveries_entered-IsKeeping no_param m x = (x, refl)
all_discoveries_entered-IsKeeping (host_select l) m x = (x, refl)
all_discoveries_entered-IsKeeping (all_discoveries d) m x =
    handle_discovery-IsKeeping d (record m { discoveries = [] }) x

entered-IsKeeping : (s : State) (p : Param) → IsKeeping (entered s p)
unfolding entered
entered-IsKeeping discovery p m x = (x, refl)
entered-IsKeeping w4_all_discoveries p m x = all_discoveries_entered-IsKeeping p m x
entered-IsKeeping w4_host_select p m x = host_select_entered-IsKeeping p m x
entered-IsKeeping init p m x = (x, refl)
entered-IsKeeping error p m x = (x, refl)
entered-IsKeeping stop p m x = (x, refl)
entered-IsKeeping idle p m x = (x, refl)
entered-IsKeeping poll_active p m x = (x, refl)
entered-IsKeeping listen_active p m x = (x, refl)
entered-IsKeeping listen_sleep p m x = (x, refl)

pub enter_internal-IsEntered :
    (s : State) (p : Param) (m : Machine) → IsEntered s m (enter_internal s p m)
unfolding enter_internal
enter_internal-IsEntered s p m = enter_with-IsEntered (entered s p) (entered-IsKeeping s p) s m

pub enter_state-IsConsistent :
    (s : State) (p : Param) (m : Machine) → m.entering ≡ 0 → IsConsistent (enter_state s p m)
unfolding enter_state
enter_state-IsConsistent s p m z =
    let e = enter_internal-IsEntered s p m in
    emit-IsConsistent (enter_internal s p m) e.settled e.exclusive (e.depth ∙ z)

pub enter_state_last : (s : State) (p : Param) (m : Machine) → (enter_state s p m).last_state ≡ s
unfolding enter_state
enter_state_last s p m =
    (emit-IsTold (enter_internal s p m)).1 ∙ (enter_internal-IsEntered s p m).last

activate-IsTold :
    (s : State) (m : Machine)
    → ((activate s m).active ≡ m.active)
      × ((activate s m).entering ≡ m.entering)
      × ((activate s m).last_state ≡ m.last_state)
      × ((activate s m).next_state ≡ m.next_state)
unfolding activate leave_active_state
activate-IsTold s m = ground arith

-- A stall ends in its state, with no transition left.
pub stall_internal_lem :
    (type : Stall) (m : Machine)
    → let n = stall_internal type m in
      (n.active ≡ none)
      × (n.last_state ≡ stall_state type)
      × (n.next_state ≡ stall_state type)
      × (n.entering ≡ m.entering)
unfolding stall_internal
stall_internal_lem type m =
    let s = stall_state type in
    let cancelled = finish_active_transition (logs io_cancelled m) in
    let (frame, over) = finish_active_transition-IsFrame (logs io_cancelled m) in
    let (l1, l2, l3) = set_last_state-IsTold s cancelled in
    let (n1, n2, n3) = set_next_state-IsTold s (set_last_state s cancelled) in
    let (a1, a2, a3, a4) = activate-IsTold s (set_next_state s (set_last_state s cancelled)) in
    (
      a1 ∙ (n1.active ∙ (l1.active ∙ over)),
      a3 ∙ (n3 ∙ l2),
      a4 ∙ n2,
      a2 ∙ (n1.depth ∙ (l1.depth ∙ frame.depth)),
    )

pub stall-IsConsistent : (type : Stall) (m : Machine) → m.entering ≡ 0 → IsConsistent (stall type m)
unfolding stall
stall-IsConsistent type m z =
    let (a, l, n, d) = stall_internal_lem type m in
    emit-IsConsistent (stall_internal type m) (inl (n ∙ sym l)) (inl a) (d ∙ z)

pub handle_discovery-IsConsistent :
    (d : DiscoveryNtf) (m : Machine) → IsConsistent m → IsConsistent (handle_discovery d m)
unfolding handle_discovery enter_host_select
handle_discovery-IsConsistent d m v =
    let stored = record m { discoveries = m.discoveries ++ (d ∷ []) } in
    let p = host_select stored.discoveries in
    let e =
      enter_with-IsEntered (host_select_entered p) (host_select_entered-IsKeeping p) w4_host_select
        stored in
    let kept : IsConsistent stored = record {
      settled = v.settled;
      exclusive = v.exclusive;
      outside = v.outside;
      told = v.told;
    } in
    ground (
      arith,
      kept,
      emit-IsConsistent (enter_with (host_select_entered p) w4_host_select stored) e.settled
          e.exclusive (e.depth ∙ v.outside),
    )

-- Whatever a state machine was doing, a stall leaves it without an active transition, and with the
-- state of the stall as its last and as its next state.
pub stall_settles :
    (type : Stall) (m : Machine)
    → let n = stall type m in
      (n.active ≡ none) × (n.last_state ≡ stall_state type) × (n.next_state ≡ stall_state type)
unfolding stall
stall_settles type m =
    let (a, l, n, d) = stall_internal_lem type m in
    let (told, last, next) = emit-IsTold (stall_internal type m) in
    (told.active ∙ a, last ∙ l, next ∙ n)
