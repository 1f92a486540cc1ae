-- ===== src/Sm/Control/Enter.antt =====
-- What holds when src/nci_sm.c has entered a state, has stalled, or has told the core of its states.
use libncicore.Common.{◌+◌, ◌≡◌, refl, sym, ◌∙◌, ◌⊎◌, inl, inr, false, Option, none, some, arith}
use libncicore.Sm.Types.{State, Transition}
use libncicore.Sm.Machine.{Machine}
use libncicore.Sm.Start.{finish_active_transition}
use libncicore.Sm.Control.{
  start_transition, set_last_state, set_next_state, emit_next_state, emit_last_state,
  emit_pending_signals, activate, leave_active_state, start_next, take_next_transition, set_next_if,
  settle, enter_with,
}
use libncicore.Sm.Control.Frame.{
  same_state_sound, finish_active_transition-IsFrame, start_transition-IsStarted,
}

-- A state is active, or a transition, but not both.
abbrev pub IsExclusive : Machine → Type 0
IsExclusive m = (m.active ≡ none) ⊎ (m.active_state ≡ none)

-- Without a transition the next state is the last one.
abbrev pub IsSettled : Machine → Type 0
IsSettled m = (m.next_state ≡ m.last_state) ⊎ ((t : Transition) × (m.active ≡ some t))

pub record IsTold (m n : Machine) : Type 0 where
  pub active : n.active ≡ m.active
  pub state : n.active_state ≡ m.active_state
  pub depth : n.entering ≡ m.entering

pub set_last_state-IsTold :
    (s : State) (m : Machine)
    → IsTold m (set_last_state s m)
      × ((set_last_state s m).last_state ≡ s)
      × ((set_last_state s m).next_state ≡ m.next_state)
unfolding set_last_state
set_last_state-IsTold s m = ground (arith, same_state_sound m.last_state s)

pub set_next_state-IsTold :
    (s : State) (m : Machine)
    → IsTold m (set_next_state s m)
      × ((set_next_state s m).next_state ≡ s)
      × ((set_next_state s m).last_state ≡ m.last_state)
unfolding set_next_state
set_next_state-IsTold s m = ground (arith, same_state_sound m.next_state s)

pub start_transition-IsExclusive :
    (t : Transition) (m : Machine) → IsExclusive (start_transition t m).0
start_transition-IsExclusive t m = elim (start_transition-IsStarted t m).outcome [
  | inl o ↦ inr o.2
  | inr o ↦ inl o.1
]

start_next-IsExclusive :
    (o : Option Transition) (s : State) (m : Machine)
    → IsExclusive m
    → IsExclusive (start_next o s m) × ((start_next o s m).entering ≡ m.entering)
unfolding start_next
start_next-IsExclusive none s m x = (x, refl)
start_next-IsExclusive (some t) s m x =
    ground (arith, start_transition-IsExclusive t m, (start_transition-IsStarted t m).depth)

-- What is known of a machine in which a state has been entered.
pub record IsEntered (s : State) (m n : Machine) : Type 0 where
  pub settled : IsSettled n
  pub exclusive : IsExclusive n
  pub depth : n.entering ≡ m.entering
  pub last : n.last_state ≡ s

settle-IsEntered :
    (o : Option Transition) (s : State) (m : Machine)
    → m.active ≡ o
    → m.last_state ≡ s
    → IsExclusive m
    → IsEntered s m (set_next_if o s m)
unfolding set_next_if
settle-IsEntered none s m e l x =
    let (told, next, last) = set_next_state-IsTold s m in
    record {
      settled = inl (next ∙ sym (last ∙ l));
      exclusive = inl (told.active ∙ e);
      depth = told.depth;
      last = last ∙ l;
    }
settle-IsEntered (some t) s m e l x = record {
  settled = inr (t, e);
  exclusive = x;
  depth = refl;
  last = l;
}

told-IsExclusive : {m n : Machine} → IsTold m n → IsExclusive m → IsExclusive n
told-IsExclusive told (inl e) = inl (told.active ∙ e)
told-IsExclusive told (inr e) = inr (told.state ∙ e)

-- what the methods of a state keep
abbrev pub IsKeeping : (Machine → Machine) → Type 0
IsKeeping f = (m : Machine) → IsExclusive m → IsExclusive (f m) × ((f m).entering ≡ m.entering)

activate-active :
    (s : State) (m : Machine)
    → ((activate s m).active ≡ m.active) × ((activate s m).entering ≡ m.entering)
unfolding activate leave_active_state
activate-active s m = ground arith

pub enter_with-IsEntered :
    (f : Machine → Machine)
    → IsKeeping f
    → (s : State) (m : Machine) → IsEntered s m (enter_with f s m)
unfolding enter_with take_next_transition settle
enter_with-IsEntered f k s m =
    let deep = record m { entering = m.entering + 1 } in
    let (frame, over) = finish_active_transition-IsFrame deep in
    let begun = finish_active_transition deep in
    let (a, d) = activate-active s begun in
    let (x, d2) = k (activate s begun) (inl (a ∙ over)) in
    let entered = f (activate s begun) in
    let (x3, d3) =
      start_next-IsExclusive entered.next_transition s (record entered { next_transition = none })
        x in
    let taken = start_next entered.next_transition s (record entered { next_transition = none }) in
    let (told, last, next) = set_last_state-IsTold s taken in
    let e =
      settle-IsEntered (set_last_state s taken).active s (set_last_state s taken) refl last
        (told-IsExclusive told x3) in
    let depth : (settle s (set_last_state s taken)).entering ≡ m.entering + 1 =
      e.depth ∙ (told.depth ∙ (d3 ∙ (d2 ∙ (d ∙ frame.depth)))) in
    record {
      settled = e.settled;
      exclusive = e.exclusive;
      depth = omega (arith, depth);
      last = e.last;
    }

-- the signals
emit_last_state-IsTold :
    (m : Machine)
    → IsTold m (emit_last_state m)
      × ((emit_last_state m).last_state ≡ m.last_state)
      × ((emit_last_state m).next_state ≡ m.next_state)
      × ((emit_last_state m).last_pending ≡ false)
      × ((emit_last_state m).next_pending ≡ m.next_pending)
unfolding emit_last_state
emit_last_state-IsTold m = ground arith

emit_next_state-IsTold :
    (m : Machine)
    → IsTold m (emit_next_state m)
      × ((emit_next_state m).last_state ≡ m.last_state)
      × ((emit_next_state m).next_state ≡ m.next_state)
      × ((emit_next_state m).next_pending ≡ false)
unfolding emit_next_state
emit_next_state-IsTold m = ground arith

-- What a call of the state machine leaves: a state or a transition is active, the next state is the
-- last one without a transition, nothing is being entered, and both states have been signalled.
pub record IsConsistent (m : Machine) : Type 0 where
  pub settled : IsSettled m
  pub exclusive : IsExclusive m
  pub outside : m.entering ≡ 0
  pub told : (m.next_pending ≡ false) × (m.last_pending ≡ false)

pub emit-IsConsistent :
    (m : Machine)
    → IsSettled m
    → IsExclusive m
    → m.entering ≡ 0
    → IsConsistent (emit_pending_signals m)
unfolding emit_pending_signals
emit-IsConsistent m s x z =
    let (n1, n2, n3, n4) = emit_next_state-IsTold m in
    let (l1, l2, l3, l4, l5) = emit_last_state-IsTold (emit_next_state m) in
    record {
      settled = elim s [
        | inl e ↦ inl (l3 ∙ (n3 ∙ (e ∙ sym (l2 ∙ n2))))
        | inr (t, e) ↦ inr (t, l1.active ∙ (n1.active ∙ e))
      ];
      exclusive = told-IsExclusive l1 (told-IsExclusive n1 x);
      outside = l1.depth ∙ (n1.depth ∙ z);
      told = (l5 ∙ n4, l4);
    }

pub emit-IsKeeping : IsKeeping emit_pending_signals
unfolding emit_pending_signals
emit-IsKeeping m x =
    let n = (emit_next_state-IsTold m).0 in
    let l = (emit_last_state-IsTold (emit_next_state m)).0 in
    (told-IsExclusive l (told-IsExclusive n x), l.depth ∙ n.depth)

pub emit-IsTold :
    (m : Machine)
    → let n = emit_pending_signals m in
      IsTold m n × (n.last_state ≡ m.last_state) × (n.next_state ≡ m.next_state)
unfolding emit_pending_signals
emit-IsTold m =
    let (n1, n2, n3, n4) = emit_next_state-IsTold m in
    let (l1, l2, l3, l4, l5) = emit_last_state-IsTold (emit_next_state m) in
    (
      record {
        active = l1.active ∙ n1.active;
        state = l1.state ∙ n1.state;
        depth = l1.depth ∙ n1.depth;
      },
      l2 ∙ n2,
      l3 ∙ n3,
    )
