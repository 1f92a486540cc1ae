-- ===== src/Sm/Shown/Notices.antt =====
-- The state signals of the notifications to transitions in src/nci_sm.c.
use libncicore.Common.{ℕ, zero, suc, refl, ◌&&◌, List, [], ◌∷◌, ◌==◌, leb, length, ◌*◌}
use libncicore.Util.Parse.{Parse, parsed, refused, overrun}
use libncicore.Util.Types.{IntfActivationNtf, RfDeactivateNtf}
use libncicore.Util.Ntf.{parse_rf_deactivate_ntf}
use libncicore.Sm.Types.{
  State, Transition, idle, discovery, reset, idle_to_discovery, deactivate_to_idle,
  deactivate_to_discovery, poll_active_to_idle, listen_active_to_idle, stall_error,
}
use libncicore.Sm.Machine.{Param, Machine, init_v2_rsp, credits_added, no_param, logs, send_command}
use libncicore.Sm.Control.{enter_state}
use libncicore.Sm.Shown.{IsShown, logs-IsShown, send-IsShown, if-IsShown}
use libncicore.Sm.Shown.Enter.{stall-IsShown, enter_state-IsShown}
use libncicore.Reset.{reset_ntf_ok}
use libncicore.Sm.Notify.{
  with_parsed, add_credits_loop, handle_conn_credits_ntf, deactivated, handle_rf_deactivate_ntf,
  intf_activated, default_ntf, reset_ntf, keep_deactivated, deactivation_ntf, transition_ntf,
  error_stall, init_again, is_version_2,
}

-- what tells of the states that it changes
abbrev pub Tells : State → State → (Machine → Machine) → Type 0
Tells n l f = (m : Machine) → IsShown n l m → IsShown n l (f m)

module _ {nx lx : State} where
  pub stall-Tells : Tells nx lx error_stall
  stall-Tells m v = stall-IsShown stall_error m v

  pub enter-Tells : (s : State) (p : Param) → Tells nx lx (enter_state s p)
  enter-Tells s p m v = enter_state-IsShown s p m v

  pub same-Tells : Tells nx lx (λ m. m)
  same-Tells m v = v

  pub with_parsed-Tells {ℓ} :
      {A : Type ℓ} (p : Parse A) (f : A → Machine → Machine) (g : Machine → Machine)
      → ((a : A) → Tells nx lx (f a))
      → Tells nx lx g
      → Tells nx lx (with_parsed p f g)
  unfolding with_parsed
  with_parsed-Tells (parsed a) f g k l m v = k a m v
  with_parsed-Tells refused f g k l m v = l m v
  with_parsed-Tells overrun f g k l m v = record { next = v.next; last = v.last }

  add_credits_loop-Tells : (n : ℕ) (l : List ℕ) → Tells nx lx (add_credits_loop n l)
  unfolding add_credits_loop
  add_credits_loop-Tells zero l m v = v
  add_credits_loop-Tells (suc n) [] m v = v
  add_credits_loop-Tells (suc n) (c ∷ []) m v = v
  add_credits_loop-Tells (suc n) (c ∷ k ∷ l) m v =
      add_credits_loop-Tells n l (logs (credits_added c k) m)
        (logs-IsShown _ m (λ s. (refl, refl)) v)

  handle_conn_credits_ntf-Tells : (pkt : List ℕ) → Tells nx lx (handle_conn_credits_ntf pkt)
  unfolding handle_conn_credits_ntf
  handle_conn_credits_ntf-Tells [] m v = stall-Tells m v
  handle_conn_credits_ntf-Tells (n ∷ l) m v =
      if-IsShown (leb (2 * n) (length l)) _ _ (add_credits_loop-Tells n l m v) (stall-Tells m v)

  deactivated-Tells : (n : RfDeactivateNtf) → Tells nx lx (deactivated n)
  unfolding deactivated
  deactivated-Tells n m v =
      if-IsShown (n.type == 0x00) _ _ (enter-Tells idle no_param m v)
        (if-IsShown (n.type == 0x03) _ _ (enter-Tells discovery no_param m v) (stall-Tells m v))

  handle_rf_deactivate_ntf-Tells : (pkt : List ℕ) → Tells nx lx (handle_rf_deactivate_ntf pkt)
  unfolding handle_rf_deactivate_ntf
  handle_rf_deactivate_ntf-Tells pkt =
      with_parsed-Tells (parse_rf_deactivate_ntf pkt) deactivated error_stall deactivated-Tells
        stall-Tells

  pub intf_activated-Tells : (n : IntfActivationNtf) → Tells nx lx (intf_activated n)
  unfolding intf_activated
  intf_activated-Tells n m v =
      logs-IsShown _ _ (λ s. (refl, refl))
        (logs-IsShown _ _ (λ s. (refl, refl)) (logs-IsShown _ m (λ s. (refl, refl)) v))

  pub default_ntf-Tells : (gid oid : ℕ) (pkt : List ℕ) → Tells nx lx (default_ntf gid oid pkt)
  unfolding default_ntf
  default_ntf-Tells gid oid pkt m v =
      if-IsShown (gid == 0 && oid == 6) _ _ (handle_conn_credits_ntf-Tells pkt m v) v

  keep_deactivated-Tells : (n : RfDeactivateNtf) → Tells nx lx (keep_deactivated n)
  unfolding keep_deactivated
  keep_deactivated-Tells n m v =
      if-IsShown (m.expecting_ntf && (n.type == 0x00 && n.reason == 0x00)) _ _
        (enter-Tells idle no_param m v) (record { next = v.next; last = v.last })

  pub deactivation_ntf-Tells :
      (gid oid : ℕ) (pkt : List ℕ) → Tells nx lx (deactivation_ntf gid oid pkt)
  unfolding deactivation_ntf
  deactivation_ntf-Tells gid oid pkt m v =
      if-IsShown (gid == 1 && oid == 6) _ _ (handle_rf_deactivate_ntf-Tells pkt m v)
        (default_ntf-Tells gid oid pkt m v)

  init_again-Tells : (pkt : List ℕ) → Tells nx lx (init_again pkt)
  unfolding init_again
  init_again-Tells pkt =
      with_parsed-Tells (reset_ntf_ok pkt) (λ _ k. send_command 0 1 (0 ∷ 0 ∷ []) init_v2_rsp k)
        (λ k. k) (λ _ k w. send-IsShown _ _ _ _ k w) same-Tells

  reset_ntf-Tells : (gid oid : ℕ) (pkt : List ℕ) → Tells nx lx (reset_ntf gid oid pkt)
  unfolding reset_ntf
  reset_ntf-Tells gid oid pkt m v =
      if-IsShown (gid == 0 && (oid == 0 && is_version_2 m.config.version)) _ _
        (init_again-Tells pkt m v) (default_ntf-Tells gid oid pkt m v)

  pub transition_ntf-Tells :
      (t : Transition) (gid oid : ℕ) (pkt : List ℕ) → Tells nx lx (transition_ntf t gid oid pkt)
  unfolding transition_ntf
  transition_ntf-Tells reset gid oid pkt m v = reset_ntf-Tells gid oid pkt m v
  transition_ntf-Tells idle_to_discovery gid oid pkt m v = default_ntf-Tells gid oid pkt m v
  transition_ntf-Tells deactivate_to_idle gid oid pkt m v = default_ntf-Tells gid oid pkt m v
  transition_ntf-Tells deactivate_to_discovery gid oid pkt m v =
      deactivation_ntf-Tells gid oid pkt m v
  transition_ntf-Tells poll_active_to_idle gid oid pkt m v = deactivation_ntf-Tells gid oid pkt m v
  transition_ntf-Tells listen_active_to_idle gid oid pkt m v =
      if-IsShown (gid == 1 && oid == 6) _ _
        (with_parsed-Tells (parse_rf_deactivate_ntf pkt) keep_deactivated error_stall
          keep_deactivated-Tells stall-Tells m v)
        (default_ntf-Tells gid oid pkt m v)
