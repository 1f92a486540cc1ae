-- ===== src/Core/Restart/Whole.antt =====
-- A restart of src/nci_core.c, from the call to IDLE, over the bytes that its HAL reads.
use libncicore.Common.{ℕ, ◌≡◌, refl, ap, ◌∙◌, true, Option, none, some, List, [], ◌∷◌, bit_and}
use libncicore.Util.Parse.{parsed}
use libncicore.Util.Types.{DiscoveryNtf}
use libncicore.Sar.Defs.{Sar}
use libncicore.Sar.Read.{array_bytes}
use libncicore.Sar.Inputs.{SameInput, reset_input}
use libncicore.Sar.Setup.{reset as reset_sar, empty_array}
use libncicore.Sm.Types.{idle, reset, success, version_2}
use libncicore.Sm.Machine.{
  Handler, Machine, reset_rsp, init_v1_rsp, init_v2_rsp, reset_set_config_rsp,
}
use libncicore.Sm.HostSelect.{Compare}
use libncicore.Sm.Switch.{reset_machine}
use libncicore.Sm.Respond.{respond}
use libncicore.Sm.Notify.{handle_ntf}
use libncicore.Sm.Steps.Recovery.{reset_started}
use libncicore.Sm.Steps.Restart.{reset_v1, reset_v2, notified_v2, init_answered, configured_idle}
use libncicore.Reset.{InitInfo, parse_init_v1, parse_init_v2, reset_ntf_ok}
use libncicore.Core.Object.{NciCore}
use libncicore.Core.Command.{cancel_command, ready, run}
use libncicore.Core.Client.{response_taken, sar_does, hal_read}
use libncicore.Core.Calls.{restart_internal}
use libncicore.Core.Awaited.{Awaited, awaited}
use libncicore.Core.Awaited.Run.{run-awaits}
use libncicore.Core.Inputs.{run_read, sar_does_read, cancel_command_read}
use libncicore.Core.Restart.{reset_machine-awaits, reset_v1-awaits, init-awaits, notified_v2-awaits}
use libncicore.Core.Well.{IsWell}
use libncicore.Core.Well.Calls.{hal_read-IsWell, restart_internal-IsWell}
use libncicore.Core.Wire.{
  core_response, core_notification, IsRead, response_read, notification_read,
}
use libncicore.Core.Requests.{machine_awaits}

-- The reset is under way, and the response to a command of the core group is awaited.
record IsResetting (oid : ℕ) (rsp : Handler) (c : NciCore) : Type 0 where
  active : c.sm.active ≡ some reset
  awaits : awaited c ≡ some (0, oid, rsp)
  read : IsRead c.sar

unread-IsRead : {s t : Sar} → SameInput s t → IsRead s → IsRead t
unread-IsRead k v = record {
  read_buf = ap array_bytes k.read_buf ∙ v.read_buf;
  control_in = ap array_bytes k.control_in ∙ v.control_in;
}

emptied : (o : Option (List ℕ)) → array_bytes (empty_array o) ≡ []
emptied none = refl
emptied (some bytes) = refl

module _ (insert_sorted : Compare → List DiscoveryNtf → DiscoveryNtf → List DiscoveryNtf) where
  -- a call of the state machine that sends the next command of a reset
  run-IsResetting :
      (oid : ℕ) (rsp : Handler) (f : Machine → Machine) (c : NciCore)
      → (f (ready c)).active ≡ some reset
      → ((w : Awaited) → machine_awaits insert_sorted w (f (ready c)) ≡ some (0, oid, rsp))
      → IsRead c.sar
      → IsResetting oid rsp (run insert_sorted f c)
  run-IsResetting oid rsp f c a w v =
      let (m, q, s, n, l) = run-awaits insert_sorted f c in
      record {
        active = ap (λ x. x.active) m ∙ a;
        awaits = q ∙ w (awaited c);
        read = unread-IsRead (run_read insert_sorted f c) v;
      }

  -- a response that is answered by the next command
  next-IsResetting :
      (k oid : ℕ) (rsp h : Handler) (p : List ℕ) (c : NciCore)
      → bit_and k 0x3f ≡ k
      → IsResetting k h c
      → ((m : Machine)
          → m.active ≡ some reset
          → m.io_sends ≡ true
          → ((respond h success p m).active ≡ some reset)
            × ((w : Awaited)
                → machine_awaits insert_sorted w (respond h success p m) ≡ some (0, oid, rsp)))
      → IsResetting oid rsp (hal_read insert_sorted c (core_response k p))
  next-IsResetting k oid rsp h p c e v f =
      let (a, w) = f (ready (response_taken c)) v.active refl in
      rw (response_read insert_sorted c k h p v.read v.awaits e)
        (run-IsResetting oid rsp (respond h success p) (response_taken c) a w v.read)

  -- CORE_RESET has been sent, whatever was under way
  restart-IsResetting :
      (c : NciCore)
      → array_bytes c.sar.read_buf ≡ []
      → IsResetting 0 reset_rsp (restart_internal insert_sorted c)
  unfolding restart_internal
  restart-IsResetting c h =
      let stopped = cancel_command c in
      let d = sar_does insert_sorted (reset_sar stopped.sar) stopped in
      let k = cancel_command_read c in
      let r = reset_input stopped.sar in
      let s = sar_does_read insert_sorted (reset_sar stopped.sar) stopped in
      run-IsResetting 0 reset_rsp reset_machine d (reset_started (ready d) refl)
        (λ w. reset_machine-awaits insert_sorted w (ready d) refl)
        record {
          read_buf = ap array_bytes (s.read_buf ∙ (r.0 ∙ k.read_buf)) ∙ h;
          control_in = ap array_bytes (s.control_in ∙ r.1) ∙ emptied stopped.sar.control_in;
        }

  -- the last response ends in IDLE
  idle_reached :
      (p : List ℕ) (c : NciCore)
      → IsWell c
      → IsResetting 2 reset_set_config_rsp c
      → (hal_read insert_sorted c (core_response 2 p)).current_state ≡ idle
  idle_reached p c v r =
      let here = response_read insert_sorted c 2 reset_set_config_rsp p r.read r.awaits refl in
      let f = respond reset_set_config_rsp success p in
      let w = hal_read-IsWell insert_sorted c (core_response 2 p) v in
      w.current
      ∙ (ap (λ x. x.sm.last_state) here
          ∙ (ap (λ m. m.last_state) (run-awaits insert_sorted f (response_taken c)).0
              ∙ configured_idle p (ready (response_taken c)) r.active))

  initialized_v1 :
      (pkt : List ℕ) (i : InitInfo) (c : NciCore)
      → parse_init_v1 pkt ≡ parsed i
      → IsResetting 1 init_v1_rsp c
      → IsResetting 2 reset_set_config_rsp (hal_read insert_sorted c (core_response 1 pkt))
  initialized_v1 pkt i c p r =
      next-IsResetting 1 2 reset_set_config_rsp init_v1_rsp pkt c refl r (λ m a e.
        ((init_answered i pkt m a).0 p, λ w. (init-awaits insert_sorted w i pkt m a e).0 p))

  initialized_v2 :
      (pkt : List ℕ) (i : InitInfo) (c : NciCore)
      → parse_init_v2 pkt ≡ parsed i
      → IsResetting 1 init_v2_rsp c
      → IsResetting 2 reset_set_config_rsp (hal_read insert_sorted c (core_response 1 pkt))
  initialized_v2 pkt i c p r =
      next-IsResetting 1 2 reset_set_config_rsp init_v2_rsp pkt c refl r (λ m a e.
        ((init_answered i pkt m a).1 p, λ w. (init-awaits insert_sorted w i pkt m a e).1 p))

  -- the response of an NFCC of version 2, and its notification
  notified :
      (ntf : List ℕ) (c : NciCore)
      → reset_ntf_ok ntf ≡ parsed tt
      → IsResetting 0 reset_rsp c
      → IsResetting 1 init_v2_rsp (
          hal_read insert_sorted
            (hal_read insert_sorted c (core_response 0 (0 ∷ [])))
            (core_notification 0 ntf))
  notified ntf c n r =
      let f = respond reset_rsp success (0 ∷ []) in
      let d = run insert_sorted f (response_taken c) in
      let (a, v) = reset_v2 (ready (response_taken c)) r.active in
      let m = (run-awaits insert_sorted f (response_taken c)).0 in
      let b : d.sm.active ≡ some reset = ap (λ x. x.active) m ∙ a in
      let u : d.sm.config.version ≡ version_2 = ap (λ x. x.config.version) m ∙ v in
      let q = unread-IsRead (run_read insert_sorted f (response_taken c)) r.read in
      let first = response_read insert_sorted c 0 reset_rsp (0 ∷ []) r.read r.awaits refl in
      let second = notification_read insert_sorted d 0 ntf q refl in
      rw (first, second)
        (run-IsResetting 1 init_v2_rsp (handle_ntf 0 0 ntf) d (notified_v2 ntf (ready d) b u n)
          (λ w. notified_v2-awaits insert_sorted w ntf (ready d) b u n refl) q)

  -- From any state of the object that is between two calls, with no bytes of a packet that is not
  -- whole, a restart ends with IDLE as the current state when the HAL then reads, each in one
  -- packet, the responses of an NFCC of version 1, or those of one of version 2 with a
  -- CORE_RESET_NTF that is accepted after the first: CORE_RESET_RSP with status OK, a
  -- CORE_INIT_RSP that its parser accepts, and any answer to CORE_SET_CONFIG.
  pub restart_over_hal :
      (c : NciCore) (v k : ℕ) (ntf pkt1 pkt2 answer : List ℕ) (i j : InitInfo)
      → IsWell c
      → array_bytes c.sar.read_buf ≡ []
      → reset_ntf_ok ntf ≡ parsed tt
      → parse_init_v1 pkt1 ≡ parsed i
      → parse_init_v2 pkt2 ≡ parsed j
      → let reads : NciCore → List ℕ → NciCore = hal_read insert_sorted in
        let begun = restart_internal insert_sorted c in
        let reset1 = reads begun (core_response 0 (0 ∷ v ∷ k ∷ [])) in
        let reset2 = reads (reads begun (core_response 0 (0 ∷ []))) (core_notification 0 ntf) in
        ((reads (reads reset1 (core_response 1 pkt1)) (core_response 2 answer)).current_state
          ≡ idle)
        × ((reads (reads reset2 (core_response 1 pkt2)) (core_response 2 answer)).current_state
            ≡ idle)
  restart_over_hal c v k ntf pkt1 pkt2 answer i j w h n p q =
      let begun = restart_internal insert_sorted c in
      let w0 = restart_internal-IsWell insert_sorted c w in
      let r0 = restart-IsResetting c h in
      let reset1 = hal_read insert_sorted begun (core_response 0 (0 ∷ v ∷ k ∷ [])) in
      let reset2 =
        hal_read insert_sorted (hal_read insert_sorted begun (core_response 0 (0 ∷ [])))
          (core_notification 0 ntf) in
      let r1 : IsResetting 1 init_v1_rsp reset1 =
        next-IsResetting 0 1 init_v1_rsp reset_rsp (0 ∷ v ∷ k ∷ []) begun refl r0
          (λ m a e. (reset_v1 v k m a, λ x. reset_v1-awaits insert_sorted x v k m a e)) in
      let reads_well = hal_read-IsWell insert_sorted in
      let w1 = reads_well begun (core_response 0 (0 ∷ v ∷ k ∷ [])) w0 in
      let w2 =
        reads_well (hal_read insert_sorted begun (core_response 0 (0 ∷ [])))
          (core_notification 0 ntf) (reads_well begun (core_response 0 (0 ∷ [])) w0) in
      (
        idle_reached answer (hal_read insert_sorted reset1 (core_response 1 pkt1))
            (reads_well reset1 (core_response 1 pkt1) w1) (initialized_v1 pkt1 i reset1 p r1),
        idle_reached answer (hal_read insert_sorted reset2 (core_response 1 pkt2))
            (reads_well reset2 (core_response 1 pkt2) w2)
            (initialized_v2 pkt2 j reset2 q (notified ntf begun n r0)),
      )
