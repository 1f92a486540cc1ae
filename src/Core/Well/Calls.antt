-- ===== src/Core/Well/Calls.antt =====
-- Reads and the calls of an application, and what holds of a `NciCore` of src/nci_core.c.
use libncicore.Common.{
  ℕ, zero, suc, refl, inl, inr, Option, List, [], ◌∷◌, arith, length, ◌++◌, Option-cases,
}
use libncicore.Util.Types.{DiscoveryNtf}
use libncicore.Sar.Setup.{reset}
use libncicore.Sar.Read.{array_bytes, next_packet, handle_segment}
use libncicore.Sm.Types.{Config}
use libncicore.Sm.HostSelect.{Compare}
use libncicore.Sm.Switch.{reset_machine}
use libncicore.Sm.Switch.Calls.{reset_machine-IsConsistent, same-IsConsistent}
use libncicore.Sm.Shown.Switch.{reset_machine-IsShown}
use libncicore.Core.{CoreParamKey}
use libncicore.Core.Object.{NciCore, SendData, emits, param_changed}
use libncicore.Core.Command.{cancel_command}
use libncicore.Core.Client.{sar_does, read_packets, keep_rest, read_buffered, read_rest, hal_read}
use libncicore.Core.Calls.{
  send_data_msg, keep_send, signal_changes, configure, restart_internal, changed,
}
use libncicore.Core.Awaited.{cancel_command-IsStopped}
use libncicore.Core.Well.{IsWell, idle-IsWell, run-IsWell, sar_does-IsWell}

module _ (insert_sorted : Compare → List DiscoveryNtf → DiscoveryNtf → List DiscoveryNtf) where
  read_packets-IsWell :
      (fuel : ℕ) (c : NciCore) (bytes : List ℕ)
      → IsWell c
      → IsWell (read_packets insert_sorted fuel c bytes).0
  unfolding read_packets
  read_packets-IsWell zero c bytes v = v
  read_packets-IsWell (suc fuel) c bytes v = elim (Option-cases (next_packet bytes)) [
    | inl e ↦ rw (e, read_packets) v
    | inr ((p, rest), e) ↦
        rw (e, read_packets)
          (read_packets-IsWell fuel (sar_does insert_sorted (handle_segment c.sar p) c) rest
            (sar_does-IsWell insert_sorted (handle_segment c.sar p) c v))
  ]

  read_buffered-IsWell :
      (c : NciCore) (bytes : List ℕ) → IsWell c → IsWell (read_buffered insert_sorted c bytes)
  unfolding read_buffered keep_rest
  read_buffered-IsWell c [] v = v
  read_buffered-IsWell c (x ∷ xs) v =
      let bytes = array_bytes c.sar.read_buf ++ (x ∷ xs) in
      let w = read_packets-IsWell (length bytes) c bytes v in
      record { sound = w.sound; consistent = w.consistent; next = w.next; current = w.current }

  pub hal_read-IsWell :
      (c : NciCore) (bytes : List ℕ) → IsWell c → IsWell (hal_read insert_sorted c bytes)
  unfolding hal_read read_rest
  hal_read-IsWell c bytes v =
      let r = read_packets insert_sorted (length bytes) c bytes in
      let w = read_buffered-IsWell r.0 r.1 (read_packets-IsWell (length bytes) c bytes v) in
      ground (arith, w, read_buffered-IsWell c bytes v)

  pub restart_internal-IsWell : (c : NciCore) → IsWell c → IsWell (restart_internal insert_sorted c)
  unfolding restart_internal
  restart_internal-IsWell c v =
      let s = cancel_command-IsStopped c in
      let stopped = cancel_command c in
      let w = idle-IsWell s.idle s.timer (s.sm, s.next, s.current) v in
      run-IsWell insert_sorted reset_machine
        record {
          consistent = λ m h. reset_machine-IsConsistent m h.outside;
          tells = reset_machine-IsShown;
        }
        (sar_does insert_sorted (reset stopped.sar) stopped)
        (sar_does-IsWell insert_sorted (reset stopped.sar) stopped w)

  signal_changes-IsWell :
      (ks : List CoreParamKey) (c : NciCore) → IsWell c → IsWell (signal_changes ks c)
  unfolding signal_changes
  signal_changes-IsWell [] c v = v
  signal_changes-IsWell (k ∷ ks) c v =
      signal_changes-IsWell ks (emits (param_changed k) c)
        (record { sound = v.sound; consistent = v.consistent; next = v.next; current = v.current })

  pub configure-IsWell : (p : Config) (c : NciCore) → IsWell c → IsWell (configure p c)
  configure-IsWell p c v = record {
    sound = v.sound;
    consistent =
        same-IsConsistent c.sm (record c.sm { config = p }) v.consistent
          (refl, refl, refl, refl, refl, refl, refl);
    next = v.next;
    current = v.current;
  }

  pub changed-IsWell :
      (ks : List CoreParamKey) (c : NciCore) → IsWell c → IsWell (changed insert_sorted ks c)
  unfolding changed
  changed-IsWell [] c v = v
  changed-IsWell (k ∷ ks) c v =
      restart_internal-IsWell (signal_changes (k ∷ ks) c) (signal_changes-IsWell (k ∷ ks) c v)

  pub send_data_msg-IsWell :
      (cid : ℕ) (payload : Option (List ℕ)) (d : SendData) (c : NciCore)
      → IsWell c
      → IsWell (send_data_msg cid payload d c).0
  unfolding send_data_msg keep_send
  send_data_msg-IsWell cid payload d c v = ground (arith, v.sound, v.consistent, v.next, v.current)
