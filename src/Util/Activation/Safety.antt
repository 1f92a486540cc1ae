-- ===== src/Util/Activation/Safety.antt =====
-- The activation parameter parsers of src/nci_util.c and the ends of their input.
use libncicore.Common.{ℕ, ◌≤◌, ◌<◌, ◌≡◌, ◌↔◌, ◌≢◌, refl, List, length, get_or, arith}
use libncicore.Util.Parse.{overrun, IsSafe}
use libncicore.Util.Types.{
  NciMode, passive_poll_a, passive_poll_b, passive_poll_f, active_poll_a, active_poll_f,
  passive_listen_a, passive_listen_b, passive_listen_f, active_listen_a, active_listen_f,
  RfInterface, iso_dep, nfc_dep,
}
use libncicore.Util.Activation.{
  parse_iso_dep_poll_a, parse_iso_dep_listen_a, parse_iso_dep_poll_b, parse_iso_dep_listen_b,
  parse_nfc_dep_poll, parse_nfc_dep_listen, parse_iso_dep, parse_nfc_dep, parse_activation_param,
}

module _ (bytes : List ℕ) (some_byte : 0 < length bytes) where
  parse_iso_dep_poll_a-IsSafe : IsSafe (parse_iso_dep_poll_a bytes)
  unfolding parse_iso_dep_poll_a
  parse_iso_dep_poll_a-IsSafe = ground arith

  parse_iso_dep_listen_a-IsSafe : IsSafe (parse_iso_dep_listen_a bytes)
  unfolding parse_iso_dep_listen_a
  parse_iso_dep_listen_a-IsSafe = ground arith

  parse_iso_dep_listen_b-IsSafe : IsSafe (parse_iso_dep_listen_b bytes)
  unfolding parse_iso_dep_listen_b
  parse_iso_dep_listen_b-IsSafe = ground arith

  parse_nfc_dep_poll-IsSafe : IsSafe (parse_nfc_dep_poll bytes)
  unfolding parse_nfc_dep_poll
  parse_nfc_dep_poll-IsSafe = ground arith

  parse_nfc_dep_listen-IsSafe : IsSafe (parse_nfc_dep_listen bytes)
  unfolding parse_nfc_dep_listen
  parse_nfc_dep_listen-IsSafe = ground arith

  parse_iso_dep-IsSafe :
      (mode : NciMode) → mode ≢ passive_poll_b → IsSafe (parse_iso_dep mode bytes)
  unfolding parse_iso_dep
  parse_iso_dep-IsSafe passive_poll_b h = absurd (h refl)
  parse_iso_dep-IsSafe passive_poll_a h = parse_iso_dep_poll_a-IsSafe
  parse_iso_dep-IsSafe active_poll_a h = parse_iso_dep_poll_a-IsSafe
  parse_iso_dep-IsSafe passive_listen_a h = parse_iso_dep_listen_a-IsSafe
  parse_iso_dep-IsSafe active_listen_a h = parse_iso_dep_listen_a-IsSafe
  parse_iso_dep-IsSafe passive_listen_b h = parse_iso_dep_listen_b-IsSafe
  parse_iso_dep-IsSafe _ h = tt

  parse_nfc_dep-IsSafe : (mode : NciMode) → IsSafe (parse_nfc_dep mode bytes)
  unfolding parse_nfc_dep
  parse_nfc_dep-IsSafe active_poll_a = parse_nfc_dep_poll-IsSafe
  parse_nfc_dep-IsSafe active_poll_f = parse_nfc_dep_poll-IsSafe
  parse_nfc_dep-IsSafe passive_poll_a = parse_nfc_dep_poll-IsSafe
  parse_nfc_dep-IsSafe passive_poll_f = parse_nfc_dep_poll-IsSafe
  parse_nfc_dep-IsSafe active_listen_a = parse_nfc_dep_listen-IsSafe
  parse_nfc_dep-IsSafe active_listen_f = parse_nfc_dep_listen-IsSafe
  parse_nfc_dep-IsSafe passive_listen_a = parse_nfc_dep_listen-IsSafe
  parse_nfc_dep-IsSafe passive_listen_f = parse_nfc_dep_listen-IsSafe
  parse_nfc_dep-IsSafe _ = tt

  -- On parameters that are not empty, only ISO-DEP in passive poll B makes the parser read past
  -- them, or hand out bytes past them.
  pub parse_activation_param-IsSafe :
      (intf : RfInterface) (mode : NciMode)
      → mode ≢ passive_poll_b
      → IsSafe (parse_activation_param intf mode bytes)
  unfolding parse_activation_param
  parse_activation_param-IsSafe iso_dep mode h = parse_iso_dep-IsSafe mode h
  parse_activation_param-IsSafe nfc_dep mode h = parse_nfc_dep-IsSafe mode
  parse_activation_param-IsSafe _ mode h = tt

  -- For ISO-DEP in passive poll B and parameters that are not empty, the parser of the activation
  -- parameters reads past them, or hands out bytes that lie past them, exactly where the length
  -- that they give is not 0 and not smaller than theirs.
  pub parse_iso_dep_poll_b_overrun :
      (parse_activation_param iso_dep passive_poll_b bytes ≡ overrun)
      ↔ ((1 ≤ get_or bytes 0 0) × (length bytes ≤ get_or bytes 0 0))
  unfolding parse_activation_param parse_iso_dep parse_iso_dep_poll_b
  parse_iso_dep_poll_b_overrun = (λ e. ground arith, λ h. ground arith)
