-- ===== src/Util/ModeParam/Safety.antt =====
-- The mode parameter parsers of src/nci_util.c and the ends of their input.
use libncicore.Common.{refl, ℕ, ◌≤◌, ◌<◌, ◌≡◌, ◌↔◌, ◌≢◌, List, length, get_or, arith}
use libncicore.Util.Parse.{overrun, IsSafe}
use libncicore.Util.Types.{
  NciMode, passive_poll_a, passive_poll_b, passive_poll_f, active_poll_a, active_poll_f,
  passive_poll_v, passive_listen_f, active_listen_f,
}
use libncicore.Util.ModeParam.{
  parse_poll_a, parse_poll_b, parse_poll_f, parse_listen_f, parse_poll_v, parse_mode_param,
}

parse_poll_a-IsSafe : (bytes : List ℕ) → IsSafe (parse_poll_a bytes)
unfolding parse_poll_a
parse_poll_a-IsSafe bytes = ground arith

parse_poll_f-IsSafe : (bytes : List ℕ) → IsSafe (parse_poll_f bytes)
unfolding parse_poll_f
parse_poll_f-IsSafe bytes = ground arith

parse_listen_f-IsSafe : (bytes : List ℕ) → IsSafe (parse_listen_f bytes)
unfolding parse_listen_f
parse_listen_f-IsSafe bytes = ground arith

parse_poll_v-IsSafe : (bytes : List ℕ) → IsSafe (parse_poll_v bytes)
unfolding parse_poll_v
parse_poll_v-IsSafe bytes = ground arith

-- No mode but passive poll B makes the parser read past the parameters, or hand out bytes past them.
pub parse_mode_param-IsSafe :
    (mode : NciMode) (bytes : List ℕ) → mode ≢ passive_poll_b → IsSafe (parse_mode_param mode bytes)
unfolding parse_mode_param
parse_mode_param-IsSafe passive_poll_b bytes h = absurd (h refl)
parse_mode_param-IsSafe active_poll_a bytes h = ground (arith, parse_poll_a-IsSafe bytes)
parse_mode_param-IsSafe passive_poll_a bytes h = parse_poll_a-IsSafe bytes
parse_mode_param-IsSafe active_poll_f bytes h = parse_poll_f-IsSafe bytes
parse_mode_param-IsSafe passive_poll_f bytes h = parse_poll_f-IsSafe bytes
parse_mode_param-IsSafe active_listen_f bytes h = parse_listen_f-IsSafe bytes
parse_mode_param-IsSafe passive_listen_f bytes h = parse_listen_f-IsSafe bytes
parse_mode_param-IsSafe passive_poll_v bytes h = parse_poll_v-IsSafe bytes
parse_mode_param-IsSafe _ bytes h = tt

-- For passive poll B the parser of the mode parameters reads past them, or hands out bytes that
-- lie past them, exactly where they are not empty, give a length of 11 or more, and are not longer
-- than that length.
pub parse_poll_b_overrun :
    (bytes : List ℕ)
    → (parse_mode_param passive_poll_b bytes ≡ overrun)
      ↔ ((0 < length bytes) × (11 ≤ get_or bytes 0 0) × (length bytes ≤ get_or bytes 0 0))
unfolding parse_mode_param parse_poll_b
parse_poll_b_overrun bytes = (λ e. ground arith, λ h. ground arith)
