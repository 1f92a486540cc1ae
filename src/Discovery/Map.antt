-- ===== src/Discovery/Map.antt =====
-- RF_DISCOVER_MAP_CMD and RF_DISCOVER_CMD in src/nci_transition_idle_to_discovery.c.
use libncicore.Common.{ℕ, ◌+◌, ◌-◌, Bool, ◌&&◌, List, [], ◌∷◌, ◌++◌, if◌then◌else◌, bit_and, bit_or}
use libncicore.Sm.Types.{Config, has}
use libncicore.Sm.OpMode
use libncicore.Sm.Tech
use libncicore.Sm.Protocol

-- A payload that begins with the number of its entries, as both commands do.
pub record Counted : Type 0 where
  pub count : ℕ
  pub entries : List ℕ

-- `n` entries more, under a condition
abbrev pub add_if : Bool → ℕ → List ℕ → Counted → Counted
add_if wanted n bytes c =
    if wanted then record { count = c.count + n; entries = c.entries ++ bytes } else c

abbrev pub empty : Counted
empty = record { count = 0; entries = [] }

abbrev pub counted_bytes : Counted → List ℕ
counted_bytes c = c.count ∷ c.entries

-- protocol, mode (poll 1, listen 2), interface (frame 1, ISO-DEP 2, NFC-DEP 3)
unfoldable pub discover_map : Config → Counted
discover_map c =
    let rw = has c.op_mode OpMode.rw in
    let peer = has c.op_mode OpMode.peer in
    let peer_poll = has c.op_mode OpMode.poll && has c.techs (bit_or Tech.a_poll Tech.f_poll) in
    let peer_listen =
      has c.op_mode OpMode.listen && has c.techs (bit_or Tech.a_listen Tech.f_listen) in
    let ce = has c.op_mode OpMode.ce && has c.techs (bit_or Tech.a_listen Tech.b_listen) in
    let frames = Protocol.t1t ∷ 1 ∷ 1 ∷ Protocol.t2t ∷ 1 ∷ 1 ∷ [] in
    add_if ce 1 (Protocol.iso_dep ∷ 2 ∷ 2 ∷ []) (
      add_if (peer && peer_listen) 1 (Protocol.nfc_dep ∷ 2 ∷ 3 ∷ []) (
        add_if (peer && peer_poll) 1 (Protocol.nfc_dep ∷ 1 ∷ 3 ∷ []) (
          add_if (rw && has c.techs (bit_or Tech.a_poll Tech.b_poll)) 1
            (Protocol.iso_dep ∷ 1 ∷ 2 ∷ [])
            (add_if (rw && has c.techs Tech.v_poll) 1 (Protocol.t5t ∷ 1 ∷ 1 ∷ []) (
              add_if (rw && has c.techs Tech.f_poll) 1 (Protocol.t3t ∷ 1 ∷ 1 ∷ [])
                (add_if (rw && has c.techs Tech.a_poll) 2 frames empty))))))

-- the table `tech_modes`: a technology, and the byte of its mode
abbrev pub tech_modes : List (ℕ × ℕ)
tech_modes =
    (Tech.a_poll_active, 0x03)
    ∷ (Tech.a_poll_passive, 0x00)
    ∷ (Tech.b_poll, 0x01)
    ∷ (Tech.f_poll_active, 0x05)
    ∷ (Tech.f_poll_passive, 0x02)
    ∷ (Tech.a_listen_active, 0x83)
    ∷ (Tech.a_listen_passive, 0x80)
    ∷ (Tech.b_listen, 0x81)
    ∷ (Tech.f_listen_active, 0x85)
    ∷ (Tech.f_listen_passive, 0x82)
    ∷ (Tech.v_poll, 0x06)
    ∷ (Tech.v_listen, 0x86)
    ∷ []

abbrev pub tech_if : Bool → ℕ → ℕ → ℕ
tech_if wanted mask techs = if wanted then bit_or techs mask else techs

-- what the operation mode asks for, less what is not enabled
unfoldable pub wanted_techs : Config → ℕ
wanted_techs c =
    let peer = has c.op_mode OpMode.peer in
    let poll = bit_or Tech.a_poll (bit_or Tech.b_poll (bit_or Tech.f_poll Tech.v_poll)) in
    let techs = tech_if (has c.op_mode OpMode.ce) (bit_or Tech.a_listen_passive Tech.b_listen) (
      tech_if (peer && has c.op_mode OpMode.listen) (bit_or Tech.a_listen Tech.f_listen) (
        tech_if (peer && has c.op_mode OpMode.poll) (bit_or Tech.a_poll Tech.f_poll)
          (tech_if (has c.op_mode OpMode.rw) poll 0))) in
    bit_and techs c.techs

-- The loop: an entry for each technology that is left, which is then taken away. A mask is a single
-- bit, which is set where it is taken away, so `&= ~mask` is a subtraction.
unfoldable pub discover_loop : List (ℕ × ℕ) → ℕ → Counted → Counted
discover_loop [] techs cmd = cmd
discover_loop ((mask, mode) ∷ modes) techs cmd =
    let take_it = has techs mask in
    discover_loop modes (if take_it then techs - mask else techs)
      (add_if take_it 1 (mode ∷ 1 ∷ []) cmd)

unfoldable pub discover : Config → Counted
discover c = discover_loop tech_modes (wanted_techs c) empty
