-- ===== src/Lib.antt =====
-- A model of libncicore, the NFC Controller Interface (NCI) core of mer-hybris, and what is proved
-- of it. Paths below are from the root of the repository.
--
-- The program. libncicore sits between a client, which wants NFC targets, and a HAL, which moves
-- bytes to and from an NFC controller. Its lower half, `src/nci_sar.c`, turns commands and data
-- packets into segments for the HAL, under the credits of each logical connection, and puts the
-- segments that come back together again (SAR: segmentation and reassembly). Above it
-- `src/nci_core.c` and the state machine (`src/nci_sm.c`, the `src/nci_state_*.c` and
-- `src/nci_transition_*.c`) send commands and react to responses and notifications, which
-- `src/nci_util.c` takes apart.
--
-- The files.
--   Common         shared names, the list and byte lemmas, tests into Bool
--   Sar.Defs       the structs of `src/nci_sar.c` as records: `NciSar` is Sar, a logical connection
--                  is LogicalConnection, a queued packet is PacketOut. Callbacks of the client and
--                  of packets, and calls of the HAL, are the constructors of Event
--   Sar.Queue      the packet queues, with their `first` chain as a list and `last` as whether that
--                  pointer is set (`nci_sar_clear_queue`, `nci_sar_cancel_queue`)
--   Sar.Queue.*    the queues against lists
--   Sar.Write      `nci_sar_attempt_write` in the parts that it has (charge_writing, pick_packet,
--                  next_segment, submit), `nci_sar_write_completed`, `nci_sar_take_credits`
--   Sar.Send       `nci_sar_send_command`, `nci_sar_send_data_packet`, `nci_sar_cancel`
--   Sar.Read       `nci_sar_hal_client_read` and the handlers of segments that it calls
--   Sar.Setup      `nci_sar_new`, start, reset, free, the limits and the number of connections
--   Sar.Header     the bits of the first byte of a packet
--   Sar.Read.*     the read side against a byte stream: Stream and Refine have the specification
--                  of a reader that keeps its pending bytes, Frames that of whole packets
--   Sar.Hearing, Sar.Roundtrip, Sar.NextSegment, Sar.Transmit, Sar.Delivery
--                  a data packet from the sender's queue to the receiver's client
--   Sar.Control    a response or a notification from the wire to the receiver's client
--   Sar.Steps      the calls of a life of a `NciSar` as a step relation; *.Live has the invariant
--   Sar.Requeue    a packet that runs out of credits between two segments
--   Util.Parse     the monad in which the parsers of `src/nci_util.c` run: a result, a refusal
--                  (NULL or FALSE) or a read outside the bytes that they were given
--   Util.Types     the enumerations and the notifications of `include/nci_types.h`
--   Util.Nfcid     `nci_nfcid1_dynamic`, `nci_nfcid1_equal`
--   Util.Config    the parameters of CORE_GET_CONFIG_RSP
--   Util.ModeParam `nci_parse_mode_param`
--   Util.Activation `nci_parse_activation_param` and the parsers under it
--   Util.Ntf       `nci_parse_discover_ntf`, `nci_parse_intf_activated_ntf`,
--                  `nci_parse_rf_deactivate_ntf`
--   Sm.Types, Sm.OpMode, Sm.Tech, Sm.Protocol
--                  the enumerations of the state machine, and `struct nci_sm` as Config
--   Sm.Machine     `struct nci_sm_object` with its timers and the fields of its states and
--                  transitions as one record; what it asks of others is a log of Events
--   Sm.Start       starting and finishing a transition (`src/nci_transition*.c`)
--   Sm.Control     entering states, stalling, and the methods
--                  of the states (`src/nci_sm.c`, `src/nci_state*.c`)
--   Sm.Switch      `nci_sm_switch_to` and the other calls of the core
--   Sm.Respond     the response functions of the transitions
--   Sm.Notify      `nci_sm_handle_ntf` and the handlers that it calls
--   Sm.Control.*, Sm.Switch.*, Sm.Respond.*, Sm.Notify.*
--                  lemmas on what these keep
--   Sm.Steps       its life as a step relation; *.Restart, *.Deactivate, *.Credits, *.Requests and
--                  *.Discover follow single courses of it
--   Discovery.Map, Discovery.Routing, Discovery.Config
--                  the commands of `src/nci_transition_idle_to_discovery.c`, and what it makes of
--                  the answer to CORE_GET_CONFIG
--   Sm.HostSelect  the choice of a target in `src/nci_state_w4_host_select.c`; *.Best has the order
--   Sm.ConfigFile  `nci_sm_parse_config`; *.Bounds is about where it writes
--   Sm.Shown       the state signals against the states, with a child for each part above
--   Core           the parameters of `src/nci_core.c`: `nci_core_set_params`, `nci_core_reset_param`
--   Core.Object    `NciCoreObject` as NciCore, and the callbacks of its data messages
--   Core.Command   the `NciSmIo` of the object (`nci_core_io_send`, `nci_core_io_cancel`), and how it
--                  carries out what the state machine asks for
--   Core.Client    the `NciSarClient` of the object, its command timeout, and the bytes of the HAL
--   Core.Calls     the calls of an application
--   Core.Awaited, Core.Requests
--                  the response that is awaited, told from the log of the state machine
--   Core.Kept, Core.Inputs, Core.Well
--                  what the operations of the object keep
--   Core.Steps     the life of an object as a step relation
--   Core.Timeout, Core.Wire, Core.Restart
--                  a command that fails, a response that is read, and a whole restart
--   Reset          the commands and the parsers of `src/nci_transition_reset.c`
--
-- How state and control are modelled. A state that C changes in place is an argument and a result.
-- An operation gives the new state and the events that it causes, in their order. What the HAL
-- answers to `start` and `write` is an argument (HalReply), so a theorem that quantifies over it
-- holds for every HAL. Its report of a finished write and the idle callback are operations of their
-- own, and Sar.Steps lets them come in any order. A pointer to a logical connection is its index,
-- so that the array `conn` moves in memory when it is resized is not seen, and a packet whose index
-- is gone is sent without a charge; a byte is a number, and a count that C keeps in a `guint8` or a
-- `guint` is written with its bounds where it can reach them (credits, packet ids, payload
-- lengths).
--
-- Fuel. `handle_packets` takes packets while there are any: a round takes three bytes or more, so
-- the number of bytes is enough, and `read_packets` likewise. `segments` lists the segments of a
-- packet and gets one more than the bytes of the payload, since each takes a byte or is the last.
-- `transmit` lets the HAL report one write after another and gets as many rounds. The loops over
-- parameters run over their number.
--
-- A parser of `src/nci_util.c` has one of three results: what it parsed, a refusal, and an overrun.
-- An overrun is a read past the end of the parameters or of the packet, and also a `GUtilData` that
-- reaches past it, although the parser only stores its pointer and its size. What is read from
-- there is not in the packet, so the model has no value for it: the state machine marks the fault
-- and stays as it is (with_parsed), where the code goes on with the bytes that it finds.
--
-- The state machine calls its I/O, the SAR and the core, which do not call back: their calls are
-- events, and a response comes later, with the response function that the command named. Whether
-- commands can be sent is a field of the machine. An object of the core runs a call of its state
-- machine to its end and carries out the events of that call after it, in their order (run): none
-- of them changes the state machine, and a command can always be sent. What an operation of the SAR
-- calls is delivered after it (sar_does), and the packets of a read one by one (read_packets).
-- Blocks of `NciCoreSendData` are numbered, and the number is the user data of their packet. The
-- insertion into a sorted list of GLib is an argument of whatever may select a target. Since
-- `nci_sm_enter_state` can be called from the method of one state for another, entering is a
-- function of that method (enter_with). The two states of an object that are flags in C, active or
-- not, follow from which one is active.
--
-- What is not modelled. Callbacks of an application do not call back into the library. The checks
-- for a NULL `self` and the log have no counterpart, nor has the connection of signal handlers. In
-- `src/nci_sar.c` the timing of the idle source, and memory as such (a packet is released when its
-- `destroy` callback runs). In `src/nci_util.c` the deep copies of parameters and notifications. In
-- `src/nci_core.c` what frees the object. GLib and libglibutil are not part of the repository: the
-- functions on strings and the insertion into a sorted list are arguments. The parameter objects
-- and the tests are not modelled.
pub mod Common
pub mod Sar
pub mod Sm
pub mod Discovery
pub mod Reset
pub mod Util
pub mod Core
