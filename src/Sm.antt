-- ===== src/Sm.antt =====
-- src/nci_sm.c with its states and transitions, as far as src/nci_core.c gives it its commands and
-- its responses.
pub mod Types
pub mod ConfigFile
pub mod OpMode
pub mod Tech
pub mod Protocol
pub mod Sample
pub mod Machine
pub mod Start
pub mod HostSelect
pub mod Control
pub mod Switch
pub mod Respond
pub mod Notify
pub mod Steps
pub mod Shown
