-- ===== src/Util.antt =====
-- src/nci_util.c: parsers of NCI packets and their parts.
pub mod Parse
pub mod Types
pub mod Nfcid
pub mod Config
pub mod ModeParam
pub mod Activation
pub mod Ntf
mod Tests
