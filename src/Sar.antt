-- ===== src/Sar.antt =====
-- src/nci_sar.c: segmentation and reassembly of NCI packets.
pub mod Defs
pub mod Header
pub mod Queue
pub mod Write
pub mod Send
pub mod Read
pub mod Setup
pub mod Control
pub mod Hearing
pub mod Roundtrip
pub mod NextSegment
pub mod Transmit
pub mod Delivery
pub mod Steps
pub mod Inputs
pub mod Requeue
mod Tests
