-- ===== src/Discovery.antt =====
-- src/nci_transition_idle_to_discovery.c: the commands that configure an NFCC for discovery.
pub mod Routing
pub mod Map
pub mod Config
mod Tests
