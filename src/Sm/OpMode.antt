-- ===== src/Sm/OpMode.antt =====
-- `NCI_OP_MODE` of include/nci_types.h
use libncicore.Common.{ℕ}

abbrev pub rw : ℕ
rw = 0x01

abbrev pub peer : ℕ
peer = 0x02

abbrev pub ce : ℕ
ce = 0x04

abbrev pub poll : ℕ
poll = 0x08

abbrev pub listen : ℕ
listen = 0x10
