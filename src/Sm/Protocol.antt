-- ===== src/Sm/Protocol.antt =====
-- `NCI_PROTOCOL` of include/nci_types.h
use libncicore.Common.{ℕ}

abbrev pub t1t : ℕ
t1t = 0x01

abbrev pub t2t : ℕ
t2t = 0x02

abbrev pub t3t : ℕ
t3t = 0x03

abbrev pub iso_dep : ℕ
iso_dep = 0x04

abbrev pub nfc_dep : ℕ
nfc_dep = 0x05

abbrev pub t5t : ℕ
t5t = 0x06
