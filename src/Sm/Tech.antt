-- ===== src/Sm/Tech.antt =====
-- `NCI_TECH` of include/nci_types.h and the masks made of it
use libncicore.Common.{ℕ}

abbrev pub a_poll_passive : ℕ
a_poll_passive = 0x0001

abbrev pub a_poll_active : ℕ
a_poll_active = 0x0002

abbrev pub a_listen_passive : ℕ
a_listen_passive = 0x0004

abbrev pub a_listen_active : ℕ
a_listen_active = 0x0008

abbrev pub b_poll : ℕ
b_poll = 0x0010

abbrev pub b_listen : ℕ
b_listen = 0x0040

abbrev pub f_poll_passive : ℕ
f_poll_passive = 0x0100

abbrev pub f_poll_active : ℕ
f_poll_active = 0x0200

abbrev pub f_listen_passive : ℕ
f_listen_passive = 0x0400

abbrev pub f_listen_active : ℕ
f_listen_active = 0x0800

abbrev pub v_poll : ℕ
v_poll = 0x1000

abbrev pub v_listen : ℕ
v_listen = 0x4000

abbrev pub a_poll : ℕ
a_poll = 0x0003

abbrev pub a_listen : ℕ
a_listen = 0x000c

abbrev pub a : ℕ
a = 0x000f

abbrev pub b : ℕ
b = 0x0050

abbrev pub f_poll : ℕ
f_poll = 0x0300

abbrev pub f_listen : ℕ
f_listen = 0x0c00

abbrev pub f : ℕ
f = 0x0f00

abbrev pub all : ℕ
all = 0x5f5f
