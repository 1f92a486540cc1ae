-- ===== src/Sm/Sample.antt =====
-- A configuration of the state machine for tests: that of an NFCC of version 2.
use libncicore.Common.{ℕ, none, [], ◌∷◌}
use libncicore.Sm.Types.{Config, version_2}

abbrev pub sample_config : ℕ → ℕ → Config
sample_config op_mode techs = record {
  rf_interfaces = none;
  max_routing_table_size = 21;
  techs = techs;
  version = version_2;
  nfcc_discovery = 0;
  nfcc_routing = 6;
  nfcc_power = 0;
  op_mode = op_mode;
  llc_version = 0x11;
  llc_wks = 3;
  la_nfcid1 = record { len = 4; bytes = 8 ∷ 1 ∷ 2 ∷ 3 ∷ 0 ∷ 0 ∷ 0 ∷ 0 ∷ 0 ∷ 0 ∷ [] };
  li_a_hb = record {
    len = 1;
    bytes = 0x80 ∷ 0 ∷ 0 ∷ 0 ∷ 0 ∷ 0 ∷ 0 ∷ 0 ∷ 0 ∷ 0 ∷ 0 ∷ 0 ∷ 0 ∷ 0 ∷ 0 ∷ [];
  };
  default_la_nfcid1 = record { len = 0; bytes = [] };
  default_li_a_hb = record { len = 0; bytes = [] };
}
