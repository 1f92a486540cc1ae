-- ===== src/Core.antt =====
-- The parameters of src/nci_core.c, and the setters of src/nci_sm.c that they use.
pub mod Again
pub mod Object
pub mod Command
pub mod Client
pub mod Calls
pub mod Kept
pub mod Awaited
pub mod Well
pub mod Steps
pub mod Requests
pub mod Timeout
pub mod Inputs
pub mod Wire
pub mod Restart
mod Tests
use libncicore.Common.{
  ℕ, ◌+◌, ◌-◌, ◌%◌, Bool, true, false, not, ◌&&◌, ◌||◌, Option, none, some, List, [], ◌∷◌, ◌++◌,
  if◌then◌else◌, ◌==◌, length, take, min, bit_or,
}
use libncicore.Util.Parse.{padded}
use libncicore.Util.Types.{Nfcid1}
use libncicore.Util.Nfcid.{nfcid1_dynamic, nfcid1_equal, bytes_eq}
use libncicore.Sm.Types.{Config, AtsHb}
use libncicore.Sm.Machine.{Machine}
use libncicore.Sm.Switch.{reset_machine}

-- `NciCoreParam`: a key and its value; any other key is `unknown`.
pub data CoreParam : Type 0 where
  llc_version llc_wks : ℕ → CoreParam
  la_nfcid1 : Nfcid1 → CoreParam
  li_a_hb : AtsHb → CoreParam
  unknown : CoreParam

-- `NCI_CORE_PARAM`
pub data CoreParamKey : Type 0 where
  llc_version_key llc_wks_key la_nfcid1_key li_a_hb_key : CoreParamKey

abbrev accepted_length : ℕ → Bool
accepted_length n = n == 0 || (n == 4 || (n == 7 || n == 10))

-- `nci_sm_set_la_nfcid1` for an identifier: a dynamic one is stored as empty, and one that is equal
-- to the present one is not stored.
unfoldable pub set_la_nfcid1 : Nfcid1 → Config → Config
set_la_nfcid1 v c =
    if accepted_length v.len && not (nfcid1_equal v c.la_nfcid1)
    then (if nfcid1_dynamic v
        then record c { la_nfcid1 = record { len = 0; bytes = padded 10 [] } }
        else record c {
          la_nfcid1 = record { len = v.len; bytes = padded 10 (take v.len v.bytes) };
        })
    else c

-- `nci_sm_set_li_a_hb` for historical bytes
unfoldable pub set_li_a_hb : AtsHb → Config → Config
set_li_a_hb hb c =
    let n = min hb.len 15 in
    record c { li_a_hb = record { len = n; bytes = padded 15 (take n hb.bytes) } }

unfoldable pub set_param : CoreParam → Config → Config
set_param (llc_version v) c = record c { llc_version = v }
set_param (llc_wks v) c = record c { llc_wks = bit_or v 0x01 }
set_param (la_nfcid1 v) c = set_la_nfcid1 v c
set_param (li_a_hb v) c = set_li_a_hb v c
set_param unknown c = c

-- the two setters called with NULL, and the defaults of the others
unfoldable pub reset_param : CoreParamKey → Config → Config
reset_param llc_version_key c = record c { llc_version = 0x11 }
reset_param llc_wks_key c = record c { llc_wks = bit_or 0x0003 0x01 }
reset_param la_nfcid1_key c = record c { la_nfcid1 = c.default_la_nfcid1 }
reset_param li_a_hb_key c = record c { li_a_hb = c.default_li_a_hb }

unfoldable pub get_la_nfcid1 : Config → Nfcid1
get_la_nfcid1 c =
    let n = min c.la_nfcid1.len 10 in
    record { len = n; bytes = padded 10 (take n c.la_nfcid1.bytes) }

unfoldable pub get_li_a_hb : Config → AtsHb
get_li_a_hb c =
    let n = min c.li_a_hb.len 15 in record { len = n; bytes = padded 15 (take n c.li_a_hb.bytes) }

-- `nci_core_param_equal_hb`
unfoldable pub hb_equal : AtsHb → AtsHb → Bool
hb_equal a b =
    a.len == b.len && bytes_eq (take (min a.len 15) a.bytes) (take (min a.len 15) b.bytes)

-- whether a parameter has the same value in two configurations
unfoldable pub param_equal : CoreParamKey → Config → Config → Bool
param_equal llc_version_key c d = c.llc_version == d.llc_version
param_equal llc_wks_key c d = c.llc_wks == d.llc_wks
param_equal la_nfcid1_key c d = nfcid1_equal (get_la_nfcid1 c) (get_la_nfcid1 d)
param_equal li_a_hb_key c d = hb_equal (get_li_a_hb c) (get_li_a_hb d)

abbrev pub param_keys : List CoreParamKey
param_keys = llc_version_key ∷ llc_wks_key ∷ la_nfcid1_key ∷ li_a_hb_key ∷ []

-- the keys whose change is signalled
unfoldable pub changes : List CoreParamKey → Config → Config → List CoreParamKey
changes [] c d = []
changes (k ∷ ks) c d = let rest = changes ks c d in if param_equal k c d then rest else k ∷ rest

unfoldable pub reset_params : List CoreParamKey → Config → Config
reset_params [] c = c
reset_params (k ∷ ks) c = reset_params ks (reset_param k c)

unfoldable pub apply_params : List CoreParam → Config → Config
apply_params [] c = c
apply_params (p ∷ ps) c = apply_params ps (set_param p c)

-- the configuration that `nci_core_set_params` makes
unfoldable pub set_params_config : Bool → List CoreParam → Config → Config
set_params_config reset ps c = apply_params ps (if reset then reset_params param_keys c else c)

-- `nci_core_restart_internal` after a change; its cancellation and the reset of the SAR are not part
-- of the state machine.
unfoldable pub restart_if_changed : List CoreParamKey → Machine → Machine
restart_if_changed [] m = m
restart_if_changed (k ∷ ks) m = reset_machine m

-- `nci_core_set_params`: the machine, and the parameters whose change is signalled
unfoldable pub set_params : Bool → List CoreParam → Machine → Machine × List CoreParamKey
set_params reset ps m =
    let c = set_params_config reset ps m.config in
    let changed = changes param_keys m.config c in
    (restart_if_changed changed (record m { config = c }), changed)

-- `nci_core_reset_param`, with whether a change is signalled
unfoldable pub reset_core_param : CoreParamKey → Machine → Machine × Bool
reset_core_param key m =
    let c = reset_param key m.config in
    let n = record m { config = c } in
    if param_equal key m.config c then (n, false) else (reset_machine n, true)
