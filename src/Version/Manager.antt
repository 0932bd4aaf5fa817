-- ===== src/Version/Manager.antt =====
-- The versions of the devices' components, by uuid. An out parameter that a call does not write
-- keeps the value that the caller passed.
use multi_hardware.Base.{ℕ, not, [], Option, none, some, if◌then◌else◌, nat_eq}
use multi_hardware.Base.Map.{Map, lookup, insert, erase}
use multi_hardware.Base.Str.{Str, str_eq, str}
use multi_hardware.Constants.{
  Errno, success, para_invalid, version_device_id_not_exist, type_not_exist, is_success,
  is_id_length_valid,
}

pub record CompVersion : Type 0 where
  pub name : Str
  pub dh_type : ℕ
  pub handler_version : Str
  pub source_version : Str
  pub sink_version : Str

pub record DhVersion : Type 0 where
  pub uuid : Str
  pub dh_version : Str
  pub comp_versions : Map ℕ CompVersion

-- The manager's state is the map from uuids to versions.
abbrev pub VersionManager : Type 0
VersionManager = Map Str DhVersion

unfoldable pub add_dh_version : Str → DhVersion → VersionManager → VersionManager × Errno
add_dh_version uuid dh_version m =
    if not (is_id_length_valid uuid) then (m, para_invalid) else (insert uuid dh_version m, success)

abbrev pub remove_found : Option DhVersion → Str → VersionManager → VersionManager × Errno
remove_found none uuid m = (m, version_device_id_not_exist)
remove_found (some v) uuid m = (erase uuid m, success)

unfoldable pub remove_dh_version : Str → VersionManager → VersionManager × Errno
remove_dh_version uuid m =
    if not (is_id_length_valid uuid) then (m, para_invalid) else remove_found (lookup uuid m) uuid m

abbrev pub get_found : Option DhVersion → DhVersion → Errno × DhVersion
get_found none out = (version_device_id_not_exist, out)
get_found (some v) out = (success, v)

unfoldable pub get_dh_version : Str → DhVersion → VersionManager → Errno × DhVersion
get_dh_version uuid out m =
    if not (is_id_length_valid uuid) then (para_invalid, out) else get_found (lookup uuid m) out

abbrev pub empty_dh_version : DhVersion
empty_dh_version = record { uuid = []; dh_version = []; comp_versions = [] }

abbrev pub comp_found : Option CompVersion → CompVersion → Errno × CompVersion
comp_found none out = (type_not_exist, out)
comp_found (some v) out = (success, v)

abbrev pub comp_of : ℕ → CompVersion → Errno × DhVersion → Errno × CompVersion
comp_of dh_type out (ret, v) =
    if not (is_success ret) then (ret, out) else comp_found (lookup dh_type v.comp_versions) out

unfoldable pub get_comp_version : Str → ℕ → CompVersion → VersionManager → Errno × CompVersion
unfolding get_dh_version
get_comp_version uuid dh_type out m =
    if not (is_id_length_valid uuid)
    then (para_invalid, out)
    else comp_of dh_type out (get_dh_version uuid empty_dh_version m)

-- "1.0".
abbrev pub dh_local_version : Str
dh_local_version = str "1.0"

-- `loaded` is what ComponentLoader::GetLocalDHVersion returns, `uuid` that of this device.
unfoldable pub init : Errno × DhVersion → Str → VersionManager → VersionManager × Errno
unfolding add_dh_version
init (ret, dh_version) uuid m =
    if not (is_success ret)
    then (m, ret)
    else ((add_dh_version uuid (record dh_version { dh_version = dh_local_version }) m).0, success)

unfoldable pub un_init : VersionManager → VersionManager
un_init m = []
