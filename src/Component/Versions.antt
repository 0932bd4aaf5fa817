-- ===== src/Component/Versions.antt =====
-- GetVersion looks into the version cache first, and fills it from the version information.
use multi_hardware.Base.{ℕ, ◌≡◌, Bool, true, false, Option, none, some, arith, nat_eq, is_empty}
use multi_hardware.Base.Map.{lookup, lookup-insert}
use multi_hardware.Base.Str.{Str, str_eq, str_beq_iff}
use multi_hardware.Constants.{success, is_success, is_id_length_valid}
use multi_hardware.Capability.Info.{VersionInfo}
use multi_hardware.Version.Manager.{
  CompVersion, DhVersion, VersionManager, add_dh_version, get_dh_version, get_comp_version,
}
use multi_hardware.Component.Params.{
  View, version_from_ver_mgr, version_from_ver_info_mgr, update_version_cache, get_version,
  from_info_found,
}

from_info_found-cached :
    (found : Option CompVersion) (info : VersionInfo) (uuid : Str) (dh_type : ℕ)
    (version other : Str) (is_sink : Bool) (vm : VersionManager)
    → is_id_length_valid uuid ≡ true
    → lookup dh_type info.comp_versions ≡ found
    → let got = from_info_found found uuid info version is_sink vm in
      is_success got.1 ≡ true
      → version_from_ver_mgr uuid dh_type other is_sink got.0 ≡ (got.0, success, got.2)
unfolding version_from_ver_mgr update_version_cache add_dh_version get_comp_version get_dh_version
from_info_found-cached none info uuid dh_type version other is_sink vm a f h = ground arith
from_info_found-cached (some v) info uuid dh_type version other is_sink vm a f h =
    let added : DhVersion = record {
      uuid = uuid;
      dh_version = info.dh_version;
      comp_versions = info.comp_versions;
    } in
    ground (arith, lookup-insert uuid uuid added vm, str_beq_iff uuid uuid)

-- Where GetVersionFromVerInfoMgr succeeds for a valid uuid, GetVersionFromVerMgr with the cache
-- that this leaves behind succeeds too and gives the same version, and keeps the cache.
pub version_from_ver_info_mgr-cached :
    (view : View) (uuid : Str) (dh_type : ℕ) (version other : Str) (is_sink : Bool)
    (vm : VersionManager)
    → let got = version_from_ver_info_mgr view uuid dh_type version is_sink vm in
      is_success got.1 ≡ true
      → version_from_ver_mgr uuid dh_type other is_sink got.0 ≡ (got.0, success, got.2)
unfolding version_from_ver_info_mgr
version_from_ver_info_mgr-cached view uuid dh_type version other is_sink vm h =
    let info = (view.version_info (view.device_id_by_uuid uuid)).1 in
    ground (
      arith,
      from_info_found-cached (lookup dh_type info.comp_versions) info uuid dh_type version other
          is_sink vm,
    )

version_from_ver_mgr-again :
    (uuid : Str) (dh_type : ℕ) (version other : Str) (is_sink : Bool) (vm : VersionManager)
    → let got = version_from_ver_mgr uuid dh_type version is_sink vm in
      is_success got.1 ≡ true
      → version_from_ver_mgr uuid dh_type other is_sink got.0 ≡ (got.0, success, got.2)
unfolding version_from_ver_mgr
version_from_ver_mgr-again uuid dh_type version other is_sink vm h = ground arith

-- Where GetVersion succeeds with a version that is not empty, a second call with the cache that the
-- first leaves behind gives the same version and keeps the cache, whatever the managers and the
-- device hold by then.
pub get_version-cached :
    (view later : View) (uuid : Str) (dh_type : ℕ) (version other : Str) (is_sink : Bool)
    (vm : VersionManager)
    → let got = get_version view uuid dh_type version is_sink vm in
      is_success got.1 ≡ true
      → is_empty got.2 ≡ false
      → get_version later uuid dh_type other is_sink got.0 ≡ (got.0, success, got.2)
unfolding get_version
get_version-cached view later uuid dh_type version other is_sink vm h full =
    let first = version_from_ver_mgr uuid dh_type version is_sink vm in
    ground (
      arith,
      version_from_ver_mgr-again uuid dh_type version other is_sink vm,
      version_from_ver_info_mgr-cached view uuid dh_type first.2 other is_sink first.0,
    )
