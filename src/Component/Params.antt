-- ===== src/Component/Params.antt =====
-- component_manager.cpp, lines 797 to 905: the versions of a component, looked for in the version cache
-- and in the version information.
use multi_hardware.Base.{
  ℕ, Bool, not, ◌&&◌, List, [], Option, none, some, nat_eq, if◌then◌else◌, is_empty,
}
use multi_hardware.Base.Map.{lookup}
use multi_hardware.Base.Str.{Str}
use multi_hardware.Constants.{
  Errno, success, para_invalid, component_dhtype_not_found, is_success, is_id_length_valid,
}
use multi_hardware.Context.Defs.{DhContext}
use multi_hardware.Capability.Info.{CapabilityInfo, MetaCapabilityInfo, VersionInfo}
use multi_hardware.Version.Manager.{CompVersion, VersionManager, add_dh_version, get_comp_version}

pub record EnableParam : Type 0 where
  pub source_version : Str
  pub source_attrs : Str
  pub sink_version : Str
  pub sink_attrs : Str
  pub subtype : Str

-- What the other managers hold while the parameters are looked for. The functions are those of
-- their interfaces; an `Option` is a shared pointer, which is not null where the call succeeds (the
-- code reads through it then). `device_id_by_uuid` is that of dh_utils_tool.
pub record View : Type 0 where
  pub device_id_by_uuid : Str → Str
  pub local_device_id : Str
  pub local_uuid : Str
  pub local_udid_hash : Str
  pub context : DhContext
  pub capability : Str → Str → Errno × Option CapabilityInfo
  pub local_capability : Str → Str → Errno × Option CapabilityInfo
  pub meta_cap_info : Str → Str → Errno × Option MetaCapabilityInfo
  pub capabilities : Str → List CapabilityInfo
  pub meta_cap_infos : Str → List MetaCapabilityInfo
  pub version_info : Str → Errno × VersionInfo

abbrev pub empty_comp_version : CompVersion
empty_comp_version = record {
  name = [];
  dh_type = 0;
  handler_version = [];
  source_version = [];
  sink_version = [];
}

abbrev pub side_version : Bool → CompVersion → Str
side_version is_sink v = if is_sink then v.sink_version else v.source_version

-- The version functions return the version cache, the return code and the out parameter `version`.
abbrev pub Versions : Type 0
Versions = VersionManager × Errno × Str

abbrev pub from_comp_version : VersionManager → Str → Bool → Errno × CompVersion → Versions
from_comp_version vm version is_sink (ret, v) =
    if not (is_success ret) then (vm, ret, version) else (vm, success, side_version is_sink v)

unfoldable pub version_from_ver_mgr : Str → ℕ → Str → Bool → VersionManager → Versions
version_from_ver_mgr uuid dh_type version is_sink vm =
    if not (is_id_length_valid uuid)
    then (vm, para_invalid, version)
    else from_comp_version vm version is_sink (get_comp_version uuid dh_type empty_comp_version vm)

unfoldable pub update_version_cache : Str → VersionInfo → VersionManager → VersionManager
update_version_cache uuid info vm =
    if not (is_id_length_valid uuid)
    then vm
    else (add_dh_version uuid
        (record { uuid = uuid; dh_version = info.dh_version; comp_versions = info.comp_versions })
        vm).0

abbrev pub from_info_found :
    Option CompVersion → Str → VersionInfo → Str → Bool → VersionManager → Versions
from_info_found none uuid info version is_sink vm = (vm, component_dhtype_not_found, version)
from_info_found (some v) uuid info version is_sink vm =
    (update_version_cache uuid info vm, success, side_version is_sink v)

abbrev pub from_version_info :
    Errno × VersionInfo → Str → ℕ → Str → Bool → VersionManager → Versions
from_version_info (ret, info) uuid dh_type version is_sink vm =
    if not (is_success ret)
    then (vm, ret, version)
    else from_info_found (lookup dh_type info.comp_versions) uuid info version is_sink vm

module _ (view : View) where
  unfoldable pub version_from_ver_info_mgr : Str → ℕ → Str → Bool → VersionManager → Versions
  version_from_ver_info_mgr uuid dh_type version is_sink vm =
      if not (is_id_length_valid uuid)
      then (vm, para_invalid, version)
      else from_version_info (view.version_info (view.device_id_by_uuid uuid)) uuid dh_type version
          is_sink vm

  abbrev pub is_good : Versions → Bool
  is_good (vm, ret, version) = is_success ret && not (is_empty version)

  abbrev pub settle : Versions → Versions
  settle (vm, ret, version) =
      if is_good (vm, ret, version) then (vm, success, version) else (vm, ret, version)

  abbrev pub or_ver_info_mgr : Str → ℕ → Bool → Versions → Versions
  or_ver_info_mgr uuid dh_type is_sink (vm, ret, version) =
      if is_good (vm, ret, version)
      then (vm, success, version)
      else settle (version_from_ver_info_mgr uuid dh_type version is_sink vm)

  unfoldable pub get_version : Str → ℕ → Str → Bool → VersionManager → Versions
  get_version uuid dh_type version is_sink vm =
      if not (is_id_length_valid uuid)
      then (vm, para_invalid, version)
      else or_ver_info_mgr uuid dh_type is_sink
          (version_from_ver_mgr uuid dh_type version is_sink vm)
