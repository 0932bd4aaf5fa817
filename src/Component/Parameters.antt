-- ===== src/Component/Parameters.antt =====
-- component_manager.cpp, lines 740 to 905: the parameters with which a component is enabled, looked
-- for in the capabilities, in the local capabilities and in the meta information.
use multi_hardware.Base.{
  ℕ, Bool, true, false, not, ◌||◌, List, [], ◌∷◌, Option, none, some, ◌==◌, nat_eq, if◌then◌else◌,
}
use multi_hardware.Base.Str.{Str}
use multi_hardware.Constants.{
  Errno, success, para_invalid, component_get_sink_version_failed,
  component_get_enable_param_failed, is_success, is_id_length_valid,
}
use multi_hardware.Context.Defs.{udid_hash_by_uuid}
use multi_hardware.Capability.Info.{CapabilityInfo, MetaCapabilityInfo}
use multi_hardware.Version.Manager.{VersionManager}
use multi_hardware.Component.Params.{EnableParam, View, Versions, get_version}

module _ (view : View) where
  -- The parameter functions return the version cache, the return code and the parameters.
  abbrev pub Params : Type 0
  Params = VersionManager × Errno × EnableParam

  -- The loop over the source's capabilities: the last of the type gives the attributes.
  unfoldable pub source_attrs_from : ℕ → List CapabilityInfo → EnableParam → EnableParam
  source_attrs_from dh_type [] param = param
  source_attrs_from dh_type (c ∷ cs) param =
      source_attrs_from dh_type cs
        (if dh_type == c.dh_type then record param { source_attrs = c.dh_attrs } else param)

  unfoldable pub source_attrs_from_meta : ℕ → List MetaCapabilityInfo → EnableParam → EnableParam
  source_attrs_from_meta dh_type [] param = param
  source_attrs_from_meta dh_type (c ∷ cs) param =
      source_attrs_from_meta dh_type cs (
        if dh_type == c.info.dh_type
        then record param { source_attrs = c.info.dh_attrs }
        else param)

  abbrev pub with_sink : Str → CapabilityInfo → EnableParam → EnableParam
  with_sink sink_version c param = record param {
    sink_version = sink_version;
    subtype = c.dh_subtype;
  }

  abbrev pub sink_from_meta :
      Errno × Option MetaCapabilityInfo → VersionManager → CapabilityInfo → EnableParam → Params
  sink_from_meta (ret, none) vm c param = (vm, component_get_sink_version_failed, param)
  sink_from_meta (ret, some m) vm c param =
      if is_success ret
      then (vm, success, with_sink m.sink_version c param)
      else (vm, component_get_sink_version_failed, param)

  -- The sink version, from the version managers or else from the meta information.
  abbrev pub sink_part : Str → CapabilityInfo → EnableParam → Versions → Params
  sink_part uuid c param (vm, ret, version) =
      if not (is_success ret)
      then sink_from_meta (view.meta_cap_info (udid_hash_by_uuid uuid view.context) c.dh_id) vm c
          param
      else (vm, success, with_sink version c param)

  abbrev pub source_part : Str → ℕ → CapabilityInfo → EnableParam → Versions → Params
  source_part uuid dh_type c param (vm, ret, version) =
      if not (is_success ret)
      then (vm, component_get_sink_version_failed, param)
      else sink_part uuid c (record param { source_version = version; sink_attrs = c.dh_attrs })
          (get_version view uuid dh_type [] true vm)

  unfoldable pub get_enable_cap_param :
      Str → Str → ℕ → EnableParam → CapabilityInfo → VersionManager → Params
  get_enable_cap_param network_id uuid dh_type param c vm =
      if not (is_id_length_valid network_id) || not (is_id_length_valid uuid)
      then (vm, para_invalid, param)
      else source_part uuid dh_type c
          (source_attrs_from dh_type (view.capabilities view.local_device_id) param)
          (get_version view view.local_uuid dh_type [] false vm)

  abbrev pub meta_part : MetaCapabilityInfo → EnableParam → Versions → Params
  meta_part m param (vm, ret, version) =
      if not (is_success ret) then (vm, component_get_sink_version_failed, param) else (
        vm,
        success,
        record param {
          source_version = version;
          sink_attrs = m.info.dh_attrs;
          sink_version = m.sink_version;
          subtype = m.info.dh_subtype;
        },
      )

  unfoldable pub get_enable_meta_param :
      Str → Str → ℕ → EnableParam → MetaCapabilityInfo → VersionManager → Params
  get_enable_meta_param network_id uuid dh_type param m vm =
      if not (is_id_length_valid network_id) || not (is_id_length_valid uuid)
      then (vm, para_invalid, param)
      else meta_part m
          (source_attrs_from_meta dh_type (view.meta_cap_infos view.local_udid_hash) param)
          (get_version view view.local_uuid dh_type [] false vm)

  abbrev pub is_found {ℓ} : {A : Type ℓ} → Errno × Option A → Bool
  is_found (ret, none) = false
  is_found (ret, some c) = is_success ret

  unfoldable pub get_cap_param : Str → Str → Errno × Option CapabilityInfo
  get_cap_param uuid dh_id =
      if not (is_id_length_valid uuid) || not (is_id_length_valid dh_id)
      then (para_invalid, none)
      else let first = view.capability (view.device_id_by_uuid uuid) dh_id in
        if is_found first then first else view.local_capability (view.device_id_by_uuid uuid) dh_id

  unfoldable pub get_meta_param : Str → Str → Errno × Option MetaCapabilityInfo
  get_meta_param uuid dh_id =
      if not (is_id_length_valid uuid) || not (is_id_length_valid dh_id)
      then (para_invalid, none)
      else view.meta_cap_info (udid_hash_by_uuid uuid view.context) dh_id

  abbrev pub param_from_meta :
      Errno × Option MetaCapabilityInfo → Str → Str → ℕ → EnableParam → VersionManager → Params
  param_from_meta (ret, none) network_id uuid dh_type param vm =
      (vm, component_get_enable_param_failed, param)
  param_from_meta (ret, some m) network_id uuid dh_type param vm =
      if not (is_success ret)
      then (vm, component_get_enable_param_failed, param)
      else let (vm', ret', param') = get_enable_meta_param network_id uuid dh_type param m vm in
        if is_success ret'
        then (vm', ret', param')
        else (vm', component_get_enable_param_failed, param')

  abbrev pub or_meta_param : Str → Str → Str → ℕ → Params → Params
  or_meta_param network_id uuid dh_id dh_type (vm, ret, param) =
      if is_success ret
      then (vm, ret, param)
      else param_from_meta (get_meta_param uuid dh_id) network_id uuid dh_type param vm

  abbrev pub param_from_cap :
      Errno × Option CapabilityInfo → Str → Str → ℕ → EnableParam → VersionManager → Params
  param_from_cap (ret, none) network_id uuid dh_type param vm =
      (vm, component_get_enable_param_failed, param)
  param_from_cap (ret, some c) network_id uuid dh_type param vm =
      if not (is_success ret)
      then (vm, component_get_enable_param_failed, param)
      else get_enable_cap_param network_id uuid dh_type param c vm

  unfoldable pub get_enable_param : Str → Str → Str → ℕ → EnableParam → VersionManager → Params
  get_enable_param network_id uuid dh_id dh_type param vm =
      if not (is_id_length_valid network_id)
        || not (is_id_length_valid uuid)
        || not (is_id_length_valid dh_id)
      then (vm, component_get_enable_param_failed, param)
      else or_meta_param network_id uuid dh_id dh_type
          (param_from_cap (get_cap_param uuid dh_id) network_id uuid dh_type param vm)
