-- ===== src/Capability/Queries.antt =====
-- capability_info_manager.cpp: the queries. Lists made of a map's values have the map's order.
use multi_hardware.Base.{
  ℕ, Bool, false, not, ◌||◌, List, [], ◌∷◌, ◌++◌, Option, none, some, ◌==◌, nat_eq, if◌then◌else◌,
}
use multi_hardware.Base.Map.{lookup, has, insert}
use multi_hardware.Base.Str.{Str, str_eq}
use multi_hardware.Constants.{
  Errno, success, para_invalid, is_success, is_id_length_valid, resource_db_adapter_pointer_null,
  resource_db_adapter_operation_fail, resource_capability_map_not_found,
  resource_res_db_data_invalid,
}
use multi_hardware.Capability.Key.{capability_key, is_cap_key_match_device_id}
use multi_hardware.Capability.Info.{CapabilityInfo}
use multi_hardware.Capability.Store.{
  Database, CapabilityInfoMap, CapabilityManager, is_size_invalid, put_records,
}

unfoldable pub infos_of_device : Str → CapabilityInfoMap → List CapabilityInfo
infos_of_device device_id [] = []
infos_of_device device_id ((key, c) ∷ m) =
    if is_cap_key_match_device_id key device_id
    then c ∷ infos_of_device device_id m
    else infos_of_device device_id m

-- The loop of GetDataByDHType.
unfoldable pub put_of_type : ℕ → CapabilityInfoMap → CapabilityInfoMap → CapabilityInfoMap
put_of_type dh_type [] out = out
put_of_type dh_type ((key, c) ∷ m) out =
    if not (c.dh_type == dh_type)
    then put_of_type dh_type m out
    else put_of_type dh_type m (insert key c out)

unfoldable pub infos_of : CapabilityInfoMap → List CapabilityInfo
infos_of [] = []
infos_of ((key, c) ∷ m) = c ∷ infos_of m

abbrev pub found_info : Option CapabilityInfo → Errno × Option CapabilityInfo
found_info none = (resource_capability_map_not_found, none)
found_info (some c) = (success, some c)

module _ (database : Database) where
  open database use {Data, data_by_key_prefix, data_by_key, from_json}

  unfoldable pub capabilities_by_device_id :
      Str → List CapabilityInfo → CapabilityManager Data → List CapabilityInfo
  capabilities_by_device_id device_id out s =
      if not (is_id_length_valid device_id)
      then out
      else out ++ infos_of_device device_id s.global_cap_info_map

  unfoldable pub has_capability : Str → Str → CapabilityManager Data → Bool
  has_capability device_id dh_id s =
      if not (is_id_length_valid device_id) || not (is_id_length_valid dh_id)
      then false
      else has (capability_key device_id dh_id) s.global_cap_info_map

  -- The out parameter is null where the call fails.
  unfoldable pub get_capability : Str → Str → CapabilityManager Data → Errno × Option CapabilityInfo
  get_capability device_id dh_id s =
      if not (is_id_length_valid device_id) || not (is_id_length_valid dh_id)
      then (para_invalid, none)
      else found_info (lookup (capability_key device_id dh_id) s.global_cap_info_map)

  abbrev pub parse_found : Errno × Str → Errno × Option CapabilityInfo
  parse_found (ret, text) =
      if not (is_success ret)
      then (resource_db_adapter_operation_fail, none)
      else ((from_json text).0, some (from_json text).1)

  abbrev pub data_in : Option Data → Str → Errno × Option CapabilityInfo
  data_in none key = (resource_db_adapter_pointer_null, none)
  data_in (some kv) key = parse_found (data_by_key key kv)

  unfoldable pub get_data_by_key : Str → CapabilityManager Data → Errno × Option CapabilityInfo
  get_data_by_key key s =
      if not (is_id_length_valid key) then (para_invalid, none) else data_in s.db key

  unfoldable pub get_data_by_dh_type :
      ℕ → CapabilityInfoMap → CapabilityManager Data → CapabilityInfoMap × Errno
  get_data_by_dh_type dh_type out s = (put_of_type dh_type s.global_cap_info_map out, success)

  abbrev pub records_found : Errno × List Str → CapabilityInfoMap → CapabilityInfoMap × Errno
  records_found (ret, records) out =
      if not (is_success ret)
      then (out, resource_db_adapter_operation_fail)
      else if is_size_invalid records
      then (out, resource_res_db_data_invalid)
      else (put_records database records out, success)

  abbrev pub records_in : Option Data → Str → CapabilityInfoMap → CapabilityInfoMap × Errno
  records_in none prefix out = (out, resource_db_adapter_pointer_null)
  records_in (some kv) prefix out = records_found (data_by_key_prefix prefix kv) out

  unfoldable pub get_data_by_key_prefix :
      Str → CapabilityInfoMap → CapabilityManager Data → CapabilityInfoMap × Errno
  get_data_by_key_prefix prefix out s =
      if not (is_id_length_valid prefix) then (out, para_invalid) else records_in s.db prefix out

  unfoldable pub dump_capability_infos :
      List CapabilityInfo → CapabilityManager Data → List CapabilityInfo
  dump_capability_infos out s = out ++ infos_of s.global_cap_info_map
