-- ===== src/Capability/Store.antt =====
-- capability_info_manager.cpp: the capabilities in memory and their database. The database
-- (db_adapter.cpp on the distributed key-value store) and the JSON texts (cJSON) are an interface.
use multi_hardware.Base.{
  Bool, not, ◌&&◌, ◌||◌, List, [], ◌∷◌, Option, none, some, length, is_empty, ltb, ◌==◌, nat_eq,
  if◌then◌else◌,
}
use multi_hardware.Base.Map.{Map, insert, erase, keep_keys}
use multi_hardware.Base.Str.{Str, str_eq}
use multi_hardware.Constants.{
  Errno, success, para_invalid, is_success, is_id_length_valid, max_db_record_size,
  resource_db_adapter_pointer_null, resource_db_adapter_operation_fail,
  resource_res_db_data_invalid,
}
use multi_hardware.Context.Defs.{DhContext, online_device_ids}
use multi_hardware.Capability.Key.{is_cap_key_match_device_id}
use multi_hardware.Capability.Info.{CapabilityInfo, key_of}

-- `from_json` is FromJsonString on a new object, `is_json_equal` is IsCapInfoJsonEqual.
pub record Database : Type 1 where
  pub Data : Type 0
  pub data_by_key_prefix : Str → Data → Errno × List Str
  pub data_by_key : Str → Data → Errno × Str
  pub put_data_batch : List Str → List Str → Data → Data × Errno
  pub remove_device_data : Str → Data → Data × Errno
  pub remove_data_by_key : Str → Data → Data × Errno
  pub entries_by_keys : List Str → Data → List (Str × Str)
  pub from_json : Str → Errno × CapabilityInfo
  pub to_json : CapabilityInfo → Str
  pub is_json_equal : Str → Str → Bool

abbrev pub CapabilityInfoMap : Type 0
CapabilityInfoMap = Map Str CapabilityInfo

-- `db` is `none` where dbAdapterPtr_ is null.
pub record CapabilityManager (Data : Type 0) : Type 0 where
  pub global_cap_info_map : CapabilityInfoMap
  pub db : Option Data

abbrev pub is_size_invalid {ℓ} : {A : Type ℓ} → List A → Bool
is_size_invalid xs = is_empty xs || ltb max_db_record_size (length xs)

-- The loop of AddCapabilityInMem; `none` is a null pointer.
unfoldable pub put_infos : List (Option CapabilityInfo) → CapabilityInfoMap → CapabilityInfoMap
put_infos [] m = m
put_infos (none ∷ infos) m = put_infos infos m
put_infos (some c ∷ infos) m = put_infos infos (insert (key_of c) c m)

abbrev pub without_device : Str → CapabilityInfoMap → CapabilityInfoMap
without_device device_id m = keep_keys (λ key. not (is_cap_key_match_device_id key device_id)) m

module _ (database : Database) where
  open database use {
    Data, data_by_key_prefix, data_by_key, put_data_batch, remove_device_data, remove_data_by_key,
    from_json, to_json, is_json_equal,
  }

  abbrev pub put_parsed : Errno × CapabilityInfo → CapabilityInfoMap → CapabilityInfoMap
  put_parsed (ret, c) m = if is_success ret then insert (key_of c) c m else m

  -- The loop over the records of SyncDeviceInfoFromDB and GetDataByKeyPrefix.
  unfoldable pub put_records : List Str → CapabilityInfoMap → CapabilityInfoMap
  put_records [] m = m
  put_records (text ∷ records) m = put_records records (put_parsed (from_json text) m)

  abbrev pub sync_found : Errno × List Str → CapabilityManager Data → CapabilityManager Data × Errno
  sync_found (ret, records) s =
      if not (is_success ret)
      then (s, resource_db_adapter_operation_fail)
      else if is_size_invalid records
      then (s, resource_res_db_data_invalid)
      else (record s { global_cap_info_map = put_records records s.global_cap_info_map }, success)

  abbrev pub sync_with : Option Data → Str → CapabilityManager Data → CapabilityManager Data × Errno
  sync_with none device_id s = (s, resource_db_adapter_pointer_null)
  sync_with (some kv) device_id s = sync_found (data_by_key_prefix device_id kv) s

  unfoldable pub sync_device_info_from_db :
      Str → CapabilityManager Data → CapabilityManager Data × Errno
  sync_device_info_from_db device_id s =
      if not (is_id_length_valid device_id) then (s, para_invalid) else sync_with s.db device_id s

  abbrev pub put_remote_parsed :
      Str → Errno × CapabilityInfo → CapabilityInfoMap → CapabilityInfoMap
  put_remote_parsed local_id (ret, c) m =
      if not (is_success ret)
      then m
      else if c.device_id == local_id
      then m
      else insert (key_of c) c m

  unfoldable pub put_remote_records : Str → List Str → CapabilityInfoMap → CapabilityInfoMap
  put_remote_records local_id [] m = m
  put_remote_records local_id (text ∷ records) m =
      put_remote_records local_id records (put_remote_parsed local_id (from_json text) m)

  abbrev pub put_remote_found : Str → Errno × List Str → CapabilityInfoMap → CapabilityInfoMap
  put_remote_found local_id (ret, records) m =
      if not (is_success ret)
      then m
      else if is_size_invalid records
      then m
      else put_remote_records local_id records m

  -- The loop over the online devices.
  unfoldable pub put_devices : Str → Data → List Str → CapabilityInfoMap → CapabilityInfoMap
  put_devices local_id kv [] m = m
  put_devices local_id kv (device_id ∷ ids) m =
      put_devices local_id kv ids (put_remote_found local_id (data_by_key_prefix device_id kv) m)

  abbrev pub sync_remote_with :
      Option Data → Str → DhContext → CapabilityManager Data → CapabilityManager Data × Errno
  sync_remote_with none local_id c s = (s, resource_db_adapter_pointer_null)
  sync_remote_with (some kv) local_id c s = (
    record s {
      global_cap_info_map = put_devices local_id kv (online_device_ids c) s.global_cap_info_map;
    },
    success,
  )

  unfoldable pub sync_remote_capability_infos :
      Str → DhContext → CapabilityManager Data → CapabilityManager Data × Errno
  sync_remote_capability_infos local_id c s = sync_remote_with s.db local_id c s

  unfoldable pub add_capability_in_mem :
      List (Option CapabilityInfo) → CapabilityManager Data → CapabilityManager Data × Errno
  add_capability_in_mem infos s =
      if is_size_invalid infos
      then (s, resource_res_db_data_invalid)
      else (record s { global_cap_info_map = put_infos infos s.global_cap_info_map }, success)

  abbrev pub is_stored : Errno × Str → CapabilityInfo → Bool
  is_stored (ret, text) c = is_success ret && is_json_equal text (to_json c)

  -- The records that AddCapability collects for the database.
  unfoldable pub new_infos : Data → List (Option CapabilityInfo) → List CapabilityInfo
  new_infos kv [] = []
  new_infos kv (none ∷ infos) = new_infos kv infos
  new_infos kv (some c ∷ infos) =
      if is_stored (data_by_key (key_of c) kv) c then new_infos kv infos else c ∷ new_infos kv infos

  unfoldable pub keys_of : List CapabilityInfo → List Str
  keys_of [] = []
  keys_of (c ∷ cs) = key_of c ∷ keys_of cs

  unfoldable pub values_of : List CapabilityInfo → List Str
  values_of [] = []
  values_of (c ∷ cs) = to_json c ∷ values_of cs

  abbrev pub stored : Data × Errno → CapabilityManager Data → CapabilityManager Data × Errno
  stored (kv, ret) s = (
    record s { db = some kv },
    if is_success ret then success else resource_db_adapter_operation_fail,
  )

  abbrev pub put_new :
      Data → List CapabilityInfo → CapabilityManager Data → CapabilityManager Data × Errno
  put_new kv [] s = (s, success)
  put_new kv (c ∷ cs) s = stored (put_data_batch (keys_of (c ∷ cs)) (values_of (c ∷ cs)) kv) s

  abbrev pub add_with :
      Option Data
      → List (Option CapabilityInfo)
      → CapabilityManager Data
      → CapabilityManager Data × Errno
  add_with none infos s = (s, resource_db_adapter_pointer_null)
  add_with (some kv) infos s =
      put_new kv (new_infos kv infos)
        (record s { global_cap_info_map = put_infos infos s.global_cap_info_map })

  unfoldable pub add_capability :
      List (Option CapabilityInfo) → CapabilityManager Data → CapabilityManager Data × Errno
  unfolding new_infos
  add_capability infos s =
      if is_size_invalid infos then (s, resource_res_db_data_invalid) else add_with s.db infos s

  abbrev pub remove_in_db_with :
      Option Data → Str → CapabilityManager Data → CapabilityManager Data × Errno
  remove_in_db_with none device_id s = (s, resource_db_adapter_pointer_null)
  remove_in_db_with (some kv) device_id s =
      stored (remove_device_data device_id kv)
        (record s { global_cap_info_map = without_device device_id s.global_cap_info_map })

  unfoldable pub remove_capability_info_in_db :
      Str → CapabilityManager Data → CapabilityManager Data × Errno
  remove_capability_info_in_db device_id s =
      if not (is_id_length_valid device_id)
      then (s, para_invalid)
      else remove_in_db_with s.db device_id s

  abbrev pub remove_by_key_with :
      Option Data → Str → CapabilityManager Data → CapabilityManager Data × Errno
  remove_by_key_with none key s = (s, resource_db_adapter_pointer_null)
  remove_by_key_with (some kv) key s =
      stored (remove_data_by_key key kv)
        (record s { global_cap_info_map = erase key s.global_cap_info_map })

  unfoldable pub remove_capability_info_by_key :
      Str → CapabilityManager Data → CapabilityManager Data × Errno
  remove_capability_info_by_key key s =
      if not (is_id_length_valid key) then (s, para_invalid) else remove_by_key_with s.db key s

  unfoldable pub remove_capability_info_in_mem :
      Str → CapabilityManager Data → CapabilityManager Data × Errno
  remove_capability_info_in_mem device_id s =
      if not (is_id_length_valid device_id) then (s, para_invalid) else (
        record s { global_cap_info_map = without_device device_id s.global_cap_info_map },
        success,
      )
