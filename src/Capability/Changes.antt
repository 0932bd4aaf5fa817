-- ===== src/Capability/Changes.antt =====
-- capability_info_manager.cpp: the notifications of the database, which create enable and disable
-- tasks. An entry is its key and its value.
use multi_hardware.Base.{
  ℕ, Bool, false, not, ◌||◌, List, [], ◌∷◌, Option, none, some, is_empty, ltb, length,
  if◌then◌else◌,
}
use multi_hardware.Base.Map.{insert, erase}
use multi_hardware.Base.Str.{Str, str_eq}
use multi_hardware.Constants.{Errno, is_success, max_arr_size}
use multi_hardware.Context.Defs.{uuid_by_device_id, network_id_by_uuid}
use multi_hardware.Capability.Key.{capability_key}
use multi_hardware.Capability.Info.{CapabilityInfo, key_of}
use multi_hardware.Capability.Store.{
  Database, CapabilityInfoMap, CapabilityManager, is_size_invalid,
}
use multi_hardware.Task.Types.{TaskType, enable, disable, TaskParam, System}
use multi_hardware.Task.Board.{is_enabled_device}
use multi_hardware.Task.Executor.{push_task}
use multi_hardware.Task.Factory.{create_task}

abbrev pub Entry : Type 0
Entry = Str × Str

module _ (database : Database) (random_id : ℕ → Str) where
  open database use {Data, from_json, entries_by_keys}

  abbrev pub State : Type 0
  State = System (CapabilityManager Data)

  abbrev pub uuid_of : CapabilityInfo → State → Str
  uuid_of c s = uuid_by_device_id c.device_id s.context

  abbrev pub network_id_of : CapabilityInfo → State → Str
  network_id_of c s = network_id_by_uuid (uuid_of c s) s.context

  abbrev pub param_of : CapabilityInfo → State → TaskParam
  param_of c s = record {
    network_id = network_id_of c s;
    uuid = uuid_of c s;
    udid = [];
    dh_id = c.dh_id;
    dh_type = c.dh_type;
  }

  abbrev pub change_map : (CapabilityInfoMap → CapabilityInfoMap) → State → State
  change_map f s = record s {
    store = record s.store { global_cap_info_map = f s.store.global_cap_info_map };
  }

  unfoldable pub push_new_task : TaskType → TaskParam → State → State
  push_new_task task_type param s =
      let (s', task) = create_task random_id task_type param none s in push_task task s'

  -- The uuid and the network id of the capability's device are known.
  abbrev pub is_known : CapabilityInfo → State → Bool
  is_known c s = if is_empty (uuid_of c s) then false else not (is_empty (network_id_of c s))

  abbrev pub add_parsed : Errno × CapabilityInfo → State → State
  add_parsed (ret, c) s =
      if not (is_success ret)
      then s
      else if not (is_known c s)
      then s
      else push_new_task enable (param_of c s) (change_map (insert (key_of c) c) s)

  unfoldable pub handle_capability_add_change : List Entry → State → State
  unfolding push_new_task
  handle_capability_add_change [] s = s
  handle_capability_add_change ((key, value) ∷ records) s =
      handle_capability_add_change records (add_parsed (from_json value) s)

  abbrev pub update_parsed : Errno × CapabilityInfo → State → State
  update_parsed (ret, c) s =
      if not (is_success ret)
      then s
      else if not (is_known c s)
      then s
      else if is_enabled_device (capability_key c.device_id c.dh_id) s.board
      then s
      else push_new_task enable (param_of c s) (change_map (insert (key_of c) c) s)

  unfoldable pub update_records : List Entry → State → State
  update_records [] s = s
  update_records ((key, value) ∷ records) s =
      update_records records (update_parsed (from_json value) s)

  -- `uniniting` is the factory's flag that the service is being released.
  unfoldable pub handle_capability_update_change : Bool → List Entry → State → State
  unfolding update_records
  handle_capability_update_change uniniting records s =
      if uniniting then s else update_records records s

  -- The task is created and pushed before the capability is erased.
  abbrev pub delete_parsed : Errno × CapabilityInfo → State → State
  delete_parsed (ret, c) s =
      if not (is_success ret)
      then s
      else if not (is_known c s)
      then s
      else change_map (erase (key_of c)) (push_new_task disable (param_of c s) s)

  unfoldable pub delete_records : List Entry → State → State
  unfolding push_new_task
  delete_records [] s = s
  delete_records ((key, value) ∷ records) s =
      delete_records records (delete_parsed (from_json value) s)

  unfoldable pub handle_capability_delete_change : Bool → List Entry → State → State
  unfolding delete_records
  handle_capability_delete_change uniniting records s =
      if uniniting then s else delete_records records s

  abbrev pub guarded : (List Entry → State → State) → List Entry → State → State
  guarded handle records s = if is_size_invalid records then s else handle records s

  -- OnChange with a ChangeNotification: the inserted, the updated and the deleted entries.
  unfoldable pub on_change : Bool → List Entry → List Entry → List Entry → State → State
  on_change uniniting inserted updated deleted s =
      guarded (handle_capability_delete_change uniniting) deleted (
        guarded (handle_capability_update_change uniniting) updated
          (guarded handle_capability_add_change inserted s))

  abbrev pub entries_in : Option Data → List Str → List Entry
  entries_in none keys = []
  entries_in (some kv) keys = entries_by_keys keys kv

  unfoldable pub get_entries_by_keys : List Str → State → List Entry
  get_entries_by_keys keys s =
      if is_empty keys || ltb max_arr_size (length keys) then [] else entries_in s.store.db keys

  -- Entries with a key and no value.
  unfoldable pub key_entries : List Str → List Entry
  key_entries [] = []
  key_entries (key ∷ keys) = (key, []) ∷ key_entries keys

  -- OnChange with the keys that changed in the cloud.
  unfoldable pub on_cloud_change : Bool → List Str → List Str → List Str → State → State
  unfolding key_entries
  on_cloud_change uniniting inserted updated deleted s =
      let s1 = guarded handle_capability_add_change (get_entries_by_keys inserted s) s in
      let s2 =
        guarded (handle_capability_update_change uniniting) (get_entries_by_keys updated s1) s1 in
      if is_size_invalid deleted
      then s2
      else handle_capability_delete_change uniniting (key_entries deleted) s2
