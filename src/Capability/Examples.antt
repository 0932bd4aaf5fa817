-- ===== src/Capability/Examples.antt =====
-- The theorems of Capability at small inputs.
use multi_hardware.Task.Board.{is_enabled_device, add_task}
use multi_hardware.Base.{◌≡◌, refl, [], ◌∷◌}
use multi_hardware.Base.Str.{str_eq, str_beq, Str}
use multi_hardware.Capability.Key.{capability_key}
use multi_hardware.Capability.Info.{CapabilityInfo, key_of}
use multi_hardware.Base.{ℕ, List, false, some, none, ◌++◌, arith}
use multi_hardware.Base.Map.{lookup, insert}
use multi_hardware.Constants.{Errno, success, json_parse_failed}
use multi_hardware.Context.Defs.{network_id_by_uuid, find_entry, uuid_by_device_id, DhContext}
use multi_hardware.Capability.Store.{
  Database, CapabilityManager, sync_device_info_from_db, sync_remote_capability_infos,
  add_capability_in_mem, add_capability, remove_capability_info_in_db,
  remove_capability_info_by_key, remove_capability_info_in_mem,
}
use multi_hardware.Capability.Queries.{get_capability}
use multi_hardware.Capability.Keyed.{IsKeyed, insert-IsKeyed, Kept, HoldsKeyed, store_steps-IsKeyed}
use multi_hardware.Capability.Changes.{
  Entry, handle_capability_add_change, handle_capability_delete_change,
  handle_capability_update_change,
}
use multi_hardware.Capability.ChangeLaws.{delete_change-effect, update_change-effect}
use multi_hardware.Capability.Refine.{Op, add, remove, spec_run, run, get_capability-run}
use multi_hardware.Capability.Queries.{found_info}
use multi_hardware.Task.Types.{System, TaskParam}
use multi_hardware.Task.Factory.{new_disable_task, new_enable_task}

abbrev device : Str
device = 1 ∷ 2 ∷ []

abbrev camera : CapabilityInfo
camera = record {
  dh_id = 1 ∷ [];
  device_id = 2 ∷ [];
  device_name = 3 ∷ [];
  device_type = 4;
  dh_type = 5;
  dh_attrs = 6 ∷ [];
  dh_subtype = 7 ∷ [];
}

-- A database with one camera, of which the text 1 is the value and every other text is none.
abbrev parse : Str → Errno × CapabilityInfo
parse [] = (json_parse_failed, camera)
parse (c ∷ s) = (success, camera)

abbrev database : Database
database = record {
  Data = Str;
  data_by_key_prefix = λ id d. (success, (1 ∷ []) ∷ []);
  data_by_key = λ key d. (success, d);
  put_data_batch = λ keys values d. (d, success);
  remove_device_data = λ id d. (d, success);
  remove_data_by_key = λ key d. (d, success);
  entries_by_keys = λ keys d. [];
  from_json = parse;
  to_json = λ c. 1 ∷ [];
  is_json_equal = λ s t. false;
}

abbrev camera_key : Str
camera_key = capability_key (2 ∷ []) (1 ∷ [])

abbrev with_camera : CapabilityManager Str
with_camera = record { global_cap_info_map = (camera_key, camera) ∷ []; db = some [] }

abbrev no_context : DhContext
no_context = record { dev_id_entry_set = []; real_time_network_ids = []; connected_dev_ids = [] }

with_camera-IsKeyed : IsKeyed with_camera.global_cap_info_map
unfolding lookup insert key_of
with_camera-IsKeyed = insert-IsKeyed camera [] (record { keyed = λ k c e. ground arith })

abbrev ids : ℕ → Str
ids n = n ∷ []

-- The camera's device is online.
abbrev online : DhContext
online = record no_context {
  dev_id_entry_set =
      record {
        network_id = 5 ∷ [];
        uuid = 6 ∷ [];
        device_id = 2 ∷ [];
        udid = 7 ∷ [];
        udid_hash = 8 ∷ [];
      }
      ∷ [];
}

abbrev system : System (CapabilityManager Str)
system = record {
  heap = [];
  board = record { tasks = []; enabled_devices = [] };
  task_queue = [];
  context = online;
  store = with_camera;
  un_init = false;
}

abbrev changed : List Entry
changed = (camera_key, 1 ∷ []) ∷ []

store_steps-IsKeyed_example :
    Kept database (sync_device_info_from_db database (2 ∷ []) with_camera)
    × Kept database (sync_remote_capability_infos database (8 ∷ []) online with_camera)
    × Kept database (add_capability_in_mem database (some camera ∷ []) with_camera)
    × Kept database (add_capability database (some camera ∷ []) with_camera)
    × Kept database (remove_capability_info_in_db database (2 ∷ []) with_camera)
    × Kept database (remove_capability_info_by_key database (2 ∷ []) with_camera)
    × Kept database (remove_capability_info_in_mem database (2 ∷ []) with_camera)
    × HoldsKeyed database ids (handle_capability_add_change database ids changed system)
    × HoldsKeyed database ids (handle_capability_update_change database ids false changed system)
    × HoldsKeyed database ids (handle_capability_delete_change database ids false changed system)
store_steps-IsKeyed_example =
    store_steps-IsKeyed database ids (2 ∷ []) (8 ∷ []) online (some camera ∷ []) false changed
      system with_camera-IsKeyed

abbrev camera_param : TaskParam
camera_param = record { network_id = 5 ∷ []; uuid = 6 ∷ []; udid = []; dh_id = 1 ∷ []; dh_type = 5 }

delete_change-effect_example :
    let s' =
      handle_capability_delete_change database ids false ((camera_key, 1 ∷ []) ∷ []) system in
    (lookup camera_key s'.store.global_cap_info_map ≡ none)
    × (s'.heap ≡ [] ++ new_disable_task (0 ∷ []) camera_param ∷ [])
    × (s'.board ≡ add_task (some (0 ∷ [], 0)) system.board)
    × (s'.board.enabled_devices ≡ [])
    × (s'.task_queue ≡ 0 ∷ [])
    × (s'.store.db ≡ system.store.db)
    × (s'.context ≡ online)
    × (system ≡ system)
unfolding uuid_by_device_id find_entry str_beq network_id_by_uuid key_of capability_key
delete_change-effect_example =
    delete_change-effect database ids false camera_key (1 ∷ []) camera_key camera system refl

update_change-effect_example :
    let s' =
      handle_capability_update_change database ids false ((camera_key, 1 ∷ []) ∷ []) system in
    (lookup camera_key s'.store.global_cap_info_map ≡ some camera)
    × (s'.heap ≡ [] ++ new_enable_task (0 ∷ []) camera_param ∷ [])
    × (s'.board ≡ add_task (some (0 ∷ [], 0)) system.board)
    × (s'.board.enabled_devices ≡ [])
    × (s'.task_queue ≡ 0 ∷ [])
    × (s'.store.db ≡ system.store.db)
    × (s'.context ≡ online)
    × (system ≡ system)
unfolding uuid_by_device_id find_entry str_beq network_id_by_uuid is_enabled_device key_of
    capability_key
update_change-effect_example =
    update_change-effect database ids false camera_key (1 ∷ []) camera_key camera system refl

abbrev script : List Op
script = add (some camera ∷ none ∷ []) ∷ remove (3 ∷ []) ∷ add [] ∷ []

get_capability-run_example :
    get_capability database
      (2 ∷ [])
      (1 ∷ [])
      (run database script (record { global_cap_info_map = []; db = some [] }))
    ≡ found_info (spec_run script (λ d h. none) (2 ∷ []) (1 ∷ []))
get_capability-run_example =
    get_capability-run database script (2 ∷ []) (1 ∷ []) (some []) refl refl refl refl
