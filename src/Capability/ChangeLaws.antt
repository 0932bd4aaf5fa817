-- ===== src/Capability/ChangeLaws.antt =====
-- The notifications of the database: what they do to the capabilities and to the tasks.
use multi_hardware.Base.{
  ℕ, ◌≡◌, refl, Bool, false, not, ◌&&◌, List, [], ◌∷◌, ◌++◌, none, some, arith, ◌==◌, if◌then◌else◌,
  length, ltb,
}
use multi_hardware.Base.Map.{lookup, insert, lookup-insert, lookup-erase}
use multi_hardware.Base.Str.{Str, str_eq}
use multi_hardware.Constants.{success, is_success}
use multi_hardware.Capability.Key.{capability_key}
use multi_hardware.Capability.Info.{CapabilityInfo, key_of}
use multi_hardware.Capability.Store.{Database}
use multi_hardware.Capability.Changes.{
  State, is_known, param_of, change_map, push_new_task, update_records,
  handle_capability_update_change, delete_records, handle_capability_delete_change,
  get_entries_by_keys, key_entries, on_cloud_change,
}
use multi_hardware.Task.Types.{Task, enable, disable, TaskParam}
use multi_hardware.Task.Board.{is_enabled_device, add_task}
use multi_hardware.Task.Executor.{push_task, max_task_queue_length}
use multi_hardware.Task.Factory.{
  make_task, create_task, new_task, new_enable_task, new_disable_task,
}

module _ (database : Database) (random_id : ℕ → Str) where
  open database use {Data, from_json}

  -- The new task is the last object; the queue takes it where there is a place.
  abbrev pub queued : State database random_id → List ℕ
  queued s =
      if ltb max_task_queue_length (length s.task_queue)
      then s.task_queue
      else s.task_queue ++ length s.heap ∷ []

  -- What a task that a notification makes changes, and what it leaves.
  abbrev pub Pushed : Task → State database random_id → State database random_id → Type 0
  Pushed t s s' =
      (s'.store ≡ s.store)
      × (s'.heap ≡ s.heap ++ t ∷ [])
      × (s'.board ≡ add_task (some (t.id, length s.heap)) s.board)
      × (s'.task_queue ≡ queued s)
      × (s'.context ≡ s.context)
      × (s'.un_init ≡ s.un_init)

  pub push_enable :
      (param : TaskParam) (s : State database random_id)
      → Pushed
          (new_enable_task (random_id (length s.heap)) param)
          s
          (push_new_task database random_id enable param s)
  unfolding push_new_task create_task make_task push_task new_enable_task new_task
  push_enable param s = ground arith

  pub push_disable :
      (param : TaskParam) (s : State database random_id)
      → Pushed
          (new_disable_task (random_id (length s.heap)) param)
          s
          (push_new_task database random_id disable param s)
  unfolding push_new_task create_task make_task push_task new_disable_task new_task
  push_disable param s = ground arith

  -- One deleted entry whose value is a capability. If the service is not being released and the
  -- device of the capability is online, the capability is forgotten, and a disable task for it is
  -- made, put on the board and queued, where the queue has a place; else the whole state stays as it
  -- is. In both cases the other capabilities, the database, the enabled devices and the online
  -- devices stay.
  pub delete_change-effect :
      (uniniting : Bool) (key value k : Str) (c : CapabilityInfo) (s : State database random_id)
      → from_json value ≡ (success, c)
      → let s' =
          handle_capability_delete_change database random_id uniniting ((key, value) ∷ []) s in
        let taken = not uniniting && is_known database random_id c s in
        let task = new_disable_task (random_id (length s.heap)) (param_of database random_id c s) in
        (lookup k s'.store.global_cap_info_map
          ≡ (if taken && (key_of c == k) then none else lookup k s.store.global_cap_info_map))
        × (s'.heap ≡ (if taken then s.heap ++ task ∷ [] else s.heap))
        × (s'.board ≡ (
            if taken
            then add_task (some (random_id (length s.heap), length s.heap)) s.board
            else s.board))
        × (s'.board.enabled_devices ≡ s.board.enabled_devices)
        × (s'.task_queue ≡ (if taken then queued s else s.task_queue))
        × (s'.store.db ≡ s.store.db)
        × (s'.context ≡ s.context)
        × ((if taken then s else s') ≡ s)
  unfolding handle_capability_delete_change delete_records add_task new_disable_task new_task
  delete_change-effect uniniting key value k c s e = rw e (
      ground (
        arith,
        push_disable (param_of database random_id c s) s,
        lookup-erase (key_of c) k s.store.global_cap_info_map,
      ))

  -- One updated entry whose value is a capability. If the service is not being released, the device
  -- of the capability is online and the capability is not enabled, the capability replaces the one
  -- in memory, and an enable task for it is made, put on the board and queued, where the queue has a
  -- place; else the whole state stays as it is. In both cases the other capabilities, the database,
  -- the enabled devices and the online devices stay.
  pub update_change-effect :
      (uniniting : Bool) (key value k : Str) (c : CapabilityInfo) (s : State database random_id)
      → from_json value ≡ (success, c)
      → let s' =
          handle_capability_update_change database random_id uniniting ((key, value) ∷ []) s in
        let taken =
          not uniniting
          && is_known database random_id c s
          && not (is_enabled_device (capability_key c.device_id c.dh_id) s.board) in
        let task = new_enable_task (random_id (length s.heap)) (param_of database random_id c s) in
        (lookup k s'.store.global_cap_info_map
          ≡ (if taken && (key_of c == k) then some c else lookup k s.store.global_cap_info_map))
        × (s'.heap ≡ (if taken then s.heap ++ task ∷ [] else s.heap))
        × (s'.board ≡ (
            if taken
            then add_task (some (random_id (length s.heap), length s.heap)) s.board
            else s.board))
        × (s'.board.enabled_devices ≡ s.board.enabled_devices)
        × (s'.task_queue ≡ (if taken then queued s else s.task_queue))
        × (s'.store.db ≡ s.store.db)
        × (s'.context ≡ s.context)
        × ((if taken then s else s') ≡ s)
  unfolding handle_capability_update_change update_records add_task new_enable_task new_task
  update_change-effect uniniting key value k c s e = rw e (
      ground (
        arith,
        push_enable (param_of database random_id c s)
            (change_map database random_id (insert (key_of c) c) s),
        lookup-insert (key_of c) k c s.store.global_cap_info_map,
      ))

  delete_records-empty :
      (deleted : List Str) (s : State database random_id)
      → is_success (from_json []).0 ≡ false
      → delete_records database random_id (key_entries database random_id deleted) s ≡ s
  unfolding delete_records key_entries
  delete_records-empty [] s h = refl
  delete_records-empty (key ∷ deleted) s h = ground (arith, h, delete_records-empty deleted s h)

  -- The empty text is no capability, so a deletion in the cloud, of which the service gets the keys
  -- only, changes nothing: the capabilities stay in memory, and no task is made.
  pub on_cloud_change-deleted :
      (uniniting : Bool) (deleted : List Str) (s : State database random_id)
      → is_success (from_json []).0 ≡ false
      → on_cloud_change database random_id uniniting [] [] deleted s ≡ s
  unfolding on_cloud_change get_entries_by_keys handle_capability_delete_change
  on_cloud_change-deleted uniniting deleted s h = ground (arith, delete_records-empty deleted s h)
