-- ===== src/Task/Handlers.antt =====
-- enable_task.cpp, disable_task.cpp, meta_enable_task.cpp, meta_disable_task.cpp, online_task.cpp
-- and offline_task.cpp. What the handlers call in other components is an interface, `Env`.
-- A handler is one function here. The code holds no mutex over a whole handler, so other threads may
-- run between its calls: Phases has the handlers of the disable tasks call by call.
use multi_hardware.Base.{ℕ, Bool, not, List, [], Option, none, some, nat_eq, if◌then◌else◌}
use multi_hardware.Base.Str.{Str, str_eq}
use multi_hardware.Constants.{
  Errno, success, pointer_is_null, para_invalid, is_success, is_id_length_valid,
}
use multi_hardware.Constants.DhType.{modem}
use multi_hardware.Context.Defs.{DhContext, set_erase}
use multi_hardware.Capability.Key.{capability_key}
use multi_hardware.Task.Types.{Task, TaskState, running, fail, System, on_task, set_state}
use multi_hardware.Task.Board.{remove_task, save_enabled_device, remove_enabled_device}

-- The components that the handlers call. `Store` is their state.
pub record Env : Type 1 where
  pub Store : Type 0
  -- GetRandomID and Sha256.
  pub random_id : ℕ → Str
  pub sha256 : Str → Str
  -- ComponentManager::Enable and Disable: network id, uuid, hardware id and type.
  pub component_enable : Str → Str → Str → ℕ → DhContext → Store → Store × Errno
  pub component_disable : Str → Str → Str → ℕ → DhContext → Store → Store × Errno
  -- ComponentManager::GetDHSourceInstance is not null.
  pub has_source : ℕ → Store → Bool
  -- DHModemContextExt: its library is loaded, its instance exists, and what that returns.
  pub has_modem_ext : Store → Bool
  pub modem_enable : Str → Store → Store × Errno
  pub modem_disable : Str → Store → Store × Errno
  -- LocalCapabilityInfoManager::SyncDeviceInfoFromDB and MetaInfoManager::SyncMetaInfoFromDB.
  pub sync_device_info : Str → Store → Store
  pub sync_meta_info : Str → Store → Store
  -- The hardware ids and types that the three managers know of a device.
  pub capabilities : Str → Store → List (Str × ℕ)
  pub local_capabilities : Str → Store → List (Str × ℕ)
  pub meta_capabilities : Str → Store → List (Str × ℕ)
  -- CapabilityInfoManager::RemoveCapabilityInfoInMem.
  pub remove_in_mem : Str → Store → Store

module _ (env : Env) where
  open env use {Store, random_id, sha256}

  unfoldable pub device_id_by_uuid : Str → Str
  device_id_by_uuid uuid = if not (is_id_length_valid uuid) then [] else sha256 uuid

  abbrev pub result_state : Errno → TaskState
  result_state r = if is_success r then TaskState.success else fail

  abbrev pub with_result : Store × Errno → System Store → System Store × Errno
  with_result (st, r) s = (record s { store = st }, r)

  abbrev pub remove_from_board : Str → System Store → System Store
  remove_from_board id s = record s { board = (remove_task id s.board).0 }

  -- EnableTask::RegisterHardware.
  unfoldable pub register_hardware : Task → System Store → System Store × Errno
  register_hardware t s =
      with_result
        (env.component_enable t.param.network_id t.param.uuid t.param.dh_id t.param.dh_type
          s.context s.store)
        s

  abbrev pub finish_enable : ℕ → Task → System Store × Errno → System Store
  finish_enable p t (s, result) =
      let s1 = on_task p (set_state (result_state result)) s in
      let key = capability_key (device_id_by_uuid t.param.uuid) t.param.dh_id in
      let s2 =
        if is_success result
        then record s1 { board = save_enabled_device key t.param s1.board }
        else s1 in
      remove_from_board t.id s2

  unfoldable pub enable_do_task_inner : ℕ → Task → System Store → System Store
  enable_do_task_inner p t s =
      finish_enable p t (register_hardware t (on_task p (set_state running) s))

  -- DisableTask::UnRegisterHardware.
  unfoldable pub unregister_hardware : Task → System Store → System Store × Errno
  unregister_hardware t s =
      with_result
        (env.component_disable t.param.network_id t.param.uuid t.param.dh_id t.param.dh_type
          s.context s.store)
        s

  -- OffLineTask::NotifyFatherFinish, on the father.
  unfoldable pub notify_father_finish : Str → Task → Task
  notify_father_finish id father = record father {
    unfinish_children_tasks = set_erase id father.unfinish_children_tasks;
  }

  abbrev pub notify_father : Option ℕ → Str → System Store → System Store
  notify_father none id s = s
  notify_father (some f) id s = on_task f (notify_father_finish id) s

  abbrev pub finish_disable : ℕ → Task → System Store × Errno → System Store
  finish_disable p t (s, result) =
      let key = capability_key (device_id_by_uuid t.param.uuid) t.param.dh_id in
      let s1 =
        if is_success result then record s { board = remove_enabled_device key s.board } else s in
      let s2 = on_task p (set_state (result_state result)) s1 in
      remove_from_board t.id (notify_father t.father_task t.id s2)

  unfoldable pub disable_do_task_inner : ℕ → Task → System Store → System Store
  disable_do_task_inner p t s =
      finish_disable p t (unregister_hardware t (on_task p (set_state running) s))

  abbrev pub modem_result : Store × Errno → System Store → System Store × Errno
  modem_result (st, r) s = (record s { store = st }, if is_success r then success else para_invalid)

  -- MetaEnableTask::Enable and MetaDisableTask::Disable.
  unfoldable pub meta_enable_hardware : Task → System Store → System Store × Errno
  meta_enable_hardware t s =
      if not (env.has_source modem s.store)
      then (s, pointer_is_null)
      else if not (env.has_modem_ext s.store)
      then (s, pointer_is_null)
      else modem_result (env.modem_enable t.param.network_id s.store) s

  unfoldable pub meta_disable_hardware : Task → System Store → System Store × Errno
  meta_disable_hardware t s =
      if not (env.has_source modem s.store)
      then (s, pointer_is_null)
      else if not (env.has_modem_ext s.store)
      then (s, pointer_is_null)
      else modem_result (env.modem_disable t.param.network_id s.store) s

  abbrev pub finish_meta_enable : ℕ → Task → System Store × Errno → System Store
  finish_meta_enable p t (s, result) =
      remove_from_board t.id (on_task p (set_state (result_state result)) s)

  unfoldable pub meta_enable_do_task_inner : ℕ → Task → System Store → System Store
  meta_enable_do_task_inner p t s =
      finish_meta_enable p t (meta_enable_hardware t (on_task p (set_state running) s))

  abbrev pub finish_meta_disable : ℕ → Task → System Store × Errno → System Store
  finish_meta_disable p t (s, result) =
      remove_from_board t.id
        (notify_father t.father_task t.id (on_task p (set_state (result_state result)) s))

  unfoldable pub meta_disable_do_task_inner : ℕ → Task → System Store → System Store
  meta_disable_do_task_inner p t s =
      finish_meta_disable p t (meta_disable_hardware t (on_task p (set_state running) s))
