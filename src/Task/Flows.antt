-- ===== src/Task/Flows.antt =====
-- online_task.cpp and offline_task.cpp: the tasks that create other tasks. A thread is one function
-- up to its end or its wait. In the code the children that it has pushed may run, and report, before
-- it has made the others or tests whether any is left; then it need not wait at all.
use multi_hardware.Base.{
  ℕ, true, ◌&&◌, List, [], ◌∷◌, Option, none, some, get_elem?, ◌==◌, nat_eq, if◌then◌else◌,
  is_empty,
}
use multi_hardware.Base.Str.{Str, str_eq}
use multi_hardware.Context.Defs.{
  remove_online_device_by_network_id, udid_hash_by_uuid, real_time_count, isomerism_connect_count,
}
use multi_hardware.Task.Types.{
  Task, TaskType, enable, disable, meta_enable, meta_disable, TaskStep, sync_online_info,
  register_online_distributed_hardware, unregister_offline_distributed_hardware, clear_offline_info,
  wait_unregister_complete, meta_enable_task, meta_disable_task, TaskState, running, TaskParam,
  System, on_task, set_state,
}
use multi_hardware.Task.Board.{is_all_task_finish}
use multi_hardware.Task.Executor.{push_task}
use multi_hardware.Task.Factory.{create_task}
use multi_hardware.Task.Handlers.{Env, device_id_by_uuid, remove_from_board}

module _ (env : Env) where
  open env use {Store, random_id, sha256}

  -- CreateTask and PushTask, as every handler pairs them.
  unfoldable pub create_and_push : TaskType → TaskParam → Option ℕ → System Store → System Store
  create_and_push task_type param father s =
      let (s', task) = create_task random_id task_type param father s in push_task task s'

  unfoldable pub create_and_push_all :
      TaskType → (Str × ℕ → TaskParam) → ℕ → List (Str × ℕ) → System Store → System Store
  unfolding create_and_push
  create_and_push_all task_type param father [] s = s
  create_and_push_all task_type param father (info ∷ infos) s =
      create_and_push_all task_type param father infos
        (create_and_push task_type (param info) (some father) s)

  abbrev pub or_else : List (Str × ℕ) → List (Str × ℕ) → List (Str × ℕ)
  or_else [] ys = ys
  or_else (x ∷ xs) ys = x ∷ xs

  -- OnLineTask.
  unfoldable pub do_sync_info : Task → System Store → System Store
  do_sync_info t s = record s {
    store =
        env.sync_meta_info (sha256 t.param.udid)
          (env.sync_device_info (device_id_by_uuid env t.param.uuid) s.store);
  }

  -- Where the first manager knows nothing the next one is asked.
  unfoldable pub online_dh_infos : Task → System Store → List (Str × ℕ)
  online_dh_infos t s =
      let device_id = device_id_by_uuid env t.param.uuid in
      or_else (env.capabilities device_id s.store) (
        or_else (env.local_capabilities device_id s.store)
          (env.meta_capabilities (sha256 t.param.udid) s.store))

  abbrev pub child_param : Task → Str × ℕ → TaskParam
  child_param t (dh_id, dh_type) = record {
    network_id = t.param.network_id;
    uuid = t.param.uuid;
    udid = t.param.udid;
    dh_id = dh_id;
    dh_type = dh_type;
  }

  unfoldable pub create_enable_task : ℕ → Task → System Store → System Store
  create_enable_task p t s = create_and_push_all enable (child_param t) p (online_dh_infos t s) s

  unfoldable pub create_meta_enable_task : ℕ → Task → System Store → System Store
  create_meta_enable_task p t s = create_and_push meta_enable t.param (some p) s

  abbrev pub online_step : ℕ → Task → TaskStep → System Store → System Store
  online_step p t sync_online_info s = do_sync_info t s
  online_step p t register_online_distributed_hardware s = create_enable_task p t s
  online_step p t meta_enable_task s = create_meta_enable_task p t s
  online_step p t _ s = s

  unfoldable pub online_steps : ℕ → Task → List TaskStep → System Store → System Store
  online_steps p t [] s = s
  online_steps p t (step ∷ steps) s = online_steps p t steps (online_step p t step s)

  unfoldable pub online_do_task : ℕ → Task → System Store → System Store
  unfolding online_steps
  online_do_task p t s = remove_from_board env t.id (
      on_task p (set_state TaskState.success)
        (online_steps p t t.task_steps (on_task p (set_state running) s)))

  -- OffLineTask.
  unfoldable pub offline_dh_infos : Task → System Store → List (Str × ℕ)
  offline_dh_infos t s =
      or_else (env.capabilities (device_id_by_uuid env t.param.uuid) s.store)
        (env.meta_capabilities (udid_hash_by_uuid t.param.uuid s.context) s.store)

  -- The children's parameters leave the udid empty.
  abbrev pub offline_child_param : Task → Str × ℕ → TaskParam
  offline_child_param t (dh_id, dh_type) = record {
    network_id = t.param.network_id;
    uuid = t.param.uuid;
    udid = [];
    dh_id = dh_id;
    dh_type = dh_type;
  }

  unfoldable pub create_disable_task : ℕ → Task → System Store → System Store
  create_disable_task p t s =
      create_and_push_all disable (offline_child_param t) p (offline_dh_infos t s) s

  unfoldable pub create_meta_disable_task : ℕ → Task → System Store → System Store
  create_meta_disable_task p t s =
      create_and_push meta_disable (offline_child_param t (t.param.dh_id, t.param.dh_type)) (some p)
        s

  unfoldable pub clear_off_line_info : Task → System Store → System Store
  clear_off_line_info t s = record s {
    store = env.remove_in_mem (device_id_by_uuid env t.param.uuid) s.store;
  }

  abbrev pub unfinished_of : Option Task → List Str
  unfinished_of none = []
  unfinished_of (some t) = t.unfinish_children_tasks

  unfoldable pub unfinished : ℕ → System Store → List Str
  unfinished p s = unfinished_of (get_elem? s.heap p)

  -- WaitDisableTaskFinish after the wait.
  abbrev pub children_finished : Task → System Store → System Store
  children_finished t s = record s {
    context = remove_online_device_by_network_id t.param.network_id s.context;
  }

  -- The end of DoTaskInner, with the test for the release of the framework.
  abbrev pub offline_end : ℕ → Task → System Store → System Store
  offline_end p t s =
      let s1 = remove_from_board env t.id (on_task p (set_state TaskState.success) s) in
      if (real_time_count s1.context == 0)
        && ((isomerism_connect_count s1.context == 0) && is_all_task_finish s1.board)
      then record s1 { un_init = true }
      else s1

  -- A run of the task's thread until it ends or waits: the steps that are left, `none` at the end.
  -- A thread that waits goes on from the step at which it waits.
  unfoldable pub offline_run :
      ℕ → Task → List TaskStep → System Store → System Store × Option (List TaskStep)
  unfolding unfinished
  offline_run p t [] s = (offline_end p t s, none)
  offline_run p t (unregister_offline_distributed_hardware ∷ steps) s =
      offline_run p t steps (create_disable_task p t s)
  offline_run p t (wait_unregister_complete ∷ steps) s =
      let rest = offline_run p t steps (children_finished t s) in
      if is_empty (unfinished p s) then rest else (s, some (wait_unregister_complete ∷ steps))
  offline_run p t (clear_offline_info ∷ steps) s = offline_run p t steps (clear_off_line_info t s)
  offline_run p t (meta_disable_task ∷ steps) s =
      offline_run p t steps (create_meta_disable_task p t s)
  offline_run p t (_ ∷ steps) s = offline_run p t steps s

  unfoldable pub offline_do_task_inner :
      ℕ → Task → System Store → System Store × Option (List TaskStep)
  unfolding offline_run
  offline_do_task_inner p t s = offline_run p t t.task_steps (on_task p (set_state running) s)
