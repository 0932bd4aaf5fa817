-- ===== src/Task/Factory.antt =====
-- task_factory.cpp, and the constructors of the six kinds of task.
use multi_hardware.Base.{ℕ, List, [], ◌∷◌, ◌++◌, Option, none, some, length}
use multi_hardware.Base.Str.{Str, str_eq}
use multi_hardware.Context.Defs.{set_insert}
use multi_hardware.Task.Types.{
  Task, TaskType, unknown, enable, disable, on_line, off_line, meta_enable, meta_disable, TaskStep,
  do_enable, do_disable, sync_online_info, register_online_distributed_hardware,
  unregister_offline_distributed_hardware, clear_offline_info, wait_unregister_complete,
  meta_enable_task, meta_disable_task, do_modem_meta_enable, do_modem_meta_disable, init, TaskParam,
  System, on_task, set_father,
}
use multi_hardware.Task.Board.{add_task}

-- Task::Task, SetTaskType and SetTaskSteps.
unfoldable pub new_task : Str → TaskParam → TaskType → List TaskStep → Task
new_task id param task_type task_steps = record {
  id = id;
  param = param;
  task_type = task_type;
  task_steps = task_steps;
  father_task = none;
  children_tasks = [];
  unfinish_children_tasks = [];
  task_state = init;
}

unfoldable pub new_enable_task : Str → TaskParam → Task
unfolding new_task
new_enable_task id param = new_task id param enable (do_enable ∷ [])

unfoldable pub new_disable_task : Str → TaskParam → Task
unfolding new_task
new_disable_task id param = new_task id param disable (do_disable ∷ [])

unfoldable pub new_online_task : Str → TaskParam → Task
unfolding new_task
new_online_task id param =
    new_task id param on_line
      (sync_online_info ∷ register_online_distributed_hardware ∷ meta_enable_task ∷ [])

unfoldable pub new_offline_task : Str → TaskParam → Task
unfolding new_task
new_offline_task id param = new_task id param off_line (
    meta_disable_task ∷ unregister_offline_distributed_hardware ∷ wait_unregister_complete
    ∷ clear_offline_info ∷ [])

unfoldable pub new_meta_enable_task : Str → TaskParam → Task
unfolding new_task
new_meta_enable_task id param = new_task id param meta_enable (do_modem_meta_enable ∷ [])

unfoldable pub new_meta_disable_task : Str → TaskParam → Task
unfolding new_task
new_meta_disable_task id param = new_task id param meta_disable (do_modem_meta_disable ∷ [])

-- The switch of CreateTask; `none` for a type that it does not list.
unfoldable pub make_task : TaskType → Str → TaskParam → Option Task
unfolding new_enable_task new_disable_task new_online_task new_offline_task new_meta_enable_task
    new_meta_disable_task
make_task unknown id param = none
make_task enable id param = some (new_enable_task id param)
make_task disable id param = some (new_disable_task id param)
make_task on_line id param = some (new_online_task id param)
make_task off_line id param = some (new_offline_task id param)
make_task meta_enable id param = some (new_meta_enable_task id param)
make_task meta_disable id param = some (new_meta_disable_task id param)

-- AddChildrenTask is virtual: OffLineTask keeps the ids of its unfinished children, any other task
-- the pointers to its children.
abbrev pub add_child_by_type : TaskType → ℕ → Str → Task → Task
add_child_by_type off_line p id father = record father {
  unfinish_children_tasks = set_insert id father.unfinish_children_tasks;
}
add_child_by_type _ p id father = record father { children_tasks = father.children_tasks ++ p ∷ [] }

unfoldable pub add_children_task : ℕ → Str → Task → Task
add_children_task p id father = add_child_by_type father.task_type p id father

-- `random_id n` is the id of the n-th task made: DH_TASK_NAME_PREFIX + GetRandomID().
module _ {Store : Type 0} (random_id : ℕ → Str) where
  abbrev pub link_father : Option ℕ → ℕ → Str → System Store → System Store
  link_father none p id s = s
  link_father (some f) p id s = on_task f (add_children_task p id) (on_task p (set_father f) s)

  abbrev pub register_task : Option Task → Option ℕ → System Store → System Store × Option ℕ
  register_task none father s = (s, none)
  register_task (some t) father s =
      let p = length s.heap in
      let s' = link_father father p t.id (record s { heap = s.heap ++ t ∷ [] }) in
      (record s' { board = add_task (some (t.id, p)) s'.board }, some p)

  unfoldable pub create_task :
      TaskType → TaskParam → Option ℕ → System Store → System Store × Option ℕ
  unfolding make_task
  create_task task_type param father s =
      register_task (make_task task_type (random_id (length s.heap)) param) father s
