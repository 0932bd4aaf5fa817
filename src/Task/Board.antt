-- ===== src/Task/Board.antt =====
-- task_board.cpp.
use multi_hardware.Base.{
  ℕ, ◌≡◌, refl, Bool, true, false, not, ◌&&◌, List, [], ◌∷◌, ◌++◌, Option, none, some, arith,
  is_empty, ◌==◌, if◌then◌else◌, map,
}
use multi_hardware.Base.Map.{
  Map, lookup, has, insert, emplace, erase, is_some, lookup-insert, lookup-emplace, lookup-erase,
}
use multi_hardware.Base.Str.{Str, str_eq, str_beq_iff}
use multi_hardware.Constants.{Errno, success, task_timeout}
use multi_hardware.Task.Types.{TaskState, init, Task, TaskType, TaskStep, TaskParam, TaskBoard}

-- What a waiter sees when the wait for `tasks_.empty()` ends, at the latest at the timeout.
unfoldable pub wait_for_all_task_finish : TaskBoard → Errno
wait_for_all_task_finish b = if is_empty b.tasks then success else task_timeout

unfoldable pub is_all_task_finish : TaskBoard → Bool
is_all_task_finish b = is_empty b.tasks

-- `tasks_` maps the id of a task to the object; `none` is a null pointer.
unfoldable pub add_task : Option (Str × ℕ) → TaskBoard → TaskBoard
add_task none b = b
add_task (some (id, p)) b = if has id b.tasks then b else record b { tasks = emplace id p b.tasks }

unfoldable pub remove_task_inner : Str → TaskBoard → TaskBoard
remove_task_inner id b = if not (has id b.tasks) then b else record b { tasks = erase id b.tasks }

-- The second part says whether a waiter is notified.
unfoldable pub remove_task : Str → TaskBoard → TaskBoard × Bool
unfolding remove_task_inner
remove_task id b = let b' = remove_task_inner id b in (b', is_empty b'.tasks)

pub record TaskDump : Type 0 where
  pub id : Str
  pub task_type : TaskType
  pub task_parm : TaskParam
  pub task_state : TaskState
  pub task_steps : List TaskStep

-- The udid and the state are not written, and keep the values of an empty struct.
unfoldable pub dump_of : Task → TaskDump
dump_of t = record {
  id = t.id;
  task_type = t.task_type;
  task_parm = record {
    network_id = t.param.network_id;
    uuid = t.param.uuid;
    udid = [];
    dh_id = t.param.dh_id;
    dh_type = t.param.dh_type;
  };
  task_state = init;
  task_steps = t.task_steps;
}

-- The objects of the board are appended to those that the caller passes.
unfoldable pub dump_all_tasks : List Task → List TaskDump → List TaskDump
unfolding dump_of
dump_all_tasks board_tasks task_infos = task_infos ++ map dump_of board_tasks

unfoldable pub save_enabled_device : Str → TaskParam → TaskBoard → TaskBoard
save_enabled_device key param b = record b { enabled_devices = insert key param b.enabled_devices }

unfoldable pub remove_enabled_device : Str → TaskBoard → TaskBoard
remove_enabled_device key b = record b { enabled_devices = erase key b.enabled_devices }

unfoldable pub get_enabled_device : TaskBoard → Map Str TaskParam
get_enabled_device b = b.enabled_devices

-- The loop that looks for the key.
unfoldable pub find_key : Str → Map Str TaskParam → Bool
find_key key [] = false
find_key key ((k, v) ∷ m) = if k == key then true else find_key key m

unfoldable pub is_enabled_device : Str → TaskBoard → Bool
unfolding find_key
is_enabled_device key b = find_key key b.enabled_devices

-- Any task can be looked up after AddTask as before, but for the id given, which is then that of
-- the object given, unless the id was there: then the board keeps the object it had.
pub lookup-add_task :
    (id other : Str) (p : ℕ) (b : TaskBoard)
    → lookup other (add_task (some (id, p)) b).tasks
      ≡ (if (id == other) && not (has id b.tasks) then some p else lookup other b.tasks)
unfolding add_task
lookup-add_task id other p b = ground (arith, lookup-emplace id other p b.tasks)

pub lookup-remove_task :
    (id other : Str) (b : TaskBoard)
    → lookup other (remove_task id b).0.tasks ≡ (if id == other then none else lookup other b.tasks)
unfolding remove_task has
lookup-remove_task id other b = ground (arith, lookup-erase id other b.tasks, str_beq_iff id other)

find_key-lookup : (key : Str) (m : Map Str TaskParam) → find_key key m ≡ is_some (lookup key m)
unfolding find_key lookup
find_key-lookup key [] = refl
find_key-lookup key ((k, v) ∷ m) = ground (arith, find_key-lookup key m)

-- Saving and removing an enabled device change the answer of IsEnabledDevice for its key only.
pub is_enabled_device-changes :
    (key other : Str) (param : TaskParam) (b : TaskBoard)
    → (is_enabled_device other (save_enabled_device key param b)
        ≡ (if key == other then true else is_enabled_device other b))
      × (is_enabled_device other (remove_enabled_device key b)
          ≡ (if key == other then false else is_enabled_device other b))
unfolding is_enabled_device save_enabled_device remove_enabled_device
is_enabled_device-changes key other param b = ground (
  arith,
  find_key-lookup other b.enabled_devices,
  find_key-lookup other (insert key param b.enabled_devices),
  find_key-lookup other (erase key b.enabled_devices),
  lookup-insert key other param b.enabled_devices,
  lookup-erase key other b.enabled_devices,
)

pub remove_task-enabled_devices :
    (id : Str) (b : TaskBoard) → (remove_task id b).0.enabled_devices ≡ b.enabled_devices
unfolding remove_task
remove_task-enabled_devices id b = ground arith

pub is_enabled_device-remove_task :
    (key id : Str) (b : TaskBoard)
    → is_enabled_device key (remove_task id b).0 ≡ is_enabled_device key b
unfolding is_enabled_device
is_enabled_device-remove_task key id b = rw (remove_task-enabled_devices id b)

pub tasks-enabled_device :
    (key : Str) (param : TaskParam) (b : TaskBoard)
    → ((save_enabled_device key param b).tasks ≡ b.tasks)
      × ((remove_enabled_device key b).tasks ≡ b.tasks)
unfolding save_enabled_device remove_enabled_device
tasks-enabled_device key param b = (refl, refl)
