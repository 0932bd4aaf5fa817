-- ===== src/Task/Types.antt =====
-- impl_utils.h, task.h and task.cpp: the kinds of task and the task objects. A shared_ptr or
-- weak_ptr to a task is its position in the list of the objects made so far. Objects are not
-- destroyed, so `lock` on the father always gives the father.
use multi_hardware.Base.{ℕ, Bool, List, Option, none, some, get_elem?, set}
use multi_hardware.Base.Map.{Map}
use multi_hardware.Base.Str.{Str}
use multi_hardware.Context.Defs.{DhContext}

pub data TaskType : Type 0 where
  unknown enable disable on_line off_line meta_enable meta_disable : TaskType

pub data TaskStep : Type 0 where
  do_enable do_disable sync_online_info register_online_distributed_hardware : TaskStep
  unregister_offline_distributed_hardware clear_offline_info : TaskStep
  wait_unregister_complete meta_enable_task meta_disable_task : TaskStep
  do_modem_meta_enable do_modem_meta_disable : TaskStep

pub data TaskState : Type 0 where
  init running success fail : TaskState

pub record TaskParam : Type 0 where
  pub network_id : Str
  pub uuid : Str
  pub udid : Str
  pub dh_id : Str
  pub dh_type : ℕ

-- `unfinish_children_tasks` is the member that OffLineTask adds.
pub record Task : Type 0 where
  pub id : Str
  pub param : TaskParam
  pub task_type : TaskType
  pub task_steps : List TaskStep
  pub father_task : Option ℕ
  pub children_tasks : List ℕ
  pub unfinish_children_tasks : List Str
  pub task_state : TaskState

pub record TaskBoard : Type 0 where
  pub tasks : Map Str ℕ
  pub enabled_devices : Map Str TaskParam

-- What the task framework and the handlers of its tasks share. `store` is the state of the
-- capability managers, and `un_init` says that the framework asked for its own release.
pub record System (Store : Type 0) : Type 0 where
  pub heap : List Task
  pub board : TaskBoard
  pub task_queue : List ℕ
  pub context : DhContext
  pub store : Store
  pub un_init : Bool

-- A call on an object; on a pointer to no object it does nothing.
module _ {Store : Type 0} where
  abbrev pub write_task : Option Task → ℕ → (Task → Task) → System Store → System Store
  write_task none p f s = s
  write_task (some t) p f s = record s { heap = set s.heap p (f t) }

  unfoldable pub on_task : ℕ → (Task → Task) → System Store → System Store
  on_task p f s = write_task (get_elem? s.heap p) p f s

abbrev pub set_state : TaskState → Task → Task
set_state st t = record t { task_state = st }

abbrev pub set_father : ℕ → Task → Task
set_father p t = record t { father_task = some p }
