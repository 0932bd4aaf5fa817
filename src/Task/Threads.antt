-- ===== src/Task/Threads.antt =====
-- The threads of the task framework as a step relation: the executor's thread, which takes tasks
-- from the queue, the threads of the tasks, and offline tasks that wait. A handler is one
-- step, from its start to its end or its wait, and steps of all threads come in any order; states
-- that the code has only in the middle of a handler are not reached (Phases has some of those). The notifications of a condition variable are not
-- modelled: a waiting task can go on whenever its condition holds.
use multi_hardware.Base.{ℕ, ◌≡◌, Bool, List, [], ◌∷◌, ◌++◌, Option, none, some, get_elem?}
use multi_hardware.Context.Defs.{DhContext}
use multi_hardware.Task.Types.{
  Task, TaskType, unknown, enable, disable, on_line, off_line, meta_enable, meta_disable, TaskStep,
  TaskParam, TaskBoard, System,
}
use multi_hardware.Task.Executor.{pop_task}
use multi_hardware.Task.Handlers.{
  Env, enable_do_task_inner, disable_do_task_inner, meta_enable_do_task_inner,
  meta_disable_do_task_inner,
}
use multi_hardware.Task.Flows.{create_and_push, online_do_task, offline_run, offline_do_task_inner}

-- A thread in WaitDisableTaskFinish, with the steps that it has left.
pub record Waiting : Type 0 where
  pub place : ℕ
  pub task : Task
  pub steps : List TaskStep

module _ (env : Env) where
  open env use {Store}

  -- DoTask, which is virtual, up to the end of the task or to the wait.
  abbrev pub do_task_by_type :
      TaskType → ℕ → Task → System Store → System Store × Option (List TaskStep)
  do_task_by_type unknown p t s = (s, none)
  do_task_by_type enable p t s = (enable_do_task_inner env p t s, none)
  do_task_by_type disable p t s = (disable_do_task_inner env p t s, none)
  do_task_by_type on_line p t s = (online_do_task env p t s, none)
  do_task_by_type off_line p t s = offline_do_task_inner env p t s
  do_task_by_type meta_enable p t s = (meta_enable_do_task_inner env p t s, none)
  do_task_by_type meta_disable p t s = (meta_disable_do_task_inner env p t s, none)

  unfoldable pub do_task : ℕ → Task → System Store → System Store × Option (List TaskStep)
  do_task p t s = do_task_by_type t.task_type p t s

  -- The shared state, the tasks posted to the event handler, and the offline tasks that wait.
  pub record Machine : Type 0 where
    pub system : System Store
    pub posted : List ℕ
    pub waiting : List Waiting

  abbrev pub add_waiting : ℕ → Task → Option (List TaskStep) → List Waiting → List Waiting
  add_waiting p t none ws = ws
  add_waiting p t (some steps) ws = record { place = p; task = t; steps = steps } ∷ ws

  pub data Step (m : Machine) : Machine → Type 0 where
    -- TriggerTask takes the first task of the queue and posts it.
    trigger :
        (p : ℕ) (s : System Store)
        → pop_task m.system ≡ some (p, s)
        → Step m (record m { system = s; posted = m.posted ++ p ∷ [] })
    -- A posted task runs, to its end or until it waits.
    run :
        (p : ℕ) (before after : List ℕ) (t : Task)
        → m.posted ≡ before ++ p ∷ after
        → get_elem? m.system.heap p ≡ some t
        → Step m (record {
          system = (do_task p t m.system).0;
          posted = before ++ after;
          waiting = add_waiting p t (do_task p t m.system).1 m.waiting;
        })
    -- A thread that waits looks again, and goes on if its children have reported.
    resume :
        (w : Waiting) (before after : List Waiting)
        → m.waiting ≡ before ++ w ∷ after
        → Step m (record m {
          system = (offline_run env w.place w.task w.steps m.system).0;
          waiting =
              before
              ++ add_waiting w.place w.task
                  (offline_run env w.place w.task w.steps m.system).1
                  after;
        })
    -- Another component creates a task without a father and pushes it.
    request :
        (task_type : TaskType) (param : TaskParam)
        → Step m (record m { system = create_and_push env task_type param none m.system })
    -- Other components change the online devices, the enabled devices and their own state.
    outside :
        (context : DhContext) (board : TaskBoard) (store : Store)
        → Step m (record m {
          system = record m.system { context = context; board = board; store = store };
        })

  -- Before the first task: nothing queued, nothing running.
  abbrev pub idle : TaskBoard → DhContext → Store → Machine
  idle board context store = record {
    system = record {
      heap = [];
      board = board;
      task_queue = [];
      context = context;
      store = store;
      un_init = Bool.false;
    };
    posted = [];
    waiting = [];
  }

  pub data Reach : Machine → Type 0 where
    here :
        (board : TaskBoard) (context : DhContext) (store : Store) → Reach (idle board context store)
    next : {m m' : Machine} → Reach m → Step m m' → Reach m'
