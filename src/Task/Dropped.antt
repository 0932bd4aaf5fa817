-- ===== src/Task/Dropped.antt =====
-- A child of an offline task that finds the queue full.
use multi_hardware.Base.{
  ℕ, ◌<◌, ◌≡◌, refl, true, false, List, [], ◌∷◌, some, arith, length, get_elem?,
}
use multi_hardware.Base.Map.{lookup, has}
use multi_hardware.Base.Str.{Str, str_eq, str_beq_iff}
use multi_hardware.Context.Defs.{set_insert, set_has}
use multi_hardware.Task.Types.{Task, disable, off_line, TaskParam, System}
use multi_hardware.Task.Executor.{max_task_queue_length, push_task}
use multi_hardware.Task.Factory.{make_task, add_children_task, new_disable_task}
use multi_hardware.Task.Creation.{create_task-registers}
use multi_hardware.Task.Handlers.{Env}
use multi_hardware.Task.Flows.{create_and_push, unfinished}

set_has-set_insert : (x : Str) (xs : List Str) → set_has x (set_insert x xs) ≡ true
unfolding set_has set_insert
set_has-set_insert x [] = ground (arith, str_beq_iff x x)
set_has-set_insert x (y ∷ ys) =
    ground (arith, str_beq_iff x x, str_beq_iff y x, set_has-set_insert x ys)

module _ (env : Env) where
  open env use {Store, random_id}

  -- An offline task creates a disable task, with an id that is not on the board, while the queue is
  -- over its maximal length. The queue stays as it is, so the new task is not in it, but the task is
  -- on the board, and its id is among the unfinished children that the offline task waits for.
  pub create_and_push-full_queue :
      (param : TaskParam) (f : ℕ) (s : System Store) (father : Task)
      → get_elem? s.heap f ≡ some father
      → father.task_type ≡ off_line
      → max_task_queue_length < length s.task_queue
      → has (random_id (length s.heap)) s.board.tasks ≡ false
      → let id = random_id (length s.heap) in
        let s' = create_and_push env disable param (some f) s in
        (s'.task_queue ≡ s.task_queue)
        × (set_has id (unfinished env f s') ≡ true)
        × (lookup id s'.board.tasks ≡ some (length s.heap))
  unfolding create_and_push push_task make_task unfinished add_children_task new_disable_task
  create_and_push-full_queue param f s father h kind full new =
      let id = random_id (length s.heap) in
      ground (
        arith,
        create_task-registers random_id disable param f s (new_disable_task id param) father id refl
            h,
        set_has-set_insert id father.unfinish_children_tasks,
        str_beq_iff id id,
      )
