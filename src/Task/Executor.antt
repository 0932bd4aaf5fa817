-- ===== src/Task/Executor.antt =====
-- task_executor.cpp: the queue of tasks and the thread that empties it.
use multi_hardware.Base.{
  ℕ, ◌+◌, ◌≤◌, ◌≡◌, refl, List, [], ◌∷◌, ◌++◌, Option, none, some, arith, length, ltb,
  if◌then◌else◌, length-append, take, append_nil, append_one, zero, suc, sym, ◌∙◌,
}
use multi_hardware.Task.Types.{System}

abbrev pub max_task_queue_length : ℕ
max_task_queue_length = 256

module _ {Store : Type 0} where
  -- A null pointer is not pushed, nor is a task on a queue of more than the maximal length.
  unfoldable pub push_task : Option ℕ → System Store → System Store
  push_task none s = s
  push_task (some p) s =
      if ltb max_task_queue_length (length s.task_queue)
      then s
      else record s { task_queue = s.task_queue ++ p ∷ [] }

  abbrev pub pop_from : List ℕ → System Store → Option (ℕ × System Store)
  pop_from [] s = none
  pop_from (p ∷ ps) s = some (p, record s { task_queue = ps })

  -- `none`: the thread waits.
  unfoldable pub pop_task : System Store → Option (ℕ × System Store)
  pop_task s = pop_from s.task_queue s

  -- The body of the thread's loop: the task that it posts to the event handler, which runs the
  -- task's DoTask.
  unfoldable pub trigger_task :
      (ℕ → System Store → System Store) → System Store → Option (System Store)
  unfolding pop_task
  trigger_task do_task s = elim (pop_task s) [ none ↦ none | some (p, s') ↦ some (do_task p s') ]

  -- The queue never holds more than one task over MAX_TASK_QUEUE_LENGTH.
  pub push_task-bounded :
      (o : Option ℕ) (s : System Store)
      → length s.task_queue ≤ max_task_queue_length + 1
      → length (push_task o s).task_queue ≤ max_task_queue_length + 1
  unfolding push_task
  push_task-bounded none s h = h
  push_task-bounded (some p) s h = ground (arith, length-append s.task_queue (p ∷ []))

  -- Pushes all tasks of a list, as the handlers do one after the other.
  unfoldable pub push_all : List ℕ → System Store → System Store
  push_all [] s = s
  push_all (p ∷ ps) s = push_all ps (push_task (some p) s)

  full_queue :
      (ps : List ℕ) (s : System Store)
      → length s.task_queue ≡ max_task_queue_length + 1
      → (push_all ps s).task_queue ≡ s.task_queue
  unfolding push_all push_task
  full_queue [] s h = refl
  full_queue (p ∷ ps) s h = ground (arith, full_queue ps s)

  -- Of tasks that are pushed one after the other onto a queue with `n` places left, of
  -- MAX_TASK_QUEUE_LENGTH + 1, the queue takes the first `n` in their order, and drops the rest.
  pub push_all-task_queue :
      (n : ℕ) (ps : List ℕ) (s : System Store)
      → length s.task_queue + n ≡ max_task_queue_length + 1
      → (push_all ps s).task_queue ≡ s.task_queue ++ take n ps
  unfolding push_all push_task
  push_all-task_queue zero [] s h = sym (append_nil s.task_queue)
  push_all-task_queue zero (p ∷ ps) s h =
      full_queue (p ∷ ps) s (omega arith) ∙ sym (append_nil s.task_queue)
  push_all-task_queue (suc n) [] s h = sym (append_nil s.task_queue)
  push_all-task_queue (suc n) (p ∷ ps) s h = ground (
    arith,
    length-append s.task_queue (p ∷ []),
    append_one s.task_queue (take n ps) p,
    push_all-task_queue n ps (record s { task_queue = s.task_queue ++ p ∷ [] }),
  )
