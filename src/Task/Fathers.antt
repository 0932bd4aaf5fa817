-- ===== src/Task/Fathers.antt =====
-- The threads that create other tasks keep the invariant of the task objects.
use multi_hardware.Base.{
  ℕ, ◌≡◌, refl, Bool, List, [], ◌∷◌, none, some, arith, get_elem?, inl, inr, Bool-cases, is_empty,
}
use multi_hardware.Task.Types.{
  Task, TaskType, enable, disable, on_line, off_line, meta_enable, meta_disable, TaskState, running,
  TaskStep, sync_online_info, register_online_distributed_hardware,
  unregister_offline_distributed_hardware, clear_offline_info, wait_unregister_complete,
  meta_enable_task, meta_disable_task, System, on_task, set_state,
}
use multi_hardware.Task.Heap.{get_elem?-on_task_self}
use multi_hardware.Task.Handlers.{Env}
use multi_hardware.Task.Flows.{
  child_param, online_dh_infos, create_enable_task, create_meta_enable_task, do_sync_info,
  online_step, online_steps, online_do_task, offline_child_param, offline_dh_infos,
  create_disable_task, create_meta_disable_task, unfinished, children_finished, clear_off_line_info,
  offline_end, offline_run, offline_do_task_inner,
}
use multi_hardware.Task.Sound.{IsSound, HasKind, HasKind-on_task}
use multi_hardware.Task.Making.{create_and_push-IsSound, create_and_push_all-IsSound}
use multi_hardware.Task.Ending.{running-IsSound, quiet_end}

offline_end-heap :
    (env : Env) (p : ℕ) (t : Task) (s : System env.Store)
    → (offline_end env p t s).heap ≡ (on_task p (set_state TaskState.success) s).heap
offline_end-heap env p t s = ground arith

module _ (env : Env) (waits : ℕ → Bool) where
  open env use {Store}

  -- The invariant, with a thread of a kind of task.
  abbrev pub Runs : TaskType → ℕ → System Store → Type 0
  Runs kind p s = IsSound waits none s.heap × HasKind kind p s.heap

  online_step-Runs :
      (p : ℕ) (t : Task) (step : TaskStep) (s : System Store)
      → Runs on_line p s
      → Runs on_line p (online_step env p t step s)
  unfolding do_sync_info create_enable_task create_meta_enable_task
  online_step-Runs p t sync_online_info s w = w
  online_step-Runs p t register_online_distributed_hardware s (w, k) =
      create_and_push_all-IsSound env {waits = waits} enable on_line (child_param env t) p
        (online_dh_infos env t s) s (inr (λ e. cc)) k w
  online_step-Runs p t meta_enable_task s (w, k) =
      create_and_push-IsSound env meta_enable on_line t.param p s (inr (λ e. cc)) k w
  online_step-Runs p t _ s w = w

  online_steps-Runs :
      (p : ℕ) (t : Task) (steps : List TaskStep) (s : System Store)
      → Runs on_line p s
      → Runs on_line p (online_steps env p t steps s)
  unfolding online_steps
  online_steps-Runs p t [] s w = w
  online_steps-Runs p t (step ∷ steps) s w =
      online_steps-Runs p t steps (online_step env p t step s) (online_step-Runs p t step s w)

  -- A thread of a kind of task starts.
  starts :
      (p : ℕ) (s : System Store) (t : Task)
      → get_elem? s.heap p ≡ some t
      → IsSound waits none s.heap
      → Runs t.task_type p (on_task p (set_state running) s)
  starts p s t h w = (
    running-IsSound p s t h w,
    record {
      task = set_state running t;
      found = get_elem?-on_task_self p (set_state running) s t h;
      kind = refl;
    },
  )

  pub online-IsSound :
      (p : ℕ) (s : System Store) (t : Task)
      → get_elem? s.heap p ≡ some t
      → t.task_type ≡ on_line
      → IsSound waits none s.heap
      → IsSound waits none (online_do_task env p t s).heap
  unfolding online_do_task
  online-IsSound p s t h kind w =
      let (w1, k1) =
        online_steps-Runs p t t.task_steps (on_task p (set_state running) s)
          (rw (← kind) (starts p s t h w)) in
      quiet_end p TaskState.success
        (online_steps env p t t.task_steps (on_task p (set_state running) s)) k1.task k1.found
        (inl (rw k1.kind refl)) w1

  offline_end-Runs :
      (p : ℕ) (t : Task) (s : System Store)
      → Runs off_line p s
      → Runs off_line p (offline_end env p t s)
  offline_end-Runs p t s (w, k) = rw (offline_end-heap env p t s) (
    quiet_end p TaskState.success s k.task k.found (inl (rw k.kind refl)) w,
    HasKind-on_task off_line p p (set_state TaskState.success) s k.task k.found (λ u. (refl, refl))
        k,
  )

  pub offline_run-IsSound :
      (p : ℕ) (t : Task) (steps : List TaskStep) (s : System Store)
      → Runs off_line p s
      → Runs off_line p (offline_run env p t steps s).0
  unfolding offline_run create_disable_task create_meta_disable_task clear_off_line_info
  offline_run-IsSound p t [] s (w, k) = offline_end-Runs p t s (w, k)
  offline_run-IsSound p t (unregister_offline_distributed_hardware ∷ steps) s (w, k) =
      offline_run-IsSound p t steps (create_disable_task env p t s) (
        create_and_push_all-IsSound env disable off_line (offline_child_param env t) p
          (offline_dh_infos env t s) s (inl refl) k w)
  offline_run-IsSound p t (wait_unregister_complete ∷ steps) s (w, k) =
      elim (Bool-cases (is_empty (unfinished env p s))) [
        | inl e ↦ rw e (offline_run-IsSound p t steps (children_finished env t s) (w, k))
        | inr e ↦ rw e (w, k)
      ]
  offline_run-IsSound p t (clear_offline_info ∷ steps) s (w, k) =
      offline_run-IsSound p t steps (clear_off_line_info env t s) (w, k)
  offline_run-IsSound p t (meta_disable_task ∷ steps) s (w, k) =
      offline_run-IsSound p t steps (create_meta_disable_task env p t s) (
        create_and_push-IsSound env meta_disable off_line
          (offline_child_param env t (t.param.dh_id, t.param.dh_type)) p s (inl refl) k w)
  offline_run-IsSound p t (_ ∷ steps) s w = offline_run-IsSound p t steps s w

  pub offline-IsSound :
      (p : ℕ) (s : System Store) (t : Task)
      → get_elem? s.heap p ≡ some t
      → t.task_type ≡ off_line
      → IsSound waits none s.heap
      → Runs off_line p (offline_do_task_inner env p t s).0
  unfolding offline_do_task_inner
  offline-IsSound p s t h kind w =
      offline_run-IsSound p t t.task_steps (on_task p (set_state running) s)
        (rw (← kind) (starts p s t h w))
