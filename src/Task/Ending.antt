-- ===== src/Task/Ending.antt =====
-- The threads of the six kinds of task keep the invariant of the task objects.
use multi_hardware.Base.{
  ℕ, ◌≡◌, ◌⊎◌, refl, Bool, false, Option, none, some, arith, get_elem?, inl, inr, Bool-cases,
  Option-cases,
}
use multi_hardware.Base.Str.{Str}
use multi_hardware.Constants.{Errno, is_success}
use multi_hardware.Task.Types.{
  Task, enable, meta_enable, TaskState, running, System, on_task, set_state, write_task,
}
use multi_hardware.Task.Heap.{get_elem?-on_task_self}
use multi_hardware.Task.Handlers.{
  Env, notify_father_finish, notify_father, finish_enable, finish_disable, result_state,
  enable_do_task_inner, disable_do_task_inner, meta_enable_do_task_inner,
  meta_disable_do_task_inner, register_hardware, unregister_hardware, meta_enable_hardware,
  meta_disable_hardware,
}
use multi_hardware.Task.Awaiting.{reports, Harmless}
use multi_hardware.Task.Reporting.{Awaits-end, Awaits-before_report, Awaits-report}
use multi_hardware.Task.Sound.{IsSound, Shaped, KeepsKind, Shaped-on_task, IsSound-on_task}

set_state-KeepsKind : (st : TaskState) → KeepsKind (set_state st)
set_state-KeepsKind st t = (refl, refl)

running-Harmless : (t : Task) → Harmless (set_state running) t
running-Harmless t = record {
  reporter =
      λ f x r. record { is_x = r.is_x; of_father = r.of_father; kind = r.kind; open_state = refl };
  fewer = λ x has_x. has_x;
}

module _ {Store : Type 0} {waits : ℕ → Bool} where
  pub running-IsSound :
      (p : ℕ) (s : System Store) (t : Task)
      → get_elem? s.heap p ≡ some t
      → IsSound waits none s.heap
      → IsSound waits none (on_task p (set_state running) s).heap
  running-IsSound p s t h w =
      IsSound-on_task none p (set_state running) s t h (running-Harmless t)
        (set_state-KeepsKind running) w

  Shaped-notify :
      (env : Env) (f : ℕ) (id : Str) (s : System Store)
      → Shaped waits s.heap
      → Shaped waits (on_task f (notify_father_finish env id) s).heap
  unfolding on_task notify_father_finish
  Shaped-notify env f id s shaped = elim (Option-cases (get_elem? s.heap f)) [
    | inl e ↦ rw (e, write_task) shaped
    | inr (u, e) ↦ Shaped-on_task f (notify_father_finish env id) s u e (λ t. (refl, refl)) shaped
  ]

  pub quiet_end :
      (p : ℕ) (st : TaskState) (s : System Store) (t : Task)
      → get_elem? s.heap p ≡ some t
      → (reports t.task_type ≡ false) ⊎ (t.father_task ≡ none)
      → IsSound waits none s.heap
      → IsSound waits none (on_task p (set_state st) s).heap
  quiet_end p st s t h quiet w = record {
    awaits = Awaits-end none p st s t h quiet w.awaits;
    shaped = Shaped-on_task p (set_state st) s t h (set_state-KeepsKind st) w.shaped;
  }

module _ (env : Env) where
  open env use {Store}

  meta_hardware-heap :
      (t : Task) (s : System Store)
      → ((meta_enable_hardware env t s).0.heap ≡ s.heap)
        × ((meta_disable_hardware env t s).0.heap ≡ s.heap)
  unfolding meta_enable_hardware meta_disable_hardware
  meta_hardware-heap t s = ground arith

module _ (env : Env) {waits : ℕ → Bool} where
  open env use {Store}

  report_end :
      (p f : ℕ) (st : TaskState) (s : System Store) (t : Task)
      → get_elem? s.heap p ≡ some t
      → t.father_task ≡ some f
      → IsSound waits none s.heap
      → IsSound waits none
          (on_task f (notify_father_finish env t.id) (on_task p (set_state st) s)).heap
  report_end p f st s t h e w =
      let s1 = on_task p (set_state st) s in
      record {
        awaits = Awaits-report env f t.id s1 (Awaits-before_report p f st s t h e w.awaits);
        shaped =
            Shaped-notify env f t.id s1
              (Shaped-on_task p (set_state st) s t h (set_state-KeepsKind st) w.shaped);
      }

  -- A task that reports, where it has a father, ends.
  notified_end :
      (p : ℕ) (father : Option ℕ) (st : TaskState) (s : System Store) (t : Task)
      → get_elem? s.heap p ≡ some t
      → t.father_task ≡ father
      → IsSound waits none s.heap
      → IsSound waits none (notify_father env father t.id (on_task p (set_state st) s)).heap
  notified_end p none st s t h e w = quiet_end p st s t h (inr e) w
  notified_end p (some f) st s t h e w = report_end p f st s t h e w

  finish_enable-IsSound :
      (p : ℕ) (t u : Task) (s : System Store) (r : Errno)
      → get_elem? s.heap p ≡ some u
      → reports u.task_type ≡ false
      → IsSound waits none s.heap
      → IsSound waits none (finish_enable env p t (s, r)).heap
  finish_enable-IsSound p t u s r h quiet w = elim (Bool-cases (is_success r)) [
    | inl e ↦ rw e (quiet_end p TaskState.success s u h (inl quiet) w)
    | inr e ↦ rw e (quiet_end p TaskState.fail s u h (inl quiet) w)
  ]

  pub enable-IsSound :
      (p : ℕ) (s : System Store) (t : Task)
      → get_elem? s.heap p ≡ some t
      → t.task_type ≡ enable
      → IsSound waits none s.heap
      → IsSound waits none (enable_do_task_inner env p t s).heap
  unfolding enable_do_task_inner register_hardware
  enable-IsSound p s t h kind w =
      let s0 = on_task p (set_state running) s in
      let (store', r) =
        env.component_enable t.param.network_id t.param.uuid t.param.dh_id t.param.dh_type
          s0.context s0.store in
      finish_enable-IsSound p t (set_state running t) (record s0 { store = store' }) r
        (get_elem?-on_task_self p (set_state running) s t h) (rw kind refl)
        (running-IsSound p s t h w)

  finish_disable-IsSound :
      (p : ℕ) (t u : Task) (s : System Store) (r : Errno)
      → get_elem? s.heap p ≡ some u
      → u.father_task ≡ t.father_task
      → u.id ≡ t.id
      → IsSound waits none s.heap
      → IsSound waits none (finish_disable env p t (s, r)).heap
  finish_disable-IsSound p t u s r h e i w = elim (Bool-cases (is_success r)) [
    | inl ok ↦
        rw (ok, ← i)
          (notified_end p t.father_task TaskState.success (record s { board = _ }) u h e w)
    | inr ko ↦ rw (ko, ← i) (notified_end p t.father_task TaskState.fail s u h e w)
  ]

  pub disable-IsSound :
      (p : ℕ) (s : System Store) (t : Task)
      → get_elem? s.heap p ≡ some t
      → IsSound waits none s.heap
      → IsSound waits none (disable_do_task_inner env p t s).heap
  unfolding disable_do_task_inner unregister_hardware
  disable-IsSound p s t h w =
      let s0 = on_task p (set_state running) s in
      let (store', r) =
        env.component_disable t.param.network_id t.param.uuid t.param.dh_id t.param.dh_type
          s0.context s0.store in
      finish_disable-IsSound p t (set_state running t) (record s0 { store = store' }) r
        (get_elem?-on_task_self p (set_state running) s t h) refl refl (running-IsSound p s t h w)

  pub meta_enable-IsSound :
      (p : ℕ) (s : System Store) (t : Task)
      → get_elem? s.heap p ≡ some t
      → t.task_type ≡ meta_enable
      → IsSound waits none s.heap
      → IsSound waits none (meta_enable_do_task_inner env p t s).heap
  unfolding meta_enable_do_task_inner
  meta_enable-IsSound p s t h kind w =
      let s0 = on_task p (set_state running) s in
      let (s1, r) = meta_enable_hardware env t s0 in
      let same : s1.heap ≡ s0.heap = (meta_hardware-heap env t s0).0 in
      quiet_end p (result_state env r) s1 (set_state running t)
        (rw same (get_elem?-on_task_self p (set_state running) s t h)) (inl (rw kind refl))
        (rw same (running-IsSound p s t h w))

  pub meta_disable-IsSound :
      (p : ℕ) (s : System Store) (t : Task)
      → get_elem? s.heap p ≡ some t
      → IsSound waits none s.heap
      → IsSound waits none (meta_disable_do_task_inner env p t s).heap
  unfolding meta_disable_do_task_inner
  meta_disable-IsSound p s t h w =
      let s0 = on_task p (set_state running) s in
      let (s1, r) = meta_disable_hardware env t s0 in
      let same : s1.heap ≡ s0.heap = (meta_hardware-heap env t s0).1 in
      notified_end p t.father_task (result_state env r) s1 (set_state running t)
        (rw same (get_elem?-on_task_self p (set_state running) s t h)) refl
        (rw same (running-IsSound p s t h w))
