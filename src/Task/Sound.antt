-- ===== src/Task/Sound.antt =====
-- The invariant of the task objects, and the changes of one object that keep it.
use multi_hardware.Base.{
  ℕ, ◌≡◌, ◌≢◌, ◌⊎◌, Bool, true, List, [], ◌∷◌, ◌++◌, Option, none, some, arith, get_elem?, nat_beq,
  nat_beq_iff, nat_eq, inl, inr, Bool-cases, get_elem?-append, lt-get_elem?,
}
use multi_hardware.Base.Str.{Str, str_eq}
use multi_hardware.Task.Types.{
  Task, TaskType, off_line, init, TaskStep, TaskParam, System, on_task, set_father,
  meta_disable_task, unregister_offline_distributed_hardware, wait_unregister_complete,
  clear_offline_info,
}
use multi_hardware.Task.Heap.{get_elem?-on_task_self, get_elem?-on_task_ne}
use multi_hardware.Task.Factory.{
  make_task, add_children_task, new_task, new_offline_task, new_enable_task, new_disable_task,
  new_online_task, new_meta_enable_task, new_meta_disable_task,
}
use multi_hardware.Task.Awaiting.{
  reports, Awaits, Harmless, on_task-inverse, Awaits-on_task, one_object,
}
use multi_hardware.Task.Reporting.{Awaits-append, get_elem?-append_inverse}

abbrev pub offline_steps : List TaskStep
offline_steps =
    meta_disable_task ∷ unregister_offline_distributed_hardware ∷ wait_unregister_complete
    ∷ clear_offline_info ∷ []

-- An offline task has the steps that its constructor gives it.
abbrev pub IsShaped : Task → Type 0
IsShaped t = t.task_type ≡ off_line → t.task_steps ≡ offline_steps

-- An object of a kind.
pub record HasKind (task_type : TaskType) (p : ℕ) (heap : List Task) : Type 0 where
  pub task : Task
  pub found : get_elem? heap p ≡ some task
  pub kind : task.task_type ≡ task_type

-- Offline tasks have their steps, and the threads in `waits` are those of offline tasks.
pub record Shaped (waits : ℕ → Bool) (heap : List Task) : Type 0 where
  pub steps : (p : ℕ) (t : Task) → get_elem? heap p ≡ some t → IsShaped t
  pub kinds : (p : ℕ) → waits p ≡ true → HasKind off_line p heap

-- The invariant: children are waited for only if they have not reported, and shapes are kept.
pub record IsSound (waits : ℕ → Bool) (exception : Option (ℕ × Str)) (heap : List Task)
    : Type 0 where
  pub awaits : Awaits exception heap
  pub shaped : Shaped waits heap

pub record Fresh (task_type : TaskType) (id : Str) (t : Task) : Type 0 where
  pub is_id : t.id ≡ id
  pub kind : t.task_type ≡ task_type
  pub no_father : t.father_task ≡ none
  pub no_children : t.unfinish_children_tasks ≡ []
  pub state : t.task_state ≡ init
  pub shape : IsShaped t

pub make_task-Fresh :
    (task_type : TaskType) (id : Str) (param : TaskParam) (t : Task)
    → make_task task_type id param ≡ some t
    → Fresh task_type id t
unfolding make_task new_task new_offline_task new_enable_task new_disable_task new_online_task
    new_meta_enable_task new_meta_disable_task
make_task-Fresh task_type id param t e = record {
  is_id = ground arith;
  kind = ground arith;
  no_father = ground arith;
  no_children = ground arith;
  state = ground arith;
  shape = λ k. ground arith;
}

pub HasKind-append :
    (kind : TaskType) (p : ℕ) (heap : List Task) (t : Task)
    → HasKind kind p heap
    → HasKind kind p (heap ++ t ∷ [])
HasKind-append kind p heap t k = record {
  task = k.task;
  found = ground (arith, get_elem?-append heap (t ∷ []) p, lt-get_elem? heap p k.found, k.found);
  kind = k.kind;
}

pub IsSound-append :
    {waits : ℕ → Bool} (e : Option (ℕ × Str)) (task_type : TaskType) (id : Str) (t : Task)
    (heap : List Task)
    → Fresh task_type id t
    → IsSound waits e heap
    → IsSound waits e (heap ++ t ∷ [])
IsSound-append e task_type id t heap fresh w = record {
  awaits = Awaits-append e heap t fresh.no_children w.awaits;
  shaped = record {
    steps = λ p u found. elim (get_elem?-append_inverse heap p t u found) [
      | inl old ↦ w.shaped.steps p u old
      | inr new ↦ rw (← new) fresh.shape
    ];
    kinds = λ p waiting. HasKind-append off_line p heap t (w.shaped.kinds p waiting);
  };
}

pub set_father-Harmless : (f : ℕ) (t : Task) → t.father_task ≡ none → Harmless (set_father f) t
set_father-Harmless f t none_yet = record {
  reporter = λ k x r. ground (arith, r);
  fewer = λ x has_x. has_x;
}

-- A change of a task that keeps its kind and its steps.
abbrev pub KeepsKind : (Task → Task) → Type 0
KeepsKind g = (t : Task) → ((g t).task_type ≡ t.task_type) × ((g t).task_steps ≡ t.task_steps)

pub add_children_task-KeepsKind : (n : ℕ) (id : Str) → KeepsKind (add_children_task n id)
unfolding add_children_task
add_children_task-KeepsKind n id t = ground arith

-- The kinds of child that a task of a kind may have: those that report, for an offline task.
abbrev pub Suits : TaskType → Task → Type 0
Suits task_type father = (reports task_type ≡ true) ⊎ (father.task_type ≢ off_line)

module _ {Store : Type 0} where
  pub HasKind-on_task :
      (kind : TaskType) (p q : ℕ) (g : Task → Task) (s : System Store) (t : Task)
      → get_elem? s.heap p ≡ some t
      → KeepsKind g
      → HasKind kind q s.heap
      → HasKind kind q (on_task p g s).heap
  HasKind-on_task kind p q g s t h keeps k = elim (Bool-cases (nat_beq p q)) [
    | inl same ↦
        let here : p ≡ q = (nat_beq_iff p q).0 same in
        let old : t ≡ k.task = one_object s.heap p q here h k.found in
        record {
          task = g t;
          found = rw (← here) (get_elem?-on_task_self p g s t h);
          kind = ground (arith, keeps t, old, k.kind);
        }
    | inr apart ↦ record {
      task = k.task;
      found = ground (arith, nat_beq_iff p q, get_elem?-on_task_ne p q g s, k.found);
      kind = k.kind;
    }
  ]

  pub Shaped-on_task :
      {waits : ℕ → Bool} (p : ℕ) (g : Task → Task) (s : System Store) (t : Task)
      → get_elem? s.heap p ≡ some t
      → KeepsKind g
      → Shaped waits s.heap
      → Shaped waits (on_task p g s).heap
  Shaped-on_task p g s t h keeps w = record {
    steps = λ q u found. elim (on_task-inverse p q g s t u h found) [
      | inl (apart, old) ↦ w.steps q u old
      | inr (same, new) ↦ λ k. ground (arith, keeps t, w.steps p t h, new, k)
    ];
    kinds = λ q waiting. HasKind-on_task off_line p q g s t h keeps (w.kinds q waiting);
  }

  pub IsSound-on_task :
      {waits : ℕ → Bool} (e : Option (ℕ × Str)) (p : ℕ) (g : Task → Task) (s : System Store)
      (t : Task)
      → get_elem? s.heap p ≡ some t
      → Harmless g t
      → KeepsKind g
      → IsSound waits e s.heap
      → IsSound waits e (on_task p g s).heap
  IsSound-on_task e p g s t h harmless keeps w = record {
    awaits = Awaits-on_task e p g s t h harmless w.awaits;
    shaped = Shaped-on_task p g s t h keeps w.shaped;
  }
