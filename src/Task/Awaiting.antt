-- ===== src/Task/Awaiting.antt =====
-- The children that an offline task waits for, on the list of the task objects alone.
use multi_hardware.Base.{
  ℕ, ◌≡◌, ◌≢◌, ◌⊎◌, Bool, true, false, List, [], Option, none, some, arith, get_elem?, nat_beq,
  nat_beq_iff, nat_eq, inl, inr, Bool-cases,
}
use multi_hardware.Base.Str.{Str, str_eq}
use multi_hardware.Context.Defs.{set_has}
use multi_hardware.Task.Types.{
  Task, TaskType, disable, meta_disable, TaskState, success, fail, System, on_task,
}
use multi_hardware.Task.Heap.{get_elem?-on_task_self, get_elem?-on_task_ne}

-- The kinds of task that report to their father.
abbrev pub reports : TaskType → Bool
reports disable = true
reports meta_disable = true
reports _ = false

abbrev pub is_finished : TaskState → Bool
is_finished success = true
is_finished fail = true
is_finished _ = false

-- A task object that will report to `f` as `x`, and has not.
pub record Reporter (f : ℕ) (x : Str) (t : Task) : Type 0 where
  pub is_x : t.id ≡ x
  pub of_father : t.father_task ≡ some f
  pub kind : reports t.task_type ≡ true
  pub open_state : is_finished t.task_state ≡ false

pub record Pending (heap : List Task) (f : ℕ) (x : Str) : Type 0 where
  pub place : ℕ
  pub child : Task
  pub found : get_elem? heap place ≡ some child
  pub reporter : Reporter f x child

-- Every child that a task waits for, but the exception, is a task that has not reported.
pub record Awaits (exception : Option (ℕ × Str)) (heap : List Task) : Type 0 where
  pub pending :
      (f : ℕ) (x : Str) (father : Task)
      → exception ≢ some (f, x)
      → get_elem? heap f ≡ some father
      → set_has x father.unfinish_children_tasks ≡ true
      → Pending heap f x

pub Awaits-nil : Awaits none []
Awaits-nil = record { pending = λ f x father ne found h. absurd (none-ne-some found) }
  where
    none-ne-some : {t : Task} → none ≢ some t
    none-ne-some e = cc

-- A change of one object by which a reporter goes on to report to the same task, and by which the
-- object waits for no other child.
pub record Harmless (g : Task → Task) (t : Task) : Type 0 where
  pub reporter : (f : ℕ) (x : Str) → Reporter f x t → Reporter f x (g t)
  pub fewer :
      (x : Str)
      → set_has x (g t).unfinish_children_tasks ≡ true
      → set_has x t.unfinish_children_tasks ≡ true

pub one_object :
    (heap : List Task) (p q : ℕ) {t u : Task}
    → p ≡ q
    → get_elem? heap p ≡ some t
    → get_elem? heap q ≡ some u
    → t ≡ u
one_object heap p q same h k = cc

module _ {Store : Type 0} where
  -- An object behind a change of one object is the changed one, or another as it was.
  pub on_task-inverse :
      (p q : ℕ) (g : Task → Task) (s : System Store) (t u : Task)
      → get_elem? s.heap p ≡ some t
      → get_elem? (on_task p g s).heap q ≡ some u
      → ((p ≢ q) × (get_elem? s.heap q ≡ some u)) ⊎ ((p ≡ q) × (g t ≡ u))
  on_task-inverse p q g s t u h e = elim (Bool-cases (nat_beq p q)) [
    | inl same ↦ ground (arith, nat_beq_iff p q, get_elem?-on_task_self p g s t h)
    | inr apart ↦ ground (arith, nat_beq_iff p q, get_elem?-on_task_ne p q g s)
  ]

  pub Pending-on_task :
      (p f : ℕ) (x : Str) (g : Task → Task) (s : System Store) (t : Task)
      → get_elem? s.heap p ≡ some t
      → (Reporter f x t → Reporter f x (g t))
      → Pending s.heap f x
      → Pending (on_task p g s).heap f x
  Pending-on_task p f x g s t h keeps w = elim (Bool-cases (nat_beq p w.place)) [
    | inl same ↦
        let here : p ≡ w.place = (nat_beq_iff p w.place).0 same in
        let is_child : t ≡ w.child = one_object s.heap p w.place here h w.found in
        record {
          place = p;
          child = g t;
          found = get_elem?-on_task_self p g s t h;
          reporter = keeps (rw is_child w.reporter);
        }
    | inr apart ↦ record {
      place = w.place;
      child = w.child;
      found = ground (arith, nat_beq_iff p w.place, get_elem?-on_task_ne p w.place g s, w.found);
      reporter = w.reporter;
    }
  ]

  pub Awaits-on_task :
      (e : Option (ℕ × Str)) (p : ℕ) (g : Task → Task) (s : System Store) (t : Task)
      → get_elem? s.heap p ≡ some t
      → Harmless g t
      → Awaits e s.heap
      → Awaits e (on_task p g s).heap
  Awaits-on_task e p g s t h harmless w = record {
    pending = λ f x father ne found has_x.
        Pending-on_task p f x g s t h (harmless.reporter f x)
          (elim (on_task-inverse p f g s t father h found) [
            | inl (apart, old) ↦ w.pending f x father ne old has_x
            | inr (same, new) ↦ w.pending f x t ne (rw (← same) h) (harmless.fewer x (rw new has_x))
          ]);
  }
