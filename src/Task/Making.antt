-- ===== src/Task/Making.antt =====
-- CreateTask keeps the invariant of the task objects.
use multi_hardware.Base.{
  ℕ, ◌≡◌, ◌≢◌, ◌⊎◌, refl, Bool, true, List, [], ◌∷◌, ◌++◌, Option, none, some, arith, length,
  get_elem?, nat_eq, Option-cases, inl, inr, get_elem?-append, get_elem?-append_last, lt-get_elem?,
}
use multi_hardware.Base.Str.{Str, str_eq}
use multi_hardware.Task.Types.{Task, TaskType, off_line, TaskParam, System, on_task, set_father}
use multi_hardware.Task.Heap.{get_elem?-on_task_self, get_elem?-on_task_ne}
use multi_hardware.Task.Executor.{push_task}
use multi_hardware.Task.Factory.{make_task, create_task, register_task, add_children_task}
use multi_hardware.Task.Handlers.{Env}
use multi_hardware.Task.Flows.{create_and_push, create_and_push_all}
use multi_hardware.Task.Awaiting.{reports, Reporter}
use multi_hardware.Task.Reporting.{Awaits-add_child, Reporter-same, add_children_task-SameReporter}
use multi_hardware.Task.Sound.{
  IsSound, HasKind, HasKind-append, HasKind-on_task, Fresh, make_task-Fresh,
  add_children_task-KeepsKind, Suits, Shaped-on_task, IsSound-on_task, IsSound-append,
  set_father-Harmless,
}

other_child :
    (n : ℕ) (id x : Str) (father : Task)
    → father.task_type ≢ off_line
    → (add_children_task n id father).unfinish_children_tasks ≡ father.unfinish_children_tasks
unfolding add_children_task
other_child n id x father ne = ground arith

module _ {Store : Type 0} where
  kind_kept :
      (f : ℕ) (kind : TaskType) (t : Task) (s : System Store)
      → HasKind kind f s.heap
      → let n = length s.heap in
        let s1 : System Store = record s { heap = s.heap ++ t ∷ [] } in
        HasKind kind f (on_task f (add_children_task n t.id) (on_task n (set_father f) s1)).heap
  kind_kept f kind t s father =
      let n = length s.heap in
      let s1 : System Store = record s { heap = s.heap ++ t ∷ [] } in
      let s2 = on_task n (set_father f) s1 in
      let k1 : HasKind kind f s1.heap = HasKind-append kind f s.heap t father in
      let k2 : HasKind kind f s2.heap =
        HasKind-on_task kind n f (set_father f) s1 t (get_elem?-append_last s.heap t)
          (λ u. (refl, refl)) k1 in
      HasKind-on_task kind f f (add_children_task n t.id) s2 k2.task k2.found
        (add_children_task-KeepsKind n t.id) k2

  pub push_task-heap : (o : Option ℕ) (s : System Store) → (push_task o s).heap ≡ s.heap
  unfolding push_task
  push_task-heap none s = refl
  push_task-heap (some p) s = ground arith

module _ {Store : Type 0} {waits : ℕ → Bool} where
  add_child :
      (f n : ℕ) (id : Str) (s : System Store) (father t : Task)
      → get_elem? s.heap f ≡ some father
      → get_elem? s.heap n ≡ some t
      → (reports t.task_type ≡ true → Reporter f id t)
      → Suits t.task_type father
      → IsSound waits none s.heap
      → IsSound waits none (on_task f (add_children_task n id) s).heap
  add_child f n id s father t h k child (inl r) w = record {
    awaits =
        Awaits-add_child none f n id s father h
          (record { place = n; child = t; found = k; reporter = child r }) w.awaits;
    shaped =
        Shaped-on_task f (add_children_task n id) s father h (add_children_task-KeepsKind n id)
          w.shaped;
  }
  add_child f n id s father t h k child (inr ne) w =
      IsSound-on_task none f (add_children_task n id) s father h
        (record {
          reporter = λ g x.
              Reporter-same g x father (add_children_task n id father)
                (add_children_task-SameReporter n id father);
          fewer = λ x. rw (other_child n id x father ne) (λ has_x. has_x);
        })
        (add_children_task-KeepsKind n id) w

  -- Making an object, telling it its father and telling the father of it.
  made :
      (task_type : TaskType) (id : Str) (f : ℕ) (s : System Store) (father t : Task)
      → get_elem? s.heap f ≡ some father
      → Fresh task_type id t
      → Suits task_type father
      → IsSound waits none s.heap
      → let n = length s.heap in
        let s1 : System Store = record s { heap = s.heap ++ t ∷ [] } in
        IsSound waits none (on_task f (add_children_task n t.id) (on_task n (set_father f) s1)).heap
  made task_type id f s father t h fresh suits w =
      let n = length s.heap in
      let s1 : System Store = record s { heap = s.heap ++ t ∷ [] } in
      let s2 = on_task n (set_father f) s1 in
      let last : get_elem? s1.heap n ≡ some t = get_elem?-append_last s.heap t in
      let below = lt-get_elem? s.heap f h in
      let w1 : IsSound waits none s1.heap = IsSound-append none task_type id t s.heap fresh w in
      let w2 : IsSound waits none s2.heap =
        IsSound-on_task none n (set_father f) s1 t last (set_father-Harmless f t fresh.no_father)
          (λ u. (refl, refl)) w1 in
      add_child f n t.id s2 father (set_father f t)
        (ground
          (arith, get_elem?-append s.heap (t ∷ []) f, get_elem?-on_task_ne n f (set_father f) s1))
        (get_elem?-on_task_self n (set_father f) s1 t last)
        (λ r. record { is_x = refl; of_father = refl; kind = r; open_state = rw fresh.state refl })
        (rw fresh.kind suits) w2

module _ (env : Env) {waits : ℕ → Bool} where
  open env use {Store, random_id}

  -- A task made for a father of a kind: the invariant holds on, and the father keeps its kind.
  pub create_and_push-IsSound :
      (task_type kind : TaskType) (param : TaskParam) (f : ℕ) (s : System Store)
      → (reports task_type ≡ true) ⊎ (kind ≢ off_line)
      → HasKind kind f s.heap
      → IsSound waits none s.heap
      → let s' = create_and_push env task_type param (some f) s in
        IsSound waits none s'.heap × HasKind kind f s'.heap
  unfolding create_and_push create_task
  create_and_push-IsSound task_type kind param f s suits father w =
      elim (Option-cases (make_task task_type (random_id (length s.heap)) param)) [
        | inl e ↦ rw (e, register_task, push_task-heap) (w, father)
        | inr (t, e) ↦
            let id = random_id (length s.heap) in
            let fresh = make_task-Fresh task_type id param t e in
            rw (e, register_task, push_task-heap)
              (
                made task_type id f s father.task t father.found fresh (rw father.kind suits) w,
                kind_kept f kind t s father,
              )
      ]

  -- A task without a father, as the managers create it.
  pub create_alone-IsSound :
      (task_type : TaskType) (param : TaskParam) (s : System Store)
      → IsSound waits none s.heap
      → IsSound waits none (create_and_push env task_type param none s).heap
  unfolding create_and_push create_task
  create_alone-IsSound task_type param s w =
      elim (Option-cases (make_task task_type (random_id (length s.heap)) param)) [
        | inl e ↦ rw (e, register_task, push_task-heap) w
        | inr (t, e) ↦
            rw (e, register_task, push_task-heap)
              (IsSound-append none task_type (random_id (length s.heap)) t s.heap
                (make_task-Fresh task_type (random_id (length s.heap)) param t e) w)
      ]

  pub create_and_push_all-IsSound :
      (task_type kind : TaskType) (param : Str × ℕ → TaskParam) (f : ℕ) (infos : List (Str × ℕ))
      (s : System Store)
      → (reports task_type ≡ true) ⊎ (kind ≢ off_line)
      → HasKind kind f s.heap
      → IsSound waits none s.heap
      → let s' = create_and_push_all env task_type param f infos s in
        IsSound waits none s'.heap × HasKind kind f s'.heap
  unfolding create_and_push_all
  create_and_push_all-IsSound task_type kind param f [] s suits father w = (w, father)
  create_and_push_all-IsSound task_type kind param f (info ∷ infos) s suits father w =
      let (w', father') = create_and_push-IsSound task_type kind (param info) f s suits father w in
      create_and_push_all-IsSound task_type kind param f infos
        (create_and_push env task_type (param info) (some f) s) suits father' w'
