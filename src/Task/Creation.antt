-- ===== src/Task/Creation.antt =====
-- What CreateTask and PushTask leave behind.
use multi_hardware.Base.{
  ℕ, ◌≡◌, not, ◌&&◌, [], ◌∷◌, ◌++◌, some, arith, length, get_elem?, ◌==◌, if◌then◌else◌,
  lt-get_elem?, get_elem?-append, get_elem?-append_last,
}
use multi_hardware.Base.Map.{lookup, has}
use multi_hardware.Base.Str.{Str, str_eq}
use multi_hardware.Task.Types.{Task, TaskType, TaskParam, System, on_task, set_father}
use multi_hardware.Task.Board.{lookup-add_task}
use multi_hardware.Task.Heap.{get_elem?-on_task_self, get_elem?-on_task_ne, on_task-Frame}
use multi_hardware.Task.Factory.{make_task, create_task, register_task, add_children_task}

module _ {Store : Type 0} (random_id : ℕ → Str) where
  -- CreateTask with a father makes one object, which knows its father, tells the father of it as
  -- the father's class does, puts it on the board unless its id is there, and pushes nothing.
  pub create_task-registers :
      (task_type : TaskType) (param : TaskParam) (f : ℕ) (s : System Store) (t father : Task)
      (other : Str)
      → make_task task_type (random_id (length s.heap)) param ≡ some t
      → get_elem? s.heap f ≡ some father
      → let n = length s.heap in
        let s' = (create_task random_id task_type param (some f) s).0 in
        ((create_task random_id task_type param (some f) s).1 ≡ some n)
        × (get_elem? s'.heap n ≡ some (set_father f t))
        × (get_elem? s'.heap f ≡ some (add_children_task n t.id father))
        × (lookup other s'.board.tasks ≡ (
            if (t.id == other) && not (has t.id s.board.tasks)
            then some n
            else lookup other s.board.tasks))
        × (s'.task_queue ≡ s.task_queue)
  unfolding create_task
  create_task-registers task_type param f s t father other e h =
      let n = length s.heap in
      let s1 : System Store = record s { heap = s.heap ++ t ∷ [] } in
      let s2 = on_task n (set_father f) s1 in
      rw (e, register_task)
        (ground (
          arith,
          lt-get_elem? s.heap f h,
          get_elem?-append s.heap (t ∷ []) f,
          get_elem?-append_last s.heap t,
          on_task-Frame n (set_father f) s1,
          get_elem?-on_task_self n (set_father f) s1 t,
          get_elem?-on_task_ne n f (set_father f) s1,
          on_task-Frame f (add_children_task n t.id) s2,
          get_elem?-on_task_self f (add_children_task n t.id) s2 father,
          get_elem?-on_task_ne f n (add_children_task n t.id) s2,
          lookup-add_task t.id other n s.board,
        ))
