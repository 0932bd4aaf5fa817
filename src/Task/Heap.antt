-- ===== src/Task/Heap.antt =====
-- The objects that a call on one object leaves alone.
use multi_hardware.Base.{
  ℕ, ◌≡◌, refl, ◌≢◌, some, length, get_elem?, get_elem?-set_self, get_elem?-set_ne, length-set,
  lt-get_elem?, Option-cases, inl, inr,
}
use multi_hardware.Task.Types.{Task, System, on_task, write_task}

module _ {Store : Type 0} where
  pub get_elem?-on_task_self :
      (p : ℕ) (f : Task → Task) (s : System Store) (t : Task)
      → get_elem? s.heap p ≡ some t
      → get_elem? (on_task p f s).heap p ≡ some (f t)
  unfolding on_task
  get_elem?-on_task_self p f s t h =
      rw (h, write_task) (get_elem?-set_self s.heap p (f t) (lt-get_elem? s.heap p h))

  pub get_elem?-on_task_ne :
      (p q : ℕ) (f : Task → Task) (s : System Store)
      → p ≢ q
      → get_elem? (on_task p f s).heap q ≡ get_elem? s.heap q
  unfolding on_task
  get_elem?-on_task_ne p q f s d = elim (Option-cases (get_elem? s.heap p)) [
    | inl e ↦ rw (e, write_task)
    | inr (t, e) ↦ rw (e, write_task) (get_elem?-set_ne s.heap p q (f t) d)
  ]

  -- All but the object stays.
  pub record Frame (s s' : System Store) : Type 0 where
    pub board : s'.board ≡ s.board
    pub task_queue : s'.task_queue ≡ s.task_queue
    pub context : s'.context ≡ s.context
    pub store : s'.store ≡ s.store
    pub un_init : s'.un_init ≡ s.un_init
    pub size : length s'.heap ≡ length s.heap

  pub on_task-Frame : (p : ℕ) (f : Task → Task) (s : System Store) → Frame s (on_task p f s)
  unfolding on_task
  on_task-Frame p f s = elim (Option-cases (get_elem? s.heap p)) [
    | inl e ↦
        rw (e, write_task)
          (record {
            board = refl;
            task_queue = refl;
            context = refl;
            store = refl;
            un_init = refl;
            size = refl;
          })
    | inr (t, e) ↦
        rw (e, write_task)
          (record {
            board = refl;
            task_queue = refl;
            context = refl;
            store = refl;
            un_init = refl;
            size = length-set s.heap p (f t);
          })
  ]
