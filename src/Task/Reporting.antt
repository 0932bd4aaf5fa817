-- ===== src/Task/Reporting.antt =====
-- How the steps that create a task, and those that end one, change the children waited for.
use multi_hardware.Base.{
  ℕ, ◌≡◌, ◌≢◌, ◌⊎◌, refl, ap, true, false, List, [], ◌∷◌, ◌++◌, Option, none, some, arith,
  get_elem?, nat_eq, Option-cases, inl, inr, get_elem?-append, lt-get_elem?, zero, suc,
}
use multi_hardware.Base.Str.{Str, str_eq, str_beq_iff}
use multi_hardware.Context.Defs.{set_has, set_insert, set_erase}
use multi_hardware.Task.Types.{Task, TaskState, System, on_task, write_task, set_state}
use multi_hardware.Task.Factory.{add_children_task}
use multi_hardware.Task.Handlers.{Env, notify_father_finish}
use multi_hardware.Task.Awaiting.{
  reports, Reporter, Pending, Awaits, on_task-inverse, Pending-on_task, Awaits-on_task,
}

pub get_elem?-append_inverse :
    {A : Type 0} (xs : List A) (i : ℕ) (y u : A)
    → get_elem? (xs ++ y ∷ []) i ≡ some u
    → (get_elem? xs i ≡ some u) ⊎ (y ≡ u)
get_elem?-append_inverse [] zero y u e = ground arith
get_elem?-append_inverse [] (suc i) y u e = ground arith
get_elem?-append_inverse (x ∷ xs) zero y u e = ground arith
get_elem?-append_inverse (x ∷ xs) (suc i) y u e = get_elem?-append_inverse xs i y u e

pub Pending-append :
    (heap : List Task) (f : ℕ) (x : Str) (t : Task)
    → Pending heap f x
    → Pending (heap ++ t ∷ []) f x
Pending-append heap f x t w = record {
  place = w.place;
  child = w.child;
  found =
      ground
        (arith, get_elem?-append heap (t ∷ []) w.place, lt-get_elem? heap w.place w.found, w.found);
  reporter = w.reporter;
}

none_waited :
    (x : Str) (t father : Task)
    → t.unfinish_children_tasks ≡ []
    → t ≡ father
    → set_has x father.unfinish_children_tasks ≢ true
unfolding set_has
none_waited x t father fresh new = rw (← new, fresh) (λ e. cc)

pub Awaits-append :
    (e : Option (ℕ × Str)) (heap : List Task) (t : Task)
    → t.unfinish_children_tasks ≡ []
    → Awaits e heap
    → Awaits e (heap ++ t ∷ [])
Awaits-append e heap t fresh w = record {
  pending = λ f x father ne found has_x. elim (get_elem?-append_inverse heap f t father found) [
    | inl old ↦ Pending-append heap f x t (w.pending f x father ne old has_x)
    | inr new ↦ absurd (none_waited x t father fresh new has_x)
  ];
}

set_has-set_insert_inverse :
    (x y : Str) (xs : List Str)
    → set_has x (set_insert y xs) ≡ true
    → (y ≡ x) ⊎ (set_has x xs ≡ true)
unfolding set_insert set_has
set_has-set_insert_inverse x y xs h = ground (arith, str_beq_iff y x)

add_children_task-inverse :
    (n : ℕ) (y x : Str) (father : Task)
    → set_has x (add_children_task n y father).unfinish_children_tasks ≡ true
    → (y ≡ x) ⊎ (set_has x father.unfinish_children_tasks ≡ true)
unfolding add_children_task
add_children_task-inverse n y x father h =
    ground (arith, set_has-set_insert_inverse x y father.unfinish_children_tasks)

-- What a reporter is read from.
pub record SameReporter (t u : Task) : Type 0 where
  pub id : u.id ≡ t.id
  pub father : u.father_task ≡ t.father_task
  pub kind : u.task_type ≡ t.task_type
  pub state : u.task_state ≡ t.task_state

pub Reporter-same :
    (f : ℕ) (x : Str) (t u : Task) → SameReporter t u → Reporter f x t → Reporter f x u
Reporter-same f x t u same r = record {
  is_x = ground (arith, same, r);
  of_father = ground (arith, same, r);
  kind = ground (arith, same, r);
  open_state = ground (arith, same, r);
}

pub add_children_task-SameReporter :
    (n : ℕ) (y : Str) (t : Task) → SameReporter t (add_children_task n y t)
unfolding add_children_task
add_children_task-SameReporter n y t = record {
  id = ground arith;
  father = ground arith;
  kind = ground arith;
  state = ground arith;
}

pub set_has-set_erase :
    (x y : Str) (xs : List Str)
    → set_has x (set_erase y xs) ≡ true
    → (y ≢ x) × (set_has x xs ≡ true)
unfolding set_has set_erase
set_has-set_erase x y [] h = ground arith
set_has-set_erase x y (z ∷ zs) h =
    ground (arith, str_beq_iff z y, str_beq_iff z x, set_has-set_erase x y zs)

none-ne-some : {A : Type 0} (a : A) → none ≢ some a
none-ne-some a e = cc

reported :
    (f k : ℕ) (x : Str) (t : Task)
    → t.father_task ≡ some f
    → Reporter k x t
    → ◌≡◌ {A = Option (ℕ × Str)} (some (f, t.id)) (some (k, x))
reported f k x t e r = ground (arith, e, r)

same_exception :
    (f k : ℕ) (x y : Str)
    → ◌≡◌ {A = Option (ℕ × Str)} (some (f, y)) (some (k, x))
    → (f ≡ k) × (y ≡ x)
same_exception f k x y e = ground arith

still_waits :
    (st : TaskState) (x : Str) (t u : Task)
    → set_state st t ≡ u
    → set_has x u.unfinish_children_tasks ≡ true
    → set_has x t.unfinish_children_tasks ≡ true
still_waits st x t u new has_x = rw (ap (λ v. v.unfinish_children_tasks) new) has_x

notify-SameReporter :
    (env : Env) (y : Str) (t : Task) → SameReporter t (notify_father_finish env y t)
unfolding notify_father_finish
notify-SameReporter env y t = record { id = refl; father = refl; kind = refl; state = refl }

notify-inverse :
    (env : Env) (y x : Str) (t u : Task)
    → notify_father_finish env y t ≡ u
    → set_has x u.unfinish_children_tasks ≡ true
    → (y ≢ x) × (set_has x t.unfinish_children_tasks ≡ true)
unfolding notify_father_finish
notify-inverse env y x t u new has_x =
    set_has-set_erase x y t.unfinish_children_tasks
      (rw (ap (λ v. v.unfinish_children_tasks) new) has_x)

module _ {Store : Type 0} where
  pub Awaits-add_child :
      (e : Option (ℕ × Str)) (f n : ℕ) (y : Str) (s : System Store) (father : Task)
      → get_elem? s.heap f ≡ some father
      → Pending s.heap f y
      → Awaits e s.heap
      → Awaits e (on_task f (add_children_task n y) s).heap
  Awaits-add_child e f n y s father h child w = record {
    pending = λ k x u ne found has_x.
        Pending-on_task f k x (add_children_task n y) s father h
          (Reporter-same k x father (add_children_task n y father)
            (add_children_task-SameReporter n y father))
          (elim (on_task-inverse f k (add_children_task n y) s father u h found) [
            | inl (apart, old) ↦ w.pending k x u ne old has_x
            | inr (same, new) ↦ elim (add_children_task-inverse n y x father (rw new has_x)) [
              | inl is_y ↦ rw (← same, ← is_y) child
              | inr old ↦ w.pending k x father ne (rw (← same) h) old
            ]
          ]);
  }

  -- A task that ends without a report, of a kind that does not report or without a father.
  pub Awaits-end :
      (e : Option (ℕ × Str)) (p : ℕ) (st : TaskState) (s : System Store) (t : Task)
      → get_elem? s.heap p ≡ some t
      → (reports t.task_type ≡ false) ⊎ (t.father_task ≡ none)
      → Awaits e s.heap
      → Awaits e (on_task p (set_state st) s).heap
  Awaits-end e p st s t h quiet =
      Awaits-on_task e p (set_state st) s t h
        (record { reporter = λ f x r. ground (arith, r); fewer = λ x has_x. has_x })

  -- A task that ends, before the report to its father.
  pub Awaits-before_report :
      (p f : ℕ) (st : TaskState) (s : System Store) (t : Task)
      → get_elem? s.heap p ≡ some t
      → t.father_task ≡ some f
      → Awaits none s.heap
      → Awaits (some (f, t.id)) (on_task p (set_state st) s).heap
  Awaits-before_report p f st s t h e w = record {
    pending = λ k x u ne found has_x.
        Pending-on_task p k x (set_state st) s t h (λ r. absurd (ne (reported f k x t e r)))
          (elim (on_task-inverse p k (set_state st) s t u h found) [
            | inl (apart, old) ↦ w.pending k x u (none-ne-some _) old has_x
            | inr (same, new) ↦
                w.pending k x t (none-ne-some _) (rw (← same) h) (still_waits st x t u new has_x)
          ]);
  }

  missing :
      (f k : ℕ) (x y : Str) (s : System Store) (u : Task)
      → get_elem? s.heap f ≡ none
      → get_elem? s.heap k ≡ some u
      → ◌≢◌ {A = Option (ℕ × Str)} (some (f, y)) (some (k, x))
  missing f k x y s u gone found bad =
      let (same, _) = same_exception f k x y bad in none-ne-some u (rw (← gone, same) found)

  reported_to :
      (env : Env) (f : ℕ) (y : Str) (s : System Store) (father : Task)
      → get_elem? s.heap f ≡ some father
      → Awaits (some (f, y)) s.heap
      → Awaits none (on_task f (notify_father_finish env y) s).heap
  reported_to env f y s father h w = record {
    pending = λ k x u ne found has_x.
        Pending-on_task f k x (notify_father_finish env y) s father h
          (Reporter-same k x father (notify_father_finish env y father)
            (notify-SameReporter env y father))
          (elim (on_task-inverse f k (notify_father_finish env y) s father u h found) [
            | inl (apart, old) ↦
                w.pending k x u (λ bad. apart (same_exception f k x y bad).0) old has_x
            | inr (same, new) ↦
                let (other, old) = notify-inverse env y x father u new has_x in
                w.pending k x father (λ bad. other (same_exception f k x y bad).1) (rw (← same) h)
                  old
          ]);
  }

  pub Awaits-report :
      (env : Env) (f : ℕ) (y : Str) (s : System Store)
      → Awaits (some (f, y)) s.heap
      → Awaits none (on_task f (notify_father_finish env y) s).heap
  unfolding on_task
  Awaits-report env f y s w = elim (Option-cases (get_elem? s.heap f)) [
    | inl e ↦
        rw (e, write_task)
          (record {
            pending = λ k x u ne found has_x.
                w.pending k x u (λ bad. missing f k x y s u e found bad) found has_x;
          })
    | inr (father, e) ↦ reported_to env f y s father e w
  ]
