-- ===== src/Task/Resumes.antt =====
-- Offline tasks wait for live children only, and go on when these have reported.
use multi_hardware.Base.{
  ℕ, ◌≡◌, ◌≢◌, ◌⊎◌, refl, Bool, true, false, List, [], ◌∷◌, ◌++◌, some, arith, get_elem?, is_empty,
  inl, inr, Option-cases,
}
use multi_hardware.Base.Str.{Str, str_eq, str_beq_iff}
use multi_hardware.Context.Defs.{set_has, remove_online_device_by_network_id}
use multi_hardware.Task.Types.{Task}
use multi_hardware.Task.Handlers.{Env}
use multi_hardware.Task.Flows.{offline_run, unfinished}
use multi_hardware.Task.Offline.{offline_run-resumed}
use multi_hardware.Task.Awaiting.{reports, is_finished, Pending}
use multi_hardware.Task.Threads.{Waiting, Machine, Step, resume, Reach, add_waiting}
use multi_hardware.Task.Invariant.{Reach-IsRight, AllAtWait-split, nothing}

-- A text of a set that is not empty.
first_of : (xs : List Str) → (is_empty xs ≡ true) ⊎ ((x : Str) × (set_has x xs ≡ true))
unfolding set_has
first_of [] = inl refl
first_of (x ∷ xs) = inr (x, ground (arith, str_beq_iff x x))

module _ (env : Env) where
  open env use {Store}

  -- Between whole handlers, each id that a task waits for is the id of a task object that has this
  -- father, is of a kind that reports to its father, and is neither successful nor failed yet.
  Reach-Pending :
      {m : Machine env} (f : ℕ) (x : Str) (father : Task)
      → Reach env m
      → get_elem? m.system.heap f ≡ some father
      → set_has x father.unfinish_children_tasks ≡ true
      → Pending m.system.heap f x
  Reach-Pending f x father r found has_x =
      (Reach-IsRight env r).sound.awaits.pending f x father nothing found has_x

  none_left :
      {m : Machine env} (f : ℕ)
      → Reach env m
      → ((p : ℕ) (t : Task)
          → get_elem? m.system.heap p ≡ some t
          → reports t.task_type ≡ true
          → is_finished t.task_state ≡ true)
      → is_empty (unfinished env f m.system) ≡ true
  unfolding unfinished
  none_left {m} f r all = elim (Option-cases (get_elem? m.system.heap f)) [
    | inl e ↦ rw e refl
    | inr (father, e) ↦ rw e (elim (first_of father.unfinish_children_tasks) [
      | inl empty ↦ empty
      | inr (x, has_x) ↦
          let w = Reach-Pending f x father r e has_x in
          absurd (contradiction (all w.place w.child w.found w.reporter.kind) w.reporter.open_state)
    ])
  ]
    where
      contradiction : {b : Bool} → b ≡ true → b ≢ false
      contradiction e k = cc

  -- In every state that the threads reach in which all disable and meta disable tasks have ended,
  -- each offline task that waits can go on: there is a step after which it has ended and waits no
  -- more, and its device is off the online devices.
  pub Reach-resumes :
      {m : Machine env} (w : Waiting) (before after : List Waiting)
      → Reach env m
      → m.waiting ≡ before ++ w ∷ after
      → ((p : ℕ) (t : Task)
          → get_elem? m.system.heap p ≡ some t
          → reports t.task_type ≡ true
          → is_finished t.task_state ≡ true)
      → (m' : Machine env) × Step env m m'
        × (m'.waiting ≡ before ++ after)
        × (m'.system.context
            ≡ remove_online_device_by_network_id w.task.param.network_id m.system.context)
  Reach-resumes {m} w before after r e all =
      let (left, _) = AllAtWait-split before after w (rw (← e) (Reach-IsRight env r).at_wait) in
      let done = none_left w.place r all in
      let run = offline_run env w.place w.task w.steps m.system in
      let ends = offline_run-resumed env w.place w.task m.system [] in
      (
        record m { system = run.0; waiting = before ++ add_waiting env w.place w.task run.1 after },
        resume w before after e,
        rw (left, ends.0, done) refl,
        rw (left, ends.1, done) refl,
      )
