-- ===== src/Task/Invariant.antt =====
-- What holds of the threads of the task framework in every state that they reach.
use multi_hardware.Base.{
  ℕ, ◌≡◌, ◌≢◌, ◌⊎◌, refl, Bool, true, false, ◌||◌, List, [], ◌∷◌, ◌++◌, Option, none, some, arith,
  get_elem?, nat_beq, nat_beq_iff, inl, inr, Bool-cases,
}
use multi_hardware.Base.Str.{str_eq}
use multi_hardware.Task.Types.{
  Task, TaskType, unknown, enable, disable, on_line, off_line, meta_enable, meta_disable, TaskStep,
  wait_unregister_complete, clear_offline_info, System,
}
use multi_hardware.Task.Executor.{pop_task}
use multi_hardware.Task.Handlers.{Env}
use multi_hardware.Task.Flows.{offline_run, offline_do_task_inner}
use multi_hardware.Task.Awaiting.{Awaits-nil}
use multi_hardware.Task.Sound.{IsSound, HasKind, offline_steps}
use multi_hardware.Task.Making.{create_alone-IsSound}
use multi_hardware.Task.Ending.{
  enable-IsSound, disable-IsSound, meta_enable-IsSound, meta_disable-IsSound,
}
use multi_hardware.Task.Fathers.{online-IsSound, offline-IsSound, offline_run-IsSound}
use multi_hardware.Task.Threads.{
  Waiting, do_task, do_task_by_type, add_waiting, Machine, Step, trigger, run, resume, request,
  outside, Reach, here, next,
}

abbrev pub waits_at : List Waiting → ℕ → Bool
waits_at [] p = false
waits_at (w ∷ ws) p = nat_beq w.place p || waits_at ws p

-- Every thread that waits has the wait and the clearing left.
abbrev pub AllAtWait : List Waiting → Type 0
AllAtWait [] = Unit
AllAtWait (w ∷ ws) = (w.steps ≡ wait_unregister_complete ∷ clear_offline_info ∷ []) × AllAtWait ws

pub nothing {ℓ} : {A : Type ℓ} {t : A} → none ≢ some t
nothing e = cc

false-ne-true : false ≢ true
false-ne-true e = cc

pub AllAtWait-split :
    (before after : List Waiting) (w : Waiting)
    → AllAtWait (before ++ w ∷ after)
    → (w.steps ≡ wait_unregister_complete ∷ clear_offline_info ∷ []) × AllAtWait (before ++ after)
AllAtWait-split [] after w all = all
AllAtWait-split (v ∷ before) after w all =
    let (e, rest) = AllAtWait-split before after w all.1 in (e, (all.0, rest))

waits_at-drop :
    (before after : List Waiting) (w : Waiting) (p : ℕ)
    → waits_at (before ++ after) p ≡ true
    → waits_at (before ++ w ∷ after) p ≡ true
waits_at-drop [] after w p h = ground arith
waits_at-drop (v ∷ before) after w p h = ground (arith, waits_at-drop before after w p)

waits_at-here :
    (before after : List Waiting) (w : Waiting) → waits_at (before ++ w ∷ after) w.place ≡ true
waits_at-here [] after w = ground (arith, nat_beq_iff w.place w.place)
waits_at-here (v ∷ before) after w = ground (arith, waits_at-here before after w)

same_waiting :
    (w : Waiting) (steps : List TaskStep)
    → w.steps ≡ steps
    → ◌≡◌ {A = Waiting} (record { place = w.place; task = w.task; steps = steps }) w
same_waiting w steps e = rw (← e) refl

module _ (env : Env) where
  open env use {Store}

  pub record IsRight (m : Machine env) : Type 0 where
    pub sound : IsSound (waits_at m.waiting) none m.system.heap
    pub at_wait : AllAtWait m.waiting

  -- Where an offline task stops.
  offline_run-rest :
      (p : ℕ) (t : Task) (s : System Store) (steps : List TaskStep)
      → (steps ≡ offline_steps) ⊎ (steps ≡ wait_unregister_complete ∷ clear_offline_info ∷ [])
      → let rest = (offline_run env p t steps s).1 in
        (rest ≡ none) ⊎ (rest ≡ some (wait_unregister_complete ∷ clear_offline_info ∷ []))
  unfolding offline_run
  offline_run-rest p t s steps h = ground arith

  -- What a run of a task leaves: the invariant, and where it stops.
  abbrev Ran : (ℕ → Bool) → ℕ → System Store × Option (List TaskStep) → Type 0
  Ran waits p (s, rest) =
      IsSound waits none s.heap
      × ((rest ≡ none)
          ⊎ ((rest ≡ some (wait_unregister_complete ∷ clear_offline_info ∷ []))
              × HasKind off_line p s.heap))

  offline-Ran :
      (waits : ℕ → Bool) (p : ℕ) (t : Task) (s : System Store)
      → get_elem? s.heap p ≡ some t
      → t.task_type ≡ off_line
      → IsSound waits none s.heap
      → Ran waits p (offline_do_task_inner env p t s)
  unfolding offline_do_task_inner
  offline-Ran waits p t s h kind w =
      let (w1, k1) = offline-IsSound env waits p s t h kind w in
      let stops = offline_run-rest p t _ t.task_steps (inl (w.shaped.steps p t h kind)) in
      (w1, elim stops [ inl e ↦ inl e | inr e ↦ inr (e, k1) ])

  by_type-Ran :
      (waits : ℕ → Bool) (kind : TaskType) (p : ℕ) (t : Task) (s : System Store)
      → get_elem? s.heap p ≡ some t
      → t.task_type ≡ kind
      → IsSound waits none s.heap
      → Ran waits p (do_task_by_type env kind p t s)
  by_type-Ran waits unknown p t s h k w = (w, inl refl)
  by_type-Ran waits enable p t s h k w = (enable-IsSound env p s t h k w, inl refl)
  by_type-Ran waits disable p t s h k w = (disable-IsSound env p s t h w, inl refl)
  by_type-Ran waits on_line p t s h k w = (online-IsSound env waits p s t h k w, inl refl)
  by_type-Ran waits off_line p t s h k w = offline-Ran waits p t s h k w
  by_type-Ran waits meta_enable p t s h k w = (meta_enable-IsSound env p s t h k w, inl refl)
  by_type-Ran waits meta_disable p t s h k w = (meta_disable-IsSound env p s t h w, inl refl)

  -- A thread that comes to wait is added to the threads that wait.
  Ran-IsRight :
      (p : ℕ) (t : Task) (ran : System Store × Option (List TaskStep)) (ws : List Waiting)
      (posted : List ℕ)
      → AllAtWait ws
      → Ran (waits_at ws) p ran
      → IsRight (record { system = ran.0; posted = posted; waiting = add_waiting env p t ran.1 ws })
  Ran-IsRight p t (s, rest) ws posted all (w, inl e) = rw e (record { sound = w; at_wait = all })
  Ran-IsRight p t (s, rest) ws posted all (w, inr (e, kind)) = rw e (record {
    sound = record {
      awaits = w.awaits;
      shaped = record {
        steps = w.shaped.steps;
        kinds = λ q waiting. elim (Bool-cases (nat_beq p q)) [
          | inl same ↦ rw (← (nat_beq_iff p q).0 same) kind
          | inr apart ↦ w.shaped.kinds q (ground (arith, apart, waiting))
        ];
      };
    };
    at_wait = (refl, all);
  })

  -- A thread that waits goes on: it ends and leaves the threads that wait, or waits on as before.
  resume-IsRight :
      (w : Waiting) (before after : List Waiting) (m : Machine env)
      → m.waiting ≡ before ++ w ∷ after
      → IsRight m
      → let ran = offline_run env w.place w.task w.steps m.system in
        IsRight (record m {
          system = ran.0;
          waiting = before ++ add_waiting env w.place w.task ran.1 after;
        })
  resume-IsRight w before after m e r =
      let (left, rest) = AllAtWait-split before after w (rw (← e) r.at_wait) in
      let sound : IsSound (waits_at (before ++ w ∷ after)) none m.system.heap = rw (← e) r.sound in
      let (w1, k1) =
        offline_run-IsSound env (waits_at (before ++ w ∷ after)) w.place w.task w.steps m.system
          (sound, sound.shaped.kinds w.place (waits_at-here before after w)) in
      elim (offline_run-rest w.place w.task m.system w.steps (inr left)) [
        | inl ends ↦ rw ends (record {
          sound = record {
            awaits = w1.awaits;
            shaped = record {
              steps = w1.shaped.steps;
              kinds = λ p waiting. w1.shaped.kinds p (waits_at-drop before after w p waiting);
            };
          };
          at_wait = rest;
        })
        | inr waits ↦
            rw (waits, same_waiting w _ left) (record { sound = w1; at_wait = rw (← e) r.at_wait })
      ]

  trigger-heap : (s s' : System Store) (p : ℕ) → pop_task s ≡ some (p, s') → s'.heap ≡ s.heap
  unfolding pop_task
  trigger-heap s s' p e = ground arith

  Step-IsRight : {m m' : Machine env} → Step env m m' → IsRight m → IsRight m'
  unfolding do_task
  Step-IsRight {m} (trigger p s e) r = record {
    sound = rw (trigger-heap m.system s p e) r.sound;
    at_wait = r.at_wait;
  }
  Step-IsRight {m} (run p before after t e h) r =
      Ran-IsRight p t (do_task env p t m.system) m.waiting (before ++ after) r.at_wait
        (by_type-Ran (waits_at m.waiting) t.task_type p t m.system h refl r.sound)
  Step-IsRight {m} (resume w before after e) r = resume-IsRight w before after m e r
  Step-IsRight {m} (request task_type param) r = record {
    sound = create_alone-IsSound env task_type param m.system r.sound;
    at_wait = r.at_wait;
  }
  Step-IsRight (outside context board store) r = record { sound = r.sound; at_wait = r.at_wait }

  pub Reach-IsRight : {m : Machine env} → Reach env m → IsRight m
  Reach-IsRight (here board context store) = record {
    sound = record {
      awaits = Awaits-nil;
      shaped = record {
        steps = λ p t found. absurd (nothing found);
        kinds = λ p waiting. absurd (false-ne-true waiting);
      };
    };
    at_wait = tt;
  }
  Reach-IsRight (next r st) = Step-IsRight st (Reach-IsRight r)
