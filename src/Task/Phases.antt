-- ===== src/Task/Phases.antt =====
-- The threads of the disable and meta disable tasks at a finer grain: each call of a handler is a
-- step, and any other thread may run between two of them.
use multi_hardware.Base.{
  ℕ, zero, suc, ◌≡◌, ◌≢◌, refl, Bool, true, false, ◌||◌, length, List, Option, none, some, arith,
  get_elem?, if◌then◌else◌, nat_eq, [], ◌∷◌, sym, ◌∙◌, lt-get_elem?, Option-cases, inl, inr,
}
use multi_hardware.Base.Str.{Str, str_eq, str_beq_iff}
use multi_hardware.Constants.{Errno, is_success}
use multi_hardware.Context.Defs.{set_has, set_insert, set_erase}
use multi_hardware.Capability.Key.{capability_key}
use multi_hardware.Task.Types.{
  Task, TaskType, disable, meta_disable, off_line, TaskParam, set_father, TaskState, running,
  System, on_task, set_state,
}
use multi_hardware.Task.Board.{remove_enabled_device}
use multi_hardware.Task.Heap.{get_elem?-on_task_self, get_elem?-on_task_ne}
use multi_hardware.Task.Handlers.{
  Env, device_id_by_uuid, result_state, remove_from_board, unregister_hardware,
  meta_disable_hardware, notify_father, notify_father_finish, disable_do_task_inner,
  meta_disable_do_task_inner,
}
use multi_hardware.Task.Factory.{
  make_task, create_task, add_children_task, new_task, new_disable_task, new_meta_disable_task,
}
use multi_hardware.Task.Creation.{create_task-registers}
use multi_hardware.Task.Flows.{unfinished}
use multi_hardware.Task.Awaiting.{is_finished}

-- What a handler does next: set RUNNING, take the hardware off, forget the enabled device, set the
-- result, notify the father, leave the board.
pub data Phase : Type 0 where
  begin work : Phase
  forget settle : Errno → Phase
  notify leave ended : Phase

module _ (env : Env) where
  open env use {Store}

  -- MetaDisableTask has no enabled device to forget.
  abbrev pub worked : Bool → System Store × Errno → Phase × System Store
  worked true (s, result) = (settle result, s)
  worked false (s, result) = (forget result, s)

  abbrev pub hardware_off : Bool → Task → System Store → System Store × Errno
  hardware_off true t s = meta_disable_hardware env t s
  hardware_off false t s = unregister_hardware env t s

  -- One call of the handler of the task `t`, whose object is at `p`; the flag says that it is a meta
  -- disable task.
  unfoldable pub advance : Bool → ℕ → Task → Phase → System Store → Phase × System Store
  advance meta p t begin s = (work, on_task p (set_state running) s)
  advance meta p t work s = worked meta (hardware_off meta t s)
  advance meta p t (forget result) s =
      let key = capability_key (device_id_by_uuid env t.param.uuid) t.param.dh_id in
      (
        settle result,
        if is_success result then record s { board = remove_enabled_device key s.board } else s,
      )
  advance meta p t (settle result) s = (notify, on_task p (set_state (result_state env result)) s)
  advance meta p t notify s = (leave, notify_father env t.father_task t.id s)
  advance meta p t leave s = (ended, remove_from_board env t.id s)
  advance meta p t ended s = (ended, s)

  unfoldable pub advance_by : ℕ → Bool → ℕ → Task → Phase → System Store → Phase × System Store
  unfolding advance
  advance_by zero meta p t phase s = (phase, s)
  advance_by (suc n) meta p t phase s =
      let (phase', s') = advance meta p t phase s in advance_by n meta p t phase' s'

  -- With no other thread between its calls a handler is what it is as one step: the disable handler
  -- after its six calls, the meta disable handler after its five.
  pub advance_by-do_task_inner :
      (p : ℕ) (t : Task) (s : System Store)
      → (advance_by 6 false p t begin s ≡ (ended, disable_do_task_inner env p t s))
        × (advance_by 5 true p t begin s ≡ (ended, meta_disable_do_task_inner env p t s))
  unfolding advance_by advance disable_do_task_inner meta_disable_do_task_inner
  advance_by-do_task_inner p t s = (refl, refl)

  -- A task waits for a child with an id.
  abbrev pub is_awaited : ℕ → Str → System Store → Bool
  is_awaited f id s = set_has id (unfinished env f s)

  -- The states of a handler among other threads, which may do anything but change the handler's own
  -- object and whether the father waits for it.
  pub data Among (meta : Bool) (p f : ℕ) (t : Task) (start : System Store)
      : Phase → System Store → Type 0 where
    here : Among meta p f t start begin start
    own :
        {phase : Phase} {s : System Store}
        → Among meta p f t start phase s
        → Among meta p f t start (advance meta p t phase s).0 (advance meta p t phase s).1
    others :
        {phase : Phase} {s : System Store}
        → Among meta p f t start phase s
        → (s' : System Store) → get_elem? s'.heap p ≡ get_elem? s.heap p
        → is_awaited f t.id s' ≡ is_awaited f t.id s
        → Among meta p f t start phase s'

-- The result is set in the object, by the phase.
abbrev pub is_set : Phase → Bool
is_set notify = true
is_set leave = true
is_set ended = true
is_set _ = false

-- The father has not been told, by the phase.
abbrev pub is_untold : Phase → Bool
is_untold leave = false
is_untold ended = false
is_untold _ = true

told_if_set : (phase : Phase) → is_untold phase || is_set phase ≡ true
told_if_set begin = refl
told_if_set work = refl
told_if_set (forget result) = refl
told_if_set (settle result) = refl
told_if_set notify = refl
told_if_set leave = refl
told_if_set ended = refl

abbrev pub is_finished_in : Option Task → Bool
is_finished_in none = false
is_finished_in (some u) = is_finished u.task_state

set_has-set_erase : (x : Str) (xs : List Str) → set_has x (set_erase x xs) ≡ false
unfolding set_has set_erase
set_has-set_erase x [] = refl
set_has-set_erase x (y ∷ ys) = ground (arith, set_has-set_erase x ys)

set_has-set_insert : (x : Str) (xs : List Str) → set_has x (set_insert x xs) ≡ true
unfolding set_has set_insert
set_has-set_insert x xs = ground (arith, str_beq_iff x x)

-- The object that CreateTask makes for the handler.
unfoldable pub reporting_task : Bool → Str → TaskParam → Task
reporting_task true id param = new_meta_disable_task id param
reporting_task false id param = new_disable_task id param

abbrev pub reporting_type : Bool → TaskType
reporting_type true = meta_disable
reporting_type false = disable

reporting_task-made :
    (meta : Bool) (id : Str) (param : TaskParam)
    → make_task (reporting_type meta) id param ≡ some (reporting_task meta id param)
unfolding make_task reporting_task
reporting_task-made true id param = refl
reporting_task-made false id param = refl

reporting_task-new :
    (meta : Bool) (id : Str) (param : TaskParam)
    → ((reporting_task meta id param).id ≡ id)
      × (is_finished (reporting_task meta id param).task_state ≡ false)
unfolding reporting_task new_disable_task new_meta_disable_task new_task
reporting_task-new true id param = (refl, refl)
reporting_task-new false id param = (refl, refl)

module _ (env : Env) where
  open env use {Store, random_id}

  -- What holds between the calls of a handler.
  record Between (p f : ℕ) (id : Str) (phase : Phase) (s : System Store) : Type 0 where
    object : Task
    found : get_elem? s.heap p ≡ some object
    finished : is_finished object.task_state ≡ is_set phase
    awaited : is_awaited env f id s ≡ is_untold phase

  set_state-Between :
      (p f : ℕ) (id : Str) (st : TaskState) (phase phase' : Phase) (s : System Store)
      → p ≢ f
      → is_finished st ≡ is_set phase'
      → is_untold phase ≡ is_untold phase'
      → Between p f id phase s
      → Between p f id phase' (on_task p (set_state st) s)
  unfolding unfinished
  set_state-Between p f id st phase phase' s apart set untold b = record {
    object = set_state st b.object;
    found = get_elem?-on_task_self p (set_state st) s b.object b.found;
    finished = set;
    awaited = rw (get_elem?-on_task_ne p f (set_state st) s apart) (b.awaited ∙ untold);
  }

  -- A change that leaves the objects alone.
  same_heap-Between :
      (p f : ℕ) (id : Str) (phase phase' : Phase) (s s' : System Store)
      → s'.heap ≡ s.heap
      → is_set phase ≡ is_set phase'
      → is_untold phase ≡ is_untold phase'
      → Between p f id phase s
      → Between p f id phase' s'
  unfolding unfinished
  same_heap-Between p f id phase phase' s s' same set untold b = record {
    object = b.object;
    found = rw same b.found;
    finished = b.finished ∙ set;
    awaited = rw same (b.awaited ∙ untold);
  }

  hardware_off-heap :
      (meta : Bool) (t : Task) (s : System Store) → (hardware_off env meta t s).0.heap ≡ s.heap
  unfolding unregister_hardware meta_disable_hardware
  hardware_off-heap true t s = ground arith
  hardware_off-heap false t s = refl

  work-Between :
      (meta : Bool) (p f : ℕ) (id : Str) (got : System Store × Errno)
      → Between p f id work got.0
      → Between p f id (worked env meta got).0 (worked env meta got).1
  work-Between true p f id (s, result) b =
      same_heap-Between p f id work (settle result) s s refl refl refl b
  work-Between false p f id (s, result) b =
      same_heap-Between p f id work (forget result) s s refl refl refl b

  notify-Between :
      (p f : ℕ) (id : Str) (s : System Store)
      → p ≢ f
      → Between p f id notify s
      → Between p f id leave (on_task f (notify_father_finish env id) s)
  unfolding unfinished notify_father_finish set_has
  notify-Between p f id s apart b = elim (Option-cases (get_elem? s.heap f)) [
    | inl e ↦ absurd (missing (rw (← b.awaited) (rw e refl)))
    | inr (father, e) ↦ record {
      object = b.object;
      found =
          get_elem?-on_task_ne f p (notify_father_finish env id) s (λ q. apart (sym q)) ∙ b.found;
      finished = b.finished;
      awaited =
          rw (get_elem?-on_task_self f (notify_father_finish env id) s father e)
            (set_has-set_erase id father.unfinish_children_tasks);
    }
  ]
    where
      missing : false ≢ true
      missing e = cc

  advance-Between :
      (meta : Bool) (p f : ℕ) (t : Task) (phase : Phase) (s : System Store)
      → p ≢ f
      → t.father_task ≡ some f
      → Between p f t.id phase s
      → Between p f t.id (advance env meta p t phase s).0 (advance env meta p t phase s).1
  unfolding advance
  advance-Between meta p f t begin s apart h b =
      set_state-Between p f t.id running begin work s apart refl refl b
  advance-Between meta p f t work s apart h b =
      let got = hardware_off env meta t s in
      work-Between meta p f t.id got
        (same_heap-Between p f t.id work work s got.0 (hardware_off-heap meta t s) refl refl b)
  advance-Between meta p f t (forget result) s apart h b =
      same_heap-Between p f t.id (forget result) (settle result) s _ (ground arith) refl refl b
  advance-Between meta p f t (settle result) s apart h b =
      set_state-Between p f t.id (result_state env result) (settle result) notify s apart
        (ground arith) refl b
  advance-Between meta p f t notify s apart h b = rw h (notify-Between p f t.id s apart b)
  advance-Between meta p f t leave s apart h b =
      same_heap-Between p f t.id leave ended s (remove_from_board env t.id s) refl refl refl b
  advance-Between meta p f t ended s apart h b = b

  Among-Between :
      {meta : Bool} {p f : ℕ} {t : Task} {start s : System Store} {phase : Phase}
      → p ≢ f
      → t.father_task ≡ some f
      → Between p f t.id begin start
      → Among env meta p f t start phase s
      → Between p f t.id phase s
  Among-Between apart h b here = b
  Among-Between {meta} {p} {f} {t} apart h b (own {phase} {s} r) =
      advance-Between meta p f t phase s apart h (Among-Between apart h b r)
  Among-Between apart h b (others r s' kept same) =
      let w = Among-Between apart h b r in
      record {
        object = w.object;
        found = kept ∙ w.found;
        finished = w.finished;
        awaited = same ∙ w.awaited;
      }

  -- The same for any object that is set up as CreateTask sets it up.
  Among-told :
      {meta : Bool} {p f : ℕ} {t : Task} {start s : System Store} {phase : Phase}
      → p ≢ f
      → get_elem? start.heap p ≡ some t
      → t.father_task ≡ some f
      → is_finished t.task_state ≡ false
      → is_awaited env f t.id start ≡ true
      → Among env meta p f t start phase s
      → (is_finished_in (get_elem? s.heap p) ≡ is_set phase)
        × (is_awaited env f t.id s ≡ is_untold phase)
        × (is_awaited env f t.id s || is_finished_in (get_elem? s.heap p) ≡ true)
  Among-told {p = p} {t = t} {s = s} {phase = phase} apart found father open_state awaited r =
      let w =
        Among-Between apart father
          (record { object = t; found = found; finished = open_state; awaited = awaited }) r in
      let set : is_finished_in (get_elem? s.heap p) ≡ is_set phase = rw w.found w.finished in
      (set, w.awaited, rw (set, w.awaited) (told_if_set phase))

  -- An offline task creates a disable or a meta disable task. From before that task is pushed on,
  -- whatever other threads do between the calls of its handler, if they leave its object and its
  -- entry in the father alone: the object is successful or failed exactly from the call on that sets
  -- the result, and the father waits for it exactly up to the call that tells it, which comes after.
  -- So the father never stops waiting for a task that has no result, and does not wait for one whose
  -- handler has ended.
  pub create_task-told :
      {phase : Phase} {s' : System Store} (meta : Bool) (param : TaskParam) (f : ℕ)
      (s : System Store) (father : Task)
      → get_elem? s.heap f ≡ some father
      → father.task_type ≡ off_line
      → Among env meta
          (length s.heap)
          f
          (set_father f (reporting_task meta (random_id (length s.heap)) param))
          (create_task random_id (reporting_type meta) param (some f) s).0
          phase
          s'
      → let p = length s.heap in
        let awaited = is_awaited env f (random_id p) s' in
        let finished = is_finished_in (get_elem? s'.heap p) in
        (finished ≡ is_set phase) × (awaited ≡ is_untold phase) × (awaited || finished ≡ true)
  unfolding unfinished add_children_task
  create_task-told {phase} {s'} meta param f s father found kind r =
      let p = length s.heap in
      let t = reporting_task meta (random_id p) param in
      let made =
        create_task-registers random_id (reporting_type meta) param f s t father []
          (reporting_task-made meta (random_id p) param) found in
      let (same_id, open_state) = reporting_task-new meta (random_id p) param in
      let apart : p ≢ f = ground (arith, lt-get_elem? s.heap f found) in
      let waits = set_has-set_insert t.id father.unfinish_children_tasks in
      let start = (create_task random_id (reporting_type meta) param (some f) s).0 in
      let awaited : is_awaited env f t.id start ≡ true = rw (made.2, kind) waits in
      rw (← same_id) (Among-told apart made.1 refl open_state awaited r)
