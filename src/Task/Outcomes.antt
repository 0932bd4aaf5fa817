-- ===== src/Task/Outcomes.antt =====
-- What the threads of the enable and disable tasks leave behind.
use multi_hardware.Base.{
  ℕ, ◌≡◌, refl, ◌≢◌, true, false, ◌&&◌, none, some, arith, get_elem?, ◌==◌, if◌then◌else◌,
  Option-cases, inl, inr,
}
use multi_hardware.Base.Map.{lookup}
use multi_hardware.Base.Str.{Str, str_eq}
use multi_hardware.Constants.{Errno, is_success}
use multi_hardware.Capability.Key.{capability_key}
use multi_hardware.Context.Defs.{set_erase}
use multi_hardware.Task.Types.{
  Task, TaskState, running, TaskBoard, System, on_task, write_task, set_state,
}
use multi_hardware.Task.Board.{
  is_enabled_device, is_enabled_device-changes, lookup-remove_task, remove_task,
  is_enabled_device-remove_task, tasks-enabled_device, save_enabled_device, remove_enabled_device,
}
use multi_hardware.Task.Heap.{get_elem?-on_task_self, get_elem?-on_task_ne, on_task-Frame}
use multi_hardware.Task.Handlers.{
  Env, device_id_by_uuid, result_state, finish_enable, finish_disable, notify_father,
  remove_from_board, register_hardware, enable_do_task_inner, unregister_hardware,
  disable_do_task_inner, notify_father_finish,
}
use multi_hardware.Task.Flows.{unfinished}

unfinished-board :
    (env : Env) (f : ℕ) (s : System env.Store) (b : TaskBoard)
    → unfinished env f (record s { board = b }) ≡ unfinished env f s
unfolding unfinished
unfinished-board env f s b = refl

unfinished-store :
    (env : Env) (f : ℕ) (s : System env.Store) (store' : env.Store)
    → unfinished env f (record s { store = store' }) ≡ unfinished env f s
unfolding unfinished
unfinished-store env f s store' = refl

module _ (env : Env) where
  open env use {Store}

  abbrev pub device_key : Task → Str
  device_key t = capability_key (device_id_by_uuid env t.param.uuid) t.param.dh_id

  abbrev pub enable_result : Task → System Store → Errno
  enable_result t s =
      (env.component_enable t.param.network_id t.param.uuid t.param.dh_id t.param.dh_type s.context
        s.store).1

  finish_enable-outcome :
      (p : ℕ) (t u : Task) (s : System Store) (r : Errno) (key id : Str)
      → get_elem? s.heap p ≡ some u
      → let s' = finish_enable env p t (s, r) in
        (is_enabled_device key s'.board
          ≡ (if is_success r && (device_key t == key) then true else is_enabled_device key s.board))
        × (lookup id s'.board.tasks ≡ (if t.id == id then none else lookup id s.board.tasks))
        × (get_elem? s'.heap p ≡ some (set_state (result_state env r) u))
  finish_enable-outcome p t u s r key id h =
      let s1 = on_task p (set_state (result_state env r)) s in
      let saved = save_enabled_device (device_key t) t.param s1.board in
      ground (
        arith,
        on_task-Frame p (set_state (result_state env r)) s,
        get_elem?-on_task_self p (set_state (result_state env r)) s u h,
        is_enabled_device-remove_task key t.id s1.board,
        is_enabled_device-remove_task key t.id saved,
        is_enabled_device-changes (device_key t) key t.param s1.board,
        tasks-enabled_device (device_key t) t.param s1.board,
        lookup-remove_task t.id id s1.board,
        lookup-remove_task t.id id saved,
      )

  -- The thread of an enable task saves the device as enabled exactly if the component manager
  -- enables it, touches no other device, records the result in the task and takes the task, and
  -- no other, off the board.
  pub enable_do_task_inner-outcome :
      (p : ℕ) (t : Task) (s : System Store) (key id : Str)
      → get_elem? s.heap p ≡ some t
      → let r = enable_result t s in
        let s' = enable_do_task_inner env p t s in
        (is_enabled_device key s'.board
          ≡ (if is_success r && (device_key t == key) then true else is_enabled_device key s.board))
        × (lookup id s'.board.tasks ≡ (if t.id == id then none else lookup id s.board.tasks))
        × (get_elem? s'.heap p ≡ some (set_state (result_state env r) t))
  unfolding enable_do_task_inner register_hardware
  enable_do_task_inner-outcome p t s key id h =
      let s0 = on_task p (set_state running) s in
      let r = enable_result t s in
      ground (
        arith,
        on_task-Frame p (set_state running) s,
        get_elem?-on_task_self p (set_state running) s t h,
        finish_enable-outcome p t (set_state running t)
            (record s0 {
              store =
                  (env.component_enable t.param.network_id t.param.uuid t.param.dh_id
                    t.param.dh_type s0.context s0.store).0;
            })
            r key id,
      )

  abbrev pub disable_result : Task → System Store → Errno
  disable_result t s =
      (env.component_disable t.param.network_id t.param.uuid t.param.dh_id t.param.dh_type s.context
        s.store).1

  unfinished-on_task :
      (p f : ℕ) (g : Task → Task) (s : System Store)
      → p ≢ f
      → unfinished env f (on_task p g s) ≡ unfinished env f s
  unfolding unfinished
  unfinished-on_task p f g s d = rw (get_elem?-on_task_ne p f g s d)

  unfinished-notify :
      (f : ℕ) (id : Str) (s : System Store)
      → unfinished env f (on_task f (notify_father_finish env id) s)
        ≡ set_erase id (unfinished env f s)
  unfolding unfinished notify_father_finish on_task set_erase
  unfinished-notify f id s = elim (Option-cases (get_elem? s.heap f)) [
    | inl e ↦ rw (e, write_task) (rw e)
    | inr (u, e) ↦ rw (get_elem?-on_task_self f (notify_father_finish env id) s u e) (rw e)
  ]

  -- The part of the thread behind the change of the enabled devices.
  finish_disable-step :
      (p f : ℕ) (t u : Task) (s : System Store) (st : TaskState) (key id : Str)
      → p ≢ f
      → get_elem? s.heap p ≡ some u
      → let s1 = on_task p (set_state st) s in
        let s2 = on_task f (notify_father_finish env t.id) s1 in
        let s' = remove_from_board env t.id s2 in
        (is_enabled_device key s'.board ≡ is_enabled_device key s.board)
        × (lookup id s'.board.tasks ≡ (if t.id == id then none else lookup id s.board.tasks))
        × (get_elem? s'.heap p ≡ some (set_state st u))
        × (unfinished env f s' ≡ set_erase t.id (unfinished env f s))
  finish_disable-step p f t u s st key id d h =
      let s1 = on_task p (set_state st) s in
      let s2 = on_task f (notify_father_finish env t.id) s1 in
      ground (
        arith,
        on_task-Frame p (set_state st) s,
        on_task-Frame f (notify_father_finish env t.id) s1,
        get_elem?-on_task_self p (set_state st) s u h,
        get_elem?-on_task_ne f p (notify_father_finish env t.id) s1,
        unfinished-on_task p f (set_state st) s d,
        unfinished-notify f t.id s1,
        unfinished-board env f s2 (remove_task t.id s2.board).0,
        is_enabled_device-remove_task key t.id s2.board,
        lookup-remove_task t.id id s2.board,
      )

  finish_disable-outcome :
      (p f : ℕ) (t u : Task) (s : System Store) (r : Errno) (key id : Str)
      → p ≢ f
      → t.father_task ≡ some f
      → get_elem? s.heap p ≡ some u
      → let s' = finish_disable env p t (s, r) in
        (is_enabled_device key s'.board ≡ (
          if is_success r && (device_key t == key) then false else is_enabled_device key s.board))
        × (lookup id s'.board.tasks ≡ (if t.id == id then none else lookup id s.board.tasks))
        × (get_elem? s'.heap p ≡ some (set_state (result_state env r) u))
        × (unfinished env f s' ≡ set_erase t.id (unfinished env f s))
  finish_disable-outcome p f t u s r key id d e h =
      let erased = record s { board = remove_enabled_device (device_key t) s.board } in
      rw (e, notify_father)
        (ground (
          arith,
          finish_disable-step p f t u s (result_state env r) key id d h,
          finish_disable-step p f t u erased (result_state env r) key id d h,
          is_enabled_device-changes (device_key t) key t.param s.board,
          tasks-enabled_device (device_key t) t.param s.board,
          unfinished-board env f s erased.board,
        ))

  -- The thread of a disable task with a father forgets the enabled device exactly if the component
  -- manager disables it, touches no other device, records the result, takes its id off the
  -- father's unfinished children whatever the result, and takes the task, and no other, off the
  -- board.
  pub disable_do_task_inner-outcome :
      (p f : ℕ) (t : Task) (s : System Store) (key id : Str)
      → p ≢ f
      → t.father_task ≡ some f
      → get_elem? s.heap p ≡ some t
      → let r = disable_result t s in
        let s' = disable_do_task_inner env p t s in
        (is_enabled_device key s'.board ≡ (
          if is_success r && (device_key t == key) then false else is_enabled_device key s.board))
        × (lookup id s'.board.tasks ≡ (if t.id == id then none else lookup id s.board.tasks))
        × (get_elem? s'.heap p ≡ some (set_state (result_state env r) t))
        × (unfinished env f s' ≡ set_erase t.id (unfinished env f s))
  unfolding disable_do_task_inner unregister_hardware
  disable_do_task_inner-outcome p f t s key id d e h =
      let s0 = on_task p (set_state running) s in
      let store' =
        (env.component_disable t.param.network_id t.param.uuid t.param.dh_id t.param.dh_type
          s0.context s0.store).0 in
      ground (
        arith,
        on_task-Frame p (set_state running) s,
        get_elem?-on_task_self p (set_state running) s t h,
        unfinished-on_task p f (set_state running) s d,
        unfinished-store env f s0 store',
        finish_disable-outcome p f t (set_state running t) (record s0 { store = store' })
            (disable_result t s) key id d e,
      )
