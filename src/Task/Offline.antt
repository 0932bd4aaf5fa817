-- ===== src/Task/Offline.antt =====
-- The thread of an offline task that waits for the tasks that it has created.
use multi_hardware.Base.{
  ℕ, ◌≡◌, refl, ◌&&◌, [], ◌∷◌, none, some, arith, ◌==◌, if◌then◌else◌, is_empty, Bool-cases, inl,
  inr,
}
use multi_hardware.Base.Map.{lookup}
use multi_hardware.Base.Str.{Str, str_eq}
use multi_hardware.Context.Defs.{remove_online_device_by_network_id}
use multi_hardware.Task.Types.{
  Task, TaskState, wait_unregister_complete, clear_offline_info, System, on_task, set_state,
}
use multi_hardware.Task.Board.{lookup-remove_task}
use multi_hardware.Task.Heap.{on_task-Frame}
use multi_hardware.Task.Handlers.{Env, device_id_by_uuid}
use multi_hardware.Task.Flows.{unfinished, children_finished, clear_off_line_info, offline_run}

module _ (env : Env) where
  open env use {Store, random_id}

  -- A waiting offline task ends exactly if no child is left that has not reported, and waits on
  -- otherwise. If it ends, it takes the device offline, clears the capabilities of the device in
  -- memory and leaves the board; if it waits on, the online devices, the managers' state and the
  -- tasks on the board stay as they are.
  pub offline_run-resumed :
      (p : ℕ) (t : Task) (s : System Store) (id : Str)
      → let done = is_empty (unfinished env p s) in
        let (s', rest) =
          offline_run env p t (wait_unregister_complete ∷ clear_offline_info ∷ []) s in
        (rest ≡ (if done then none else some (wait_unregister_complete ∷ clear_offline_info ∷ [])))
        × (s'.context ≡ (
            if done
            then remove_online_device_by_network_id t.param.network_id s.context
            else s.context))
        × (s'.store ≡ (
            if done
            then env.remove_in_mem (device_id_by_uuid env t.param.uuid) s.store
            else s.store))
        × (lookup id s'.board.tasks
            ≡ (if done && (t.id == id) then none else lookup id s.board.tasks))
  unfolding offline_run clear_off_line_info
  offline_run-resumed p t s id =
      let s1 = clear_off_line_info env t (children_finished env t s) in
      let s2 = on_task p (set_state TaskState.success) s1 in
      elim (Bool-cases (is_empty (unfinished env p s))) [
        | inl done ↦ rw done (
            ground (
              arith,
              on_task-Frame p (set_state TaskState.success) s1,
              lookup-remove_task t.id id s2.board,
            ))
        | inr left ↦ rw left (refl, refl, refl, refl)
      ]
