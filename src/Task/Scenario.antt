-- ===== src/Task/Scenario.antt =====
-- A device goes offline: the threads from the first task to the last.
use multi_hardware.Task.Factory.{create_task}
use multi_hardware.Task.Flows.{create_and_push}
use multi_hardware.Task.Executor.{push_task, pop_task}
use multi_hardware.Base.{ℕ, zero, suc, arith, ◌≡◌, refl, true, [], ◌∷◌, some, get_elem?}
use multi_hardware.Context.Defs.{remove_online_device_by_network_id}
use multi_hardware.Task.Types.{Task, off_line, TaskBoard}
use multi_hardware.Base.Str.{str_beq}
use multi_hardware.Base.Map.{has, lookup, emplace, erase}
use multi_hardware.Task.Types.{on_task}
use multi_hardware.Task.Executor.{pop_task, push_task}
use multi_hardware.Task.Factory.{
  create_task, make_task, add_children_task, new_task, new_offline_task, new_disable_task,
  new_meta_disable_task,
}
use multi_hardware.Task.Board.{add_task, remove_task, remove_task_inner, remove_enabled_device}
use multi_hardware.Task.Handlers.{
  disable_do_task_inner, meta_disable_do_task_inner, unregister_hardware, meta_disable_hardware,
  notify_father_finish,
}
use multi_hardware.Task.Flows.{
  create_and_push, create_and_push_all, offline_do_task_inner, offline_run,
  create_meta_disable_task, create_disable_task, offline_dh_infos, unfinished,
}
use multi_hardware.Context.Defs.{set_insert, set_has, set_erase}
use multi_hardware.Task.Threads.{do_task}
use multi_hardware.Task.Awaiting.{reports, is_finished}
use multi_hardware.Task.Threads.{Machine, Step, trigger, run, request, Reach, here, next}
use multi_hardware.Task.Resumes.{Reach-resumes}
use multi_hardware.Task.Examples.{env, param, no_context}

abbrev empty_board : TaskBoard
empty_board = record { tasks = []; enabled_devices = [] }

-- A state with how it is reached.
record Reached : Type 0 where
  machine : Machine env
  reach : Reach env machine

abbrev asked : Reached
asked = record {
  machine = _;
  reach = next (here empty_board no_context 0) (request off_line param);
}

-- The offline task runs until it waits for its two children.
abbrev waits : Reached
unfolding pop_task create_and_push push_task create_task make_task on_task add_task do_task
    offline_do_task_inner offline_run create_meta_disable_task create_disable_task
    create_and_push_all offline_dh_infos unfinished add_children_task new_task new_offline_task
    new_disable_task new_meta_disable_task set_insert set_has str_beq has lookup emplace
    disable_do_task_inner meta_disable_do_task_inner unregister_hardware meta_disable_hardware
    notify_father_finish set_erase remove_task remove_task_inner erase remove_enabled_device
waits = record {
  machine = _;
  reach = next (next asked.reach (trigger 0 _ refl)) (run 0 [] [] _ refl refl);
}

-- Both children have run, the second one first.
abbrev reported : Reached
unfolding pop_task create_and_push push_task create_task make_task on_task add_task do_task
    offline_do_task_inner offline_run create_meta_disable_task create_disable_task
    create_and_push_all offline_dh_infos unfinished add_children_task new_task new_offline_task
    new_disable_task new_meta_disable_task set_insert set_has str_beq has lookup emplace
    disable_do_task_inner meta_disable_do_task_inner unregister_hardware meta_disable_hardware
    notify_father_finish set_erase remove_task remove_task_inner erase remove_enabled_device
reported = record {
  machine = _;
  reach =
      next
        (next (next (next waits.reach (trigger 1 _ refl)) (trigger 2 _ refl))
          (run 2 (1 ∷ []) [] _ refl refl))
        (run 1 [] [] _ refl refl);
}

every_task :
    (p : ℕ) (t : Task)
    → get_elem? reported.machine.system.heap p ≡ some t
    → reports t.task_type ≡ true
    → is_finished t.task_state ≡ true
unfolding pop_task create_and_push push_task create_task make_task on_task add_task do_task
    offline_do_task_inner offline_run create_meta_disable_task create_disable_task
    create_and_push_all offline_dh_infos unfinished add_children_task new_task new_offline_task
    new_disable_task new_meta_disable_task set_insert set_has str_beq has lookup emplace
    disable_do_task_inner meta_disable_do_task_inner unregister_hardware meta_disable_hardware
    notify_father_finish set_erase remove_task remove_task_inner erase remove_enabled_device
every_task zero t e r = cc
every_task (suc zero) t e r = ground arith
every_task (suc (suc zero)) t e r = ground arith
every_task (suc (suc (suc p))) t e r = cc

Reach-resumes_example :
    (m' : Machine env) × Step env reported.machine m'
    × (m'.waiting ≡ [])
    × (m'.system.context ≡ remove_online_device_by_network_id (3 ∷ []) no_context)
unfolding pop_task create_and_push push_task create_task make_task on_task add_task do_task
    offline_do_task_inner offline_run create_meta_disable_task create_disable_task
    create_and_push_all offline_dh_infos unfinished add_children_task new_task new_offline_task
    new_disable_task new_meta_disable_task set_insert set_has str_beq has lookup emplace
    disable_do_task_inner meta_disable_do_task_inner unregister_hardware meta_disable_hardware
    notify_father_finish set_erase remove_task remove_task_inner erase remove_enabled_device
Reach-resumes_example = Reach-resumes env _ [] [] reported.reach refl every_task
