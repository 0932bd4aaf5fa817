-- ===== src/Task/Examples.antt =====
-- The theorems of Task at small inputs.
use multi_hardware.Capability.Key.{capability_key}
use multi_hardware.Base.{
  ℕ, suc, zero, List, length, ◌≡◌, refl, true, false, [], ◌∷◌, some, none, arith, get_elem?, ◌||◌,
}
use multi_hardware.Base.Map.{has, lookup}
use multi_hardware.Base.Str.{str_beq, str_eq}
use multi_hardware.Constants.{success}
use multi_hardware.Context.Defs.{set_has, DhContext, set_erase}
use multi_hardware.Task.Types.{
  on_task, Task, disable, TaskState, TaskParam, TaskBoard, System, wait_unregister_complete,
  clear_offline_info, set_father, set_state, on_task,
}
use multi_hardware.Task.Board.{is_enabled_device}
use multi_hardware.Task.Factory.{
  create_task, make_task, new_task, new_disable_task, new_enable_task, new_offline_task,
}
use multi_hardware.Task.Handlers.{
  unregister_hardware, device_id_by_uuid, Env, unregister_hardware, enable_do_task_inner,
  disable_do_task_inner,
}
use multi_hardware.Task.Flows.{create_and_push, offline_run, unfinished}
use multi_hardware.Task.Outcomes.{
  device_key, enable_do_task_inner-outcome, disable_do_task_inner-outcome,
}
use multi_hardware.Task.Dropped.{create_and_push-full_queue}
use multi_hardware.Task.Phases.{
  Phase, Among, here, own, others, reporting_task, advance, is_awaited, is_finished_in,
  create_task-told,
}
use multi_hardware.Task.Offline.{offline_run-resumed}

-- A device with one capability; everything succeeds.
abbrev pub env : Env
env = record {
  Store = ℕ;
  random_id = λ n. n ∷ [];
  sha256 = λ s. 1 ∷ s;
  component_enable = λ network_id uuid dh_id dh_type c s. (suc s, success);
  component_disable = λ network_id uuid dh_id dh_type c s. (suc s, success);
  has_source = λ dh_type s. true;
  has_modem_ext = λ s. true;
  modem_enable = λ network_id s. (s, success);
  modem_disable = λ network_id s. (s, success);
  sync_device_info = λ id s. s;
  sync_meta_info = λ id s. s;
  capabilities = λ id s. ((7 ∷ []), 1) ∷ [];
  local_capabilities = λ id s. [];
  meta_capabilities = λ id s. [];
  remove_in_mem = λ id s. zero;
}

abbrev pub param : TaskParam
param = record { network_id = 3 ∷ []; uuid = 2 ∷ []; udid = 1 ∷ []; dh_id = 7 ∷ []; dh_type = 1 }

abbrev pub no_context : DhContext
no_context = record { dev_id_entry_set = []; real_time_network_ids = []; connected_dev_ids = [] }

abbrev pub board : TaskBoard
board = record { tasks = (0 ∷ [], 0) ∷ []; enabled_devices = [] }

abbrev offline : Task
offline = new_offline_task (0 ∷ []) param

-- One offline task, on the board.
abbrev start : System ℕ
start = record {
  heap = offline ∷ [];
  board = board;
  task_queue = [];
  context = no_context;
  store = 0;
  un_init = false;
}

abbrev child : Task
child = set_father 0 (new_disable_task (1 ∷ []) param)

-- The offline task and a child that runs.
abbrev with_child : System ℕ
with_child = record start {
  heap = record offline { unfinish_children_tasks = (1 ∷ []) ∷ [] } ∷ child ∷ [];
}

abbrev enabling : Task
enabling = new_enable_task (0 ∷ []) param

enable_do_task_inner-outcome_example :
    let s' = enable_do_task_inner env 0 enabling (record start { heap = enabling ∷ [] }) in
    (is_enabled_device (device_key env enabling) s'.board ≡ true)
    × (lookup (0 ∷ []) s'.board.tasks ≡ none)
    × (get_elem? s'.heap 0 ≡ some (set_state TaskState.success enabling))
unfolding str_beq capability_key new_enable_task device_id_by_uuid
enable_do_task_inner-outcome_example =
    enable_do_task_inner-outcome env 0 enabling (record start { heap = enabling ∷ [] })
      (device_key env enabling) (0 ∷ []) refl

disable_do_task_inner-outcome_example :
    let s' = disable_do_task_inner env 1 child with_child in
    (is_enabled_device (device_key env child) s'.board ≡ false)
    × (lookup (1 ∷ []) s'.board.tasks ≡ none)
    × (get_elem? s'.heap 1 ≡ some (set_state TaskState.success child))
    × (unfinished env 0 s' ≡ set_erase (1 ∷ []) (unfinished env 0 with_child))
unfolding str_beq new_disable_task capability_key device_id_by_uuid
disable_do_task_inner-outcome_example =
    disable_do_task_inner-outcome env 1 0 child with_child (device_key env child) (1 ∷ [])
      (omega arith) refl refl

offline_run-resumed_example :
    let (s', rest) =
      offline_run env 0 offline (wait_unregister_complete ∷ clear_offline_info ∷ []) with_child in
    (rest ≡ some (wait_unregister_complete ∷ clear_offline_info ∷ []))
    × (s'.context ≡ no_context)
    × (s'.store ≡ 0)
    × (lookup (0 ∷ []) s'.board.tasks ≡ some 0)
unfolding unfinished lookup new_offline_task str_beq
offline_run-resumed_example = offline_run-resumed env 0 offline with_child (0 ∷ [])

abbrev filled : ℕ → List ℕ
filled zero = []
filled (suc n) = 9 ∷ filled n

length-filled : (n : ℕ) → length (filled n) ≡ n
length-filled zero = refl
length-filled (suc n) = ground (arith, length-filled n)

abbrev full : System ℕ
full = record start { task_queue = filled 257 }

create_and_push-full_queue_example :
    let s' = create_and_push env disable param (some 0) full in
    (s'.task_queue ≡ filled 257)
    × (set_has (1 ∷ []) (unfinished env 0 s') ≡ true)
    × (lookup (1 ∷ []) s'.board.tasks ≡ some 1)
unfolding new_offline_task has str_beq
create_and_push-full_queue_example =
    create_and_push-full_queue env param 0 full offline refl refl
      (ground (arith, length-filled 257)) refl

abbrev created : System ℕ
created = (create_task env.random_id disable param (some 0) start).0

-- The states of a handler of the child.
record Told : Type 0 where
  phase : Phase
  system : System ℕ
  steps :
      Among env false 1 0 (set_father 0 (reporting_task false (1 ∷ []) param)) created phase system

abbrev after : Told → Told
after told = record { phase = _; system = _; steps = own told.steps }

-- The result is set, another thread has changed the store, and the father has not been told.
abbrev set_result : Told
unfolding advance on_task unregister_hardware create_task unfinished
set_result =
    let t0 : Told = record { phase = _; system = _; steps = here } in
    let told = after (after (after (after t0))) in
    record {
      phase = _;
      system = _;
      steps = others told.steps (record told.system { store = 5 }) refl refl;
    }

create_task-told_example :
    let awaited = is_awaited env 0 (1 ∷ []) set_result.system in
    let finished = is_finished_in (get_elem? set_result.system.heap 1) in
    (finished ≡ true) × (awaited ≡ true) × (awaited || finished ≡ true)
unfolding advance on_task unregister_hardware create_task unfinished new_offline_task reporting_task
    new_disable_task new_task make_task
create_task-told_example =
    create_task-told env false param 0 start offline refl refl set_result.steps
