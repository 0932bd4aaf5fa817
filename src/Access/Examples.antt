-- ===== src/Access/Examples.antt =====
-- The theorems of Access at small inputs.
use multi_hardware.Task.Executor.{push_task}
use multi_hardware.Task.Flows.{create_and_push}
use multi_hardware.Base.{ℕ, ◌≡◌, refl, true, false, [], ◌∷◌, arith}
use multi_hardware.Base.Str.{Str, str_beq}
use multi_hardware.Context.Defs.{
  udid_by_network_id, make_entry, insert_entry, add_online_device, add_real_time_network_id,
  uuid_by_network_id, isomerism_connect_count, real_time_count, find_entry, is_device_online,
  set_has,
}
use multi_hardware.Task.Types.{System}
use multi_hardware.Task.Factory.{create_task, new_online_task, new_offline_task}
use multi_hardware.Task.Handlers.{Env}
use multi_hardware.Constants.{success}
use multi_hardware.Access.Manager.{Part, Framework, device_param}
use multi_hardware.Access.Factory.{send_on_line_event, init_framework, DmEnv, un_init_framework}
use multi_hardware.Access.Callbacks.{
  on_device_ready, on_device_offline, check_trusted_device_online,
}
use multi_hardware.Access.Lifecycle.{
  remove_at, ready, offline, local_dev_info, un_init_now, run_thread, events, is_up, is_local,
  IsBalanced, events-IsBalanced,
}
use multi_hardware.Access.Online.{on_device_offline-on_device_ready, on_device_ready-too_soon}
use multi_hardware.Access.Released.{events-refused}
use multi_hardware.Access.Reinit.{un_init_framework-online}

-- The components that the tasks call do nothing.
abbrev env : Env
env = record {
  Store = ℕ;
  random_id = λ n. n ∷ [];
  sha256 = λ s. 1 ∷ s;
  component_enable = λ network_id uuid dh_id dh_type c s. (s, success);
  component_disable = λ network_id uuid dh_id dh_type c s. (s, success);
  has_source = λ dh_type s. false;
  has_modem_ext = λ s. false;
  modem_enable = λ network_id s. (s, success);
  modem_disable = λ network_id s. (s, success);
  sync_device_info = λ id s. s;
  sync_meta_info = λ id s. s;
  capabilities = λ id s. [];
  local_capabilities = λ id s. [];
  meta_capabilities = λ id s. [];
  remove_in_mem = λ id s. s;
}

abbrev dm : DmEnv
dm = record {
  uuid_by_dm = λ n. 8 ∷ n;
  udid_by_dm = λ n. 9 ∷ n;
  is_device_e2e_sync = true;
  system_ability_mgr = true;
}

abbrev no_tasks : System ℕ
no_tasks = record {
  heap = [];
  board = record { tasks = []; enabled_devices = [] };
  task_queue = [];
  context = record { dev_id_entry_set = []; real_time_network_ids = []; connected_dev_ids = [] };
  store = 0;
  un_init = false;
}

abbrev inactive : Framework ℕ
inactive = record {
  system = no_tasks;
  is_local_init = false;
  is_all_init = false;
  is_init = false;
  flag_un_init = false;
  calls = [];
  threads = [];
}

abbrev phone : Str
phone = 3 ∷ []

abbrev tablet : Str
tablet = 4 ∷ []

all_down : (x : Part) → is_local x ≡ true → is_up x [] ≡ false
all_down x h = refl

inactive-IsBalanced : IsBalanced inactive
inactive-IsBalanced = record {
  local = all_down;
  all = refl;
  once = refl;
  below = λ e. e;
  ready = λ e. cc;
}

events-IsBalanced_example : IsBalanced (
    events env dm
      (local_dev_info [] []
        ∷ ready phone
        ∷ offline phone
        ∷ un_init_now (tablet ∷ [])
        ∷ run_thread 0
        ∷ [])
      inactive)
events-IsBalanced_example = events-IsBalanced env dm _ inactive inactive-IsBalanced

on_device_offline-on_device_ready_example :
    let fw1 = on_device_ready env dm phone inactive in
    let fw2 = on_device_offline env dm phone fw1 in
    let param = device_param phone (8 ∷ phone) (9 ∷ phone) in
    (is_device_online (8 ∷ phone) fw1.system.context ≡ true)
    × (fw2.system.heap ≡ new_online_task (0 ∷ []) param ∷ new_offline_task (1 ∷ []) param ∷ [])
    × (fw2.system.task_queue ≡ 0 ∷ 1 ∷ [])
    × (fw2.system.context.real_time_network_ids ≡ [])
    × (fw2.flag_un_init ≡ true)
unfolding is_device_online find_entry set_has real_time_count isomerism_connect_count
on_device_offline-on_device_ready_example =
    on_device_offline-on_device_ready env dm phone (8 ∷ phone) (9 ∷ phone) inactive refl refl refl
      refl refl refl refl (ground arith) (ground arith)

-- The phone is online.
abbrev with_phone : Framework ℕ
with_phone = on_device_ready env dm phone inactive

on_device_ready-too_soon_example :
    let fw1 = on_device_offline env dm phone with_phone in
    let c = fw1.system.context in
    (on_device_ready env dm phone fw1 ≡ fw1)
    × (set_has phone c.real_time_network_ids ≡ false)
    × (is_device_online (8 ∷ phone) c ≡ true)
unfolding uuid_by_network_id find_entry on_device_ready is_device_online create_and_push push_task
    create_task add_real_time_network_id add_online_device insert_entry str_beq make_entry
    udid_by_network_id
on_device_ready-too_soon_example =
    on_device_ready-too_soon env dm phone (8 ∷ phone) (9 ∷ phone) with_phone refl refl refl refl
      refl refl

-- No device is left.
abbrev without_phone : Framework ℕ
without_phone = record inactive { is_init = true; flag_un_init = true }

events-refused_example :
    let fw = events env dm (ready tablet ∷ offline phone ∷ []) without_phone in
    (fw.flag_un_init ≡ true)
    × (on_device_ready env dm tablet fw ≡ fw)
    × (check_trusted_device_online env dm (tablet ∷ []) fw ≡ fw)
events-refused_example =
    events-refused env dm (ready tablet ∷ offline phone ∷ []) tablet (tablet ∷ []) without_phone
      refl refl

un_init_framework-online_example :
    let fw =
      events env dm
        (run_thread 1 ∷ run_thread 0 ∷ [])
        (un_init_framework dm (phone ∷ tablet ∷ []) inactive) in
    (is_device_online (8 ∷ tablet) fw.system.context ≡ true) × (fw.flag_un_init ≡ false)
unfolding set_has str_beq events un_init_framework init_framework send_on_line_event
    is_device_online find_entry remove_at create_and_push push_task create_task
    add_real_time_network_id add_online_device insert_entry make_entry
un_init_framework-online_example =
    un_init_framework-online env dm (phone ∷ tablet ∷ []) (1 ∷ 0 ∷ []) tablet inactive refl refl
      refl refl (ground arith) refl
