-- ===== src/Startup/Examples.antt =====
-- The theorems of Startup at small inputs.
use multi_hardware.Base.{
  ℕ, ◌≡◌, refl, true, false, none, some, [], ◌∷◌, ◌+◌, ◌==◌, nat_eq, if◌then◌else◌, arith,
}
use multi_hardware.Base.Str.{str_beq, Str}
use multi_hardware.Constants.{success}
use multi_hardware.Context.Defs.{network_id_by_uuid, find_entry, uuid_by_device_id, DhContext}
use multi_hardware.Capability.Info.{MetaCapabilityInfo}
use multi_hardware.Task.Types.{TaskParam, System}
use multi_hardware.Task.Factory.{new_enable_task}
use multi_hardware.Task.Handlers.{Env}
use multi_hardware.Startup.Defs.{Outside, Startup}
use multi_hardware.Startup.Lifecycle.{init, un_init}
use multi_hardware.Startup.Balance.{IsEven, un_init-init}
use multi_hardware.Startup.Recovery.{
  recover_distributed_hardware, recover_distributed_hardware-tasks,
}

-- The components that the tasks call do nothing.
abbrev env : Env
env = record {
  Store = ℕ;
  random_id = λ n. n ∷ [];
  sha256 = λ s. 1 ∷ s;
  component_enable = λ network_id uuid dh_id dh_type c s. (s, success);
  component_disable = λ network_id uuid dh_id dh_type c s. (s, success);
  has_source = λ dh_type s. true;
  has_modem_ext = λ s. true;
  modem_enable = λ network_id s. (s, success);
  modem_disable = λ network_id s. (s, success);
  sync_device_info = λ id s. s;
  sync_meta_info = λ id s. s;
  capabilities = λ id s. [];
  local_capabilities = λ id s. [];
  meta_capabilities = λ id s. [];
  remove_in_mem = λ id s. s;
}

-- A device is online.
abbrev context : DhContext
context = record {
  dev_id_entry_set =
      (record {
        network_id = 3 ∷ [];
        uuid = 2 ∷ [];
        device_id = 1 ∷ 2 ∷ [];
        udid = 4 ∷ [];
        udid_hash = 1 ∷ 4 ∷ [];
      })
      ∷ [];
  real_time_network_ids = (3 ∷ []) ∷ [];
  connected_dev_ids = [];
}

abbrev system : System ℕ
system = record {
  heap = [];
  board = record { tasks = []; enabled_devices = [] };
  task_queue = [];
  context = context;
  store = 0;
  un_init = true;
}

abbrev hardware : Str → Str → MetaCapabilityInfo
hardware device_id dh_id = record {
  info = record {
    dh_id = dh_id;
    device_id = device_id;
    device_name = [];
    device_type = 0;
    dh_type = 1;
    dh_attrs = [];
    dh_subtype = [];
  };
  udid_hash = [];
  sink_version = [];
}

abbrev param : Str → TaskParam
param dh_id = record { network_id = 3 ∷ []; uuid = 2 ∷ []; udid = []; dh_id = dh_id; dh_type = 1 }

recover_distributed_hardware-tasks_example :
    let infos =
      hardware (1 ∷ 2 ∷ []) (7 ∷ [])
      ∷ hardware (1 ∷ 9 ∷ []) (8 ∷ [])
      ∷ hardware (1 ∷ 2 ∷ []) (9 ∷ [])
      ∷ [] in
    let s = recover_distributed_hardware env 1 infos system in
    (s.heap
      ≡ new_enable_task (0 ∷ []) (param (7 ∷ [])) ∷ new_enable_task (1 ∷ []) (param (9 ∷ [])) ∷ [])
    × (s.task_queue ≡ 0 ∷ 1 ∷ [])
    × (s.context ≡ context)
unfolding uuid_by_device_id find_entry str_beq network_id_by_uuid
recover_distributed_hardware-tasks_example =
    recover_distributed_hardware-tasks env 1
      (hardware (1 ∷ 2 ∷ []) (7 ∷ [])
        ∷ hardware (1 ∷ 9 ∷ []) (8 ∷ [])
        ∷ hardware (1 ∷ 2 ∷ []) (9 ∷ [])
        ∷ [])
      system (ground arith)

-- A camera with a source and a sink, and an input device with a source alone.
abbrev outside : Outside
outside = record {
  all_comp_types = 1 ∷ 32 ∷ [];
  get_source = λ type. some true;
  get_sink = λ type. if type == 1 then some true else none;
  source_sa_id = λ type. some (4800 + type);
  has_hardware_handler = λ type. true;
  source_version = λ type. 1 ∷ [];
  sink_version = λ type. 2 ∷ [];
  system_ability_manager = true;
  subscribe = λ id. true;
  un_subscribe = λ id. true;
  result = λ type. some success;
}

abbrev stopped : Startup
stopped = record {
  comp_source = [];
  comp_sink = [];
  comp_src_sa_id = [];
  sa_listeners = [];
  camera_comp_privacy = none;
  audio_comp_privacy = none;
  is_un_init_time_out = false;
  effects = [];
}

un_init-init_example :
    let s = (un_init outside true (init outside true stopped).0).0 in
    IsEven 1 s.effects × (s.comp_source ≡ []) × (s.comp_sink ≡ [])
un_init-init_example = un_init-init outside outside true 1 stopped (refl, refl)
