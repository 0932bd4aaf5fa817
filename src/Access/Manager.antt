-- ===== src/Access/Manager.antt =====
-- distributed_hardware_manager.cpp: the framework is initialised and released, and a device that
-- comes or goes becomes a task.
use multi_hardware.Base.{Bool, true, false, not, ◌||◌, List, [], ◌∷◌, none, if◌then◌else◌}
use multi_hardware.Base.Str.{Str}
use multi_hardware.Constants.{Errno, success, para_invalid, is_id_length_valid}
use multi_hardware.Constants.DhType.{unknown}
use multi_hardware.Task.Types.{on_line, off_line, TaskParam, System}
use multi_hardware.Task.Handlers.{Env}
use multi_hardware.Task.Flows.{create_and_push}

-- The parts that the manager initialises and releases.
pub data Part : Type 0 where
  version_info_manager capability_info_manager meta_info_manager : Part
  local_capability_info_manager component_loader version_manager : Part
  local_hardware_manager component_manager modem_context_ext : Part

-- What the framework asks of its parts, of the publisher and of the system.
pub data Call : Type 0 where
  init un_init : Part → Call
  query_device_data_sync_mode : Call
  sync_data_by_network_id publish_dev_offline : Str → Call
  clear_data_when_peer_logout : Str → Str → Call
  unload_system_ability : Call

-- The manager and its factory. `calls` has the last call first; `threads` are the threads that
-- CheckExitSAOrNot starts, each with the identifiers of its device.
pub record Framework (Store : Type 0) : Type 0 where
  pub system : System Store
  pub is_local_init : Bool
  pub is_all_init : Bool
  pub is_init : Bool
  pub flag_un_init : Bool
  pub calls : List Call
  pub threads : List (Str × Str × Str)

-- The results of the parts are not read.
module _ {Store : Type 0} where
  unfoldable pub local_init : Framework Store → Framework Store × Errno
  local_init fw = if fw.is_local_init then (fw, success) else (
    record fw {
      is_local_init = true;
      calls =
          query_device_data_sync_mode
          ∷ init local_hardware_manager
          ∷ init version_manager
          ∷ init component_loader
          ∷ init local_capability_info_manager
          ∷ init meta_info_manager
          ∷ init capability_info_manager
          ∷ init version_info_manager
          ∷ fw.calls;
    },
    success,
  )

  unfoldable pub initialize : Framework Store → Framework Store × Errno
  unfolding local_init
  initialize fw =
      let fw1 = (local_init fw).0 in
      if fw.is_all_init
      then (fw, success)
      else (record fw1 { is_all_init = true; calls = init component_manager ∷ fw1.calls }, success)

  unfoldable pub release : Framework Store → Framework Store
  release fw = record fw {
    is_all_init = false;
    is_local_init = false;
    calls =
        un_init modem_context_ext
        ∷ un_init local_capability_info_manager
        ∷ un_init meta_info_manager
        ∷ un_init capability_info_manager
        ∷ un_init version_info_manager
        ∷ un_init component_loader
        ∷ un_init version_manager
        ∷ un_init component_manager
        ∷ un_init local_hardware_manager
        ∷ fw.calls;
  }

abbrev pub device_param : Str → Str → Str → TaskParam
device_param network_id uuid udid = record {
  network_id = network_id;
  uuid = uuid;
  udid = udid;
  dh_id = [];
  dh_type = unknown;
}

module _ (env : Env) where
  open env use {Store}

  unfoldable pub manager_send_on_line_event :
      Str → Str → Str → Framework Store → Framework Store × Errno
  manager_send_on_line_event network_id uuid udid fw =
      if not (is_id_length_valid network_id)
        || not (is_id_length_valid uuid)
        || not (is_id_length_valid udid)
      then (fw, para_invalid)
      else (
        record fw {
          system = create_and_push env on_line (device_param network_id uuid udid) none fw.system;
        },
        success,
      )

  unfoldable pub manager_send_off_line_event :
      Str → Str → Str → Framework Store → Framework Store × Errno
  manager_send_off_line_event network_id uuid udid fw =
      if not (is_id_length_valid network_id)
        || not (is_id_length_valid uuid)
        || not (is_id_length_valid udid)
      then (fw, para_invalid)
      else (
        record fw {
          system = create_and_push env off_line (device_param network_id uuid udid) none fw.system;
          calls = publish_dev_offline network_id ∷ fw.calls;
        },
        success,
      )
