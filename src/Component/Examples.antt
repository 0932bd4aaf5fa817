-- ===== src/Component/Examples.antt =====
-- The theorems of Component at small inputs.
use multi_hardware.Base.{ℕ, suc, zero, ◌≡◌, refl, Bool, true, false, [], ◌∷◌, none, some}
use multi_hardware.Constants.{Errno, success, component_enable_failed, is_success}
use multi_hardware.Capability.Info.{CapabilityInfo}
use multi_hardware.Version.Manager.{CompVersion}
use multi_hardware.Component.Register.{Reply}
use multi_hardware.Component.Params.{View}
use multi_hardware.Component.Manager.{ComponentManager, World}
use multi_hardware.Component.Enabling.{enable_attempts, enable_component, disable_component}
use multi_hardware.Component.Retries.{enable_attempts-is_success}
use multi_hardware.Component.Outcomes.{
  EnableOutcome, DisableOutcome, info_of, enable_component-outcome, disable_component-outcome,
}

abbrev camera : CapabilityInfo
camera = record {
  dh_id = 7 ∷ [];
  device_id = 2 ∷ [];
  device_name = [];
  device_type = 0;
  dh_type = 1;
  dh_attrs = 6 ∷ [];
  dh_subtype = [];
}

abbrev camera_version : CompVersion
camera_version = record {
  name = [];
  dh_type = 1;
  handler_version = [];
  source_version = 3 ∷ [];
  sink_version = 4 ∷ [];
}

-- Managers that know one camera and its versions.
abbrev view : View
view = record {
  device_id_by_uuid = λ s. s;
  local_device_id = 8 ∷ [];
  local_uuid = 8 ∷ [];
  local_udid_hash = 8 ∷ [];
  context = record { dev_id_entry_set = []; real_time_network_ids = []; connected_dev_ids = [] };
  capability = λ id dh_id. (success, some camera);
  local_capability = λ id dh_id. (success, none);
  meta_cap_info = λ id dh_id. (component_enable_failed, none);
  capabilities = λ id. camera ∷ [];
  meta_cap_infos = λ id. [];
  version_info = λ id. (
    success,
    record { device_id = id; dh_version = []; comp_versions = (1, camera_version) ∷ [] },
  );
}

-- Managers that know nothing.
abbrev fails_once : ℕ → Errno
fails_once zero = component_enable_failed
fails_once (suc n) = success

abbrev world : World
world = record {
  views = λ n. view;
  param_online = λ n. true;
  retry_online = λ n. true;
  replies = λ n. record { returned = success; early = some (fails_once n); late = none };
  check_resource = false;
  resource_desc = [];
  trusted_devices = [];
}

abbrev late_reply : ℕ → Reply
late_reply zero = record { returned = success; early = none; late = some component_enable_failed }
late_reply (suc n) = record { returned = success; early = none; late = some success }

abbrev online_until : ℕ → Bool
online_until zero = true
online_until (suc zero) = true
online_until (suc (suc n)) = false

abbrev manager : ComponentManager
manager = record {
  comp_source = (1, true) ∷ [];
  versions = [];
  dh_biz_states = [];
  need_refresh_task_params = [];
  comp_info_set = [];
}

enable_attempts-is_success_example :
    is_success (enable_attempts world (3 ∷ []) (7 ∷ []) true) ≡ true
enable_attempts-is_success_example =
    enable_attempts-is_success world (3 ∷ []) (7 ∷ []) fails_once refl refl (λ n. (refl, refl))

enable_component-outcome_example :
    EnableOutcome
      (info_of (3 ∷ []) 1 (7 ∷ []))
      (info_of (3 ∷ []) 1 (7 ∷ []))
      manager
      (enable_component world (3 ∷ []) (2 ∷ []) (7 ∷ []) 1 manager)
enable_component-outcome_example =
    enable_component-outcome world (3 ∷ []) (2 ∷ []) (7 ∷ []) 1 manager
      (info_of (3 ∷ []) 1 (7 ∷ []))

disable_component-outcome_example :
    let enabled = record manager { comp_info_set = info_of (3 ∷ []) 1 (7 ∷ []) ∷ [] } in
    DisableOutcome
      (info_of (3 ∷ []) 1 (7 ∷ []))
      (info_of (3 ∷ []) 1 (7 ∷ []))
      enabled
      (disable_component world (3 ∷ []) (2 ∷ []) (7 ∷ []) 1 enabled)
disable_component-outcome_example =
    disable_component-outcome world (3 ∷ []) (2 ∷ []) (7 ∷ []) 1
      (record manager { comp_info_set = info_of (3 ∷ []) 1 (7 ∷ []) ∷ [] })
      (info_of (3 ∷ []) 1 (7 ∷ []))
