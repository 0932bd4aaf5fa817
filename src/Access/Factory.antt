-- ===== src/Access/Factory.antt =====
-- distributed_hardware_manager_factory.cpp: the events of the devices, and the release of the
-- framework when the last device is gone.
use multi_hardware.Base.{
  Bool, true, false, not, ◌&&◌, ◌||◌, List, ◌∷◌, ◌++◌, length, map, ltb, ◌==◌, nat_eq, is_empty,
  if◌then◌else◌,
}
use multi_hardware.Base.Str.{Str}
use multi_hardware.Constants.{
  Errno, success, para_invalid, hardware_manager_init_failed, hardware_manager_device_repeat_online,
  hardware_manager_device_repeat_offline, is_id_length_valid, is_success, max_online_device_size,
}
use multi_hardware.Context.Defs.{
  DhContext, add_online_device, is_device_online, add_real_time_network_id,
  delete_real_time_network_id, real_time_count, isomerism_connect_count,
}
use multi_hardware.Task.Handlers.{Env}
use multi_hardware.Access.Manager.{
  Framework, sync_data_by_network_id, clear_data_when_peer_logout, unload_system_ability,
  local_init, initialize, release, manager_send_on_line_event, manager_send_off_line_event,
}

-- What the device manager and the system ability manager answer.
pub record DmEnv : Type 0 where
  pub uuid_by_dm : Str → Str
  pub udid_by_dm : Str → Str
  pub is_device_e2e_sync : Bool
  pub system_ability_mgr : Bool

abbrev pub are_ids_valid : Str → Str → Str → Bool
are_ids_valid network_id uuid udid =
    is_id_length_valid network_id && is_id_length_valid uuid && is_id_length_valid udid

-- GetTrustedDeviceList gave a list that the framework works with. A device is its network id.
abbrev pub has_no_trusted : List Str → Bool
has_no_trusted devices = is_empty devices || ltb max_online_device_size (length devices)

abbrev pub thread_of : DmEnv → Str → Str × Str × Str
thread_of dm network_id = (network_id, dm.uuid_by_dm network_id, dm.udid_by_dm network_id)

module _ {Store : Type 0} where
  abbrev pub on_context : (DhContext → DhContext) → Framework Store → Framework Store
  on_context f fw = let s = fw.system in record fw { system = record s { context = f s.context } }

  unfoldable pub init_framework : Framework Store → Framework Store × Bool
  unfolding initialize
  init_framework fw =
      let (fw1, ret) = initialize fw in
      if not (is_success ret) then (fw1, false) else (record fw1 { is_init = true }, true)

  -- `!isInit_ && !Init()` is the second component's negation.
  unfoldable pub init_once : Framework Store → Framework Store × Bool
  unfolding init_framework
  init_once fw = if fw.is_init then (fw, true) else init_framework fw

  unfoldable pub exit_dh_fwk : DmEnv → Framework Store → Framework Store
  exit_dh_fwk dm fw =
      if dm.system_ability_mgr then record fw { calls = unload_system_ability ∷ fw.calls } else fw

  unfoldable pub init_local_dev_info :
      DmEnv → List Str → List Str → Framework Store → Framework Store × Bool
  unfolding exit_dh_fwk local_init
  init_local_dev_info dm before after fw =
      let (fw1, ret) = local_init fw in
      if not (has_no_trusted before)
      then (fw, true)
      else if not (is_success ret)
      then (fw1, false)
      else if has_no_trusted after && (isomerism_connect_count fw1.system.context == 0)
      then (exit_dh_fwk dm fw1, true)
      else (fw1, true)

  unfoldable pub check_exit_sa_or_not : DmEnv → List Str → Framework Store → Framework Store
  unfolding exit_dh_fwk
  check_exit_sa_or_not dm devices fw =
      let fw1 = (init_framework fw).0 in
      if has_no_trusted devices && (isomerism_connect_count fw.system.context == 0)
      then exit_dh_fwk dm fw
      else record fw1 { threads = fw1.threads ++ map (thread_of dm) devices }

  -- The task framework's request is answered by this call.
  unfoldable pub un_init_framework : DmEnv → List Str → Framework Store → Framework Store
  unfolding check_exit_sa_or_not release
  un_init_framework dm devices fw =
      let fw1 = release fw in
      let s = fw1.system in
      check_exit_sa_or_not dm devices (record fw1 {
        is_init = false;
        flag_un_init = false;
        system = record s { un_init = false };
      })

  unfoldable pub clear_data : Str → Str → Framework Store → Framework Store
  clear_data udid uuid fw = record fw { calls = clear_data_when_peer_logout udid uuid ∷ fw.calls }

module _ (env : Env) where
  open env use {Store, sha256}

  -- What SendOnLineEvent notes in DHContext.
  unfoldable pub on_line_context : Str → Str → Str → Framework Store → Framework Store
  on_line_context network_id uuid udid fw =
      on_context
        (λ c. add_real_time_network_id network_id (add_online_device sha256 udid uuid network_id c))
        fw

module _ (env : Env) (dm : DmEnv) where
  open env use {Store}

  -- SendOnLineEvent after its tests.
  unfoldable pub sync_on_line : Str → Framework Store → Framework Store
  sync_on_line network_id fw =
      if dm.is_device_e2e_sync
      then record fw { calls = sync_data_by_network_id network_id ∷ fw.calls }
      else fw

  abbrev pub accept_ready : Str → Str → Str → Framework Store × Bool → Framework Store × Errno
  accept_ready network_id uuid udid (fw, ready) =
      if not ready
      then (fw, hardware_manager_init_failed)
      else manager_send_on_line_event env network_id uuid udid (sync_on_line network_id fw)

  unfoldable pub accept_on_line : Str → Str → Str → Framework Store → Framework Store × Errno
  unfolding manager_send_on_line_event init_once on_line_context sync_on_line
  accept_on_line network_id uuid udid fw =
      accept_ready network_id uuid udid (init_once (on_line_context env network_id uuid udid fw))

  unfoldable pub send_on_line_event : Str → Str → Str → Framework Store → Framework Store × Errno
  unfolding accept_on_line
  send_on_line_event network_id uuid udid fw =
      if not (are_ids_valid network_id uuid udid)
      then (fw, para_invalid)
      else if fw.flag_un_init
      then (fw, hardware_manager_init_failed)
      else if is_device_online uuid fw.system.context
      then (fw, hardware_manager_device_repeat_online)
      else accept_on_line network_id uuid udid fw

  unfoldable pub note_last_device : Framework Store → Framework Store
  note_last_device fw =
      if (real_time_count fw.system.context == 0)
        && (isomerism_connect_count fw.system.context == 0)
      then record fw { flag_un_init = true }
      else fw

  abbrev pub off_line_ready : Str → Str → Str → Framework Store × Bool → Framework Store × Errno
  off_line_ready network_id uuid udid (fw, ready) =
      if not ready
      then (fw, hardware_manager_init_failed)
      else if not (is_device_online uuid fw.system.context)
      then (fw, hardware_manager_device_repeat_offline)
      else (
        (manager_send_off_line_event env network_id uuid udid
            (note_last_device (on_context (delete_real_time_network_id network_id) fw))).0,
        success,
      )

  unfoldable pub send_off_line_event : Str → Str → Str → Framework Store → Framework Store × Errno
  unfolding manager_send_off_line_event init_once note_last_device
  send_off_line_event network_id uuid udid fw =
      if not (are_ids_valid network_id uuid udid)
      then (fw, para_invalid)
      else off_line_ready network_id uuid udid (init_once fw)
