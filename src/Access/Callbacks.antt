-- ===== src/Access/Callbacks.antt =====
-- access_manager.cpp: the callbacks of the device manager.
use multi_hardware.Base.{ℕ, zero, suc, Bool, true, false, not, ◌||◌, List, [], ◌∷◌, if◌then◌else◌}
use multi_hardware.Base.Str.{Str}
use multi_hardware.Constants.{
  Errno, success, access_init_dm_failed, access_register_dm_failed, access_uninit_dm_failed,
  access_unregister_dm_failed, is_id_length_valid, is_success,
}
use multi_hardware.Context.Defs.{uuid_by_network_id, udid_by_network_id}
use multi_hardware.Task.Handlers.{Env}
use multi_hardware.Access.Manager.{Framework}
use multi_hardware.Access.Factory.{
  DmEnv, has_no_trusted, send_on_line_event, send_off_line_event, clear_data,
}

-- What InitDeviceManager and the two registrations return, in one call of Init.
pub record DmReply : Type 0 where
  pub init_device_manager : Errno
  pub register_dev_state_callback : Errno
  pub reg_dev_trust_change_callback : Errno

unfoldable pub init_access : DmReply → Errno
init_access r =
    if not (is_success r.init_device_manager)
    then access_init_dm_failed
    else if not (is_success r.register_dev_state_callback)
    then access_register_dm_failed
    else if not (is_success r.reg_dev_trust_change_callback)
    then access_register_dm_failed
    else success

unfoldable pub un_init_access : Errno → Errno → Errno
un_init_access un_init_device_manager un_register_dev_state_callback =
    if not (is_success un_init_device_manager)
    then access_uninit_dm_failed
    else if not (is_success un_register_dev_state_callback)
    then access_unregister_dm_failed
    else success

abbrev pub dh_retry_init_dm_count : ℕ
dh_retry_init_dm_count = 6

-- The loop of OnRemoteDied, with the number of tries that are left: the tries that are made, each
-- with the reply of its number, and whether one succeeds.
unfoldable pub retry_init : (ℕ → DmReply) → ℕ → ℕ → ℕ × Bool
unfolding init_access
retry_init reply zero try_count = (try_count, false)
retry_init reply (suc left) try_count =
    let rest = retry_init reply left (suc try_count) in
    if is_success (init_access (reply try_count)) then (suc try_count, true) else rest

unfoldable pub on_remote_died : (ℕ → DmReply) → ℕ × Bool
unfolding retry_init
on_remote_died reply = retry_init reply dh_retry_init_dm_count 0

module _ {Store : Type 0} where
  unfoldable pub on_device_trust_change : Str → Str → Bool → Framework Store → Framework Store
  on_device_trust_change udid uuid identical_account fw =
      if not (is_id_length_valid udid) || not (is_id_length_valid uuid)
      then fw
      else if not identical_account
      then fw
      else clear_data udid uuid fw

module _ (env : Env) (dm : DmEnv) where
  open env use {Store}

  unfoldable pub on_device_ready : Str → Framework Store → Framework Store
  unfolding send_on_line_event
  on_device_ready network_id fw =
      let uuid = dm.uuid_by_dm network_id in
      let udid = dm.udid_by_dm network_id in
      if not (is_id_length_valid network_id)
      then fw
      else if not (is_id_length_valid uuid)
      then fw
      else if not (is_id_length_valid udid)
      then fw
      else (send_on_line_event env dm network_id uuid udid fw).0

  unfoldable pub on_device_offline : Str → Framework Store → Framework Store
  unfolding send_off_line_event
  on_device_offline network_id fw =
      let uuid = uuid_by_network_id network_id fw.system.context in
      let udid = udid_by_network_id network_id fw.system.context in
      if not (is_id_length_valid network_id)
      then fw
      else if not (is_id_length_valid uuid)
      then fw
      else if not (is_id_length_valid udid)
      then fw
      else (send_off_line_event env dm network_id uuid udid fw).0

  unfoldable pub send_each : List Str → Framework Store → Framework Store
  send_each [] fw = fw
  send_each (network_id ∷ devices) fw =
      send_each devices
        (send_on_line_event env dm network_id (dm.uuid_by_dm network_id) (dm.udid_by_dm network_id)
          fw).0

  unfoldable pub check_trusted_device_online : List Str → Framework Store → Framework Store
  check_trusted_device_online devices fw =
      if has_no_trusted devices then fw else send_each devices fw
