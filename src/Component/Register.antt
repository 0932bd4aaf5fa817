-- ===== src/Component/Register.antt =====
-- component_enable.cpp and component_disable.cpp: one object registers a device with a component
-- and waits for the component's callback.
use multi_hardware.Base.{Bool, not, ◌||◌, Option, none, some, if◌then◌else◌}
use multi_hardware.Base.Str.{Str}
use multi_hardware.Constants.{
  Errno, success, para_invalid, component_enable_failed, component_disable_failed,
  component_enable_timeout, component_disable_timeout, component_register_failed,
  component_unregister_failed, is_success, is_id_length_valid,
}

-- `status_`, with `none` for the initial std::numeric_limits<int32_t>::max().
abbrev pub Status : Type 0
Status = Option Errno

abbrev pub latest : Option Errno → Status → Status
latest none old = old
latest (some st) old = some st

-- What a component does with one call: what RegisterDistributedHardware (or Unregister…) returns,
-- the status that it reports before the caller waits, and the one that it reports after the wait
-- has begun and before the timeout.
pub record Reply : Type 0 where
  pub returned : Errno
  pub early : Option Errno
  pub late : Option Errno

-- The wait for a status other than the initial one: it ends at once where there is such a status.
unfoldable pub wait_status : Status → Option Errno → Status
wait_status none late = late
wait_status (some st) late = some st

abbrev pub status_result : Errno → Errno → Status → Errno
status_result timeout failed none = timeout
status_result timeout failed (some st) = if is_success st then success else failed

-- ComponentEnable::Enable: the object's status afterwards, and the result.
unfoldable pub enable : Str → Str → Bool → Reply → Status → Status × Errno
unfolding wait_status
enable network_id dh_id has_handler reply status =
    if not (is_id_length_valid network_id) || not (is_id_length_valid dh_id)
    then (status, para_invalid)
    else if not has_handler
    then (status, para_invalid)
    else if not (is_success reply.returned)
    then (latest reply.late (latest reply.early status), component_register_failed)
    else let begun = latest reply.early status in
      (
        latest reply.late begun,
        status_result component_enable_timeout component_enable_failed
            (wait_status begun reply.late),
      )

-- ComponentDisable::Disable.
unfoldable pub disable : Str → Str → Bool → Reply → Status → Status × Errno
unfolding wait_status
disable network_id dh_id has_handler reply status =
    if not (is_id_length_valid network_id) || not (is_id_length_valid dh_id)
    then (status, para_invalid)
    else if not has_handler
    then (status, para_invalid)
    else if not (is_success reply.returned)
    then (latest reply.late (latest reply.early status), component_unregister_failed)
    else let begun = latest reply.early status in
      (
        latest reply.late begun,
        status_result component_disable_timeout component_disable_failed
            (wait_status begun reply.late),
      )

-- OnRegisterResult: the new status and what the callback returns.
unfoldable pub on_register_result : Str → Str → Errno → Status → Status × Errno
on_register_result network_id dh_id st status =
    if not (is_id_length_valid network_id) || not (is_id_length_valid dh_id)
    then (status, para_invalid)
    else (some st, st)
