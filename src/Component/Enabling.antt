-- ===== src/Component/Enabling.antt =====
-- component_manager.cpp: Enable and Disable with their retries.
use multi_hardware.Base.{
  ℕ, suc, zero, ◌+◌, Bool, not, ◌||◌, [], Option, none, some, nat_eq, if◌then◌else◌,
}
use multi_hardware.Base.Map.{lookup}
use multi_hardware.Base.Str.{Str, str_eq}
use multi_hardware.Constants.{
  Errno, success, para_invalid, component_enable_failed, is_success, is_id_length_valid,
}
use multi_hardware.Version.Manager.{VersionManager}
use multi_hardware.Component.Register.{Status, enable, disable}
use multi_hardware.Component.Params.{EnableParam}
use multi_hardware.Component.Parameters.{get_enable_param}
use multi_hardware.Component.Manager.{
  HidumpCompInfo, ComponentManager, dump_enabled_comp, dump_disabled_comp, World,
  enable_retry_max_times, disable_retry_max_times, check_subtype_resource,
}

-- The loop of RetryGetEnableParam: `left` rounds are left, and `n` calls of GetEnableParam were
-- made. It ends with success also when no call succeeded.
unfoldable pub retry_param_loop :
    World
    → ℕ
    → ℕ
    → Str
    → Str
    → Str
    → ℕ
    → EnableParam
    → VersionManager
    → VersionManager × Errno × EnableParam
retry_param_loop w zero n network_id uuid dh_id dh_type param vm = (vm, success, param)
retry_param_loop w (suc left) n network_id uuid dh_id dh_type param vm =
    let (vm', ret, param') = get_enable_param (w.views n) network_id uuid dh_id dh_type param vm in
    let more = retry_param_loop w left (n + 1) network_id uuid dh_id dh_type param' vm' in
    if not (w.param_online n)
    then (vm, component_enable_failed, param)
    else if is_success ret
    then (vm', success, param')
    else more

unfoldable pub retry_get_enable_param :
    World
    → Str
    → Str
    → Str
    → ℕ
    → EnableParam
    → VersionManager
    → VersionManager × Errno × EnableParam
retry_get_enable_param w network_id uuid dh_id dh_type param vm =
    if not (is_id_length_valid network_id)
      || not (is_id_length_valid uuid)
      || not (is_id_length_valid dh_id)
    then (vm, para_invalid, param)
    else retry_param_loop w enable_retry_max_times 1 network_id uuid dh_id dh_type param vm

-- The retries of Enable: `left` rounds are left, `n` attempts were made, and the first gave
-- `result`. One object makes all attempts, and keeps its status.
unfoldable pub retry_enable_loop : World → ℕ → ℕ → Str → Str → Bool → Errno → Status → Errno
retry_enable_loop w zero n network_id dh_id handler result status = result
retry_enable_loop w (suc left) n network_id dh_id handler result status =
    let (status', ret) = enable network_id dh_id handler (w.replies n) status in
    let more = retry_enable_loop w left (n + 1) network_id dh_id handler result status' in
    if not (w.retry_online n) then result else if is_success ret then success else more

abbrev pub after_first_enable : World → Str → Str → Bool → Status × Errno → Errno
after_first_enable w network_id dh_id handler (status, result) =
    if not (is_success result)
    then retry_enable_loop w enable_retry_max_times 1 network_id dh_id handler result status
    else result

unfoldable pub enable_attempts : World → Str → Str → Bool → Errno
enable_attempts w network_id dh_id handler =
    after_first_enable w network_id dh_id handler
      (enable network_id dh_id handler (w.replies 0) none)

abbrev pub finish_enable : HidumpCompInfo → Errno → ComponentManager → ComponentManager × Errno
finish_enable info result m =
    if is_success result then (dump_enabled_comp info m, result) else (m, result)

abbrev pub register :
    World → Str → Str → ℕ → Bool → EnableParam → ComponentManager → ComponentManager × Errno
register w network_id dh_id dh_type handler param m =
    let checked = check_subtype_resource w param.subtype network_id in
    if not (is_success checked)
    then (m, checked)
    else finish_enable (record { network_id = network_id; dh_type = dh_type; dh_id = dh_id })
        (enable_attempts w network_id dh_id handler) m

abbrev pub with_retried :
    World
    → Str
    → Str
    → ℕ
    → Bool
    → Errno
    → VersionManager × Errno × EnableParam
    → ComponentManager
    → ComponentManager × Errno
with_retried w network_id dh_id dh_type handler first (vm, ret, param) m =
    let m' = record m { versions = vm } in
    if not (is_success ret)
    then (m', first)
    else register w network_id dh_id dh_type handler param m'

abbrev pub with_param :
    World
    → Str
    → Str
    → Str
    → ℕ
    → Bool
    → VersionManager × Errno × EnableParam
    → ComponentManager
    → ComponentManager × Errno
with_param w network_id uuid dh_id dh_type handler (vm, ret, param) m =
    if not (is_success ret)
    then with_retried w network_id dh_id dh_type handler ret
        (retry_get_enable_param w network_id uuid dh_id dh_type param vm) m
    else register w network_id dh_id dh_type handler param (record m { versions = vm })

abbrev pub empty_param : EnableParam
empty_param = record {
  source_version = [];
  source_attrs = [];
  sink_version = [];
  sink_attrs = [];
  subtype = [];
}

abbrev pub enable_with :
    World → Str → Str → Str → ℕ → Option Bool → ComponentManager → ComponentManager × Errno
enable_with w network_id uuid dh_id dh_type none m = (m, para_invalid)
enable_with w network_id uuid dh_id dh_type (some handler) m =
    with_param w network_id uuid dh_id dh_type handler
      (get_enable_param (w.views 0) network_id uuid dh_id dh_type empty_param m.versions) m

-- ComponentManager::Enable.
unfoldable pub enable_component :
    World → Str → Str → Str → ℕ → ComponentManager → ComponentManager × Errno
enable_component w network_id uuid dh_id dh_type m =
    if not (is_id_length_valid network_id)
      || not (is_id_length_valid uuid)
      || not (is_id_length_valid dh_id)
    then (m, para_invalid)
    else enable_with w network_id uuid dh_id dh_type (lookup dh_type m.comp_source) m

-- The retries of Disable end when the device is online again.
unfoldable pub retry_disable_loop : World → ℕ → ℕ → Str → Str → Bool → Errno → Status → Errno
retry_disable_loop w zero n network_id dh_id handler result status = result
retry_disable_loop w (suc left) n network_id dh_id handler result status =
    let (status', ret) = disable network_id dh_id handler (w.replies n) status in
    let more = retry_disable_loop w left (n + 1) network_id dh_id handler result status' in
    if w.retry_online n then result else if is_success ret then success else more

abbrev pub after_first_disable : World → Str → Str → Bool → Status × Errno → Errno
after_first_disable w network_id dh_id handler (status, result) =
    if not (is_success result)
    then retry_disable_loop w disable_retry_max_times 1 network_id dh_id handler result status
    else result

unfoldable pub disable_attempts : World → Str → Str → Bool → Errno
disable_attempts w network_id dh_id handler =
    after_first_disable w network_id dh_id handler
      (disable network_id dh_id handler (w.replies 0) none)

abbrev pub finish_disable : HidumpCompInfo → Errno → ComponentManager → ComponentManager × Errno
finish_disable info result m =
    if is_success result then (dump_disabled_comp info m, result) else (m, result)

abbrev pub disable_with :
    World → Str → Str → ℕ → Option Bool → ComponentManager → ComponentManager × Errno
disable_with w network_id dh_id dh_type none m = (m, para_invalid)
disable_with w network_id dh_id dh_type (some handler) m =
    finish_disable (record { network_id = network_id; dh_type = dh_type; dh_id = dh_id })
      (disable_attempts w network_id dh_id handler) m

-- ComponentManager::Disable.
unfoldable pub disable_component :
    World → Str → Str → Str → ℕ → ComponentManager → ComponentManager × Errno
disable_component w network_id uuid dh_id dh_type m =
    if not (is_id_length_valid network_id)
      || not (is_id_length_valid uuid)
      || not (is_id_length_valid dh_id)
    then (m, para_invalid)
    else disable_with w network_id dh_id dh_type (lookup dh_type m.comp_source) m
