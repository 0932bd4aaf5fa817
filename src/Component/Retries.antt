-- ===== src/Component/Retries.antt =====
-- What Enable and Disable return, given what happens outside while they run.
use multi_hardware.Base.{
  ℕ, suc, zero, ◌+◌, ◌≡◌, refl, Bool, true, false, ◌&&◌, ◌||◌, none, some, arith, nat_eq,
  if◌then◌else◌,
}
use multi_hardware.Base.Str.{Str, str_eq}
use multi_hardware.Constants.{
  Errno, success, component_enable_failed, is_success, is_id_length_valid,
}
use multi_hardware.Version.Manager.{VersionManager}
use multi_hardware.Component.Register.{Status, enable}
use multi_hardware.Component.Params.{EnableParam}
use multi_hardware.Component.Parameters.{get_enable_param}
use multi_hardware.Component.Manager.{World}
use multi_hardware.Component.Enabling.{
  retry_param_loop, retry_get_enable_param, retry_enable_loop, enable_attempts,
}

retry_param_loop-success :
    (w : World) (left n : ℕ) (network_id uuid dh_id : Str) (dh_type : ℕ) (param : EnableParam)
    (vm : VersionManager)
    → ((k : ℕ) → w.param_online k ≡ true)
    → (retry_param_loop w left n network_id uuid dh_id dh_type param vm).1 ≡ success
unfolding retry_param_loop
retry_param_loop-success w zero n network_id uuid dh_id dh_type param vm online = refl
retry_param_loop-success w (suc left) n network_id uuid dh_id dh_type param vm online =
    let next = get_enable_param (w.views n) network_id uuid dh_id dh_type param vm in
    ground (
      arith,
      online n,
      retry_param_loop-success w left (n + 1) network_id uuid dh_id dh_type next.2 next.0 online,
    )

-- While the device is online RetryGetEnableParam returns success for valid identifiers whatever
-- the three calls of GetEnableParam return, so also where each of them fails.
pub retry_get_enable_param-success :
    (w : World) (network_id uuid dh_id : Str) (dh_type : ℕ) (param : EnableParam)
    (vm : VersionManager)
    → is_id_length_valid network_id ≡ true
    → is_id_length_valid uuid ≡ true
    → is_id_length_valid dh_id ≡ true
    → ((k : ℕ) → w.param_online k ≡ true)
    → (retry_get_enable_param w network_id uuid dh_id dh_type param vm).1 ≡ success
unfolding retry_get_enable_param
retry_get_enable_param-success w network_id uuid dh_id dh_type param vm a b c online =
    ground (arith, retry_param_loop-success w 3 1 network_id uuid dh_id dh_type param vm online)

-- The component accepts the n-th call and reports `report n` before the wait begins.
abbrev pub Reports : World → (ℕ → Errno) → Type 0
Reports w report =
    (n : ℕ) → ((w.replies n).returned ≡ success) × ((w.replies n).early ≡ some (report n))

abbrev attempt_result : Errno → Errno
attempt_result st = if is_success st then success else component_enable_failed

enable-Reports :
    (w : World) (network_id dh_id : Str) (report : ℕ → Errno) (n : ℕ) (status : Status)
    → is_id_length_valid network_id ≡ true
    → is_id_length_valid dh_id ≡ true
    → Reports w report
    → (enable network_id dh_id true (w.replies n) status).1 ≡ attempt_result (report n)
unfolding enable
enable-Reports w network_id dh_id report n status a b r = ground (arith, r n)

-- The result of the retries from attempt `n` on.
abbrev retried : World → (ℕ → Errno) → ℕ → ℕ → Bool
retried w report zero n = false
retried w report (suc left) n =
    w.retry_online n && (is_success (report n) || retried w report left (n + 1))

retry_enable_loop-Reports :
    (w : World) (network_id dh_id : Str) (report : ℕ → Errno) (left n : ℕ) (result : Errno)
    (status : Status)
    → is_id_length_valid network_id ≡ true
    → is_id_length_valid dh_id ≡ true
    → Reports w report
    → is_success result ≡ false
    → is_success (retry_enable_loop w left n network_id dh_id true result status)
      ≡ retried w report left n
unfolding retry_enable_loop
retry_enable_loop-Reports w network_id dh_id report zero n result status a b r f = f
retry_enable_loop-Reports w network_id dh_id report (suc left) n result status a b r f =
    let next = (enable network_id dh_id true (w.replies n) status).0 in
    ground (
      arith,
      enable-Reports w network_id dh_id report n status a b r,
      retry_enable_loop-Reports w network_id dh_id report left (n + 1) result next a b r f,
    )

-- With a handler, valid identifiers and a component that accepts every call and reports at once,
-- Enable's attempts succeed exactly if one of at most four reports a success, and the device was
-- online before each attempt after the first.
pub enable_attempts-is_success :
    (w : World) (network_id dh_id : Str) (report : ℕ → Errno)
    → is_id_length_valid network_id ≡ true
    → is_id_length_valid dh_id ≡ true
    → Reports w report
    → is_success (enable_attempts w network_id dh_id true)
      ≡ (is_success (report 0) || retried w report 3 1)
unfolding enable_attempts
enable_attempts-is_success w network_id dh_id report a b r =
    let first = enable network_id dh_id true (w.replies 0) none in
    ground (
      arith,
      enable-Reports w network_id dh_id report 0 none a b r,
      retry_enable_loop-Reports w network_id dh_id report 3 1 first.1 first.0 a b r,
    )

-- If the component accepts every call and reports only after the wait has begun, a failure first
-- and a success for the retry, then the retry fails nevertheless: it returns the first report. If
-- the device then goes offline, Enable's attempts fail although the component has enabled the
-- device.
pub enable_attempts-stale :
    (w : World) (network_id dh_id : Str) (st : Errno)
    → is_id_length_valid network_id ≡ true
    → is_id_length_valid dh_id ≡ true
    → is_success st ≡ false
    → w.replies 0 ≡ record { returned = success; early = none; late = some st }
    → w.replies 1 ≡ record { returned = success; early = none; late = some success }
    → w.retry_online 2 ≡ false
    → enable_attempts w network_id dh_id true ≡ component_enable_failed
unfolding enable_attempts retry_enable_loop enable
enable_attempts-stale w network_id dh_id st a b f r0 r1 off = ground arith
