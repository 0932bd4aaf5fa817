-- ===== src/Access/Released.antt =====
-- The framework is to be released: what comes online before the release, and after it.
use multi_hardware.Base.{
  ℕ, ◌≡◌, refl, inl, inr, Bool, true, false, not, ◌&&◌, List, [], ◌∷◌, Option, none, some, arith,
  get_elem?, nat_eq, Bool-cases,
}
use multi_hardware.Base.Str.{Str, str_eq}
use multi_hardware.Context.Defs.{uuid_by_network_id, udid_by_network_id}
use multi_hardware.Task.Handlers.{Env}
use multi_hardware.Access.Manager.{Framework, local_init, initialize, manager_send_off_line_event}
use multi_hardware.Access.Factory.{
  DmEnv, init_framework, init_local_dev_info, exit_dh_fwk, send_on_line_event, send_off_line_event,
  clear_data,
}
use multi_hardware.Access.Callbacks.{
  on_device_ready, on_device_offline, on_device_trust_change, send_each,
  check_trusted_device_online,
}
use multi_hardware.Access.Lifecycle.{
  Event, ready, offline, trust_change, trusted, local_dev_info, un_init_now, run_thread,
  system_step, send_thread, event, events, remove_at,
}

abbrev pub is_releasing : {Store : Type 0} → Event Store → Bool
is_releasing (un_init_now devices) = true
is_releasing _ = false

-- No event of a list is the release.
abbrev pub is_unreleased : {Store : Type 0} → List (Event Store) → Bool
is_unreleased [] = true
is_unreleased (x ∷ xs) = not (is_releasing x) && is_unreleased xs

module _ (env : Env) (dm : DmEnv) where
  open env use {Store}

  refused :
      (network_id uuid udid : Str) (fw : Framework Store)
      → fw.flag_un_init ≡ true
      → (send_on_line_event env dm network_id uuid udid fw).0 ≡ fw
  unfolding send_on_line_event
  refused network_id uuid udid fw h = ground arith

  send_each-refused :
      (devices : List Str) (fw : Framework Store)
      → fw.flag_un_init ≡ true
      → send_each env dm devices fw ≡ fw
  unfolding send_each
  send_each-refused [] fw h = refl
  send_each-refused (network_id ∷ devices) fw h =
      rw (refused network_id (dm.uuid_by_dm network_id) (dm.udid_by_dm network_id) fw h)
        (send_each-refused devices fw h)

  check_trusted-refused :
      (devices : List Str) (fw : Framework Store)
      → fw.flag_un_init ≡ true
      → check_trusted_device_online env dm devices fw ≡ fw
  unfolding check_trusted_device_online
  check_trusted-refused devices fw h = ground (arith, send_each-refused devices fw h)

  ready-refused :
      (network_id : Str) (fw : Framework Store)
      → fw.flag_un_init ≡ true
      → on_device_ready env dm network_id fw ≡ fw
  unfolding on_device_ready
  ready-refused network_id fw h =
      let uuid = dm.uuid_by_dm network_id in
      let udid = dm.udid_by_dm network_id in rw (refused network_id uuid udid fw h) (ground arith)

  offline-flag :
      (network_id uuid udid : Str) (fw : Framework Store)
      → fw.flag_un_init ≡ true
      → (send_off_line_event env dm network_id uuid udid fw).0.flag_un_init ≡ true
  unfolding send_off_line_event init_framework initialize local_init manager_send_off_line_event
  offline-flag network_id uuid udid fw h = ground arith

  send_thread-flag :
      (o : Option (Str × Str × Str)) (n : ℕ) (fw : Framework Store)
      → fw.flag_un_init ≡ true
      → (send_thread env dm o n fw).flag_un_init ≡ true
  send_thread-flag none n fw h = h
  send_thread-flag (some (network_id, uuid, udid)) n fw h =
      rw (refused network_id uuid udid (record fw { threads = remove_at n fw.threads }) h) h

  event-flag :
      (x : Event Store) (fw : Framework Store)
      → is_releasing x ≡ false
      → fw.flag_un_init ≡ true
      → (event env dm x fw).flag_un_init ≡ true
  unfolding event on_device_offline on_device_trust_change clear_data init_local_dev_info local_init
      exit_dh_fwk
  event-flag (ready network_id) fw r h = rw (ready-refused network_id fw h) h
  event-flag (offline network_id) fw r h = ground (
    arith,
    offline-flag network_id (uuid_by_network_id network_id fw.system.context)
        (udid_by_network_id network_id fw.system.context) fw h,
  )
  event-flag (trust_change udid uuid same) fw r h = ground arith
  event-flag (trusted devices) fw r h = rw (check_trusted-refused devices fw h) h
  event-flag (local_dev_info before after) fw r h = ground arith
  event-flag (un_init_now devices) fw r h = cc
  event-flag (run_thread n) fw r h = send_thread-flag (get_elem? fw.threads n) n fw h
  event-flag (system_step f) fw r h = h

  events-flag :
      (xs : List (Event Store)) (fw : Framework Store)
      → is_unreleased xs ≡ true
      → fw.flag_un_init ≡ true
      → (events env dm xs fw).flag_un_init ≡ true
  unfolding events
  events-flag [] fw u h = h
  events-flag (x ∷ xs) fw u h = elim (Bool-cases (is_releasing x)) [
    | inl e ↦ ground arith
    | inr e ↦ events-flag xs (event env dm x fw) (ground arith) (event-flag x fw e h)
  ]

  -- Once the framework is to be released, and after whatever events, with any steps of the tasks
  -- between them, as long as the release itself is not among them: the framework is still to be
  -- released, and a device that comes online, one or many, changes nothing.
  pub events-refused :
      (xs : List (Event Store)) (network_id : Str) (devices : List Str) (fw : Framework Store)
      → is_unreleased xs ≡ true
      → fw.flag_un_init ≡ true
      → let fw' = events env dm xs fw in
        (fw'.flag_un_init ≡ true)
        × (on_device_ready env dm network_id fw' ≡ fw')
        × (check_trusted_device_online env dm devices fw' ≡ fw')
  events-refused xs network_id devices fw u h =
      let fw' = events env dm xs fw in
      let kept = events-flag xs fw u h in
      (kept, ready-refused network_id fw' kept, check_trusted-refused devices fw' kept)
