-- ===== src/Access/Lifecycle.antt =====
-- The events of the framework, and which parts are up after any sequence of them.
use multi_hardware.Base.{
  ℕ, ◌≡◌, refl, Bool, true, false, not, ◌&&◌, List, [], ◌∷◌, Option, none, some, arith, ◌==◌,
  nat_eq, if◌then◌else◌, get_elem?, zero, suc,
}
use multi_hardware.Base.Str.{Str}
use multi_hardware.Constants.{Errno, success, is_id_length_valid}
use multi_hardware.Context.Defs.{
  is_device_online, delete_real_time_network_id, uuid_by_network_id, udid_by_network_id,
}
use multi_hardware.Task.Types.{System}
use multi_hardware.Task.Handlers.{Env}
use multi_hardware.Access.Manager.{
  Part, version_info_manager, capability_info_manager, meta_info_manager,
  local_capability_info_manager, component_loader, version_manager, local_hardware_manager,
  component_manager, modem_context_ext, Call, init, un_init, query_device_data_sync_mode, Framework,
  local_init, initialize, release, manager_send_on_line_event, manager_send_off_line_event,
}
use multi_hardware.Access.Factory.{
  DmEnv, init_framework, exit_dh_fwk, init_local_dev_info, check_exit_sa_or_not, un_init_framework,
  send_on_line_event, send_off_line_event, clear_data, on_line_context, init_once, accept_on_line,
  accept_ready, sync_on_line, off_line_ready, note_last_device, are_ids_valid, on_context,
}
use multi_hardware.Access.Callbacks.{
  on_device_ready, on_device_offline, on_device_trust_change, send_each,
  check_trusted_device_online,
}

unfoldable pub remove_at : {A : Type 0} → ℕ → List A → List A
remove_at n [] = []
remove_at zero (x ∷ xs) = xs
remove_at (suc n) (x ∷ xs) = x ∷ remove_at n xs

-- The events: those of the device manager, the start of the service, the end of an offline task
-- that asks for the release, a thread that runs, and a step of anything that works on the tasks.
pub data Event (Store : Type 0) : Type 0 where
  ready offline : Str → Event Store
  trust_change : Str → Str → Bool → Event Store
  trusted : List Str → Event Store
  local_dev_info : List Str → List Str → Event Store
  un_init_now : List Str → Event Store
  run_thread : ℕ → Event Store
  system_step : (System Store → System Store) → Event Store

module _ (env : Env) (dm : DmEnv) where
  open env use {Store}

  abbrev pub send_thread : Option (Str × Str × Str) → ℕ → Framework Store → Framework Store
  send_thread none n fw = fw
  send_thread (some (network_id, uuid, udid)) n fw =
      (send_on_line_event env dm network_id uuid udid
        (record fw { threads = remove_at n fw.threads })).0

  unfoldable pub event : Event Store → Framework Store → Framework Store
  event (ready network_id) fw = on_device_ready env dm network_id fw
  event (offline network_id) fw = on_device_offline env dm network_id fw
  event (trust_change udid uuid same) fw = on_device_trust_change udid uuid same fw
  event (trusted devices) fw = check_trusted_device_online env dm devices fw
  event (local_dev_info before after) fw = (init_local_dev_info dm before after fw).0
  event (un_init_now devices) fw = un_init_framework dm devices fw
  event (run_thread n) fw = send_thread (get_elem? fw.threads n) n fw
  event (system_step f) fw = record fw { system = f fw.system }

  unfoldable pub events : List (Event Store) → Framework Store → Framework Store
  unfolding event
  events [] fw = fw
  events (x ∷ xs) fw = events xs (event x fw)

abbrev pub part_number : Part → ℕ
part_number version_info_manager = 0
part_number capability_info_manager = 1
part_number meta_info_manager = 2
part_number local_capability_info_manager = 3
part_number component_loader = 4
part_number version_manager = 5
part_number local_hardware_manager = 6
part_number component_manager = 7
part_number modem_context_ext = 8

-- The last call of a part was its Init.
abbrev pub is_up : Part → List Call → Bool
is_up x [] = false
is_up x (init y ∷ calls) = if part_number y == part_number x then true else is_up x calls
is_up x (un_init y ∷ calls) = if part_number y == part_number x then false else is_up x calls
is_up x (_ ∷ calls) = is_up x calls

-- No part is initialised while it is up.
abbrev pub is_once : List Call → Bool
is_once [] = true
is_once (init x ∷ calls) = not (is_up x calls) && is_once calls
is_once (_ ∷ calls) = is_once calls

-- LocalInit initialises the part.
abbrev pub is_local : Part → Bool
is_local component_manager = false
is_local modem_context_ext = false
is_local _ = true

pub record IsBalancedAt (calls : List Call) (local_init all_init inited : Bool) : Type 0 where
  pub local : (x : Part) → is_local x ≡ true → is_up x calls ≡ local_init
  pub all : is_up component_manager calls ≡ all_init
  pub once : is_once calls ≡ true
  pub below : all_init ≡ true → local_init ≡ true
  pub ready : inited ≡ true → all_init ≡ true

-- What LocalInit and Release add to the calls.
abbrev pub local_inits : List Call → List Call
local_inits calls =
    query_device_data_sync_mode
    ∷ init local_hardware_manager
    ∷ init version_manager
    ∷ init component_loader
    ∷ init local_capability_info_manager
    ∷ init meta_info_manager
    ∷ init capability_info_manager
    ∷ init version_info_manager
    ∷ calls

local_parts_up :
    (calls : List Call) (x : Part) → is_local x ≡ true → is_up x (local_inits calls) ≡ true
local_parts_up calls version_info_manager h = refl
local_parts_up calls capability_info_manager h = refl
local_parts_up calls meta_info_manager h = refl
local_parts_up calls local_capability_info_manager h = refl
local_parts_up calls component_loader h = refl
local_parts_up calls version_manager h = refl
local_parts_up calls local_hardware_manager h = refl
local_parts_up calls component_manager h = cc
local_parts_up calls modem_context_ext h = cc

parts_down :
    {Store : Type 0} → (fw : Framework Store) (x : Part) → is_up x (release fw).calls ≡ false
unfolding release
parts_down fw version_info_manager = refl
parts_down fw capability_info_manager = refl
parts_down fw meta_info_manager = refl
parts_down fw local_capability_info_manager = refl
parts_down fw component_loader = refl
parts_down fw version_manager = refl
parts_down fw local_hardware_manager = refl
parts_down fw component_manager = refl
parts_down fw modem_context_ext = refl

module _ {Store : Type 0} where
  abbrev pub IsBalanced : Framework Store → Type 0
  IsBalanced fw = IsBalancedAt fw.calls fw.is_local_init fw.is_all_init fw.is_init

  local_init-IsBalanced : (fw : Framework Store) → IsBalanced fw → IsBalanced (local_init fw).0
  unfolding local_init
  local_init-IsBalanced fw b = ground (
    arith,
    local_parts_up fw.calls,
    b.local version_info_manager,
    b.local capability_info_manager,
    b.local meta_info_manager,
    b.local local_capability_info_manager,
    b.local component_loader,
    b.local version_manager,
    b.local local_hardware_manager,
  )

  release-IsBalanced :
      (fw : Framework Store) → IsBalanced fw → IsBalancedAt (release fw).calls false false false
  unfolding release
  release-IsBalanced fw b = record {
    local = λ x h. parts_down fw x;
    all = refl;
    once = b.once;
    below = λ e. cc;
    ready = λ e. cc;
  }

  initialize-IsBalanced :
      (fw : Framework Store)
      → IsBalanced fw
      → IsBalanced (initialize fw).0 × ((initialize fw).0.is_all_init ≡ true)
  unfolding initialize
  initialize-IsBalanced fw b = ground (arith, local_init-IsBalanced fw b)

  init_framework-IsBalanced :
      (fw : Framework Store) → IsBalanced fw → IsBalanced (init_framework fw).0
  unfolding init_framework
  init_framework-IsBalanced fw b = ground (arith, initialize-IsBalanced fw b)

  init_once-IsBalanced : (fw : Framework Store) → IsBalanced fw → IsBalanced (init_once fw).0
  unfolding init_once
  init_once-IsBalanced fw b = ground (arith, init_framework-IsBalanced fw b)

  init_local_dev_info-IsBalanced :
      (dm : DmEnv) (before after : List Str) (fw : Framework Store)
      → IsBalanced fw
      → IsBalanced (init_local_dev_info dm before after fw).0
  unfolding init_local_dev_info exit_dh_fwk
  init_local_dev_info-IsBalanced dm before after fw b = ground (arith, local_init-IsBalanced fw b)

  un_init_framework-IsBalanced :
      (dm : DmEnv) (devices : List Str) (fw : Framework Store)
      → IsBalanced fw
      → IsBalanced (un_init_framework dm devices fw)
  unfolding un_init_framework check_exit_sa_or_not exit_dh_fwk release
  un_init_framework-IsBalanced dm devices fw b =
      let fw1 = release fw in
      let s = fw1.system in
      let down : Framework Store = record fw1 {
        is_init = false;
        flag_un_init = false;
        system = record s { un_init = false };
      } in
      ground (arith, init_framework-IsBalanced down (release-IsBalanced fw b))

  clear_data-IsBalanced :
      (udid uuid : Str) (fw : Framework Store)
      → IsBalanced fw
      → IsBalanced (clear_data udid uuid fw)
  unfolding clear_data
  clear_data-IsBalanced udid uuid fw b = record {
    local = b.local;
    all = b.all;
    once = b.once;
    below = b.below;
    ready = b.ready;
  }

module _ (env : Env) (dm : DmEnv) where
  open env use {Store}

  -- An operation that returns early.
  result-IsBalanced :
      (c : Bool) (x y : Framework Store × Errno)
      → IsBalanced x.0
      → IsBalanced y.0
      → IsBalanced (if c then x else y).0
  result-IsBalanced true x y b b' = b
  result-IsBalanced false x y b b' = b'

  sync_on_line-IsBalanced :
      (network_id : Str) (fw : Framework Store)
      → IsBalanced fw
      → IsBalanced (sync_on_line env dm network_id fw)
  unfolding sync_on_line
  sync_on_line-IsBalanced network_id fw b = ground arith

  accept_ready-IsBalanced :
      (network_id uuid udid : Str) (x : Framework Store × Bool)
      → IsBalanced x.0
      → IsBalanced (accept_ready env dm network_id uuid udid x).0
  unfolding manager_send_on_line_event
  accept_ready-IsBalanced network_id uuid udid (fw, is_ready) b =
      let fw1 = sync_on_line env dm network_id fw in
      result-IsBalanced (not is_ready) _ (manager_send_on_line_event env network_id uuid udid fw1) b
        (result-IsBalanced _ _ _ (sync_on_line-IsBalanced network_id fw b)
          (sync_on_line-IsBalanced network_id fw b))

  send_on_line_event-IsBalanced :
      (network_id uuid udid : Str) (fw : Framework Store)
      → IsBalanced fw
      → IsBalanced (send_on_line_event env dm network_id uuid udid fw).0
  unfolding send_on_line_event accept_on_line on_line_context
  send_on_line_event-IsBalanced network_id uuid udid fw b =
      let known = init_once (on_line_context env network_id uuid udid fw) in
      result-IsBalanced (not (are_ids_valid network_id uuid udid)) _ _ b (
        result-IsBalanced fw.flag_un_init _ _ b (
          result-IsBalanced (is_device_online uuid fw.system.context) _ _ b (
            accept_ready-IsBalanced network_id uuid udid known
              (init_once-IsBalanced (on_line_context env network_id uuid udid fw) b))))

  note_last_device-IsBalanced :
      (fw : Framework Store) → IsBalanced fw → IsBalanced (note_last_device env dm fw)
  unfolding note_last_device
  note_last_device-IsBalanced fw b = ground arith

  manager_send_off_line_event-IsBalanced :
      (network_id uuid udid : Str) (fw : Framework Store)
      → IsBalanced fw
      → IsBalanced (manager_send_off_line_event env network_id uuid udid fw).0
  unfolding manager_send_off_line_event
  manager_send_off_line_event-IsBalanced network_id uuid udid fw b = ground arith

  off_line_ready-IsBalanced :
      (network_id uuid udid : Str) (x : Framework Store × Bool)
      → IsBalanced x.0
      → IsBalanced (off_line_ready env dm network_id uuid udid x).0
  off_line_ready-IsBalanced network_id uuid udid (fw, is_ready) b =
      let fw1 = note_last_device env dm (on_context (delete_real_time_network_id network_id) fw) in
      let left = (manager_send_off_line_event env network_id uuid udid fw1).0 in
      result-IsBalanced (not is_ready) _ _ b (
        result-IsBalanced (not (is_device_online uuid fw.system.context)) _ (left, success) b
          (manager_send_off_line_event-IsBalanced network_id uuid udid fw1 (
            note_last_device-IsBalanced (on_context (delete_real_time_network_id network_id) fw)
              b)))

  send_off_line_event-IsBalanced :
      (network_id uuid udid : Str) (fw : Framework Store)
      → IsBalanced fw
      → IsBalanced (send_off_line_event env dm network_id uuid udid fw).0
  unfolding send_off_line_event
  send_off_line_event-IsBalanced network_id uuid udid fw b =
      result-IsBalanced (not (are_ids_valid network_id uuid udid)) _ _ b
        (off_line_ready-IsBalanced network_id uuid udid (init_once fw) (init_once-IsBalanced fw b))

  send_each-IsBalanced :
      (devices : List Str) (fw : Framework Store)
      → IsBalanced fw
      → IsBalanced (send_each env dm devices fw)
  unfolding send_each
  send_each-IsBalanced [] fw b = b
  send_each-IsBalanced (network_id ∷ devices) fw b =
      send_each-IsBalanced devices
        (send_on_line_event env dm network_id (dm.uuid_by_dm network_id) (dm.udid_by_dm network_id)
          fw).0
        (send_on_line_event-IsBalanced network_id (dm.uuid_by_dm network_id)
          (dm.udid_by_dm network_id) fw b)

  -- A callback that returns early.
  guarded-IsBalanced :
      (c : Bool) (fw fw' : Framework Store)
      → IsBalanced fw
      → IsBalanced fw'
      → IsBalanced (if c then fw else fw')
  guarded-IsBalanced true fw fw' b b' = b
  guarded-IsBalanced false fw fw' b b' = b'

  -- The three tests of the identifiers that the callbacks of the devices begin with.
  valid_ids-IsBalanced :
      (network_id uuid udid : Str) (fw fw' : Framework Store)
      → IsBalanced fw
      → IsBalanced fw'
      → IsBalanced (
          if not (is_id_length_valid network_id)
          then fw
          else if not (is_id_length_valid uuid)
          then fw
          else if not (is_id_length_valid udid)
          then fw
          else fw')
  valid_ids-IsBalanced network_id uuid udid fw fw' b b' =
      guarded-IsBalanced (not (is_id_length_valid network_id)) fw _ b (
        guarded-IsBalanced (not (is_id_length_valid uuid)) fw _ b
          (guarded-IsBalanced (not (is_id_length_valid udid)) fw fw' b b'))

  send_thread-IsBalanced :
      (o : Option (Str × Str × Str)) (n : ℕ) (fw : Framework Store)
      → IsBalanced fw
      → IsBalanced (send_thread env dm o n fw)
  send_thread-IsBalanced none n fw b = b
  send_thread-IsBalanced (some (network_id, uuid, udid)) n fw b =
      send_on_line_event-IsBalanced network_id uuid udid
        (record fw { threads = remove_at n fw.threads }) b

  event-IsBalanced :
      (x : Event Store) (fw : Framework Store) → IsBalanced fw → IsBalanced (event env dm x fw)
  unfolding event on_device_ready on_device_offline on_device_trust_change
      check_trusted_device_online
  event-IsBalanced (ready network_id) fw b =
      let uuid = dm.uuid_by_dm network_id in
      let udid = dm.udid_by_dm network_id in
      valid_ids-IsBalanced network_id uuid udid fw
        (send_on_line_event env dm network_id uuid udid fw).0 b
        (send_on_line_event-IsBalanced network_id uuid udid fw b)
  event-IsBalanced (offline network_id) fw b =
      let uuid = uuid_by_network_id network_id fw.system.context in
      let udid = udid_by_network_id network_id fw.system.context in
      valid_ids-IsBalanced network_id uuid udid fw
        (send_off_line_event env dm network_id uuid udid fw).0 b
        (send_off_line_event-IsBalanced network_id uuid udid fw b)
  event-IsBalanced (trust_change udid uuid same) fw b =
      ground (arith, clear_data-IsBalanced udid uuid fw b)
  event-IsBalanced (trusted devices) fw b = ground (arith, send_each-IsBalanced devices fw b)
  event-IsBalanced (local_dev_info before after) fw b =
      init_local_dev_info-IsBalanced dm before after fw b
  event-IsBalanced (un_init_now devices) fw b = un_init_framework-IsBalanced dm devices fw b
  event-IsBalanced (run_thread n) fw b = send_thread-IsBalanced (get_elem? fw.threads n) n fw b
  event-IsBalanced (system_step f) fw b = b

  -- Whatever events come in whatever order, with any steps of the tasks between them: no part is
  -- initialised while it is up; the parts that LocalInit initialises are up exactly while the
  -- manager says so, and the component manager is; and while the factory says that the framework
  -- is initialised, all of them are up.
  pub events-IsBalanced :
      (xs : List (Event Store)) (fw : Framework Store)
      → IsBalanced fw
      → IsBalanced (events env dm xs fw)
  unfolding events
  events-IsBalanced [] fw b = b
  events-IsBalanced (x ∷ xs) fw b =
      events-IsBalanced xs (event env dm x fw) (event-IsBalanced x fw b)
