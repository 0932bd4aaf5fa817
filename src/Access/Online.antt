-- ===== src/Access/Online.antt =====
-- A device comes online and goes offline again.
use multi_hardware.Base.{
  suc, ◌+◌, ◌≤◌, ◌≡◌, refl, Bool, true, false, not, ◌&&◌, ◌||◌, List, [], ◌∷◌, ◌++◌, none, some,
  arith, length, ltb, ◌==◌, nat_eq, if◌then◌else◌, length-append, append_one, ◌∙◌, ap,
}
use multi_hardware.Base.Str.{Str, str_eq, str_beq_iff}
use multi_hardware.Constants.{success, is_id_length_valid, max_online_device_size}
use multi_hardware.Context.Defs.{
  DeviceIdEntry, find_entry, insert_entry, make_entry, set_has, set_insert, set_erase,
  add_online_device, is_device_online, add_real_time_network_id, delete_real_time_network_id,
  real_time_count, isomerism_connect_count, uuid_by_network_id, udid_by_network_id,
}
use multi_hardware.Context.Devices.{entry_ltb_total, found-insert_entry}
use multi_hardware.Task.Types.{on_line, off_line, System}
use multi_hardware.Task.Executor.{push_task, max_task_queue_length}
use multi_hardware.Task.Factory.{make_task, create_task, new_online_task, new_offline_task}
use multi_hardware.Task.Handlers.{Env}
use multi_hardware.Task.Flows.{create_and_push}
use multi_hardware.Access.Manager.{
  Framework, device_param, initialize, local_init, manager_send_on_line_event,
  manager_send_off_line_event,
}
use multi_hardware.Access.Factory.{
  init_once, accept_on_line, sync_on_line, note_last_device, DmEnv, are_ids_valid, init_framework,
  on_line_context, send_on_line_event, send_off_line_event,
}
use multi_hardware.Access.Callbacks.{on_device_ready, on_device_offline}

-- An entry whose network id no other has is the one that is found by it.
find_entry-insert_entry :
    (test : DeviceIdEntry → Bool) (x : DeviceIdEntry) (xs : List DeviceIdEntry)
    → test x ≡ true
    → find_entry test xs ≡ none
    → find_entry test (insert_entry x xs) ≡ some x
unfolding find_entry insert_entry
find_entry-insert_entry test x [] h e = ground arith
find_entry-insert_entry test x (y ∷ ys) h e =
    ground (arith, entry_ltb_total x y, find_entry-insert_entry test x ys h)

set_has-set_erase : (s : Str) (ts : List Str) → set_has s (set_erase s ts) ≡ false
unfolding set_has set_erase
set_has-set_erase s [] = refl
set_has-set_erase s (t ∷ ts) = ground (arith, set_has-set_erase s ts)

set_erase_missing : (s : Str) (ts : List Str) → set_has s ts ≡ false → set_erase s ts ≡ ts
unfolding set_has set_erase
set_erase_missing s [] h = refl
set_erase_missing s (t ∷ ts) h = ground (arith, set_erase_missing s ts)

set_erase-set_insert :
    (s : Str) (ts : List Str) → set_has s ts ≡ false → set_erase s (set_insert s ts) ≡ ts
unfolding set_erase set_insert
set_erase-set_insert s ts h = ground (arith, set_erase_missing s ts h, str_beq_iff s s)

-- The tests that the callbacks begin with.
skip_tests :
    {A : Type 0}
    → (a b c : Bool) (x y : A) → a && b && c ≡ true
    → (if not a then x else if not b then x else if not c then x else y) ≡ y
skip_tests true true true x y h = refl
skip_tests true true false x y h = cc
skip_tests true false c x y h = cc
skip_tests false b c x y h = cc

module _ (env : Env) where
  open env use {Store, random_id}

  -- The task of a device's event: the object that is made, and the pointer on the queue.
  pub create_and_push-device :
      (network_id uuid udid : Str) (s : System Store)
      → let param = device_param network_id uuid udid in
        let n = length s.heap in
        let on = create_and_push env on_line param none s in
        let off = create_and_push env off_line param none s in
        (on.heap ≡ s.heap ++ new_online_task (random_id n) param ∷ [])
        × (off.heap ≡ s.heap ++ new_offline_task (random_id n) param ∷ [])
        × (on.context ≡ s.context)
        × (off.context ≡ s.context)
        × (on.task_queue ≡ (
            if ltb max_task_queue_length (length s.task_queue)
            then s.task_queue
            else s.task_queue ++ n ∷ []))
        × (off.task_queue ≡ (
            if ltb max_task_queue_length (length s.task_queue)
            then s.task_queue
            else s.task_queue ++ n ∷ []))
  unfolding create_and_push create_task make_task push_task
  create_and_push-device network_id uuid udid s = ground arith

init_once-kept :
    {Store : Type 0}
    → (fw : Framework Store)
    → let (fw', ready) = init_once fw in
      (fw'.system ≡ fw.system)
      × (fw'.flag_un_init ≡ fw.flag_un_init)
      × (fw'.threads ≡ fw.threads)
      × (ready ≡ true)
unfolding init_once init_framework initialize local_init
init_once-kept fw = ground arith

module _ (env : Env) (dm : DmEnv) where
  open env use {Store, random_id}

  pub send_on_line_event-accepted :
      (network_id uuid udid : Str) (fw : Framework Store)
      → are_ids_valid network_id uuid udid ≡ true
      → fw.flag_un_init ≡ false
      → is_device_online uuid fw.system.context ≡ false
      → let (fw', ret) = send_on_line_event env dm network_id uuid udid fw in
        (fw'.system
          ≡ create_and_push env on_line
              (device_param network_id uuid udid)
              none
              (on_line_context env network_id uuid udid fw).system)
        × (fw'.flag_un_init ≡ false)
        × (fw'.threads ≡ fw.threads)
        × (ret ≡ success)
  unfolding send_on_line_event accept_on_line sync_on_line on_line_context
      manager_send_on_line_event
  send_on_line_event-accepted network_id uuid udid fw v f o =
      ground (arith, init_once-kept (on_line_context env network_id uuid udid fw))

  -- The context in which a device with a new uuid and a new network id is noted.
  noted :
      (network_id uuid udid : Str) (fw : Framework Store)
      → are_ids_valid network_id uuid udid ≡ true
      → find_entry (λ x. x.network_id == network_id) fw.system.context.dev_id_entry_set ≡ none
      → length fw.system.context.dev_id_entry_set ≤ max_online_device_size
      → let c = (on_line_context env network_id uuid udid fw).system.context in
        (is_device_online uuid c ≡ true)
        × (uuid_by_network_id network_id c ≡ uuid)
        × (udid_by_network_id network_id c ≡ udid)
        × (c.real_time_network_ids ≡ set_insert network_id fw.system.context.real_time_network_ids)
        × (c.connected_dev_ids ≡ fw.system.context.connected_dev_ids)
  unfolding on_line_context add_online_device add_real_time_network_id uuid_by_network_id
      udid_by_network_id is_device_online make_entry
  noted network_id uuid udid fw v e r =
      let x = make_entry env.sha256 udid uuid network_id in
      let xs = fw.system.context.dev_id_entry_set in
      ground (
        arith,
        str_beq_iff network_id network_id,
        str_beq_iff uuid uuid,
        found-insert_entry (λ y. y.uuid == uuid) x xs,
        find_entry-insert_entry (λ y. y.network_id == network_id) x xs,
      )

  send_off_line_event-accepted :
      (network_id uuid udid : Str) (fw : Framework Store)
      → are_ids_valid network_id uuid udid ≡ true
      → is_device_online uuid fw.system.context ≡ true
      → let (fw', ret) = send_off_line_event env dm network_id uuid udid fw in
        let s = fw.system in
        let c = delete_real_time_network_id network_id s.context in
        (fw'.system
          ≡ create_and_push env off_line
              (device_param network_id uuid udid)
              none
              (record s { context = c }))
        × (fw'.flag_un_init
            ≡ fw.flag_un_init || (real_time_count c == 0) && (isomerism_connect_count c == 0))
        × (ret ≡ success)
  unfolding send_off_line_event note_last_device manager_send_off_line_event
  send_off_line_event-accepted network_id uuid udid fw v o = ground (arith, init_once-kept fw)

  on_device_ready-valid :
      (network_id uuid udid : Str) (fw : Framework Store)
      → dm.uuid_by_dm network_id ≡ uuid
      → dm.udid_by_dm network_id ≡ udid
      → are_ids_valid network_id uuid udid ≡ true
      → on_device_ready env dm network_id fw ≡ (send_on_line_event env dm network_id uuid udid fw).0
  unfolding on_device_ready
  on_device_ready-valid network_id uuid udid fw p q v =
      rw (p, q)
        (skip_tests (is_id_length_valid network_id) (is_id_length_valid uuid)
          (is_id_length_valid udid) fw (send_on_line_event env dm network_id uuid udid fw).0 v)

  on_device_offline-valid :
      (network_id uuid udid : Str) (fw : Framework Store)
      → are_ids_valid network_id uuid udid ≡ true
      → uuid_by_network_id network_id fw.system.context ≡ uuid
      → udid_by_network_id network_id fw.system.context ≡ udid
      → on_device_offline env dm network_id fw
        ≡ (send_off_line_event env dm network_id uuid udid fw).0
  unfolding on_device_offline
  on_device_offline-valid network_id uuid udid fw v p q =
      rw (p, q)
        (skip_tests (is_id_length_valid network_id) (is_id_length_valid uuid)
          (is_id_length_valid udid) fw (send_off_line_event env dm network_id uuid udid fw).0 v)

  on_device_ready-new :
      (network_id uuid udid : Str) (fw : Framework Store)
      → dm.uuid_by_dm network_id ≡ uuid
      → dm.udid_by_dm network_id ≡ udid
      → are_ids_valid network_id uuid udid ≡ true
      → fw.flag_un_init ≡ false
      → is_device_online uuid fw.system.context ≡ false
      → length fw.system.task_queue + 1 ≤ max_task_queue_length
      → let s = fw.system in
        let task =
          new_online_task (random_id (length s.heap)) (device_param network_id uuid udid) in
        let fw1 = on_device_ready env dm network_id fw in
        (fw1.system.context ≡ (on_line_context env network_id uuid udid fw).system.context)
        × (fw1.system.heap ≡ s.heap ++ task ∷ [])
        × (length fw1.system.heap ≡ suc (length s.heap))
        × (fw1.system.task_queue ≡ s.task_queue ++ length s.heap ∷ [])
        × (fw1.flag_un_init ≡ false)
  unfolding on_line_context
  on_device_ready-new network_id uuid udid fw p q v f o places =
      let s = fw.system in
      let task = new_online_task (random_id (length s.heap)) (device_param network_id uuid udid) in
      ground (
        arith,
        on_device_ready-valid network_id uuid udid fw p q v,
        send_on_line_event-accepted network_id uuid udid fw v f o,
        create_and_push-device env network_id uuid udid
            (on_line_context env network_id uuid udid fw).system,
        length-append s.heap (task ∷ []),
      )

  -- While the framework is not to be released, a device comes online that DHContext does not know,
  -- with a network id that is not in use and room for one entry and two tasks; then it goes offline.
  -- In between it is online, and then there are one online task and after it one offline task more,
  -- both with the device's identifiers and both on the queue; the devices that are online in
  -- real time are the ones before, and the framework is to be released if there are none and no
  -- device is connected otherwise.
  pub on_device_offline-on_device_ready :
      (network_id uuid udid : Str) (fw : Framework Store)
      → dm.uuid_by_dm network_id ≡ uuid
      → dm.udid_by_dm network_id ≡ udid
      → are_ids_valid network_id uuid udid ≡ true
      → fw.flag_un_init ≡ false
      → is_device_online uuid fw.system.context ≡ false
      → find_entry (λ x. x.network_id == network_id) fw.system.context.dev_id_entry_set ≡ none
      → set_has network_id fw.system.context.real_time_network_ids ≡ false
      → length fw.system.context.dev_id_entry_set ≤ max_online_device_size
      → length fw.system.task_queue + 1 ≤ max_task_queue_length
      → let s = fw.system in
        let param = device_param network_id uuid udid in
        let n = length s.heap in
        let fw1 = on_device_ready env dm network_id fw in
        let fw2 = on_device_offline env dm network_id fw1 in
        (is_device_online uuid fw1.system.context ≡ true)
        × (fw2.system.heap
            ≡ s.heap
              ++ new_online_task (random_id n) param
                ∷ new_offline_task (random_id (suc n)) param
                ∷ [])
        × (fw2.system.task_queue ≡ s.task_queue ++ n ∷ suc n ∷ [])
        × (fw2.system.context.real_time_network_ids ≡ s.context.real_time_network_ids)
        × (fw2.flag_un_init
            ≡ (real_time_count s.context == 0) && (isomerism_connect_count s.context == 0))
  unfolding delete_real_time_network_id real_time_count isomerism_connect_count
  on_device_offline-on_device_ready network_id uuid udid fw p q v f o e free room places =
      let s = fw.system in
      let param = device_param network_id uuid udid in
      let fw1 = on_device_ready env dm network_id fw in
      let s1 = fw1.system in
      let c = delete_real_time_network_id network_id s1.context in
      let (same, heap1, long, queue1, flag1) =
        on_device_ready-new network_id uuid udid fw p q v f o places in
      let context = noted network_id uuid udid fw v e room in
      let online : is_device_online uuid s1.context ≡ true = rw same context.0 in
      let left =
        on_device_offline-valid network_id uuid udid fw1 v (rw same context.1)
          (rw same context.2) in
      let off = send_off_line_event-accepted network_id uuid udid fw1 v online in
      let made = create_and_push-device env network_id uuid udid (record s1 { context = c }) in
      let erased = set_erase-set_insert network_id s.context.real_time_network_ids free in
      let back : c.real_time_network_ids ≡ s.context.real_time_network_ids =
        ground (arith, same, context, erased) in
      let task = new_online_task (random_id (length s.heap)) param in
      let task2 = new_offline_task (random_id (suc (length s.heap))) param in
      (
        online,
        ground (arith, left, off, made, heap1, long, append_one s.heap (task2 ∷ []) task),
        ground (
          arith,
          left,
          off,
          made,
          queue1,
          long,
          length-append s.task_queue (length s.heap ∷ []),
          append_one s.task_queue (suc (length s.heap) ∷ []) (length s.heap),
        ),
        ap (λ x. x.system.context.real_time_network_ids) left
            ∙ ap (λ x. x.context.real_time_network_ids) off.0
            ∙ ap (λ x. x.real_time_network_ids) made.3
            ∙ back,
        ground (arith, left, off, flag1, back, same, context),
      )

  -- A device that DHContext knows by its network id and its uuid goes offline and comes online again
  -- before the offline task has run. The second event changes nothing: no task is made for it, and
  -- the device is not among the ones that are online in real time, although DHContext says that it
  -- is online.
  pub on_device_ready-too_soon :
      (network_id uuid udid : Str) (fw : Framework Store)
      → dm.uuid_by_dm network_id ≡ uuid
      → dm.udid_by_dm network_id ≡ udid
      → uuid_by_network_id network_id fw.system.context ≡ uuid
      → udid_by_network_id network_id fw.system.context ≡ udid
      → are_ids_valid network_id uuid udid ≡ true
      → is_device_online uuid fw.system.context ≡ true
      → let fw1 = on_device_offline env dm network_id fw in
        let c = fw1.system.context in
        (on_device_ready env dm network_id fw1 ≡ fw1)
        × (set_has network_id c.real_time_network_ids ≡ false)
        × (is_device_online uuid c ≡ true)
  unfolding delete_real_time_network_id send_on_line_event is_device_online
  on_device_ready-too_soon network_id uuid udid fw p q known_uuid known_udid v o =
      let s = fw.system in
      let fw1 = on_device_offline env dm network_id fw in
      let c = delete_real_time_network_id network_id s.context in
      let left = on_device_offline-valid network_id uuid udid fw v known_uuid known_udid in
      let off = send_off_line_event-accepted network_id uuid udid fw v o in
      let made = create_and_push-device env network_id uuid udid (record s { context = c }) in
      let gone = set_has-set_erase network_id s.context.real_time_network_ids in
      let same : fw1.system.context ≡ c = ground (arith, left, off, made) in
      let online : is_device_online uuid fw1.system.context ≡ true = rw same o in
      (
        on_device_ready-valid network_id uuid udid fw1 p q v ∙ ground (arith, online),
        ground (arith, same, gone),
        online,
      )
