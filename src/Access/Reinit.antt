-- ===== src/Access/Reinit.antt =====
-- What CheckExitSAOrNot starts after a release: a thread for every trusted device.
use multi_hardware.Base.{
  ℕ, zero, suc, ◌+◌, ◌≤◌, ◌≡◌, refl, Bool, true, false, ◌&&◌, ◌||◌, List, [], ◌∷◌, Option, none,
  some, arith, length, map, get_elem?, ◌==◌, Bool-cases, inl, inr, length-map,
}
use multi_hardware.Base.Str.{Str, str_eq, str_beq_iff}
use multi_hardware.Constants.{max_online_device_size}
use multi_hardware.Context.Defs.{
  set_has, is_device_online, add_online_device, add_real_time_network_id, make_entry,
}
use multi_hardware.Context.Devices.{is_device_online-add_online_device, length-insert_entry}
use multi_hardware.Task.Handlers.{Env}
use multi_hardware.Access.Manager.{Framework, initialize, local_init, release}
use multi_hardware.Access.Factory.{
  DmEnv, are_ids_valid, has_no_trusted, init_framework, un_init_framework, check_exit_sa_or_not,
  send_on_line_event, on_line_context, thread_of,
}
use multi_hardware.Access.Lifecycle.{run_thread, send_thread, event, events, remove_at}
use multi_hardware.Access.Online.{create_and_push-device, send_on_line_event-accepted}

abbrev pub Ids : Type 0
Ids = Str × Str × Str

abbrev pub same_ids : Ids → Ids → Bool
same_ids (a, b, c) (x, y, z) = (a == x) && (b == y) && (c == z)

abbrev pub is_awaiting : Ids → List Ids → Bool
is_awaiting t [] = false
is_awaiting t (x ∷ xs) = same_ids x t || is_awaiting t xs

length-remove_at :
    {A : Type 0}
    → (n : ℕ) (xs : List A) (x : A) → get_elem? xs n ≡ some x
    → suc (length (remove_at n xs)) ≡ length xs
unfolding remove_at
length-remove_at n [] x h = ground arith
length-remove_at zero (y ∷ ys) x h = refl
length-remove_at (suc n) (y ∷ ys) x h = ground (arith, length-remove_at n ys x h)

is_awaiting-remove_at :
    (n : ℕ) (xs : List Ids) (x t : Ids)
    → get_elem? xs n ≡ some x
    → is_awaiting t xs ≡ same_ids x t || is_awaiting t (remove_at n xs)
unfolding remove_at
is_awaiting-remove_at n [] x t h = ground arith
is_awaiting-remove_at zero (y ∷ ys) x t h = ground arith
is_awaiting-remove_at (suc n) (y ∷ ys) x t h = ground (arith, is_awaiting-remove_at n ys x t h)

module _ (env : Env) where
  open env use {Store}

  -- The entries that there are and the threads that run leave room for all.
  abbrev pub IsRoomy : Framework Store → Type 0
  IsRoomy fw =
      length fw.system.context.dev_id_entry_set + length fw.threads ≤ max_online_device_size + 1

  context_noted :
      (network_id uuid udid other : Str) (fw : Framework Store)
      → are_ids_valid network_id uuid udid ≡ true
      → length fw.system.context.dev_id_entry_set ≤ max_online_device_size
      → let c = fw.system.context in
        let c' = (on_line_context env network_id uuid udid fw).system.context in
        (length c'.dev_id_entry_set ≤ length c.dev_id_entry_set + 1)
        × (is_device_online other c' ≡ (uuid == other) || is_device_online other c)
  unfolding on_line_context add_online_device add_real_time_network_id is_device_online
  context_noted network_id uuid udid other fw v r =
      let c = fw.system.context in
      ground (
        arith,
        length-insert_entry (make_entry env.sha256 udid uuid network_id) c.dev_id_entry_set,
        is_device_online-add_online_device env.sha256 udid uuid network_id other c,
      )

module _ (env : Env) (dm : DmEnv) where
  open env use {Store}

  sent :
      (network_id uuid udid other : Str) (fw : Framework Store)
      → fw.flag_un_init ≡ false
      → length fw.system.context.dev_id_entry_set ≤ max_online_device_size
      → let fw' = (send_on_line_event env dm network_id uuid udid fw).0 in
        (fw'.flag_un_init ≡ false)
        × (fw'.threads ≡ fw.threads)
        × (length fw'.system.context.dev_id_entry_set
            ≤ length fw.system.context.dev_id_entry_set + 1)
        × (is_device_online other fw'.system.context
            ≡ (are_ids_valid network_id uuid udid && (uuid == other))
              || is_device_online other fw.system.context)
  unfolding send_on_line_event
  sent network_id uuid udid other fw h r =
      let c = fw.system.context in
      elim (Bool-cases (are_ids_valid network_id uuid udid)) [
        | inr e ↦ ground arith
        | inl e ↦ elim (Bool-cases (is_device_online uuid c)) [
          | inl o ↦ ground (arith, str_beq_iff uuid other)
          | inr o ↦ ground (
            arith,
            send_on_line_event-accepted env dm network_id uuid udid fw e h o,
            create_and_push-device env network_id uuid udid
                (on_line_context env network_id uuid udid fw).system,
            context_noted env network_id uuid udid other fw e r,
          )
        ]
      ]

  -- A trusted device is online or a thread is to send it online.
  abbrev pub is_promised : Ids → Framework Store → Bool
  is_promised t fw = is_device_online t.1 fw.system.context || is_awaiting t fw.threads

  send_thread-promised :
      (o : Option Ids) (n : ℕ) (t : Ids) (fw : Framework Store)
      → get_elem? fw.threads n ≡ o
      → are_ids_valid t.0 t.1 t.2 ≡ true
      → fw.flag_un_init ≡ false
      → IsRoomy env fw
      → is_promised t fw ≡ true
      → let fw' = send_thread env dm o n fw in
        (fw'.flag_un_init ≡ false) × IsRoomy env fw' × (is_promised t fw' ≡ true)
  send_thread-promised none n t fw e v f room h = (f, room, h)
  send_thread-promised (some (network_id, uuid, udid)) n (a, b, c) fw e v f room h =
      let ids : Ids = (network_id, uuid, udid) in
      let fw1 : Framework Store = record fw { threads = remove_at n fw.threads } in
      let fewer = length-remove_at n fw.threads ids e in
      let (f', same, longer, online) = sent network_id uuid udid b fw1 f (omega (arith, fewer)) in
      (
        f',
        ground (arith, same, longer, fewer),
        ground (
          arith,
          same,
          online,
          is_awaiting-remove_at n fw.threads ids (a, b, c) e,
          str_beq_iff network_id a,
          str_beq_iff uuid b,
          str_beq_iff udid c,
        ),
      )

  threads-promised :
      (schedule : List ℕ) (t : Ids) (fw : Framework Store)
      → are_ids_valid t.0 t.1 t.2 ≡ true
      → fw.flag_un_init ≡ false
      → IsRoomy env fw
      → is_promised t fw ≡ true
      → let fw' = events env dm (map (λ n. run_thread n) schedule) fw in
        (fw'.flag_un_init ≡ false) × (is_promised t fw' ≡ true)
  unfolding events event
  threads-promised [] t fw v f room h = (f, h)
  threads-promised (n ∷ ns) t fw v f room h =
      let (f', room', h') = send_thread-promised (get_elem? fw.threads n) n t fw refl v f room h in
      threads-promised ns t (event env dm (run_thread n) fw) v f' room' h'

is_awaiting-map :
    (dm : DmEnv) (network_id : Str) (devices : List Str)
    → set_has network_id devices ≡ true
    → is_awaiting (thread_of dm network_id) (map (thread_of dm) devices) ≡ true
unfolding set_has
is_awaiting-map dm network_id [] h = cc
is_awaiting-map dm network_id (d ∷ ds) h = ground (
  arith,
  str_beq_iff d network_id,
  str_beq_iff (dm.uuid_by_dm d) (dm.uuid_by_dm network_id),
  str_beq_iff (dm.udid_by_dm d) (dm.udid_by_dm network_id),
  is_awaiting-map dm network_id ds,
)

started :
    {Store : Type 0}
    → (dm : DmEnv) (devices : List Str) (fw : Framework Store) → has_no_trusted devices ≡ false
    → fw.threads ≡ []
    → let fw' = un_init_framework dm devices fw in
      (fw'.threads ≡ map (thread_of dm) devices)
      × (fw'.flag_un_init ≡ false)
      × (fw'.system.context ≡ fw.system.context)
unfolding un_init_framework check_exit_sa_or_not init_framework initialize local_init release
started dm devices fw size none_left = ground arith

-- The release of the framework, when no thread of an earlier one is left and the device manager
-- gives a list of trusted devices for which DHContext has room: in whatever order the threads run
-- that are started then, once they have all run, every trusted device with valid identifiers is
-- online, and the framework is no longer to be released.
pub un_init_framework-online :
    (env : Env) (dm : DmEnv) (devices : List Str) (schedule : List ℕ) (network_id : Str)
    (fw : Framework env.Store)
    → has_no_trusted devices ≡ false
    → set_has network_id devices ≡ true
    → are_ids_valid network_id (dm.uuid_by_dm network_id) (dm.udid_by_dm network_id) ≡ true
    → fw.threads ≡ []
    → length fw.system.context.dev_id_entry_set + length devices ≤ max_online_device_size + 1
    → (events env dm (map (λ n. run_thread n) schedule) (un_init_framework dm devices fw)).threads
      ≡ []
    → let fw' =
        events env dm (map (λ n. run_thread n) schedule) (un_init_framework dm devices fw) in
      (is_device_online (dm.uuid_by_dm network_id) fw'.system.context ≡ true)
      × (fw'.flag_un_init ≡ false)
un_init_framework-online env dm devices schedule network_id fw size trusted v none_left room done =
    let fw1 = un_init_framework dm devices fw in
    let (threads, flag, context) = started dm devices fw size none_left in
    let room' : IsRoomy env fw1 =
      ground (arith, threads, context, length-map (thread_of dm) devices) in
    let awaited = is_awaiting-map dm network_id devices trusted in
    let (f, h) =
      threads-promised env dm schedule (thread_of dm network_id) fw1 v flag room'
        (ground (arith, threads, awaited)) in
    (ground (arith, h, done), f)
