-- ===== src/Capability/Keyed.antt =====
-- Every capability in memory stands under its own key.
use multi_hardware.Base.{
  ℕ, ◌≡◌, Bool, true, false, not, List, [], ◌∷◌, Option, none, some, arith, ◌==◌, if◌then◌else◌,
}
use multi_hardware.Base.Map.{lookup, insert, erase, lookup-insert, lookup-erase, lookup-keep_keys}
use multi_hardware.Base.Str.{Str, str_eq, str_beq_iff}
use multi_hardware.Constants.{Errno, is_success, is_id_length_valid}
use multi_hardware.Context.Defs.{DhContext, online_device_ids}
use multi_hardware.Capability.Key.{is_cap_key_match_device_id}
use multi_hardware.Capability.Info.{CapabilityInfo, key_of}
use multi_hardware.Capability.Store.{
  Database, CapabilityInfoMap, CapabilityManager, put_infos, without_device, put_parsed,
  put_records, sync_with, is_size_invalid, sync_device_info_from_db, put_remote_parsed,
  put_remote_records, put_remote_found, put_devices, sync_remote_with, sync_remote_capability_infos,
  add_capability_in_mem, new_infos, add_with, add_capability, remove_in_db_with,
  remove_capability_info_in_db, remove_by_key_with, remove_capability_info_by_key,
  remove_capability_info_in_mem,
}
use multi_hardware.Capability.StoreLaws.{put_new-map}
use multi_hardware.Capability.Key.{capability_key}
use multi_hardware.Capability.Changes.{
  Entry, State, is_known, param_of, change_map, push_new_task, add_parsed, update_parsed,
  delete_parsed, update_records, delete_records, handle_capability_add_change,
  handle_capability_update_change, handle_capability_delete_change,
}
use multi_hardware.Capability.ChangeLaws.{push_enable, push_disable}
use multi_hardware.Task.Types.{enable, disable}
use multi_hardware.Task.Board.{is_enabled_device}

pub record IsKeyed (m : CapabilityInfoMap) : Type 0 where
  pub keyed : (k : Str) (c : CapabilityInfo) → lookup k m ≡ some c → key_of c ≡ k

pub insert-IsKeyed :
    (c : CapabilityInfo) (m : CapabilityInfoMap) → IsKeyed m → IsKeyed (insert (key_of c) c m)
insert-IsKeyed c m h = record {
  keyed = λ k d e.
      ground (arith, h.keyed k d, lookup-insert (key_of c) k c m, str_beq_iff (key_of c) k, e);
}

pub erase-IsKeyed : (key : Str) (m : CapabilityInfoMap) → IsKeyed m → IsKeyed (erase key m)
erase-IsKeyed key m h = record {
  keyed = λ k d e. ground (arith, h.keyed k d, lookup-erase key k m, e);
}

without_device-IsKeyed :
    (device_id : Str) (m : CapabilityInfoMap) → IsKeyed m → IsKeyed (without_device device_id m)
without_device-IsKeyed device_id m h = record {
  keyed = λ k d e. ground (
    arith,
    h.keyed k d,
    lookup-keep_keys (λ key. not (is_cap_key_match_device_id key device_id)) k m,
    e,
  );
}

put_infos-IsKeyed :
    (infos : List (Option CapabilityInfo)) (m : CapabilityInfoMap)
    → IsKeyed m
    → IsKeyed (put_infos infos m)
unfolding put_infos
put_infos-IsKeyed [] m h = h
put_infos-IsKeyed (none ∷ infos) m h = put_infos-IsKeyed infos m h
put_infos-IsKeyed (some c ∷ infos) m h =
    put_infos-IsKeyed infos (insert (key_of c) c m) (insert-IsKeyed c m h)

if-IsKeyed :
    (b : Bool) (m n : CapabilityInfoMap) → IsKeyed m → IsKeyed n → IsKeyed (if b then m else n)
if-IsKeyed true m n h g = h
if-IsKeyed false m n h g = g

module _ (database : Database) where
  open database use {Data, data_by_key_prefix, from_json}

  pub put_parsed-IsKeyed :
      (got : Errno × CapabilityInfo) (m : CapabilityInfoMap)
      → IsKeyed m
      → IsKeyed (put_parsed database got m)
  put_parsed-IsKeyed (ret, c) m h =
      if-IsKeyed (is_success ret) (insert (key_of c) c m) m (insert-IsKeyed c m h) h

  put_records-IsKeyed :
      (records : List Str) (m : CapabilityInfoMap)
      → IsKeyed m
      → IsKeyed (put_records database records m)
  unfolding put_records
  put_records-IsKeyed [] m h = h
  put_records-IsKeyed (text ∷ records) m h =
      put_records-IsKeyed records (put_parsed database (from_json text) m)
        (put_parsed-IsKeyed (from_json text) m h)

  put_remote_records-IsKeyed :
      (local_id : Str) (records : List Str) (m : CapabilityInfoMap)
      → IsKeyed m
      → IsKeyed (put_remote_records database local_id records m)
  unfolding put_remote_records
  put_remote_records-IsKeyed local_id [] m h = h
  put_remote_records-IsKeyed local_id (text ∷ records) m h =
      let (ret, c) = from_json text in
      put_remote_records-IsKeyed local_id records
        (put_remote_parsed database local_id (from_json text) m)
        (if-IsKeyed (not (is_success ret)) m _ h
          (if-IsKeyed (c.device_id == local_id) m _ h (insert-IsKeyed c m h)))

  put_devices-IsKeyed :
      (local_id : Str) (kv : Data) (ids : List Str) (m : CapabilityInfoMap)
      → IsKeyed m
      → IsKeyed (put_devices database local_id kv ids m)
  unfolding put_devices
  put_devices-IsKeyed local_id kv [] m h = h
  put_devices-IsKeyed local_id kv (id ∷ ids) m h =
      let (ret, records) = data_by_key_prefix id kv in
      put_devices-IsKeyed local_id kv ids
        (put_remote_found database local_id (data_by_key_prefix id kv) m)
        (if-IsKeyed (not (is_success ret)) m _ h (
          if-IsKeyed (is_size_invalid records) m _ h
            (put_remote_records-IsKeyed local_id records m h)))

  abbrev pub Kept : CapabilityManager Data × Errno → Type 0
  Kept (s, ret) = IsKeyed s.global_cap_info_map

  if-Kept :
      (b : Bool) (x y : CapabilityManager Data × Errno)
      → Kept x
      → Kept y
      → Kept (if b then x else y)
  if-Kept true x y h g = h
  if-Kept false x y h g = g

  sync_with-Kept :
      (o : Option Data) (id : Str) (s : CapabilityManager Data)
      → IsKeyed s.global_cap_info_map
      → Kept (sync_with database o id s)
  sync_with-Kept none id s h = h
  sync_with-Kept (some kv) id s h =
      let (ret, records) = data_by_key_prefix id kv in
      if-Kept (not (is_success ret)) _ _ h (
        if-Kept (is_size_invalid records) _ _ h
          (put_records-IsKeyed records s.global_cap_info_map h))

  sync_remote_with-Kept :
      (o : Option Data) (local_id : Str) (c : DhContext) (s : CapabilityManager Data)
      → IsKeyed s.global_cap_info_map
      → Kept (sync_remote_with database o local_id c s)
  sync_remote_with-Kept none local_id c s h = h
  sync_remote_with-Kept (some kv) local_id c s h =
      put_devices-IsKeyed local_id kv (online_device_ids c) s.global_cap_info_map h

  add_with-Kept :
      (o : Option Data) (infos : List (Option CapabilityInfo)) (s : CapabilityManager Data)
      → IsKeyed s.global_cap_info_map
      → Kept (add_with database o infos s)
  add_with-Kept none infos s h = h
  add_with-Kept (some kv) infos s h =
      let put = put_infos infos s.global_cap_info_map in
      rw
        (put_new-map database kv (new_infos database kv infos)
          (record s { global_cap_info_map = put }))
        (put_infos-IsKeyed infos s.global_cap_info_map h)

  remove_in_db_with-Kept :
      (o : Option Data) (id : Str) (s : CapabilityManager Data)
      → IsKeyed s.global_cap_info_map
      → Kept (remove_in_db_with database o id s)
  remove_in_db_with-Kept none id s h = h
  remove_in_db_with-Kept (some kv) id s h = without_device-IsKeyed id s.global_cap_info_map h

  remove_by_key_with-Kept :
      (o : Option Data) (key : Str) (s : CapabilityManager Data)
      → IsKeyed s.global_cap_info_map
      → Kept (remove_by_key_with database o key s)
  remove_by_key_with-Kept none key s h = h
  remove_by_key_with-Kept (some kv) key s h = erase-IsKeyed key s.global_cap_info_map h

module _ (database : Database) (random_id : ℕ → Str) where
  open database use {Data, from_json}

  abbrev pub HoldsKeyed : State database random_id → Type 0
  HoldsKeyed s = IsKeyed s.store.global_cap_info_map

  if-HoldsKeyed :
      (b : Bool) (s s' : State database random_id)
      → HoldsKeyed s
      → HoldsKeyed s'
      → HoldsKeyed (if b then s else s')
  if-HoldsKeyed true s s' h g = h
  if-HoldsKeyed false s s' h g = g

  -- What an add and an update do: the capability stands under its key, and a task is made.
  put_new_task-HoldsKeyed :
      (c : CapabilityInfo) (s : State database random_id)
      → HoldsKeyed s
      → HoldsKeyed (
          push_new_task database random_id enable
            (param_of database random_id c s)
            (change_map database random_id (insert (key_of c) c) s))
  put_new_task-HoldsKeyed c s h =
      let put = change_map database random_id (insert (key_of c) c) s in
      rw (push_enable database random_id (param_of database random_id c s) put).0
        (insert-IsKeyed c s.store.global_cap_info_map h)

  add_change-HoldsKeyed :
      (records : List Entry) (s : State database random_id)
      → HoldsKeyed s
      → HoldsKeyed (handle_capability_add_change database random_id records s)
  unfolding handle_capability_add_change
  add_change-HoldsKeyed [] s h = h
  add_change-HoldsKeyed ((key, value) ∷ records) s h =
      let (ret, c) = from_json value in
      add_change-HoldsKeyed records (add_parsed database random_id (from_json value) s) (
        if-HoldsKeyed (not (is_success ret)) _ _ h (
          if-HoldsKeyed (not (is_known database random_id c s)) _ _ h
            (put_new_task-HoldsKeyed c s h)))

  update_records-HoldsKeyed :
      (records : List Entry) (s : State database random_id)
      → HoldsKeyed s
      → HoldsKeyed (update_records database random_id records s)
  unfolding update_records
  update_records-HoldsKeyed [] s h = h
  update_records-HoldsKeyed ((key, value) ∷ records) s h =
      let (ret, c) = from_json value in
      update_records-HoldsKeyed records (update_parsed database random_id (from_json value) s) (
        if-HoldsKeyed (not (is_success ret)) _ _ h (
          if-HoldsKeyed (not (is_known database random_id c s)) _ _ h (
            if-HoldsKeyed (is_enabled_device (capability_key c.device_id c.dh_id) s.board) _ _ h
              (put_new_task-HoldsKeyed c s h))))

  delete_records-HoldsKeyed :
      (records : List Entry) (s : State database random_id)
      → HoldsKeyed s
      → HoldsKeyed (delete_records database random_id records s)
  unfolding delete_records
  delete_records-HoldsKeyed [] s h = h
  delete_records-HoldsKeyed ((key, value) ∷ records) s h =
      let (ret, c) = from_json value in
      let param = param_of database random_id c s in
      let pushed = push_new_task database random_id disable param s in
      let kept : HoldsKeyed pushed = rw (push_disable database random_id param s).0 h in
      delete_records-HoldsKeyed records (delete_parsed database random_id (from_json value) s) (
        if-HoldsKeyed (not (is_success ret)) _ _ h (
          if-HoldsKeyed (not (is_known database random_id c s)) _ _ h
            (erase-IsKeyed (key_of c) pushed.store.global_cap_info_map kept)))

  -- If every capability in memory stands under its own key, then it does so after each of the ten
  -- operations that write the map of capabilities: the two that read the database, the two that add
  -- capabilities, the three that remove them, and the three that handle the entries which the
  -- database reports as added, updated and deleted; whatever the database and the texts in it.
  pub store_steps-IsKeyed :
      (id local_id : Str) (c : DhContext) (infos : List (Option CapabilityInfo)) (uniniting : Bool)
      (records : List Entry) (state : State database random_id)
      → HoldsKeyed state
      → let s = state.store in
        Kept database (sync_device_info_from_db database id s)
        × Kept database (sync_remote_capability_infos database local_id c s)
        × Kept database (add_capability_in_mem database infos s)
        × Kept database (add_capability database infos s)
        × Kept database (remove_capability_info_in_db database id s)
        × Kept database (remove_capability_info_by_key database id s)
        × Kept database (remove_capability_info_in_mem database id s)
        × HoldsKeyed (handle_capability_add_change database random_id records state)
        × HoldsKeyed (handle_capability_update_change database random_id uniniting records state)
        × HoldsKeyed (handle_capability_delete_change database random_id uniniting records state)
  unfolding sync_device_info_from_db sync_remote_capability_infos add_capability_in_mem
      add_capability remove_capability_info_in_db remove_capability_info_by_key
      remove_capability_info_in_mem handle_capability_update_change handle_capability_delete_change
  store_steps-IsKeyed id local_id c infos uniniting records state h =
      let s = state.store in
      let m = s.global_cap_info_map in
      let keeps = if-Kept database (not (is_id_length_valid id)) in
      let fits = if-Kept database (is_size_invalid infos) in
      (
        keeps _ _ h (sync_with-Kept database s.db id s h),
        sync_remote_with-Kept database s.db local_id c s h,
        fits _ _ h (put_infos-IsKeyed infos m h),
        fits _ _ h (add_with-Kept database s.db infos s h),
        keeps _ _ h (remove_in_db_with-Kept database s.db id s h),
        keeps _ _ h (remove_by_key_with-Kept database s.db id s h),
        keeps _ _ h (without_device-IsKeyed id m h),
        add_change-HoldsKeyed records state h,
        if-HoldsKeyed uniniting state _ h (update_records-HoldsKeyed records state h),
        if-HoldsKeyed uniniting state _ h (delete_records-HoldsKeyed records state h),
      )
