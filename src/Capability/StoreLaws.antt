-- ===== src/Capability/StoreLaws.antt =====
-- What adding and removing capabilities does to those that can be found.
use multi_hardware.Base.{
  ◌≡◌, refl, true, false, not, ◌&&◌, List, [], ◌∷◌, Option, none, some, arith, ◌==◌, if◌then◌else◌,
  Bool-cases, inl, inr,
}
use multi_hardware.Base.Map.{lookup, insert, lookup-insert, lookup-keep_keys}
use multi_hardware.Base.Str.{Str, str_eq}
use multi_hardware.Constants.{success, is_id_length_valid, resource_capability_map_not_found}
use multi_hardware.Capability.Key.{
  capability_key, is_cap_key_match_device_id, has_hash, is_cap_key_match-capability_key,
}
use multi_hardware.Capability.Info.{CapabilityInfo, key_of}
use multi_hardware.Capability.Store.{
  Database, CapabilityInfoMap, CapabilityManager, is_size_invalid, put_infos, add_capability_in_mem,
  new_infos, put_new, add_capability, remove_capability_info_in_mem,
}
use multi_hardware.Capability.Queries.{get_capability, found_info}

-- The last object of the list that has the key, or else `old`.
abbrev pub last_with :
    Str → List (Option CapabilityInfo) → Option CapabilityInfo → Option CapabilityInfo
last_with key [] old = old
last_with key (none ∷ infos) old = last_with key infos old
last_with key (some c ∷ infos) old = last_with key infos (if key_of c == key then some c else old)

lookup-put_infos :
    (key : Str) (infos : List (Option CapabilityInfo)) (m : CapabilityInfoMap)
    → lookup key (put_infos infos m) ≡ last_with key infos (lookup key m)
unfolding put_infos
lookup-put_infos key [] m = refl
lookup-put_infos key (none ∷ infos) m = lookup-put_infos key infos m
lookup-put_infos key (some c ∷ infos) m =
    ground
      (arith, lookup-put_infos key infos (insert (key_of c) c m), lookup-insert (key_of c) key c m)

pub is_cap_key_match-any :
    (device_id dh_id other : Str)
    → has_hash device_id ≡ false
    → is_id_length_valid other ≡ true
    → is_cap_key_match_device_id (capability_key device_id dh_id) other
      ≡ is_id_length_valid (capability_key device_id dh_id) && (device_id == other)
unfolding is_cap_key_match_device_id
is_cap_key_match-any device_id dh_id other h o =
    elim (Bool-cases (is_id_length_valid (capability_key device_id dh_id))) [
      | inl valid ↦
          ground (arith, valid, is_cap_key_match-capability_key device_id dh_id other h valid o)
      | inr long ↦ ground (arith, long)
    ]

module _ (database : Database) where
  open database use {Data}

  pub put_new-map :
      (kv : Data) (cs : List CapabilityInfo) (s : CapabilityManager Data)
      → (put_new database kv cs s).0.global_cap_info_map ≡ s.global_cap_info_map
  put_new-map kv [] s = refl
  put_new-map kv (c ∷ cs) s = refl

  -- AddCapabilityInMem and, where there is a database, AddCapability do the same to the
  -- capabilities in memory, whether or not the database takes the records: of a list of a valid
  -- length, GetCapability with valid ids then finds the last capability with these ids, and what
  -- it found before if the list has none.
  pub get_capability-add_capability :
      (device_id dh_id : Str) (infos : List (Option CapabilityInfo)) (kv : Data)
      (s : CapabilityManager Data)
      → is_size_invalid infos ≡ false
      → is_id_length_valid device_id ≡ true
      → is_id_length_valid dh_id ≡ true
      → s.db ≡ some kv
      → let key = capability_key device_id dh_id in
        let found = found_info (last_with key infos (lookup key s.global_cap_info_map)) in
        (get_capability database device_id dh_id (add_capability_in_mem database infos s).0 ≡ found)
        × (get_capability database device_id dh_id (add_capability database infos s).0 ≡ found)
        × ((add_capability_in_mem database infos s).1 ≡ success)
  unfolding get_capability add_capability_in_mem add_capability
  get_capability-add_capability device_id dh_id infos kv s a b c e =
      let key = capability_key device_id dh_id in
      let put = put_infos infos s.global_cap_info_map in
      ground (
        arith,
        lookup-put_infos key infos s.global_cap_info_map,
        put_new-map kv (new_infos database kv infos) (record s { global_cap_info_map = put }),
      )

  -- For ids of a valid length, of which the device id has no '#': after RemoveCapabilityInfoInMem
  -- of a device, GetCapability fails for the capabilities of that device whose key is not too
  -- long, and answers as before for every other, so also for those with a longer key.
  pub get_capability-remove_capability_info_in_mem :
      (device_id dh_id other : Str) (s : CapabilityManager Data)
      → has_hash device_id ≡ false
      → is_id_length_valid device_id ≡ true
      → is_id_length_valid dh_id ≡ true
      → is_id_length_valid other ≡ true
      → get_capability database device_id dh_id (remove_capability_info_in_mem database other s).0
        ≡ (if is_id_length_valid (capability_key device_id dh_id) && (device_id == other)
            then (resource_capability_map_not_found, none)
            else get_capability database device_id dh_id s)
  unfolding get_capability remove_capability_info_in_mem
  get_capability-remove_capability_info_in_mem device_id dh_id other s h a b c =
      let key = capability_key device_id dh_id in
      ground (
        arith,
        is_cap_key_match-any device_id dh_id other h c,
        lookup-keep_keys (λ k. not (is_cap_key_match_device_id k other)) key s.global_cap_info_map,
      )
