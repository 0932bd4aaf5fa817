-- ===== src/Capability/Refine.antt =====
-- The capabilities in memory as what is known of each pair of a device and a hardware.
use multi_hardware.Base.{
  ◌≡◌, refl, Bool, true, false, not, ◌&&◌, List, [], ◌∷◌, Option, none, some, arith, ◌==◌,
  if◌then◌else◌,
}
use multi_hardware.Base.Map.{lookup, insert, lookup-insert, lookup-keep_keys}
use multi_hardware.Base.Str.{Str, str_eq, str_beq_iff}
use multi_hardware.Constants.{Errno, is_id_length_valid}
use multi_hardware.Capability.Key.{
  capability_key, is_cap_key_match_device_id, has_hash, capability_key-injective,
}
use multi_hardware.Capability.Info.{CapabilityInfo, key_of}
use multi_hardware.Capability.Store.{
  Database, CapabilityInfoMap, CapabilityManager, is_size_invalid, put_infos, add_capability_in_mem,
  without_device, remove_capability_info_in_mem,
}
use multi_hardware.Capability.StoreLaws.{is_cap_key_match-any}
use multi_hardware.Capability.Queries.{get_capability, found_info}

-- What is known of a device id and a hardware id.
abbrev pub Known : Type 0
Known = Str → Str → Option CapabilityInfo

abbrev pub know : List (Option CapabilityInfo) → Known → Known
know [] known d h = known d h
know (none ∷ infos) known d h = know infos known d h
know (some c ∷ infos) known d h =
    know infos (λ e g. if (c.device_id == e) && (c.dh_id == g) then some c else known e g) d h

-- A capability whose key is too long is not forgotten.
abbrev pub forget : Str → Known → Known
forget other known d h =
    if is_id_length_valid (capability_key d h) && (d == other) then none else known d h

pub data Op : Type 0 where
  add : List (Option CapabilityInfo) → Op
  remove : Str → Op

unfoldable pub spec_step : Op → Known → Known
spec_step (add infos) known = if is_size_invalid infos then known else know infos known
spec_step (remove other) known =
    if not (is_id_length_valid other) then known else forget other known

unfoldable pub spec_run : List Op → Known → Known
spec_run [] known = known
spec_run (o ∷ os) known = spec_run os (spec_step o known)

-- The device ids of the capabilities are without '#'.
abbrev pub no_hash : List (Option CapabilityInfo) → Bool
no_hash [] = true
no_hash (none ∷ infos) = no_hash infos
no_hash (some c ∷ infos) = not (has_hash c.device_id) && no_hash infos

abbrev pub ops_plain : List Op → Bool
ops_plain [] = true
ops_plain (add infos ∷ os) = no_hash infos && ops_plain os
ops_plain (remove other ∷ os) = ops_plain os

pub record Refines (m : CapabilityInfoMap) (known : Known) : Type 0 where
  pub agrees : (d h : Str) → has_hash d ≡ false → lookup (capability_key d h) m ≡ known d h

-- Keys are equal where both ids are.
key_of-ids :
    (c : CapabilityInfo) (d h : Str)
    → has_hash c.device_id ≡ false
    → has_hash d ≡ false
    → (key_of c == capability_key d h) ≡ (c.device_id == d) && (c.dh_id == h)
unfolding key_of
key_of-ids c d h p q = ground (
  arith,
  str_beq_iff (capability_key c.device_id c.dh_id) (capability_key d h),
  str_beq_iff c.device_id d,
  str_beq_iff c.dh_id h,
  capability_key-injective c.device_id c.dh_id d h p q,
)

insert-Refines :
    (c : CapabilityInfo) (m : CapabilityInfoMap) (known : Known)
    → has_hash c.device_id ≡ false
    → Refines m known
    → Refines
        (insert (key_of c) c m)
        (λ e g. if (c.device_id == e) && (c.dh_id == g) then some c else known e g)
insert-Refines c m known p r = record {
  agrees = λ d h q. ground (
    arith,
    lookup-insert (key_of c) (capability_key d h) c m,
    key_of-ids c d h p q,
    r.agrees d h q,
  );
}

put_infos-Refines :
    (infos : List (Option CapabilityInfo)) (m : CapabilityInfoMap) (known : Known)
    → no_hash infos ≡ true
    → Refines m known
    → Refines (put_infos infos m) (know infos known)
unfolding put_infos
put_infos-Refines [] m known p r = r
put_infos-Refines (none ∷ infos) m known p r = put_infos-Refines infos m known p r
put_infos-Refines (some c ∷ infos) m known p r =
    put_infos-Refines infos (insert (key_of c) c m) _ (ground arith)
      (insert-Refines c m known (ground arith) r)

without_device-Refines :
    (other : Str) (m : CapabilityInfoMap) (known : Known)
    → is_id_length_valid other ≡ true
    → Refines m known
    → Refines (without_device other m) (forget other known)
without_device-Refines other m known o r = record {
  agrees = λ d h q. ground (
    arith,
    is_cap_key_match-any d h other q o,
    lookup-keep_keys (λ k. not (is_cap_key_match_device_id k other)) (capability_key d h) m,
    r.agrees d h q,
  );
}

module _ (database : Database) where
  open database use {Data}

  unfoldable pub run_step : Op → CapabilityManager Data → CapabilityManager Data
  run_step (add infos) s = (add_capability_in_mem database infos s).0
  run_step (remove other) s = (remove_capability_info_in_mem database other s).0

  unfoldable pub run : List Op → CapabilityManager Data → CapabilityManager Data
  unfolding run_step
  run [] s = s
  run (o ∷ os) s = run os (run_step o s)

  if-Refines :
      (b : Bool) (s s' : CapabilityManager Data) (ret ret' : Errno) (known known' : Known)
      → Refines s.global_cap_info_map known
      → (b ≡ false → Refines s'.global_cap_info_map known')
      → Refines
          (if◌then◌else◌ {A = CapabilityManager Data × Errno} b
            (s, ret)
            (s', ret')).0.global_cap_info_map
          (if b then known else known')
  if-Refines true s s' ret ret' known known' h g = h
  if-Refines false s s' ret ret' known known' h g = g refl

  step-Refines :
      (o : Op) (s : CapabilityManager Data) (known : Known)
      → ops_plain (o ∷ []) ≡ true
      → Refines s.global_cap_info_map known
      → Refines (run_step o s).global_cap_info_map (spec_step o known)
  unfolding run_step spec_step add_capability_in_mem remove_capability_info_in_mem
  step-Refines (add infos) s known p r =
      if-Refines (is_size_invalid infos) s _ _ _ known _ r
        (λ e. put_infos-Refines infos s.global_cap_info_map known (ground arith) r)
  step-Refines (remove other) s known p r =
      if-Refines (not (is_id_length_valid other)) s _ _ _ known _ r
        (λ e. without_device-Refines other s.global_cap_info_map known (ground arith) r)

  run-Refines :
      (os : List Op) (s : CapabilityManager Data) (known : Known)
      → ops_plain os ≡ true
      → Refines s.global_cap_info_map known
      → Refines (run os s).global_cap_info_map (spec_run os known)
  unfolding run spec_run
  run-Refines [] s known p r = r
  run-Refines (add infos ∷ os) s known p r =
      run-Refines os (run_step (add infos) s) (spec_step (add infos) known) (ground arith)
        (step-Refines (add infos) s known (ground arith) r)
  run-Refines (remove other ∷ os) s known p r =
      run-Refines os (run_step (remove other) s) (spec_step (remove other) known) (ground arith)
        (step-Refines (remove other) s known (ground arith) r)

  -- The capabilities in memory implement a map from pairs of a device id and a hardware id, in
  -- which AddCapabilityInMem puts each capability of a list of a valid length under its ids and
  -- RemoveCapabilityInfoInMem takes out every pair of a valid device id whose key is not too long.
  -- From no capabilities on, after any such calls, with device ids without '#' in the lists, and for
  -- valid ids of which the device id has no '#', GetCapability gives what that map holds.
  pub get_capability-run :
      (os : List Op) (device_id dh_id : Str) (db : Option Data)
      → ops_plain os ≡ true
      → is_id_length_valid device_id ≡ true
      → is_id_length_valid dh_id ≡ true
      → has_hash device_id ≡ false
      → get_capability database device_id dh_id
          (run os (record { global_cap_info_map = []; db = db }))
        ≡ found_info (spec_run os (λ d h. none) device_id dh_id)
  unfolding get_capability lookup
  get_capability-run os device_id dh_id db p a b q =
      let empty : CapabilityManager Data = record { global_cap_info_map = []; db = db } in
      let r = run-Refines os empty (λ d h. none) p (record { agrees = λ d h e. refl }) in
      ground (arith, r.agrees device_id dh_id q)
