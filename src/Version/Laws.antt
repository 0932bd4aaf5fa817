-- ===== src/Version/Laws.antt =====
-- Adding, removing and finding versions.
use multi_hardware.Base.{ℕ, ◌≡◌, true, ◌&&◌, some, arith, ◌==◌, nat_eq, if◌then◌else◌}
use multi_hardware.Base.Map.{lookup, lookup-insert, lookup-erase}
use multi_hardware.Base.Str.{Str, str_eq, str_beq_iff}
use multi_hardware.Constants.{success, version_device_id_not_exist, is_id_length_valid}
use multi_hardware.Version.Manager.{
  CompVersion, DhVersion, VersionManager, add_dh_version, remove_dh_version, get_dh_version,
  get_comp_version, init, dh_local_version,
}

-- After AddDHVersion, GetDHVersion answers for every uuid as before, but for a valid uuid that was
-- given: there it succeeds with the version given.
pub get_dh_version-add_dh_version :
    (uuid other : Str) (v out : DhVersion) (m : VersionManager)
    → get_dh_version other out (add_dh_version uuid v m).0 ≡ (
        if is_id_length_valid uuid && (uuid == other)
        then (success, v)
        else get_dh_version other out m)
unfolding get_dh_version add_dh_version
get_dh_version-add_dh_version uuid other v out m =
    ground (arith, str_beq_iff uuid other, lookup-insert uuid other v m)

-- RemoveDHVersion succeeds exactly if GetDHVersion did, with the same error otherwise; after a
-- success the uuid is not found, and every other uuid is answered as before.
pub get_dh_version-remove_dh_version :
    (uuid other : Str) (out : DhVersion) (m : VersionManager)
    → ((remove_dh_version uuid m).1 ≡ (get_dh_version uuid out m).0)
      × (get_dh_version other out (remove_dh_version uuid m).0 ≡ (
          if is_id_length_valid uuid && (uuid == other)
          then (version_device_id_not_exist, out)
          else get_dh_version other out m))
unfolding get_dh_version remove_dh_version
get_dh_version-remove_dh_version uuid other out m =
    ground (arith, str_beq_iff uuid other, lookup-erase uuid other m)

-- Init with versions that the loader gave and a valid uuid of this device: each component version
-- that the loader gave is found under this uuid, and the device version is "1.0".
pub get_comp_version-init :
    (uuid : Str) (v out_version : DhVersion) (dh_type : ℕ) (c out : CompVersion)
    (m : VersionManager)
    → is_id_length_valid uuid ≡ true
    → lookup dh_type v.comp_versions ≡ some c
    → let m' = (init (success, v) uuid m).0 in
      (get_comp_version uuid dh_type out m' ≡ (success, c))
      × ((get_dh_version uuid out_version m').1.dh_version ≡ dh_local_version)
unfolding get_comp_version init
get_comp_version-init uuid v out_version dh_type c out m valid known = ground (
  arith,
  str_beq_iff uuid uuid,
  lookup-insert uuid uuid (record v { dh_version = dh_local_version }) m,
)
