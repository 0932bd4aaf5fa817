-- ===== src/Capability/Info.antt =====
-- capability_info.cpp, meta_capability_info.h and version_info.h: the records of the resource
-- manager.
use multi_hardware.Base.{ℕ, ◌≡◌, ◌↔◌, Bool, true, false, not, ◌==◌, nat_eq, arith, if◌then◌else◌}
use multi_hardware.Base.Map.{Map}
use multi_hardware.Base.Str.{Str, str_eq, str_beq_iff}
use multi_hardware.Capability.Key.{capability_key}
use multi_hardware.Version.Manager.{CompVersion}

pub record CapabilityInfo : Type 0 where
  pub dh_id : Str
  pub device_id : Str
  pub device_name : Str
  pub device_type : ℕ
  pub dh_type : ℕ
  pub dh_attrs : Str
  pub dh_subtype : Str

pub record MetaCapabilityInfo : Type 0 where
  pub info : CapabilityInfo
  pub udid_hash : Str
  pub sink_version : Str

pub record VersionInfo : Type 0 where
  pub device_id : Str
  pub dh_version : Str
  pub comp_versions : Map ℕ CompVersion

-- CapabilityInfo::GetKey.
unfoldable pub key_of : CapabilityInfo → Str
key_of c = capability_key c.device_id c.dh_id

-- CapabilityInfo::Compare. Texts hold no null byte, so strcmp compares them whole.
unfoldable pub compare : CapabilityInfo → CapabilityInfo → Bool
compare a b =
    if not (a.device_id == b.device_id)
    then false
    else if not (a.dh_id == b.dh_id)
    then false
    else if not (a.device_name == b.device_name)
    then false
    else if not (a.device_type == b.device_type)
    then false
    else if not (a.dh_type == b.dh_type)
    then false
    else if not (a.dh_attrs == b.dh_attrs)
    then false
    else if not (a.dh_subtype == b.dh_subtype)
    then false
    else true

-- Compare answers true exactly for equal capabilities: it looks at every field.
pub compare_iff : (a b : CapabilityInfo) → (compare a b ≡ true) ↔ (a ≡ b)
unfolding compare
compare_iff a b = ground (
  arith,
  str_beq_iff a.device_id b.device_id,
  str_beq_iff a.dh_id b.dh_id,
  str_beq_iff a.device_name b.device_name,
  str_beq_iff a.dh_attrs b.dh_attrs,
  str_beq_iff a.dh_subtype b.dh_subtype,
)
