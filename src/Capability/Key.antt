-- ===== src/Capability/Key.antt =====
-- capability_utils.cpp: the keys of the capability store, "<deviceId>###<dhId>".
use multi_hardware.Base.{
  ℕ, ◌≡◌, refl, Bool, true, false, not, ◌||◌, [], ◌∷◌, ◌++◌, Option, none, some, arith, ◌==◌,
  if◌then◌else◌, nat_eq,
}
use multi_hardware.Base.Str.{Str, str_eq}
use multi_hardware.Constants.{is_id_length_valid, resource_separator}

unfoldable pub capability_key : Str → Str → Str
capability_key device_id dh_id = device_id ++ (resource_separator ++ dh_id)

unfoldable pub starts_with : Str → Str → Bool
starts_with [] s = true
starts_with (p ∷ ps) [] = false
starts_with (p ∷ ps) (c ∷ s) = if p == c then starts_with ps s else false

abbrev pub cons_some : ℕ → Option Str → Option Str
cons_some c none = none
cons_some c (some s) = some (c ∷ s)

-- key.substr(0, key.find(RESOURCE_SEPARATOR)), or `none` where the separator is not found.
unfoldable pub before_separator : Str → Option Str
unfolding starts_with
before_separator [] = none
before_separator (c ∷ s) =
    if starts_with resource_separator (c ∷ s) then some [] else cons_some c (before_separator s)

abbrev pub equals_some : Str → Option Str → Bool
equals_some t none = false
equals_some t (some s) = s == t

unfoldable pub is_cap_key_match_device_id : Str → Str → Bool
is_cap_key_match_device_id key device_id =
    if not (is_id_length_valid key) || not (is_id_length_valid device_id)
    then false
    else equals_some device_id (before_separator key)

-- The byte '#' does not occur.
abbrev pub has_hash : Str → Bool
has_hash [] = false
has_hash (c ∷ s) = (c == b'#') || has_hash s

before_separator-capability_key :
    (device_id dh_id : Str)
    → has_hash device_id ≡ false
    → before_separator (capability_key device_id dh_id) ≡ some device_id
unfolding before_separator capability_key
before_separator-capability_key [] dh_id h = refl
before_separator-capability_key (c ∷ s) dh_id h =
    ground (arith, before_separator-capability_key s dh_id)

-- A key that is made of a device id without '#' and is not too long matches exactly that device
-- among the device ids of valid length.
pub is_cap_key_match-capability_key :
    (device_id dh_id other : Str)
    → has_hash device_id ≡ false
    → is_id_length_valid (capability_key device_id dh_id) ≡ true
    → is_id_length_valid other ≡ true
    → is_cap_key_match_device_id (capability_key device_id dh_id) other ≡ (device_id == other)
unfolding is_cap_key_match_device_id
is_cap_key_match-capability_key device_id dh_id other h k o =
    ground (arith, before_separator-capability_key device_id dh_id)

append_cancel :
    (s t u v : Str)
    → has_hash s ≡ false
    → has_hash t ≡ false
    → capability_key s u ≡ capability_key t v
    → (s ≡ t) × (u ≡ v)
unfolding capability_key
append_cancel [] [] u v p q e = ground arith
append_cancel [] (y ∷ t) u v p q e = ground arith
append_cancel (x ∷ s) [] u v p q e = ground arith
append_cancel (x ∷ s) (y ∷ t) u v p q e = ground (arith, append_cancel s t u v)

-- Device ids without '#' and any hardware ids: different pairs have different keys.
pub capability_key-injective :
    (device_id dh_id device_id' dh_id' : Str)
    → has_hash device_id ≡ false
    → has_hash device_id' ≡ false
    → capability_key device_id dh_id ≡ capability_key device_id' dh_id'
    → (device_id ≡ device_id') × (dh_id ≡ dh_id')
capability_key-injective device_id dh_id device_id' dh_id' p q e =
    append_cancel device_id device_id' dh_id dh_id' p q e
