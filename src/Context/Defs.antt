-- ===== src/Context/Defs.antt =====
-- The state of DHContext and its operations. A std::set is a list in the order of its `operator<`.
use multi_hardware.Base.{
  ℕ, Bool, true, false, not, ◌&&◌, ◌||◌, List, [], ◌∷◌, Option, none, some, length, ltb, ◌==◌, map,
  if◌then◌else◌,
}
use multi_hardware.Base.Str.{Str, str_eq, str_ltb}
use multi_hardware.Constants.{is_id_length_valid, max_online_device_size}

pub record DeviceIdEntry : Type 0 where
  pub network_id : Str
  pub uuid : Str
  pub device_id : Str
  pub udid : Str
  pub udid_hash : Str

-- The entry that `operator<` puts first.
unfoldable pub entry_ltb : DeviceIdEntry → DeviceIdEntry → Bool
entry_ltb a b =
    str_ltb a.network_id b.network_id
    || ((a.network_id == b.network_id) && str_ltb a.uuid b.uuid)
    || ((a.network_id == b.network_id) && (a.uuid == b.uuid) && str_ltb a.device_id b.device_id)
    || ((a.network_id == b.network_id)
        && (a.uuid == b.uuid)
        && (a.device_id == b.device_id)
        && str_ltb a.udid b.udid)
    || ((a.network_id == b.network_id)
        && (a.uuid == b.uuid)
        && (a.device_id == b.device_id)
        && (a.udid == b.udid)
        && str_ltb a.udid_hash b.udid_hash)

-- std::set::insert: an entry that is equivalent to one of the set is not inserted.
unfoldable pub insert_entry : DeviceIdEntry → List DeviceIdEntry → List DeviceIdEntry
insert_entry x [] = x ∷ []
insert_entry x (y ∷ ys) =
    let rest = insert_entry x ys in
    if entry_ltb y x then y ∷ rest else if entry_ltb x y then x ∷ y ∷ ys else y ∷ ys

unfoldable pub find_entry : (DeviceIdEntry → Bool) → List DeviceIdEntry → Option DeviceIdEntry
find_entry test [] = none
find_entry test (x ∷ xs) = if test x then some x else find_entry test xs

unfoldable pub erase_first : (DeviceIdEntry → Bool) → List DeviceIdEntry → List DeviceIdEntry
erase_first test [] = []
erase_first test (x ∷ xs) = if test x then xs else x ∷ erase_first test xs

-- A std::set<std::string>, of which only membership and the size are read.
unfoldable pub set_has : Str → List Str → Bool
set_has s [] = false
set_has s (t ∷ ts) = (t == s) || set_has s ts

unfoldable pub set_insert : Str → List Str → List Str
unfolding set_has
set_insert s ts = if set_has s ts then ts else s ∷ ts

unfoldable pub set_erase : Str → List Str → List Str
set_erase s [] = []
set_erase s (t ∷ ts) = if t == s then set_erase s ts else t ∷ set_erase s ts

pub record DhContext : Type 0 where
  pub dev_id_entry_set : List DeviceIdEntry
  pub real_time_network_ids : List Str
  pub connected_dev_ids : List Str

abbrev pub field_or_empty : (DeviceIdEntry → Str) → Option DeviceIdEntry → Str
field_or_empty f none = []
field_or_empty f (some x) = f x

-- `Sha256` calls OpenSSL: the hash is a parameter.
module _ (sha256 : Str → Str) where
  unfoldable pub make_entry : Str → Str → Str → DeviceIdEntry
  make_entry udid uuid network_id = record {
    network_id = network_id;
    uuid = uuid;
    device_id = sha256 uuid;
    udid = udid;
    udid_hash = sha256 udid;
  }

  unfoldable pub add_online_device : Str → Str → Str → DhContext → DhContext
  add_online_device udid uuid network_id c =
      if not (is_id_length_valid udid)
        || not (is_id_length_valid uuid)
        || not (is_id_length_valid network_id)
      then c
      else if ltb max_online_device_size (length c.dev_id_entry_set)
      then c
      else record c {
        dev_id_entry_set = insert_entry (make_entry udid uuid network_id) c.dev_id_entry_set;
      }

unfoldable pub remove_online_device_by_network_id : Str → DhContext → DhContext
remove_online_device_by_network_id network_id c =
    if not (is_id_length_valid network_id) then c else record c {
      dev_id_entry_set = erase_first (λ x. x.network_id == network_id) c.dev_id_entry_set;
    }

abbrev pub found : Option DeviceIdEntry → Bool
found none = false
found (some x) = true

unfoldable pub is_device_online : Str → DhContext → Bool
is_device_online uuid c =
    if not (is_id_length_valid uuid)
    then false
    else found (find_entry (λ x. x.uuid == uuid) c.dev_id_entry_set)

unfoldable pub online_count : DhContext → ℕ
online_count c = length c.dev_id_entry_set

-- The getters share one loop: the field of the first entry that passes a test, or "".
abbrev pub first_field : (DeviceIdEntry → Bool) → (DeviceIdEntry → Str) → Str → DhContext → Str
first_field test f key c =
    if not (is_id_length_valid key)
    then []
    else field_or_empty f (find_entry test c.dev_id_entry_set)

unfoldable pub network_id_by_uuid : Str → DhContext → Str
network_id_by_uuid uuid = first_field (λ x. x.uuid == uuid) (λ x. x.network_id) uuid

unfoldable pub network_id_by_udid : Str → DhContext → Str
network_id_by_udid udid = first_field (λ x. x.udid == udid) (λ x. x.network_id) udid

unfoldable pub udid_hash_by_uuid : Str → DhContext → Str
udid_hash_by_uuid uuid = first_field (λ x. x.uuid == uuid) (λ x. x.udid_hash) uuid

unfoldable pub uuid_by_network_id : Str → DhContext → Str
uuid_by_network_id network_id =
    first_field (λ x. x.network_id == network_id) (λ x. x.uuid) network_id

unfoldable pub udid_by_network_id : Str → DhContext → Str
udid_by_network_id network_id =
    first_field (λ x. x.network_id == network_id) (λ x. x.udid) network_id

unfoldable pub uuid_by_device_id : Str → DhContext → Str
uuid_by_device_id device_id =
    first_field (λ x. (x.device_id == device_id) || (x.udid_hash == device_id)) (λ x. x.uuid)
      device_id

unfoldable pub network_id_by_device_id : Str → DhContext → Str
network_id_by_device_id device_id =
    first_field (λ x. x.device_id == device_id) (λ x. x.network_id) device_id

unfoldable pub online_device_udid_hashes : DhContext → List Str
online_device_udid_hashes c = map (λ x. x.udid_hash) c.dev_id_entry_set

unfoldable pub online_device_ids : DhContext → List Str
online_device_ids c = map (λ x. x.device_id) c.dev_id_entry_set

unfoldable pub add_real_time_network_id : Str → DhContext → DhContext
add_real_time_network_id network_id c = record c {
  real_time_network_ids = set_insert network_id c.real_time_network_ids;
}

unfoldable pub delete_real_time_network_id : Str → DhContext → DhContext
delete_real_time_network_id network_id c = record c {
  real_time_network_ids = set_erase network_id c.real_time_network_ids;
}

unfoldable pub real_time_count : DhContext → ℕ
real_time_count c = length c.real_time_network_ids

unfoldable pub add_isomerism_connect_dev : Str → DhContext → DhContext
add_isomerism_connect_dev device_id c =
    if not (is_id_length_valid device_id)
    then c
    else record c { connected_dev_ids = set_insert device_id c.connected_dev_ids }

unfoldable pub del_isomerism_connect_dev : Str → DhContext → DhContext
del_isomerism_connect_dev device_id c =
    if not (is_id_length_valid device_id)
    then c
    else if not (set_has device_id c.connected_dev_ids)
    then c
    else record c { connected_dev_ids = set_erase device_id c.connected_dev_ids }

unfoldable pub isomerism_connect_count : DhContext → ℕ
isomerism_connect_count c = length c.connected_dev_ids
