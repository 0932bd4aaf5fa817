-- ===== src/Context/Devices.antt =====
-- The set of online devices of dh_context.cpp: who is online after each operation.
use multi_hardware.Base.{
  ℕ, suc, ◌+◌, ◌-◌, ◌≤◌, ◌≡◌, refl, ◌≢◌, Bool, true, false, not, ◌&&◌, ◌||◌, List, [], ◌∷◌, arith,
  length, ltb, ◌==◌, if◌then◌else◌,
}
use multi_hardware.Base.Str.{Str, str_eq, str_beq_iff, str_ltb_total}
use multi_hardware.Constants.{is_id_length_valid, max_online_device_size}
use multi_hardware.Context.Defs.{
  DeviceIdEntry, entry_ltb, insert_entry, find_entry, erase_first, DhContext, make_entry,
  add_online_device, remove_online_device_by_network_id, is_device_online, network_id_by_uuid,
  network_id_by_device_id, uuid_by_network_id, found,
}

pub entry_ltb_total : (x y : DeviceIdEntry) → entry_ltb x y ≡ false → entry_ltb y x ≡ false → x ≡ y
unfolding entry_ltb
entry_ltb_total x y p q = ground (
  arith,
  str_ltb_total x.network_id y.network_id,
  str_ltb_total x.uuid y.uuid,
  str_ltb_total x.device_id y.device_id,
  str_ltb_total x.udid y.udid,
  str_ltb_total x.udid_hash y.udid_hash,
  str_beq_iff x.network_id y.network_id,
  str_beq_iff x.uuid y.uuid,
  str_beq_iff x.device_id y.device_id,
  str_beq_iff x.udid y.udid,
  str_beq_iff y.network_id x.network_id,
  str_beq_iff y.uuid x.uuid,
  str_beq_iff y.device_id x.device_id,
  str_beq_iff y.udid x.udid,
)

pub found-insert_entry :
    (test : DeviceIdEntry → Bool) (x : DeviceIdEntry) (xs : List DeviceIdEntry)
    → found (find_entry test (insert_entry x xs)) ≡ test x || found (find_entry test xs)
unfolding find_entry insert_entry
found-insert_entry test x [] = ground arith
found-insert_entry test x (y ∷ ys) =
    ground (arith, entry_ltb_total x y, found-insert_entry test x ys)

-- The guards of AddOnlineDevice.
abbrev pub is_accepted : Str → Str → Str → DhContext → Bool
is_accepted udid uuid network_id c =
    is_id_length_valid udid
    && is_id_length_valid uuid
    && is_id_length_valid network_id
    && not (ltb max_online_device_size (length c.dev_id_entry_set))

-- On every branch: after AddOnlineDevice a device with a valid uuid is online exactly if it was
-- online before, or if it is the device given and the call passed its guards.
pub is_device_online-add_online_device :
    (sha256 : Str → Str) (udid uuid network_id other : Str) (c : DhContext)
    → is_device_online other (add_online_device sha256 udid uuid network_id c)
      ≡ (is_accepted udid uuid network_id c && (uuid == other)) || is_device_online other c
unfolding is_device_online add_online_device make_entry
is_device_online-add_online_device sha256 udid uuid network_id other c = ground (
  arith,
  str_beq_iff uuid other,
  found-insert_entry (λ x. x.uuid == other) (make_entry sha256 udid uuid network_id)
      c.dev_id_entry_set,
)

pub length-insert_entry :
    (x : DeviceIdEntry) (xs : List DeviceIdEntry) → length (insert_entry x xs) ≤ length xs + 1
unfolding insert_entry
length-insert_entry x [] = omega arith
length-insert_entry x (y ∷ ys) = ground (arith, length-insert_entry x ys)

length-erase_first :
    (test : DeviceIdEntry → Bool) (xs : List DeviceIdEntry)
    → length (erase_first test xs) ≤ length xs
unfolding erase_first
length-erase_first test [] = omega arith
length-erase_first test (x ∷ xs) = ground (arith, length-erase_first test xs)

-- The hashes that an entry holds are those of its own identifiers.
abbrev pub All : (DeviceIdEntry → Type 0) → List DeviceIdEntry → Type 0
All P [] = Unit
All P (x ∷ xs) = P x × All P xs

abbrev pub IsHashed : (Str → Str) → DeviceIdEntry → Type 0
IsHashed sha256 x = (x.device_id ≡ sha256 x.uuid) × (x.udid_hash ≡ sha256 x.udid)

-- What holds of every context that AddOnlineDevice and RemoveOnlineDeviceIdEntryByNetworkId make.
pub record IsValid (sha256 : Str → Str) (c : DhContext) : Type 0 where
  pub hashed : All (IsHashed sha256) c.dev_id_entry_set
  pub bounded : length c.dev_id_entry_set ≤ max_online_device_size + 1

insert_entry-All :
    (P : DeviceIdEntry → Type 0) (x : DeviceIdEntry) (xs : List DeviceIdEntry)
    → P x
    → All P xs
    → All P (insert_entry x xs)
unfolding insert_entry
insert_entry-All P x [] h a = (h, a)
insert_entry-All P x (y ∷ ys) h a = ground (arith, insert_entry-All P x ys h a.1)

erase_first-All :
    (P : DeviceIdEntry → Type 0) (test : DeviceIdEntry → Bool) (xs : List DeviceIdEntry)
    → All P xs
    → All P (erase_first test xs)
unfolding erase_first
erase_first-All P test [] a = a
erase_first-All P test (x ∷ xs) a = ground (arith, erase_first-All P test xs a.1)

-- Bringing a device online and taking one offline keep each entry's hashes right and the set
-- within one entry more than MAX_ONLINE_DEVICE_SIZE.
pub online_steps-IsValid :
    (sha256 : Str → Str) (udid uuid network_id : Str) (c : DhContext)
    → IsValid sha256 c
    → IsValid sha256 (add_online_device sha256 udid uuid network_id c)
      × IsValid sha256 (remove_online_device_by_network_id network_id c)
unfolding add_online_device remove_online_device_by_network_id make_entry
online_steps-IsValid sha256 udid uuid network_id c v =
    let entry = make_entry sha256 udid uuid network_id in
    ground (
      arith,
      length-insert_entry entry c.dev_id_entry_set,
      length-erase_first (λ x. x.network_id == network_id) c.dev_id_entry_set,
      insert_entry-All (IsHashed sha256) entry c.dev_id_entry_set,
      erase_first-All (IsHashed sha256) (λ x. x.network_id == network_id) c.dev_id_entry_set,
    )

find_entry-congr :
    (sha256 : Str → Str) (uuid : Str) (xs : List DeviceIdEntry)
    → ((s t : Str) → sha256 s ≡ sha256 t → s ≡ t)
    → All (IsHashed sha256) xs
    → find_entry (λ x. x.device_id == sha256 uuid) xs ≡ find_entry (λ x. x.uuid == uuid) xs
unfolding find_entry
find_entry-congr sha256 uuid [] inj a = refl
find_entry-congr sha256 uuid (x ∷ xs) inj a = ground (
  arith,
  inj x.uuid uuid,
  str_beq_iff x.device_id (sha256 uuid),
  str_beq_iff x.uuid uuid,
  find_entry-congr sha256 uuid xs inj a.1,
)

-- If Sha256 has no collision and gives identifiers of valid length, then in a valid context the
-- network id found by the hash of a valid uuid is the one found by the uuid.
pub network_id_by_device_id-sha256 :
    (sha256 : Str → Str) (uuid : Str) (c : DhContext)
    → ((s t : Str) → sha256 s ≡ sha256 t → s ≡ t)
    → is_id_length_valid (sha256 uuid) ≡ true
    → is_id_length_valid uuid ≡ true
    → IsValid sha256 c
    → network_id_by_device_id (sha256 uuid) c ≡ network_id_by_uuid uuid c
unfolding network_id_by_device_id network_id_by_uuid
network_id_by_device_id-sha256 sha256 uuid c inj short valid v =
    ground (arith, find_entry-congr sha256 uuid c.dev_id_entry_set inj v.hashed)

abbrev pub count_network_id : Str → List DeviceIdEntry → ℕ
count_network_id network_id [] = 0
count_network_id network_id (x ∷ xs) =
    if x.network_id == network_id
    then suc (count_network_id network_id xs)
    else count_network_id network_id xs

count-erase_first :
    (network_id other : Str) (xs : List DeviceIdEntry)
    → count_network_id other (erase_first (λ x. x.network_id == network_id) xs)
      ≡ (if network_id == other then count_network_id other xs - 1 else count_network_id other xs)
unfolding erase_first
count-erase_first network_id other [] = ground arith
count-erase_first network_id other (x ∷ xs) = ground (
  arith,
  str_beq_iff network_id other,
  str_beq_iff x.network_id network_id,
  str_beq_iff x.network_id other,
  count-erase_first network_id other xs,
)

find-erase_first :
    (network_id other : Str) (xs : List DeviceIdEntry)
    → network_id ≢ other
    → find_entry (λ x. x.network_id == other) (erase_first (λ x. x.network_id == network_id) xs)
      ≡ find_entry (λ x. x.network_id == other) xs
unfolding erase_first find_entry
find-erase_first network_id other [] d = refl
find-erase_first network_id other (x ∷ xs) d = ground (
  arith,
  str_beq_iff x.network_id network_id,
  str_beq_iff x.network_id other,
  find-erase_first network_id other xs d,
)

-- Taking a valid network id offline removes one entry with that network id, if there is one, and
-- no entry with another; the uuid found for another network id stays what it was.
pub remove_online_device-effect :
    (network_id other : Str) (c : DhContext)
    → is_id_length_valid network_id ≡ true
    → network_id ≢ other
    → let d = remove_online_device_by_network_id network_id c in
      (count_network_id network_id d.dev_id_entry_set
        ≡ count_network_id network_id c.dev_id_entry_set - 1)
      × (count_network_id other d.dev_id_entry_set ≡ count_network_id other c.dev_id_entry_set)
      × (uuid_by_network_id other d ≡ uuid_by_network_id other c)
unfolding remove_online_device_by_network_id uuid_by_network_id
remove_online_device-effect network_id other c valid ne = ground (
  arith,
  str_beq_iff network_id other,
  str_beq_iff network_id network_id,
  count-erase_first network_id network_id c.dev_id_entry_set,
  count-erase_first network_id other c.dev_id_entry_set,
  find-erase_first network_id other c.dev_id_entry_set,
)
