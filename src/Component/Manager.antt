-- ===== src/Component/Manager.antt =====
-- component_manager.cpp: Enable and Disable with their retries, the business states and the tasks
-- that wait for an idle device.
use multi_hardware.Base.{
  ℕ, ◌≡◌, ◌↔◌, Bool, true, false, not, ◌&&◌, ◌||◌, List, [], ◌∷◌, Option, none, some, arith, ◌==◌,
  KeyTest, nat_eq, if◌then◌else◌, ltb, length,
}
use multi_hardware.Base.Map.{Map, lookup, insert, erase}
use multi_hardware.Base.Str.{Str, str_eq, str_beq, str_beq_iff}
use multi_hardware.Constants.{
  Errno, success, resource_key_is_empty, component_enable_failed, is_id_length_valid,
  max_online_device_size,
}
use multi_hardware.Version.Manager.{VersionManager}
use multi_hardware.Task.Types.{TaskParam}
use multi_hardware.Component.Register.{Reply}
use multi_hardware.Component.Params.{View}

pub data BusinessState : Type 0 where
  unknown idle running pausing : BusinessState

abbrev pub PairKey : Type 0
PairKey = Str × Str

abbrev pub pair_beq : PairKey → PairKey → Bool
pair_beq a b = str_beq a.0 b.0 && str_beq a.1 b.1

pub pair_beq_iff : (a b : PairKey) → (pair_beq a b ≡ true) ↔ (a ≡ b)
pair_beq_iff a b = ground (arith, str_beq_iff a.0 b.0, str_beq_iff a.1 b.1)

instance abbrev pub pair_eq : KeyTest PairKey
pair_eq = record { same = pair_beq; same_iff = pair_beq_iff }

-- An entry of EnabledCompsDump. The order of its set looks at the network id and the hardware id
-- only, so the set holds at most one entry of each pair, whatever its type.
pub record HidumpCompInfo : Type 0 where
  pub network_id : Str
  pub dh_id : Str
  pub dh_type : ℕ

unfoldable pub same_info : HidumpCompInfo → HidumpCompInfo → Bool
same_info a b = str_beq a.network_id b.network_id && str_beq a.dh_id b.dh_id

-- `comp_source` says of each type that has an entry whether its handler is not null.
pub record ComponentManager : Type 0 where
  pub comp_source : Map ℕ Bool
  pub versions : VersionManager
  pub dh_biz_states : Map PairKey BusinessState
  pub need_refresh_task_params : Map PairKey TaskParam
  pub comp_info_set : List HidumpCompInfo

unfoldable pub has_info : HidumpCompInfo → List HidumpCompInfo → Bool
has_info x [] = false
has_info x (y ∷ ys) = same_info y x || has_info x ys

unfoldable pub dump_enabled_comp : HidumpCompInfo → ComponentManager → ComponentManager
unfolding has_info
dump_enabled_comp x m =
    if has_info x m.comp_info_set then m else record m { comp_info_set = x ∷ m.comp_info_set }

unfoldable pub erase_info : HidumpCompInfo → List HidumpCompInfo → List HidumpCompInfo
erase_info x [] = []
erase_info x (y ∷ ys) = if same_info y x then erase_info x ys else y ∷ erase_info x ys

unfoldable pub dump_disabled_comp : HidumpCompInfo → ComponentManager → ComponentManager
unfolding erase_info
dump_disabled_comp x m = record m { comp_info_set = erase_info x m.comp_info_set }

-- What happens outside while a call of Enable or Disable runs: the managers' contents at the n-th
-- call of GetEnableParam, whether the device is online at the n-th check of a retry loop, and the
-- component's reply to the n-th attempt.
pub record World : Type 0 where
  pub views : ℕ → View
  pub param_online : ℕ → Bool
  pub retry_online : ℕ → Bool
  pub replies : ℕ → Reply
  -- The build's DHARDWARE_CHECK_RESOURCE, the component resources and the trusted devices, each
  -- with whether it is logged in with the same account.
  pub check_resource : Bool
  pub resource_desc : Map Str Bool
  pub trusted_devices : List (Str × Bool)

abbrev pub enable_retry_max_times : ℕ
enable_retry_max_times = 3

abbrev pub disable_retry_max_times : ℕ
disable_retry_max_times = 3

unfoldable pub account_of : Str → List (Str × Bool) → Bool
account_of network_id [] = false
account_of network_id ((id, same) ∷ ds) =
    if id == network_id then same else account_of network_id ds

unfoldable pub is_identical_account : World → Str → Bool
is_identical_account w network_id =
    if not (is_id_length_valid network_id)
    then false
    else if (length w.trusted_devices == 0) || ltb max_online_device_size (length w.trusted_devices)
    then false
    else account_of network_id w.trusted_devices

abbrev pub check_desc : World → Str → Option Bool → Errno
check_desc w network_id none = resource_key_is_empty
check_desc w network_id (some private) =
    if private && not (is_identical_account w network_id) then component_enable_failed else success

unfoldable pub check_subtype_resource : World → Str → Str → Errno
check_subtype_resource w subtype network_id =
    if w.check_resource then check_desc w network_id (lookup subtype w.resource_desc) else success

unfoldable pub save_need_refresh_task : TaskParam → ComponentManager → ComponentManager
save_need_refresh_task p m = record m {
  need_refresh_task_params = insert (p.network_id, p.dh_id) p m.need_refresh_task_params;
}

abbrev pub fetch_found :
    Option TaskParam → PairKey → ComponentManager → ComponentManager × Option TaskParam
fetch_found none key m = (m, none)
fetch_found (some p) key m =
    (record m { need_refresh_task_params = erase key m.need_refresh_task_params }, some p)

-- The parameters of the task, if there is one, are the out parameter.
unfoldable pub fetch_need_refresh_task :
    PairKey → ComponentManager → ComponentManager × Option TaskParam
fetch_need_refresh_task key m = fetch_found (lookup key m.need_refresh_task_params) key m

abbrev pub is_idle : BusinessState → Bool
is_idle idle = true
is_idle _ = false

-- The second part holds the parameters of the enable task that is created and pushed.
unfoldable pub update_business_state :
    Str → Str → BusinessState → ComponentManager → ComponentManager × Option TaskParam
unfolding fetch_need_refresh_task
update_business_state network_id dh_id state m =
    if not (is_id_length_valid network_id) || not (is_id_length_valid dh_id)
    then (m, none)
    else let m' = record m { dh_biz_states = insert (network_id, dh_id) state m.dh_biz_states } in
      if is_idle state then fetch_need_refresh_task (network_id, dh_id) m' else (m', none)

abbrev pub state_or_unknown : Option BusinessState → BusinessState
state_or_unknown none = unknown
state_or_unknown (some st) = st

-- The key's first part is called uuid here, and network id in UpdateBusinessState.
unfoldable pub query_business_state : Str → Str → ComponentManager → BusinessState
query_business_state uuid dh_id m =
    if not (is_id_length_valid uuid) || not (is_id_length_valid dh_id)
    then unknown
    else state_or_unknown (lookup (uuid, dh_id) m.dh_biz_states)
