-- ===== src/Component/Outcomes.antt =====
-- What Enable and Disable do to the set of enabled components, which EnabledCompsDump shows.
use multi_hardware.Base.{
  ℕ, ◌≡◌, Bool, true, not, ◌&&◌, ◌||◌, List, [], ◌∷◌, Option, none, some, arith, nat_eq,
}
use multi_hardware.Base.Map.{lookup}
use multi_hardware.Base.Str.{Str, str_beq_iff}
use multi_hardware.Constants.{Errno, is_success}
use multi_hardware.Version.Manager.{VersionManager}
use multi_hardware.Component.Params.{EnableParam}
use multi_hardware.Component.Parameters.{get_enable_param}
use multi_hardware.Component.Manager.{
  ComponentManager, HidumpCompInfo, same_info, has_info, erase_info, dump_enabled_comp,
  dump_disabled_comp, World,
}
use multi_hardware.Component.Enabling.{
  retry_get_enable_param, enable_attempts, enable_component, disable_component, finish_enable,
  finish_disable, register, enable_with, with_param, disable_attempts, disable_with, empty_param,
}

same_info-cong : (x y z : HidumpCompInfo) → same_info y x ≡ true → same_info y z ≡ same_info x z
unfolding same_info
same_info-cong x y z h =
    ground (arith, str_beq_iff y.network_id x.network_id, str_beq_iff y.dh_id x.dh_id)

same_info-cong_right :
    (x y z : HidumpCompInfo) → same_info x z ≡ true → same_info y z ≡ same_info y x
unfolding same_info
same_info-cong_right x y z h =
    ground (arith, str_beq_iff x.network_id z.network_id, str_beq_iff x.dh_id z.dh_id)

has_info-cong :
    (x z : HidumpCompInfo) (xs : List HidumpCompInfo)
    → has_info x xs ≡ true
    → same_info x z ≡ true
    → has_info z xs ≡ true
unfolding has_info
has_info-cong x z [] h e = ground arith
has_info-cong x z (y ∷ xs) h e = ground (arith, same_info-cong_right x y z, has_info-cong x z xs)

-- After a successful Enable the set of enabled components has the component and what it had.
pub has_info-dump_enabled_comp :
    (x z : HidumpCompInfo) (m : ComponentManager)
    → has_info z (dump_enabled_comp x m).comp_info_set
      ≡ (same_info x z || has_info z m.comp_info_set)
unfolding dump_enabled_comp has_info
has_info-dump_enabled_comp x z m = ground (arith, has_info-cong x z m.comp_info_set)

has_info-erase_info :
    (x z : HidumpCompInfo) (xs : List HidumpCompInfo)
    → has_info z (erase_info x xs) ≡ (not (same_info x z) && has_info z xs)
unfolding has_info erase_info
has_info-erase_info x z [] = ground arith
has_info-erase_info x z (y ∷ xs) =
    ground (arith, same_info-cong x y z, same_info-cong_right x y z, has_info-erase_info x z xs)

pub has_info-dump_disabled_comp :
    (x z : HidumpCompInfo) (m : ComponentManager)
    → has_info z (dump_disabled_comp x m).comp_info_set
      ≡ (not (same_info x z) && has_info z m.comp_info_set)
unfolding dump_disabled_comp
has_info-dump_disabled_comp x z m = has_info-erase_info x z m.comp_info_set

abbrev SameRest : ComponentManager → ComponentManager → Type 0
SameRest m' m =
    (m'.comp_source ≡ m.comp_source)
    × (m'.dh_biz_states ≡ m.dh_biz_states)
    × (m'.need_refresh_task_params ≡ m.need_refresh_task_params)

-- A call that may add the component `x`: `z` is in the set afterwards if it was, or if the call
-- succeeded and `z` is `x`.
abbrev pub EnableOutcome :
    HidumpCompInfo → HidumpCompInfo → ComponentManager → ComponentManager × Errno → Type 0
EnableOutcome x z m (m', ret) =
    (has_info z m'.comp_info_set
      ≡ ((is_success ret && same_info x z) || has_info z m.comp_info_set))
    × SameRest m' m

-- A call that may remove the component `x`.
abbrev pub DisableOutcome :
    HidumpCompInfo → HidumpCompInfo → ComponentManager → ComponentManager × Errno → Type 0
DisableOutcome x z m (m', ret) =
    (has_info z m'.comp_info_set
      ≡ (not (is_success ret && same_info x z) && has_info z m.comp_info_set))
    × SameRest m' m

dump_enabled_comp-frame :
    (x : HidumpCompInfo) (m : ComponentManager) → SameRest (dump_enabled_comp x m) m
unfolding dump_enabled_comp
dump_enabled_comp-frame x m = ground arith

dump_disabled_comp-frame :
    (x : HidumpCompInfo) (m : ComponentManager) → SameRest (dump_disabled_comp x m) m
unfolding dump_disabled_comp
dump_disabled_comp-frame x m = ground arith

finish_enable-outcome :
    (x z : HidumpCompInfo) (ret : Errno) (m : ComponentManager)
    → EnableOutcome x z m (finish_enable x ret m)
finish_enable-outcome x z ret m =
    ground (arith, dump_enabled_comp-frame x m, has_info-dump_enabled_comp x z m)

finish_disable-outcome :
    (x z : HidumpCompInfo) (ret : Errno) (m : ComponentManager)
    → DisableOutcome x z m (finish_disable x ret m)
finish_disable-outcome x z ret m =
    ground (arith, dump_disabled_comp-frame x m, has_info-dump_disabled_comp x z m)

abbrev pub info_of : Str → ℕ → Str → HidumpCompInfo
info_of network_id dh_type dh_id = record {
  network_id = network_id;
  dh_type = dh_type;
  dh_id = dh_id;
}

register-outcome :
    (w : World) (network_id dh_id : Str) (dh_type : ℕ) (handler : Bool) (param : EnableParam)
    (m : ComponentManager) (z : HidumpCompInfo)
    → EnableOutcome
        (info_of network_id dh_type dh_id)
        z
        m
        (register w network_id dh_id dh_type handler param m)
register-outcome w network_id dh_id dh_type handler param m z = ground (
  arith,
  finish_enable-outcome (info_of network_id dh_type dh_id) z
      (enable_attempts w network_id dh_id handler) m,
)

with_param-outcome :
    (w : World) (network_id uuid dh_id : Str) (dh_type : ℕ) (handler : Bool)
    (got : VersionManager × Errno × EnableParam) (m : ComponentManager) (z : HidumpCompInfo)
    → EnableOutcome
        (info_of network_id dh_type dh_id)
        z
        m
        (with_param w network_id uuid dh_id dh_type handler got m)
with_param-outcome w network_id uuid dh_id dh_type handler got m z =
    let again = retry_get_enable_param w network_id uuid dh_id dh_type got.2 got.0 in
    ground (
      arith,
      register-outcome w network_id dh_id dh_type handler got.2 (record m { versions = got.0 }) z,
      register-outcome w network_id dh_id dh_type handler again.2 (record m { versions = again.0 })
          z,
    )

enable_with-outcome :
    (w : World) (network_id uuid dh_id : Str) (dh_type : ℕ) (found : Option Bool)
    (m : ComponentManager) (z : HidumpCompInfo)
    → EnableOutcome
        (info_of network_id dh_type dh_id)
        z
        m
        (enable_with w network_id uuid dh_id dh_type found m)
enable_with-outcome w network_id uuid dh_id dh_type none m z = ground arith
enable_with-outcome w network_id uuid dh_id dh_type (some handler) m z =
    with_param-outcome w network_id uuid dh_id dh_type handler
      (get_enable_param (w.views 0) network_id uuid dh_id dh_type empty_param m.versions) m z

disable_with-outcome :
    (w : World) (network_id dh_id : Str) (dh_type : ℕ) (found : Option Bool) (m : ComponentManager)
    (z : HidumpCompInfo)
    → DisableOutcome
        (info_of network_id dh_type dh_id)
        z
        m
        (disable_with w network_id dh_id dh_type found m)
disable_with-outcome w network_id dh_id dh_type none m z = ground arith
disable_with-outcome w network_id dh_id dh_type (some handler) m z =
    finish_disable-outcome (info_of network_id dh_type dh_id) z
      (disable_attempts w network_id dh_id handler) m

-- After Enable the set of enabled components has an entry with the ids of `z` exactly if it had one
-- before, or if Enable returned success and these are the ids of the component enabled. Neither the
-- handlers nor the business states nor the waiting tasks ever change.
pub enable_component-outcome :
    (w : World) (network_id uuid dh_id : Str) (dh_type : ℕ) (m : ComponentManager)
    (z : HidumpCompInfo)
    → EnableOutcome
        (info_of network_id dh_type dh_id)
        z
        m
        (enable_component w network_id uuid dh_id dh_type m)
unfolding enable_component
enable_component-outcome w network_id uuid dh_id dh_type m z =
    ground (
      arith,
      enable_with-outcome w network_id uuid dh_id dh_type (lookup dh_type m.comp_source) m z,
    )

-- After Disable the set of enabled components has an entry with the ids of `z` exactly if it had one
-- before, and Disable failed or these are not the ids of the component disabled. Neither the handlers nor the business states
-- nor the waiting tasks ever change.
pub disable_component-outcome :
    (w : World) (network_id uuid dh_id : Str) (dh_type : ℕ) (m : ComponentManager)
    (z : HidumpCompInfo)
    → DisableOutcome
        (info_of network_id dh_type dh_id)
        z
        m
        (disable_component w network_id uuid dh_id dh_type m)
unfolding disable_component
disable_component-outcome w network_id uuid dh_id dh_type m z =
    ground
      (arith, disable_with-outcome w network_id dh_id dh_type (lookup dh_type m.comp_source) m z)
