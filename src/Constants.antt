-- ===== src/Constants.antt =====
-- common/utils/include/constants.h and distributed_hardware_errno.h, the hardware types of
-- device_type.h and the length tests of utils/src/dh_utils_tool.cpp.
pub mod DhType
use multi_hardware.Base.{
  ℕ, ◌*◌, Bool, true, false, not, ◌||◌, List, [], ◌∷◌, length, is_empty, ltb, if◌then◌else◌,
}
use multi_hardware.Base.Str.{Str, str}

-- A return code is an int32_t that the code compares with the named constants only.
pub data Errno : Type 0 where
  success para_invalid type_not_exist json_parse_failed pointer_is_null : Errno
  version_device_id_not_exist : Errno
  component_enable_failed component_disable_failed component_enable_timeout : Errno
  component_disable_timeout component_register_failed component_unregister_failed : Errno
  component_get_sink_version_failed component_dhtype_not_found : Errno
  component_get_enable_param_failed : Errno
  resource_db_adapter_pointer_null resource_db_adapter_operation_fail : Errno
  resource_capability_map_not_found resource_res_db_data_invalid : Errno
  resource_key_is_empty : Errno
  task_timeout : Errno
  hardware_manager_init_failed hardware_manager_device_repeat_online : Errno
  hardware_manager_device_repeat_offline : Errno
  access_init_dm_failed access_register_dm_failed : Errno
  access_uninit_dm_failed access_unregister_dm_failed : Errno
  -- What a component of another library returns.
  other : ℕ → Errno

abbrev pub is_success : Errno → Bool
is_success success = true
is_success _ = false

abbrev pub max_id_len : ℕ
max_id_len = 256

abbrev pub max_db_record_size : ℕ
max_db_record_size = 10000

abbrev pub max_online_device_size : ℕ
max_online_device_size = 10000

abbrev pub max_switch_size : ℕ
max_switch_size = 256

-- "###".
abbrev pub resource_separator : Str
resource_separator = 35 ∷ 35 ∷ 35 ∷ []

abbrev pub is_id_length_valid : Str → Bool
is_id_length_valid input_id =
    if is_empty input_id || ltb max_id_len (length input_id) then false else true

abbrev pub max_arr_size : ℕ
max_arr_size = 10000
