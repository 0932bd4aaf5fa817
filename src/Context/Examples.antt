-- ===== src/Context/Examples.antt =====
-- The theorems of Context at small inputs.
use multi_hardware.Base.{refl, [], ◌∷◌, arith}
use multi_hardware.Base.Str.{Str}
use multi_hardware.Context.Defs.{
  DhContext, make_entry, add_online_device, remove_online_device_by_network_id,
}
use multi_hardware.Context.Devices.{IsValid, online_steps-IsValid}

abbrev same : Str → Str
same s = s

-- Two devices: udids 1 and 4, uuids 2 and 5, network ids 3 and 6.
abbrev phone_online : DhContext
phone_online = record {
  dev_id_entry_set = make_entry same (1 ∷ []) (2 ∷ []) (3 ∷ []) ∷ [];
  real_time_network_ids = [];
  connected_dev_ids = [];
}

phone_online-IsValid : IsValid same phone_online
unfolding make_entry
phone_online-IsValid = record { hashed = ((refl, refl), tt); bounded = omega arith }

online_steps-IsValid_example :
    IsValid same (add_online_device same (4 ∷ []) (5 ∷ []) (6 ∷ []) phone_online)
    × IsValid same (remove_online_device_by_network_id (6 ∷ []) phone_online)
online_steps-IsValid_example =
    online_steps-IsValid same (4 ∷ []) (5 ∷ []) (6 ∷ []) phone_online phone_online-IsValid
