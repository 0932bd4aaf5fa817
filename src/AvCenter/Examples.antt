-- ===== src/AvCenter/Examples.antt =====
-- The theorems of AvCenter at small inputs.
use multi_hardware.Base.Str.{str_beq}
use multi_hardware.Base.{◌≡◌, refl, true, [], ◌∷◌, some, nat_eq}
use multi_hardware.Base.Map.{lookup}
use multi_hardware.AvCenter.Center.{
  is_used, success, av_sender, ControlCenter, Softbus, is_invalid_engine_id, is_connected,
  release_av_center, create_control_channel, channel_opened, handle_channel_event,
}
use multi_hardware.AvCenter.Channels.{release_av_center-create_control_channel}

-- The engines 1000 and 1001 use one device; the next id is 1003.
abbrev center : ControlCenter
center = record {
  trans_role = av_sender;
  initialized = true;
  root_engine_id = 1003;
  session_name = [];
  connected_dev_ids = (5 ∷ []) ∷ [];
  engine_2_dev_id_map = (1000, 5 ∷ []) ∷ (1001, 5 ∷ []) ∷ [];
  callback_map = [];
}

abbrev bus : Softbus
bus = record {
  create_channel_server = success;
  register_channel_listener = success;
  open_softbus_channel = λ peer. success;
}

release_av_center-create_control_channel_example :
    let (c1, created) = create_control_channel bus 1002 (6 ∷ []) center in
    let opened = (handle_channel_event channel_opened [] (6 ∷ []) c1).0 in
    let (c', released, closed) = release_av_center 1002 opened in
    (created ≡ success)
    × (released ≡ success)
    × (closed ≡ some (6 ∷ []))
    × (c'.engine_2_dev_id_map ≡ center.engine_2_dev_id_map)
    × (c'.connected_dev_ids ≡ center.connected_dev_ids)
unfolding is_invalid_engine_id lookup is_used str_beq is_connected
release_av_center-create_control_channel_example =
    release_av_center-create_control_channel bus 1002 (6 ∷ []) [] center refl refl refl refl refl
      refl refl
