-- ===== src/Sender/Examples.antt =====
-- The theorems of Sender at small inputs.
use multi_hardware.Base.{false, ◌≡◌, refl, true, some, List, [], ◌∷◌, nat_eq}
use multi_hardware.Base.Map.{lookup}
use multi_hardware.Base.Str.{str_beq}
use multi_hardware.AvCenter.Center
use multi_hardware.AvCenter.Center.{
  ControlCenter, Softbus, av_sender, session_has_opened, is_invalid_engine_id, is_connected,
}
use multi_hardware.AvCenter.Events.{event_channel_opened}
use multi_hardware.Sender.Types.{
  start_failed, stop_failed, push_data_failed, create_channel_failed, ch_created, owner_name_d_mic,
  SenderEngine, SenderEnv,
}
use multi_hardware.Sender.Setup.{release}
use multi_hardware.Sender.Engine.{start, stop, push_data}
use multi_hardware.Sender.Released.{
  Call, create_it, register_it, channel_event, start_it, calls, calls-release,
}
use multi_hardware.Sender.Shared.{start-create_control_channel}

-- Every call succeeds, but that the channel is there already.
abbrev env : SenderEnv
env = record {
  make_input = true;
  make_output = true;
  make_video_encoder = true;
  make_audio_encoder = true;
  add_filters = true;
  link_filters = true;
  init_center = some 1002;
  make_callback = true;
  register_callback = true;
  register_listener = true;
  open_channel = Center.success;
  start_pipeline = true;
  stop_pipeline = true;
  set_media_type = true;
  set_bit_stream_format = true;
  set_memory_type = true;
  set_media_description = true;
  prepare_pipeline = true;
  create_control_channel = λ id peer. Center.channel_already_created;
  to_his_buffer = true;
  push_input = true;
  video_format = [];
}

abbrev engine : SenderEngine
engine = record {
  owner_name = owner_name_d_mic;
  peer_dev_id = 5 ∷ [];
  is_initialized = true;
  engine_id = 1002;
  current_state = ch_created;
  pipeline = true;
  pipeline_runs = false;
  dh_fwk_kit = true;
  av_input = true;
  av_output = true;
  audio_encoder = true;
  video_encoder = true;
  sender_callback = true;
}

abbrev script : List Call
script =
    create_it env ((5 ∷ []) ∷ [])
    ∷ register_it true
    ∷ channel_event event_channel_opened
    ∷ start_it env
    ∷ []

-- The engine 1001 sends to the device 5.
abbrev center : ControlCenter
center = record {
  trans_role = av_sender;
  initialized = true;
  root_engine_id = 1003;
  session_name = [];
  connected_dev_ids = (5 ∷ []) ∷ [];
  engine_2_dev_id_map = (1001, 5 ∷ []) ∷ [];
  callback_map = [];
}

abbrev bus : Softbus
bus = record {
  create_channel_server = Center.success;
  register_channel_listener = Center.success;
  open_softbus_channel = λ peer. Center.success;
}

calls-release_example :
    let e' = calls script (release engine).0 in
    ((start env e').1 ≡ start_failed)
    × ((stop env e').1 ≡ stop_failed)
    × ((push_data env e').1 ≡ push_data_failed)
calls-release_example = calls-release script env engine

start-create_control_channel_example :
    (start env engine ≡ (record engine { pipeline_runs = true }, create_channel_failed))
    × ((push_data env (start env engine).0).1 ≡ push_data_failed)
    × (lookup 1002 (Center.create_control_channel bus 1002 (5 ∷ []) center).0.engine_2_dev_id_map
        ≡ some (5 ∷ []))
unfolding Center.create_control_channel is_invalid_engine_id is_connected str_beq lookup
start-create_control_channel_example =
    start-create_control_channel env engine bus center refl refl refl refl refl refl refl refl refl
