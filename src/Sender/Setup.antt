-- ===== src/Sender/Setup.antt =====
-- av_sender_engine.cpp: how an engine is made, and how it is released.
use multi_hardware.Base.{
  ℕ, Bool, true, false, not, ◌&&◌, ◌||◌, Option, none, some, List, [], ◌∷◌, ◌==◌, if◌then◌else◌,
}
use multi_hardware.Base.Str.{Str, str_eq}
use multi_hardware.Sender.Types.{
  EngineErrno, success, init_failed, create_channel_failed, channel_already_created,
  invalid_param_value, invalid_operation, null_pointer, ctrl_center_init_fail,
  register_callback_fail, is_success, idle, initialized, owner_name_d_camera, owner_name_d_screen,
  owner_name_d_mic, owner_name_d_speaker, owner_name_d_virmodem_mic, owner_name_d_virmodem_speaker,
  SenderEngine, SenderEnv,
}
use multi_hardware.AvCenter.Center
use multi_hardware.AvCenter.Center.{session_has_opened, AvTransErrno}

unfoldable pub new_sender_engine : Str → Str → SenderEngine
new_sender_engine owner_name peer_dev_id = record {
  owner_name = owner_name;
  peer_dev_id = peer_dev_id;
  is_initialized = false;
  engine_id = 0;
  current_state = idle;
  pipeline = false;
  pipeline_runs = false;
  dh_fwk_kit = false;
  av_input = false;
  av_output = false;
  audio_encoder = false;
  video_encoder = false;
  sender_callback = false;
}

abbrev pub is_video_owner : Str → Bool
is_video_owner owner = (owner == owner_name_d_screen) || (owner == owner_name_d_camera)

abbrev pub is_audio_owner : Str → Bool
is_audio_owner owner =
    (owner == owner_name_d_mic)
    || (owner == owner_name_d_speaker)
    || (owner == owner_name_d_virmodem_mic)
    || (owner == owner_name_d_virmodem_speaker)

abbrev pub opened_result : AvTransErrno → EngineErrno
opened_result session_has_opened = channel_already_created
opened_result ret = if Center.is_success ret then success else create_channel_failed

module _ (env : SenderEnv) where
  -- InitPipeline: a filter that is made stays also where a later one fails.
  unfoldable pub init_pipeline : SenderEngine → SenderEngine × EngineErrno
  init_pipeline e =
      let e1 = record e { av_input = env.make_input } in
      let e2 = record e1 { av_output = env.make_output } in
      let e3 = record e2 { video_encoder = env.make_video_encoder } in
      let e4 = record e3 { audio_encoder = env.make_audio_encoder } in
      let e5 = record e4 { pipeline = true; pipeline_runs = false } in
      if not env.make_input
      then (e1, null_pointer)
      else if not env.make_output
      then (e2, null_pointer)
      else if not env.make_video_encoder
      then (e3, null_pointer)
      else if not env.make_audio_encoder
      then (e4, null_pointer)
      else if not (is_video_owner e.owner_name) && not (is_audio_owner e.owner_name)
      then (e5, invalid_param_value)
      else if env.add_filters && env.link_filters
      then (e5, success)
      else (e5, invalid_operation)

  -- The engine id is an out parameter; where the center fails it is not used.
  abbrev pub init_with_id : Option ℕ → SenderEngine → SenderEngine × EngineErrno
  init_with_id none e = (record e { dh_fwk_kit = true }, ctrl_center_init_fail)
  init_with_id (some id) e =
      let e1 = record e { dh_fwk_kit = true; engine_id = id } in
      if not env.make_callback
      then (e1, register_callback_fail)
      else if not env.register_callback
      then (e1, register_callback_fail)
      else (e1, success)

  unfoldable pub init_control_center : SenderEngine → SenderEngine × EngineErrno
  init_control_center e = init_with_id env.init_center e

  abbrev pub initialize_listening : SenderEngine × EngineErrno → SenderEngine × EngineErrno
  initialize_listening (e, ret) =
      if not (is_success ret)
      then (e, init_failed)
      else if not env.register_listener
      then (e, init_failed)
      else (record e { is_initialized = true; current_state = initialized }, success)

  abbrev pub initialize_center : SenderEngine × EngineErrno → SenderEngine × EngineErrno
  initialize_center (e, ret) =
      if not (is_success ret)
      then (e, init_failed)
      else initialize_listening (init_control_center e)

  unfoldable pub initialize : SenderEngine → SenderEngine × EngineErrno
  unfolding init_pipeline init_control_center
  initialize e = if e.is_initialized then (e, success) else initialize_center (init_pipeline e)

  -- CreateControlChannel to the first of the devices.
  unfoldable pub create_control_channel : List Str → SenderEngine → SenderEngine × EngineErrno
  create_control_channel [] e = (e, null_pointer)
  create_control_channel (peer ∷ peers) e =
      let e1 = record e { peer_dev_id = peer } in
      if not env.register_listener
      then (e1, create_channel_failed)
      else (e1, opened_result env.open_channel)

-- Release; what it closes and unregisters is not in the state.
unfoldable pub release : SenderEngine → SenderEngine × EngineErrno
release e = (
  record e {
    is_initialized = false;
    pipeline = false;
    pipeline_runs = false;
    dh_fwk_kit = false;
    av_input = false;
    av_output = false;
    audio_encoder = false;
    video_encoder = false;
    sender_callback = false;
    current_state = idle;
  },
  success,
)
