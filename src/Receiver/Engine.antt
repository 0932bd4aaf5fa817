-- ===== src/Receiver/Engine.antt =====
-- av_receiver_engine.cpp: how an engine is made and released, and its states. The pipeline and its
-- filters are those of the histreamer library: that a pointer to one is not null is a Boolean.
use multi_hardware.Base.{
  ℕ, Bool, true, false, not, ◌&&◌, ◌||◌, Option, none, some, List, [], ◌∷◌, if◌then◌else◌,
}
use multi_hardware.Base.Str.{Str, str_eq}
use multi_hardware.AvCenter.Center.{AvTransErrno}
use multi_hardware.AvCenter.Events.{
  EventType, event_channel_opened, event_channel_open_fail, event_channel_closed,
}
use multi_hardware.Sender.Types.{
  EngineErrno, success, invalid_param, init_failed, start_failed, stop_failed,
  create_channel_failed, invalid_param_value, invalid_operation, null_pointer, prepare_failed,
  set_param_failed, ctrl_center_init_fail, register_callback_fail, output_data_failed, is_success,
  StateId, idle, initialized, ch_created, started, playing, stopped,
}
use multi_hardware.Sender.Setup.{is_video_owner, is_audio_owner, opened_result}
use multi_hardware.Sender.Engine.{is_ch_created, is_running, may_prepare, has_no_channel}

pub record ReceiverEngine : Type 0 where
  pub owner_name : Str
  pub peer_dev_id : Str
  pub is_initialized : Bool
  pub engine_id : ℕ
  pub current_state : StateId
  pub pipeline : Bool
  pub dh_fwk_kit : Bool
  pub av_input : Bool
  pub av_output : Bool
  pub audio_decoder : Bool
  pub video_decoder : Bool
  pub receiver_callback : Bool

-- What the calls of the engine return: whether a filter is made, a buffer is converted and a call of
-- the pipeline, of a filter or of the softbus adapter succeeds. `init_center` is the id that the
-- control center gives, `none` where it fails; `data_available` is the result of the callback.
pub record ReceiverEnv : Type 0 where
  pub make_input : Bool
  pub make_output : Bool
  pub make_video_decoder : Bool
  pub make_audio_decoder : Bool
  pub add_filters : Bool
  pub link_filters : Bool
  pub init_center : Option ℕ
  pub make_callback : Bool
  pub register_callback : Bool
  pub register_listener : Bool
  pub open_channel : AvTransErrno
  pub start_pipeline : Bool
  pub stop_pipeline : Bool
  pub set_media_type : Bool
  pub set_bit_stream_format : Bool
  pub set_media_description : Bool
  pub prepare_pipeline : Bool
  pub to_trans_buffer : Bool
  pub data_available : EngineErrno

unfoldable pub new_receiver_engine : Str → Str → ReceiverEngine
new_receiver_engine owner_name peer_dev_id = record {
  owner_name = owner_name;
  peer_dev_id = peer_dev_id;
  is_initialized = false;
  engine_id = 0;
  current_state = idle;
  pipeline = false;
  dh_fwk_kit = false;
  av_input = false;
  av_output = false;
  audio_decoder = false;
  video_decoder = false;
  receiver_callback = false;
}

abbrev pub is_state_idle : StateId → Bool
is_state_idle idle = true
is_state_idle _ = false

module _ (env : ReceiverEnv) where
  -- A filter that is made stays also where a later one fails.
  unfoldable pub init_pipeline : ReceiverEngine → ReceiverEngine × EngineErrno
  init_pipeline e =
      let e1 = record e { av_input = env.make_input } in
      let e2 = record e1 { av_output = env.make_output } in
      let e3 = record e2 { video_decoder = env.make_video_decoder } in
      let e4 = record e3 { audio_decoder = env.make_audio_decoder } in
      let e5 = record e4 { pipeline = true } in
      if not env.make_input
      then (e1, null_pointer)
      else if not env.make_output
      then (e2, null_pointer)
      else if not env.make_video_decoder
      then (e3, null_pointer)
      else if not env.make_audio_decoder
      then (e4, null_pointer)
      else if not (is_video_owner e.owner_name) && not (is_audio_owner e.owner_name)
      then (e5, invalid_param_value)
      else if env.add_filters && env.link_filters
      then (e5, success)
      else (e5, invalid_operation)

  -- The engine id is an out parameter; where the center fails it is not used.
  abbrev pub init_with_id : Option ℕ → ReceiverEngine → ReceiverEngine × EngineErrno
  init_with_id none e = (record e { dh_fwk_kit = true }, ctrl_center_init_fail)
  init_with_id (some id) e =
      let e1 = record e { dh_fwk_kit = true; engine_id = id } in
      if not env.make_callback
      then (e1, register_callback_fail)
      else if not env.register_callback
      then (e1, register_callback_fail)
      else (e1, success)

  unfoldable pub init_control_center : ReceiverEngine → ReceiverEngine × EngineErrno
  init_control_center e = init_with_id env.init_center e

  abbrev pub initialize_listening : ReceiverEngine × EngineErrno → ReceiverEngine × EngineErrno
  initialize_listening (e, ret) =
      if not (is_success ret)
      then (e, init_failed)
      else if not env.register_listener
      then (e, init_failed)
      else (record e { is_initialized = true; current_state = initialized }, success)

  abbrev pub initialize_center : ReceiverEngine × EngineErrno → ReceiverEngine × EngineErrno
  initialize_center (e, ret) =
      if not (is_success ret)
      then (e, init_failed)
      else initialize_listening (init_control_center e)

  unfoldable pub initialize : ReceiverEngine → ReceiverEngine × EngineErrno
  unfolding init_pipeline init_control_center
  initialize e = if e.is_initialized then (e, success) else initialize_center (init_pipeline e)

  -- CreateControlChannel to the first of the devices.
  unfoldable pub create_control_channel : List Str → ReceiverEngine → ReceiverEngine × EngineErrno
  create_control_channel [] e = (e, null_pointer)
  create_control_channel (peer ∷ peers) e =
      let e1 = record e { peer_dev_id = peer } in
      if not env.register_listener
      then (e1, create_channel_failed)
      else (e1, opened_result env.open_channel)

  unfoldable pub prepare_pipeline : ReceiverEngine → ReceiverEngine × EngineErrno
  prepare_pipeline e =
      if not (may_prepare e.current_state)
      then (e, prepare_failed)
      else if not e.av_input || not e.av_output
      then (e, prepare_failed)
      else if not env.set_media_type
      then (e, set_param_failed)
      else if not env.set_bit_stream_format
      then (e, set_param_failed)
      else if not env.set_media_description
      then (e, set_param_failed)
      else if not e.pipeline
      then (e, set_param_failed)
      else if not env.prepare_pipeline
      then (e, prepare_failed)
      else (record e { current_state = ch_created }, success)

  unfoldable pub start : ReceiverEngine → ReceiverEngine × EngineErrno
  start e =
      if not (is_ch_created e.current_state)
      then (e, start_failed)
      else if not e.pipeline
      then (e, start_failed)
      else if not env.start_pipeline
      then (e, start_failed)
      else (record e { current_state = started }, success)

  -- Without a pipeline the error is that of Start.
  unfoldable pub stop : ReceiverEngine → ReceiverEngine × EngineErrno
  stop e =
      if not e.pipeline
      then (e, start_failed)
      else if not env.stop_pipeline
      then (e, stop_failed)
      else (record e { current_state = stopped }, success)

  unfoldable pub handle_output_buffer : ReceiverEngine → ReceiverEngine × EngineErrno
  handle_output_buffer e =
      let plays = record e { current_state = playing } in
      if not (is_running e.current_state)
      then (e, output_data_failed)
      else if not env.to_trans_buffer
      then (e, output_data_failed)
      else if not e.receiver_callback
      then (plays, output_data_failed)
      else (plays, env.data_available)

-- What Release closes and unregisters is not in the state.
unfoldable pub release : ReceiverEngine → ReceiverEngine × EngineErrno
release e = if is_state_idle e.current_state then (e, success) else (
  record e {
    is_initialized = false;
    pipeline = false;
    dh_fwk_kit = false;
    av_input = false;
    av_output = false;
    audio_decoder = false;
    video_decoder = false;
    current_state = idle;
  },
  success,
)

-- The argument says whether the callback is not null.
unfoldable pub register_receiver_callback : Bool → ReceiverEngine → ReceiverEngine × EngineErrno
register_receiver_callback given e =
    if not given then (e, invalid_param) else (record e { receiver_callback = true }, success)

abbrev pub on_event : EventType → ReceiverEngine → ReceiverEngine
on_event event_channel_opened e = record e { current_state = ch_created }
on_event event_channel_open_fail e = record e { current_state = initialized }
on_event event_channel_closed e =
    if has_no_channel e.current_state then e else record e { current_state = initialized }
on_event _ e = e

-- OnChannelEvent, less what the callback does with the event or the message.
unfoldable pub on_channel_event : EventType → ReceiverEngine → ReceiverEngine
on_channel_event type e = if not e.receiver_callback then e else on_event type e
