-- ===== src/Sender/Engine.antt =====
-- av_sender_engine.cpp: the states of an engine.
use multi_hardware.Base.{
  ℕ, Bool, true, false, not, ◌&&◌, ◌||◌, Option, none, some, List, [], ◌∷◌, ◌==◌, if◌then◌else◌,
}
use multi_hardware.Base.Str.{Str, str, str_eq}
use multi_hardware.AvCenter.Center
use multi_hardware.AvCenter.SyncTypes.{
  scene_type_d_mic, scene_type_d_screen, scene_type_d_speaker, scene_type_d_camera_str,
}
use multi_hardware.AvCenter.Events.{
  EventType, event_channel_opened, event_channel_open_fail, event_channel_closed, event_add_stream,
  event_remove_stream, AvTransEvent,
}
use multi_hardware.Sender.Types.{
  EngineErrno, success, invalid_param, start_failed, stop_failed, push_data_failed,
  create_channel_failed, prepare_failed, set_param_failed, StateId, idle, initialized, ch_created,
  started, playing, stopped, owner_name_d_camera, owner_name_d_screen, owner_name_d_mic,
  owner_name_d_speaker, SenderEngine, SenderEnv,
}

abbrev pub scene_type_d_camera_pic : Str
scene_type_d_camera_pic = str "dcamera_picture"

abbrev pub is_ch_created : StateId → Bool
is_ch_created ch_created = true
is_ch_created _ = false

abbrev pub is_started : StateId → Bool
is_started started = true
is_started _ = false

-- STARTED or PLAYING.
abbrev pub is_running : StateId → Bool
is_running started = true
is_running playing = true
is_running _ = false

abbrev pub may_prepare : StateId → Bool
may_prepare initialized = true
may_prepare ch_created = true
may_prepare _ = false

abbrev pub has_no_channel : StateId → Bool
has_no_channel idle = true
has_no_channel initialized = true
has_no_channel _ = false

-- The events that an engine sends to the control center with its id.
abbrev pub Notes : Type 0
Notes = List (ℕ × AvTransEvent)

module _ (env : SenderEnv) where
  -- The scene of the engine's owner; `none` where NotifyStreamChange returns.
  unfoldable pub scene_of : SenderEngine → Option Str
  scene_of e =
      if e.owner_name == owner_name_d_mic
      then some scene_type_d_mic
      else if e.owner_name == owner_name_d_speaker
      then some scene_type_d_speaker
      else if e.owner_name == owner_name_d_screen
      then some scene_type_d_screen
      else if e.owner_name == owner_name_d_camera
      then if not e.av_input
        then none
        else if env.video_format == str "jpeg"
        then some scene_type_d_camera_pic
        else some scene_type_d_camera_str
      else none

  abbrev pub note_scene : EventType → Option Str → SenderEngine → Notes
  note_scene type none e = []
  note_scene type (some scene) e =
      if not e.dh_fwk_kit
      then []
      else (e.engine_id, record { type = type; content = scene; peer_dev_id = e.peer_dev_id }) ∷ []

  unfoldable pub notify_stream_change : EventType → SenderEngine → Notes
  notify_stream_change type e = note_scene type (scene_of e) e

  -- Where the channel is not created the pipeline has been started and is not stopped.
  unfoldable pub start : SenderEngine → SenderEngine × EngineErrno
  start e =
      let runs = record e { pipeline_runs = true } in
      if not (is_ch_created e.current_state)
      then (e, start_failed)
      else if not e.pipeline
      then (e, start_failed)
      else if not env.start_pipeline
      then (e, start_failed)
      else if e.dh_fwk_kit
          && not (Center.is_success (env.create_control_channel e.engine_id e.peer_dev_id))
      then (runs, create_channel_failed)
      else (record runs { current_state = started }, success)

  unfoldable pub stop : SenderEngine → SenderEngine × EngineErrno × Notes
  stop e =
      let e1 = record e { current_state = stopped; pipeline_runs = false } in
      if not e.pipeline
      then (e, stop_failed, [])
      else if not env.stop_pipeline
      then (e, stop_failed, [])
      else (e1, success, notify_stream_change event_remove_stream e1)

  unfoldable pub push_data : SenderEngine → SenderEngine × EngineErrno × Notes
  push_data e =
      let notes =
        if is_started e.current_state then notify_stream_change event_add_stream e else [] in
      if not (is_running e.current_state)
      then (e, push_data_failed, [])
      else if not e.av_input
      then (e, push_data_failed, notes)
      else if not env.to_his_buffer
      then (e, push_data_failed, notes)
      else if not env.push_input
      then (e, push_data_failed, notes)
      else (record e { current_state = playing }, success, notes)

  unfoldable pub prepare_pipeline : SenderEngine → SenderEngine × EngineErrno
  prepare_pipeline e =
      if not (may_prepare e.current_state)
      then (e, prepare_failed)
      else if not e.av_input || not e.av_output
      then (e, prepare_failed)
      else if not env.set_media_type
      then (e, set_param_failed)
      else if not env.set_bit_stream_format
      then (e, set_param_failed)
      else if not env.set_memory_type
      then (e, set_param_failed)
      else if not env.set_media_description
      then (e, set_param_failed)
      else if not env.prepare_pipeline
      then (e, prepare_failed)
      else (record e { current_state = ch_created }, success)

-- The argument says whether the callback is not null.
unfoldable pub register_sender_callback : Bool → SenderEngine → SenderEngine × EngineErrno
register_sender_callback given e =
    if not given then (e, invalid_param) else (record e { sender_callback = true }, success)

abbrev pub on_event : EventType → SenderEngine → SenderEngine
on_event event_channel_opened e = record e { current_state = ch_created }
on_event event_channel_open_fail e = record e { current_state = initialized }
on_event event_channel_closed e =
    if has_no_channel e.current_state then e else record e { current_state = initialized }
on_event _ e = e

-- OnChannelEvent, less what the callback does with the event or the message.
unfoldable pub on_channel_event : EventType → SenderEngine → SenderEngine
on_channel_event type e = if not e.sender_callback then e else on_event type e
