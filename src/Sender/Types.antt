-- ===== src/Sender/Types.antt =====
-- av_sender_engine.h: the state of a sender engine, and what it calls. The pipeline and its filters
-- are those of the histreamer library: that a pointer to one is not null is a Boolean.
use multi_hardware.Base.{ℕ, Bool, true, false, Option}
use multi_hardware.Base.Str.{Str, str}
use multi_hardware.AvCenter.Center.{AvTransErrno}

-- Values of av_trans_errno.h.
pub data EngineErrno : Type 0 where
  success invalid_param init_failed start_failed stop_failed setup_failed : EngineErrno
  push_data_failed create_channel_failed channel_already_created : EngineErrno
  invalid_param_value invalid_operation null_pointer prepare_failed set_param_failed : EngineErrno
  ctrl_center_init_fail register_callback_fail output_data_failed : EngineErrno

abbrev pub is_success : EngineErrno → Bool
is_success success = true
is_success _ = false

pub data StateId : Type 0 where
  idle initialized ch_created started playing stopped : StateId

abbrev pub owner_name_d_camera : Str
owner_name_d_camera = str "ohos.dhardware.dcamera"

abbrev pub owner_name_d_screen : Str
owner_name_d_screen = str "ohos.dhardware.dscreen"

abbrev pub owner_name_d_mic : Str
owner_name_d_mic = str "ohos.dhardware.daudio.dmic"

abbrev pub owner_name_d_speaker : Str
owner_name_d_speaker = str "ohos.dhardware.daudio.dspeaker"

abbrev pub owner_name_d_virmodem_mic : Str
owner_name_d_virmodem_mic = str "ohos.dhardware.dcall.dmic"

abbrev pub owner_name_d_virmodem_speaker : Str
owner_name_d_virmodem_speaker = str "ohos.dhardware.dcall.dspeaker"

-- `pipeline` says whether the pointer is not null, `pipeline_runs` whether the last Start of what it
-- points to was not followed by a Stop.
pub record SenderEngine : Type 0 where
  pub owner_name : Str
  pub peer_dev_id : Str
  pub is_initialized : Bool
  pub engine_id : ℕ
  pub current_state : StateId
  pub pipeline : Bool
  pub pipeline_runs : Bool
  pub dh_fwk_kit : Bool
  pub av_input : Bool
  pub av_output : Bool
  pub audio_encoder : Bool
  pub video_encoder : Bool
  pub sender_callback : Bool

-- What the calls of the engine return: whether a filter is made and a call of the pipeline, of a
-- filter or of the softbus adapter succeeds. `init_center` is the id that the control center gives,
-- `none` where it fails.
pub record SenderEnv : Type 0 where
  pub make_input : Bool
  pub make_output : Bool
  pub make_video_encoder : Bool
  pub make_audio_encoder : Bool
  pub add_filters : Bool
  pub link_filters : Bool
  pub init_center : Option ℕ
  pub make_callback : Bool
  pub register_callback : Bool
  pub register_listener : Bool
  pub open_channel : AvTransErrno
  pub start_pipeline : Bool
  pub stop_pipeline : Bool
  pub set_media_type : Bool
  pub set_bit_stream_format : Bool
  pub set_memory_type : Bool
  pub set_media_description : Bool
  pub prepare_pipeline : Bool
  pub create_control_channel : ℕ → Str → AvTransErrno
  pub to_his_buffer : Bool
  pub push_input : Bool
  pub video_format : Str
