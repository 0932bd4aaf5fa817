-- ===== src/Sender/Parameters.antt =====
-- av_sender_engine.cpp: SetParameter. What it sets on a filter is a list of writes; the number of a
-- text is read by std::stoi, which throws where there is none.
use multi_hardware.Base.{not, ◌||◌, Option, none, some, List, [], ◌∷◌, ◌==◌, if◌then◌else◌}
use multi_hardware.Base.Str.{Str, str, str_eq}
use multi_hardware.Base.Ints.{ℤ}
use multi_hardware.Sender.Types.{
  EngineErrno, success, invalid_param, setup_failed, SenderEngine, SenderEnv,
}
use multi_hardware.Sender.Engine.{prepare_pipeline}

pub data AvTransTag : Type 0 where
  video_width video_height video_pixel_format video_frame_rate audio_bit_rate : AvTransTag
  video_bit_rate video_codec_type audio_codec_type audio_channel_mask : AvTransTag
  audio_sample_rate audio_channel_layout audio_sample_format audio_frame_size : AvTransTag
  shared_memory_fd engine_ready engine_pause engine_resume : AvTransTag
  time_sync_result start_av_sync stop_av_sync : AvTransTag
  -- Any other tag.
  undefined : AvTransTag

pub data Filter : Type 0 where
  input output video_encoder audio_encoder : Filter

pub data PluginTag : Type 0 where
  width height pixel_format frame_rate media_bitrate mime channels sample_rate : PluginTag
  channel_layout sample_format sample_per_frame user_shared_memory_fd : PluginTag
  h264_profile h264_level aac_profile : PluginTag
  user_time_sync_result user_av_sync_group_info : PluginTag

pub data ParamValue : Type 0 where
  number : ℤ → ParamValue
  text : Str → ParamValue
  -- Values of the histreamer library.
  rgba video_raw video_h264 video_h265 audio_raw audio_aac baseline level aac_lc : ParamValue

pub record Write : Type 0 where
  pub filter : Filter
  pub tag : PluginTag
  pub value : ParamValue

abbrev pub write_to : Filter → PluginTag → ParamValue → Write
write_to filter tag value = record { filter = filter; tag = tag; value = value }

-- std::stoi is called before each write: where it throws nothing is written.
abbrev pub number_to : List Filter → PluginTag → ℤ → List Write
number_to [] tag n = []
number_to (filter ∷ filters) tag n = write_to filter tag (number n) ∷ number_to filters tag n

abbrev pub number_writes : Option ℤ → List Filter → PluginTag → Option (List Write)
number_writes none filters tag = none
number_writes (some n) filters tag = some (number_to filters tag n)

unfoldable pub video_codec_writes : Str → List Write
video_codec_writes value =
    if value == str "video/avc"
    then write_to video_encoder mime video_h264
      ∷ write_to video_encoder h264_profile baseline
      ∷ write_to video_encoder h264_level level
      ∷ write_to input mime video_raw
      ∷ write_to output mime video_h264
      ∷ []
    else if value == str "video/hevc"
    then write_to video_encoder mime video_h265
      ∷ write_to input mime video_raw
      ∷ write_to output mime video_h265
      ∷ []
    else []

abbrev pub audio_codec_writes : List Write
audio_codec_writes =
    write_to audio_encoder mime audio_aac
    ∷ write_to audio_encoder aac_profile aac_lc
    ∷ write_to input mime audio_raw
    ∷ write_to output mime audio_aac
    ∷ []

module _ (stoi : Str → Option ℤ) where
  abbrev pub number_of : Str → List Filter → PluginTag → Option (List Write)
  number_of value filters tag = number_writes (stoi value) filters tag

  -- The setter of each tag, where the filters are there; `none` is an exception.
  unfoldable pub writes_of : AvTransTag → Str → Option (List Write)
  unfolding video_codec_writes
  writes_of video_width value = number_of value (input ∷ []) width
  writes_of video_height value = number_of value (input ∷ []) height
  writes_of video_pixel_format value = some (write_to input pixel_format rgba ∷ [])
  writes_of video_frame_rate value = number_of value (input ∷ output ∷ []) frame_rate
  writes_of audio_bit_rate value = number_of value (input ∷ []) media_bitrate
  writes_of video_bit_rate value = number_of value (input ∷ []) media_bitrate
  writes_of video_codec_type value = some (video_codec_writes value)
  writes_of audio_codec_type value = some audio_codec_writes
  writes_of audio_channel_mask value = number_of value (input ∷ output ∷ []) channels
  writes_of audio_sample_rate value = number_of value (input ∷ output ∷ []) sample_rate
  writes_of audio_channel_layout value = number_of value (input ∷ output ∷ []) channel_layout
  writes_of audio_sample_format value = number_of value (input ∷ []) sample_format
  writes_of audio_frame_size value = number_of value (input ∷ []) sample_per_frame
  writes_of shared_memory_fd value = some (write_to input user_shared_memory_fd (text value) ∷ [])
  writes_of engine_ready value = some []
  writes_of engine_pause value = some []
  writes_of engine_resume value = some []
  writes_of _ value = some []

  -- The setters of the two codec types test for the audio encoder.
  abbrev pub set_codec :
      AvTransTag → Str → SenderEngine → SenderEngine × Option (List Write) × EngineErrno
  set_codec tag value e =
      if not e.audio_encoder then (e, some [], success) else (e, writes_of tag value, success)

  abbrev pub set_by_tag :
      SenderEnv → AvTransTag → Str → SenderEngine → SenderEngine × Option (List Write) × EngineErrno
  set_by_tag env undefined value e = (e, some [], invalid_param)
  set_by_tag env time_sync_result value e = (e, some [], invalid_param)
  set_by_tag env start_av_sync value e = (e, some [], invalid_param)
  set_by_tag env stop_av_sync value e = (e, some [], invalid_param)
  set_by_tag env engine_ready value e = ((prepare_pipeline env e).0, some [], success)
  set_by_tag env video_codec_type value e = set_codec video_codec_type value e
  set_by_tag env audio_codec_type value e = set_codec audio_codec_type value e
  set_by_tag env tag value e = (e, writes_of tag value, success)

  -- The writes and the result; with an exception, `none`, there is no result.
  unfoldable pub set_parameter :
      SenderEnv → AvTransTag → Str → SenderEngine → SenderEngine × Option (List Write) × EngineErrno
  unfolding writes_of
  set_parameter env tag value e =
      if not e.av_input || (not e.av_output || not e.pipeline)
      then (e, some [], setup_failed)
      else set_by_tag env tag value e
