-- ===== src/Receiver/Parameters.antt =====
-- av_receiver_engine.cpp: SetParameter. What it sets on a filter is a list of writes; the number of a
-- text is read by std::stoi, which throws where there is none.
use multi_hardware.Base.{not, ◌||◌, Option, some, List, [], ◌∷◌, ◌==◌, if◌then◌else◌}
use multi_hardware.Base.Str.{Str, str, str_eq}
use multi_hardware.Base.Ints.{ℤ}
use multi_hardware.Sender.Types.{EngineErrno, success, invalid_param, setup_failed}
use multi_hardware.Sender.Parameters.{
  AvTransTag, video_width, video_height, video_pixel_format, video_frame_rate, audio_bit_rate,
  video_bit_rate, video_codec_type, audio_codec_type, audio_channel_mask, audio_sample_rate,
  audio_channel_layout, audio_sample_format, audio_frame_size, shared_memory_fd, engine_ready,
  engine_pause, engine_resume, time_sync_result, start_av_sync, stop_av_sync, undefined, input,
  output, PluginTag, width, height, frame_rate, media_bitrate, mime, channels, sample_rate,
  channel_layout, sample_format, sample_per_frame, user_shared_memory_fd, user_time_sync_result,
  user_av_sync_group_info, text, video_raw, video_h264, video_h265, audio_raw, audio_aac, Write,
  write_to, number_of,
}
use multi_hardware.Receiver.Engine.{ReceiverEngine, ReceiverEnv, prepare_pipeline}

unfoldable pub video_codec_writes : Str → List Write
video_codec_writes value =
    if value == str "video/avc"
    then write_to input mime video_h264 ∷ write_to output mime video_raw ∷ []
    else if value == str "video/hevc"
    then write_to input mime video_h265 ∷ write_to output mime video_raw ∷ []
    else []

abbrev pub audio_codec_writes : List Write
audio_codec_writes = write_to input mime audio_aac ∷ write_to output mime audio_raw ∷ []

-- A text that is handed on to the output filter.
abbrev pub text_write : PluginTag → Str → Option (List Write)
text_write tag value = some (write_to output tag (text value) ∷ [])

module _ (stoi : Str → Option ℤ) where
  -- The setter of each tag, where the filters are there; `none` is an exception.
  unfoldable pub writes_of : AvTransTag → Str → Option (List Write)
  unfolding video_codec_writes
  writes_of video_width value = number_of stoi value (input ∷ []) width
  writes_of video_height value = number_of stoi value (input ∷ []) height
  writes_of video_frame_rate value = number_of stoi value (input ∷ output ∷ []) frame_rate
  writes_of audio_bit_rate value = number_of stoi value (input ∷ []) media_bitrate
  writes_of video_bit_rate value = number_of stoi value (input ∷ []) media_bitrate
  writes_of video_codec_type value = some (video_codec_writes value)
  writes_of audio_codec_type value = some audio_codec_writes
  writes_of audio_channel_mask value = number_of stoi value (input ∷ output ∷ []) channels
  writes_of audio_sample_rate value = number_of stoi value (input ∷ output ∷ []) sample_rate
  writes_of audio_channel_layout value = number_of stoi value (input ∷ output ∷ []) channel_layout
  writes_of audio_sample_format value = number_of stoi value (input ∷ []) sample_format
  writes_of audio_frame_size value = number_of stoi value (input ∷ []) sample_per_frame
  writes_of time_sync_result value = text_write user_time_sync_result value
  writes_of start_av_sync value = text_write user_av_sync_group_info value
  writes_of stop_av_sync value = text_write user_av_sync_group_info value
  writes_of shared_memory_fd value = text_write user_shared_memory_fd value
  writes_of _ value = some []

  abbrev pub set_by_tag :
      ReceiverEnv
      → AvTransTag
      → Str
      → ReceiverEngine
      → ReceiverEngine × Option (List Write) × EngineErrno
  set_by_tag env undefined value e = (e, some [], invalid_param)
  set_by_tag env video_pixel_format value e = (e, some [], invalid_param)
  set_by_tag env engine_pause value e = (e, some [], invalid_param)
  set_by_tag env engine_resume value e = (e, some [], invalid_param)
  set_by_tag env engine_ready value e = ((prepare_pipeline env e).0, some [], success)
  set_by_tag env tag value e = (e, writes_of tag value, success)

  -- The writes and the result; with an exception, `none`, there is no result.
  unfoldable pub set_parameter :
      ReceiverEnv
      → AvTransTag
      → Str
      → ReceiverEngine
      → ReceiverEngine × Option (List Write) × EngineErrno
  unfolding writes_of
  set_parameter env tag value e =
      if not e.av_input || (not e.av_output || not e.pipeline)
      then (e, some [], setup_failed)
      else set_by_tag env tag value e
