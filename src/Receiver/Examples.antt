-- ===== src/Receiver/Examples.antt =====
-- The theorems of Receiver at small inputs.
use multi_hardware.Base.{◌≡◌, refl, true, false, some, none, Option, List, [], ◌∷◌}
use multi_hardware.Base.Str.{Str, str, str_beq}
use multi_hardware.Base.Ints.{ℤ}
use multi_hardware.AvCenter.Center
use multi_hardware.AvCenter.Events.{event_channel_opened}
use multi_hardware.Sender.Types.{success, init_failed, owner_name_d_mic}
use multi_hardware.Sender.Parameters as SenderParameters
use multi_hardware.Sender.Parameters.{video_codec_type, engine_ready}
use multi_hardware.Receiver.Parameters as ReceiverParameters
use multi_hardware.Receiver.Engine.{ReceiverEnv, new_receiver_engine, initialize, release}
use multi_hardware.Receiver.Codecs.{is_input, is_output, some_mimes, sender-receiver_codec}
use multi_hardware.Receiver.Failed.{IsMade, initialize-release_failed}
use multi_hardware.Receiver.Reached.{
  Call, initialize_it, start_it, output_it, register_it, channel_event, release_it, set_it, calls,
  is_fed, calls-is_fed,
}

abbrev no_number : Str → Option ℤ
no_number s = none

sender-receiver_codec_example :
    (some_mimes is_output (SenderParameters.writes_of no_number video_codec_type (str "video/avc"))
      ≡ some_mimes is_input
          (ReceiverParameters.writes_of no_number video_codec_type (str "video/avc")))
    × (some_mimes is_input (SenderParameters.writes_of no_number video_codec_type (str "video/avc"))
        ≡ some_mimes is_output
            (ReceiverParameters.writes_of no_number video_codec_type (str "video/avc")))
sender-receiver_codec_example =
    sender-receiver_codec no_number video_codec_type (str "video/avc") refl

abbrev env : ReceiverEnv
env = record {
  make_input = true;
  make_output = true;
  make_video_decoder = true;
  make_audio_decoder = true;
  add_filters = true;
  link_filters = true;
  init_center = some 1001;
  make_callback = true;
  register_callback = true;
  register_listener = true;
  open_channel = Center.success;
  start_pipeline = true;
  stop_pipeline = true;
  set_media_type = true;
  set_bit_stream_format = true;
  set_media_description = true;
  prepare_pipeline = true;
  to_trans_buffer = true;
  data_available = success;
}

-- The first time the listener is not registered.
abbrev silent : ReceiverEnv
silent = record env { init_center = some 1000; register_listener = false }

env-IsMade : IsMade env 1001
env-IsMade = record {
  make_input = refl;
  make_output = refl;
  make_video_decoder = refl;
  make_audio_decoder = refl;
  add_filters = refl;
  link_filters = refl;
  init_center = refl;
  make_callback = refl;
  register_callback = refl;
}

silent-IsMade : IsMade silent 1000
silent-IsMade = record {
  make_input = refl;
  make_output = refl;
  make_video_decoder = refl;
  make_audio_decoder = refl;
  add_filters = refl;
  link_filters = refl;
  init_center = refl;
  make_callback = refl;
  register_callback = refl;
}

initialize-release_failed_example :
    let (e1, failed) = initialize silent (new_receiver_engine owner_name_d_mic (5 ∷ [])) in
    let (e2, released) = release e1 in
    let (e3, made) = initialize env e2 in
    (failed ≡ init_failed)
    × (released ≡ success)
    × (e2.pipeline ≡ true)
    × (e2.dh_fwk_kit ≡ true)
    × (e2.engine_id ≡ 1000)
    × (made ≡ success)
    × (e3.engine_id ≡ 1001)
unfolding str_beq
initialize-release_failed_example =
    initialize-release_failed silent env 1000 1001 owner_name_d_mic (5 ∷ []) refl silent-IsMade refl
      env-IsMade refl

abbrev script : List Call
script =
    initialize_it env
    ∷ register_it true
    ∷ set_it env no_number engine_ready []
    ∷ channel_event event_channel_opened
    ∷ start_it env
    ∷ output_it env
    ∷ release_it
    ∷ channel_event event_channel_opened
    ∷ []

calls-is_fed_example : is_fed (calls script (new_receiver_engine owner_name_d_mic (5 ∷ []))) ≡ true
calls-is_fed_example = calls-is_fed script owner_name_d_mic (5 ∷ [])
