-- ===== src/Receiver/Codecs.antt =====
-- What the two engines tell their filters of the same parameter.
use multi_hardware.Base.{
  ◌≡◌, Bool, true, false, List, [], ◌∷◌, Option, none, some, arith, if◌then◌else◌,
}
use multi_hardware.Base.Str.{Str, str_eq}
use multi_hardware.Base.Ints.{ℤ}
use multi_hardware.Sender.Parameters as SenderParameters
use multi_hardware.Sender.Parameters.{
  AvTransTag, video_width, video_height, video_frame_rate, audio_bit_rate, video_bit_rate,
  video_codec_type, audio_codec_type, audio_channel_mask, audio_sample_rate, audio_channel_layout,
  audio_sample_format, audio_frame_size, Filter, input, output, video_encoder, audio_encoder,
  PluginTag, mime, ParamValue, Write,
}
use multi_hardware.Receiver.Parameters as ReceiverParameters

abbrev pub is_input : Filter → Bool
is_input input = true
is_input _ = false

abbrev pub is_output : Filter → Bool
is_output output = true
is_output _ = false

abbrev pub is_mime : PluginTag → Bool
is_mime mime = true
is_mime _ = false

-- The media types that are written to the filter of which the test holds.
abbrev pub mimes_of : (Filter → Bool) → List Write → List ParamValue
mimes_of test [] = []
mimes_of test (w ∷ ws) =
    if test w.filter
    then if is_mime w.tag then w.value ∷ mimes_of test ws else mimes_of test ws
    else mimes_of test ws

abbrev pub some_mimes : (Filter → Bool) → Option (List Write) → List ParamValue
some_mimes test none = []
some_mimes test (some ws) = mimes_of test ws

abbrev pub is_codec : AvTransTag → Bool
is_codec video_codec_type = true
is_codec audio_codec_type = true
is_codec _ = false

-- The numbers that both engines set.
abbrev pub is_number : AvTransTag → Bool
is_number video_width = true
is_number video_height = true
is_number video_frame_rate = true
is_number audio_bit_rate = true
is_number video_bit_rate = true
is_number audio_channel_mask = true
is_number audio_sample_rate = true
is_number audio_channel_layout = true
is_number audio_sample_format = true
is_number audio_frame_size = true
is_number _ = false

-- For every value of a codec, a known one or not, the sender's output has the media type of the
-- receiver's input, and the sender's input that of the receiver's output.
pub sender-receiver_codec :
    (stoi : Str → Option ℤ) (tag : AvTransTag) (value : Str)
    → is_codec tag ≡ true
    → (some_mimes is_output (SenderParameters.writes_of stoi tag value)
        ≡ some_mimes is_input (ReceiverParameters.writes_of stoi tag value))
      × (some_mimes is_input (SenderParameters.writes_of stoi tag value)
          ≡ some_mimes is_output (ReceiverParameters.writes_of stoi tag value))
unfolding SenderParameters.writes_of ReceiverParameters.writes_of
    SenderParameters.video_codec_writes ReceiverParameters.video_codec_writes
sender-receiver_codec stoi tag value h = ground arith

-- For every tag of a number, the two engines set the same parameters of the same filters to it, and
-- an exception for a text without a number comes from both.
pub sender-receiver_number :
    (stoi : Str → Option ℤ) (tag : AvTransTag) (value : Str)
    → is_number tag ≡ true
    → SenderParameters.writes_of stoi tag value ≡ ReceiverParameters.writes_of stoi tag value
unfolding SenderParameters.writes_of ReceiverParameters.writes_of
sender-receiver_number stoi tag value h = ground arith
