-- ===== src/Channel/Names.antt =====
-- The names of sessions and packages, and the parts of a session's key. Constants of
-- av_trans_constants.h and av_trans_types.h.
use multi_hardware.Base.{
  ℕ, Bool, ◌||◌, [], ◌∷◌, ◌++◌, Option, none, some, ◌==◌, nat_eq, if◌then◌else◌,
}
use multi_hardware.Base.Map.{Map, lookup}
use multi_hardware.Base.Str.{Str, str, str_eq}
use multi_hardware.Capability.Key.{starts_with}
use multi_hardware.AvCenter.Center.{receiver_session_name}
use multi_hardware.Sender.Types.{
  owner_name_d_camera, owner_name_d_screen, owner_name_d_mic, owner_name_d_speaker,
  owner_name_d_virmodem_mic, owner_name_d_virmodem_speaker,
}

abbrev pub sender_control_session_name_suffix : Str
sender_control_session_name_suffix = str "sender.avtrans.control"

abbrev pub receiver_control_session_name_suffix : Str
receiver_control_session_name_suffix = str "receiver.avtrans.control"

abbrev pub sender_data_session_name_suffix : Str
sender_data_session_name_suffix = str "sender.avtrans.data"

abbrev pub receiver_data_session_name_suffix : Str
receiver_data_session_name_suffix = str "receiver.avtrans.data"

abbrev pub sender_session_name : Str
sender_session_name = str "ohos.dhardware.av.sync.sender.control"

abbrev pub av_trans_special_device_id : Str
av_trans_special_device_id = str "av.trans.special.device.id"

abbrev pub pkg_name_dh_fwk : Str
pkg_name_dh_fwk = str "ohos.dhardware"

abbrev pub pkg_name_d_audio : Str
pkg_name_d_audio = str "ohos.dhardware.daudio"

abbrev pub pkg_name_d_call : Str
pkg_name_d_call = str "ohos.dhardware.dcall"

abbrev pub pkg_name_d_camera : Str
pkg_name_d_camera = str "ohos.dhardware.dcamera"

abbrev pub pkg_name_d_screen : Str
pkg_name_d_screen = str "ohos.dhardware.dscreen"

-- first + "_" + second.
abbrev pub join_names : Str → Str → Str
join_names first second = first ++ b'_' ∷ second

-- Both sessions of an owner, each with the other.
abbrev pub session_pair : Str → Str → Str → Map Str Str → Map Str Str
session_pair owner sender receiver rest =
    (join_names owner sender, join_names owner receiver)
    ∷ (join_names owner receiver, join_names owner sender)
    ∷ rest

abbrev pub owner_pairs : Str → Str → Map Str Str → Map Str Str
owner_pairs sender receiver rest = session_pair owner_name_d_mic sender receiver (
    session_pair owner_name_d_speaker sender receiver (
      session_pair owner_name_d_screen sender receiver (
        session_pair owner_name_d_virmodem_mic sender receiver
          (session_pair owner_name_d_virmodem_speaker sender receiver rest))))

unfoldable pub local_to_peer_session_name_map : Map Str Str
local_to_peer_session_name_map =
    owner_pairs sender_control_session_name_suffix receiver_control_session_name_suffix (
      (sender_session_name, receiver_session_name)
      ∷ (receiver_session_name, sender_session_name)
      ∷ owner_pairs sender_data_session_name_suffix receiver_data_session_name_suffix [])

abbrev pub or_empty : Option Str → Str
or_empty none = []
or_empty (some s) = s

unfoldable pub find_sess_name_by_peer_sess_name : Str → Str
find_sess_name_by_peer_sess_name peer_session_name =
    or_empty (lookup peer_session_name local_to_peer_session_name_map)

unfoldable pub trans_name_2_pkg_name : Str → Str
trans_name_2_pkg_name owner_name = or_empty (
    lookup owner_name (
      (owner_name_d_mic, pkg_name_d_audio)
      ∷ (owner_name_d_virmodem_mic, pkg_name_d_call)
      ∷ (owner_name_d_camera, pkg_name_d_camera)
      ∷ (owner_name_d_screen, pkg_name_d_screen)
      ∷ (owner_name_d_speaker, pkg_name_d_audio)
      ∷ (owner_name_d_virmodem_speaker, pkg_name_d_call)
      ∷ (sender_session_name, pkg_name_dh_fwk)
      ∷ (receiver_session_name, pkg_name_dh_fwk)
      ∷ []))

-- text.find(part) finds it.
unfoldable pub contains : Str → Str → Bool
unfolding starts_with
contains part [] = starts_with part []
contains part (c ∷ s) = starts_with part (c ∷ s) || contains part s

abbrev pub cons_front : ℕ → Option Str → Option Str
cons_front c none = none
cons_front c (some s) = some (c ∷ s)

-- The text before the first '_', and the text after the last one.
unfoldable pub before_underscore : Str → Option Str
before_underscore [] = none
before_underscore (c ∷ s) = if c == b'_' then some [] else cons_front c (before_underscore s)

abbrev pub later_or : Option Str → Option Str → Option Str
later_or none first = first
later_or (some s) first = some s

unfoldable pub after_underscore : Str → Option Str
after_underscore [] = none
after_underscore (c ∷ s) = later_or (after_underscore s) (if c == b'_' then some s else none)

abbrev pub owner_or : Option Str → Str → Str
owner_or (some owner) sess_name = owner
owner_or none sess_name =
    if (sess_name == sender_session_name) || (sess_name == receiver_session_name)
    then sess_name
    else []

unfoldable pub get_owner_from_sess_name : Str → Str
unfolding before_underscore
get_owner_from_sess_name sess_name = owner_or (before_underscore sess_name) sess_name
