-- ===== src/Channel/Callbacks.antt =====
-- softbus_channel_adapter.cpp: the listeners, and what the softbus calls.
use multi_hardware.Base.{
  ℕ, Bool, not, ◌||◌, List, [], ◌∷◌, Option, none, some, length, is_empty, ltb, ◌==◌, nat_eq,
  if◌then◌else◌,
}
use multi_hardware.Base.Map.{Map, lookup, insert, emplace, erase}
use multi_hardware.Base.Str.{Str, str_eq}
use multi_hardware.Context.Defs.{set_insert, set_erase}
use multi_hardware.AvCenter.Events.{
  event_channel_opened, event_channel_open_fail, event_channel_closed, event_data_received,
  event_time_sync_result, AvTransEvent,
}
use multi_hardware.Channel.Names.{
  join_names, after_underscore, find_sess_name_by_peer_sess_name, get_owner_from_sess_name,
  av_trans_special_device_id,
}
use multi_hardware.Channel.Adapter.{
  AdapterErrno, success, invalid_param, send_data_failed, time_sync_failed, ChannelAdapter,
  SoftbusEnv, Effect, spawn, listener_event, listener_stream, max_recv_data_len, keys_with,
  get_sess_id_by_sess_name, is_listening, spawn_all,
}

abbrev pub send_stream_in : SoftbusEnv → Option ℕ → AdapterErrno
send_stream_in env none = send_data_failed
send_stream_in env (some id) = if env.send then success else send_data_failed

-- The two Booleans say that the pointers to the stream and to its extension are not null.
unfoldable pub send_stream_data :
    SoftbusEnv → Str → Str → Bool → Bool → ChannelAdapter → AdapterErrno
unfolding get_sess_id_by_sess_name
send_stream_data env sess_name peer_dev_id stream ext a =
    if is_empty sess_name || (is_empty peer_dev_id || (not stream || not ext))
    then invalid_param
    else send_stream_in env (get_sess_id_by_sess_name sess_name peer_dev_id a)

abbrev pub put_listener : Str → Option ℕ → ChannelAdapter → ChannelAdapter × AdapterErrno
put_listener key none a = (a, invalid_param)
put_listener key (some l) a =
    (record a { listener_map = insert key (some l) a.listener_map }, success)

unfoldable pub register_channel_listener :
    Str → Str → Option ℕ → ChannelAdapter → ChannelAdapter × AdapterErrno
register_channel_listener sess_name peer_dev_id listener a =
    if is_empty sess_name || is_empty peer_dev_id
    then (a, invalid_param)
    else put_listener (join_names sess_name peer_dev_id) listener a

unfoldable pub un_register_channel_listener :
    Str → Str → ChannelAdapter → ChannelAdapter × AdapterErrno
un_register_channel_listener sess_name peer_dev_id a =
    let key = join_names sess_name peer_dev_id in
    if is_empty sess_name || is_empty peer_dev_id
    then (a, invalid_param)
    else (record a { listener_map = erase key a.listener_map }, success)

unfoldable pub start_device_time_sync :
    SoftbusEnv → Str → Str → ChannelAdapter → ChannelAdapter × AdapterErrno
start_device_time_sync env sess_name peer_dev_id a =
    let key = join_names sess_name peer_dev_id in
    if is_empty peer_dev_id
    then (a, invalid_param)
    else if not env.start_time_sync
    then (a, time_sync_failed)
    else (record a { time_sync_sess_names = set_insert key a.time_sync_sess_names }, success)

unfoldable pub stop_device_time_sync :
    SoftbusEnv → Str → Str → ChannelAdapter → ChannelAdapter × AdapterErrno
stop_device_time_sync env sess_name peer_dev_id a =
    let key = join_names sess_name peer_dev_id in
    if is_empty peer_dev_id
    then (a, invalid_param)
    else if not env.stop_time_sync
    then (a, time_sync_failed)
    else (record a { time_sync_sess_names = set_erase key a.time_sync_sess_names }, success)

-- The loop over the listeners that are left: each that listens to the name gets the session.
unfoldable pub take_session : Str → ℕ → Map Str (Option ℕ) → Map Str ℕ → Map Str ℕ
take_session name id [] m = m
take_session name id ((key, listener) ∷ listeners) m =
    take_session name id listeners (if is_listening name key listener then insert key id m else m)

-- `result` is 0 where the session was opened.
unfoldable pub on_softbus_channel_opened :
    Str → ℕ → Str → ℕ → ChannelAdapter → ChannelAdapter × AdapterErrno × List Effect
unfolding take_session keys_with
on_softbus_channel_opened peer_session_name session_id peer_dev_id result a =
    let name = find_sess_name_by_peer_sess_name peer_session_name in
    let event : AvTransEvent = record {
      type = if result == 0 then event_channel_opened else event_channel_open_fail;
      content = name;
      peer_dev_id = peer_dev_id;
    } in
    let taken = take_session name session_id a.listener_map a.dev_id_2_sess_id_map in
    if is_empty peer_session_name || (is_empty peer_dev_id || is_empty name)
    then (a, invalid_param, [])
    else (
      record a { dev_id_2_sess_id_map = emplace (join_names name peer_dev_id) session_id taken },
      success,
      spawn_all (keys_with (is_listening name) a.listener_map) event,
    )

-- The device of a key, but the special one.
abbrev pub peer_of : Option Str → Option Str
peer_of none = none
peer_of (some peer) = if peer == av_trans_special_device_id then none else some peer

abbrev pub first_peer : List Str → Str
first_peer [] = []
first_peer (key ∷ keys) = elim (peer_of (after_underscore key)) [
  | none ↦ first_peer keys
  | some peer ↦ peer
]

unfoldable pub get_peer_dev_id_by_sess_id : ℕ → ChannelAdapter → Str
unfolding keys_with after_underscore
get_peer_dev_id_by_sess_id session_id a =
    first_peer (keys_with (λ key id. id == session_id) a.dev_id_2_sess_id_map)

-- The loop that erases the entries of a session.
unfoldable pub erase_session : ℕ → Map Str ℕ → Map Str ℕ
erase_session session_id [] = []
erase_session session_id ((key, id) ∷ entries) =
    if id == session_id
    then erase_session session_id entries
    else (key, id) ∷ erase_session session_id entries

abbrev pub spawn_closed : List Str → Str → List Effect
spawn_closed [] peer = []
spawn_closed (key ∷ keys) peer =
    spawn key (record {
      type = event_channel_closed;
      content = get_owner_from_sess_name key;
      peer_dev_id = peer;
    })
    ∷ spawn_closed keys peer

unfoldable pub on_softbus_channel_closed : ℕ → ChannelAdapter → ChannelAdapter × List Effect
unfolding erase_session keys_with
on_softbus_channel_closed session_id a = (
  record a { dev_id_2_sess_id_map = erase_session session_id a.dev_id_2_sess_id_map },
  spawn_closed (keys_with (λ key id. id == session_id) a.dev_id_2_sess_id_map)
      (get_peer_dev_id_by_sess_id session_id a),
)

-- `none` is a null pointer.
abbrev pub received : ℕ → Option Str → ChannelAdapter → List Effect
received session_id none a = []
received session_id (some text) a =
    if is_empty text || ltb max_recv_data_len (length text)
    then []
    else spawn_all (keys_with (λ key id. id == session_id) a.dev_id_2_sess_id_map) (record {
      type = event_data_received;
      content = text;
      peer_dev_id = get_peer_dev_id_by_sess_id session_id a;
    })

unfoldable pub on_softbus_bytes_received : ℕ → Option Str → ChannelAdapter → List Effect
unfolding get_peer_dev_id_by_sess_id keys_with
on_softbus_bytes_received session_id text a = received session_id text a

-- listenerMap_[key]: a key that is not there gets a null pointer.
abbrev pub listener_at : Option (Option ℕ) → Option ℕ
listener_at none = none
listener_at (some l) = l

abbrev pub touch_listener : Str → ChannelAdapter → ChannelAdapter × Option ℕ
touch_listener key a = (
  record a { listener_map = emplace key none a.listener_map },
  listener_at (lookup key a.listener_map),
)

-- The loop over the keys of the session, which ends at a null pointer.
unfoldable pub send_streams : List Str → ChannelAdapter → ChannelAdapter × List Effect
send_streams [] a = (a, [])
send_streams (key ∷ keys) a =
    let (a1, listener) = touch_listener key a in
    let (a2, effects) = send_streams keys a1 in
    elim listener [ none ↦ (a1, []) | some l ↦ (a2, listener_stream l ∷ effects) ]

unfoldable pub on_softbus_stream_received :
    ℕ → Bool → Bool → ChannelAdapter → ChannelAdapter × List Effect
unfolding send_streams keys_with
on_softbus_stream_received session_id stream ext a =
    if not stream || not ext
    then (a, [])
    else send_streams (keys_with (λ key id. id == session_id) a.dev_id_2_sess_id_map) a

-- The loop over the names of the sessions that synchronise their time.
unfoldable pub send_results :
    List Str → AvTransEvent → ChannelAdapter → ChannelAdapter × List Effect
send_results [] event a = (a, [])
send_results (key ∷ keys) event a =
    let (a1, listener) = touch_listener key a in
    let (a2, effects) = send_results keys event a1 in
    elim listener [ none ↦ (a2, effects) | some l ↦ (a2, listener_event l event ∷ effects) ]

-- `info` is the text of the milliseconds and the target device, `none` for a null pointer.
unfoldable pub on_softbus_time_sync_result :
    Option (Str × Str) → ℕ → ChannelAdapter → ChannelAdapter × List Effect
unfolding send_results
on_softbus_time_sync_result none result a = (a, [])
on_softbus_time_sync_result (some (millisecond, target)) result a =
    if result == 0
    then (a, [])
    else send_results a.time_sync_sess_names
        (record { type = event_time_sync_result; content = millisecond; peer_dev_id = target }) a

-- The body of a thread of SendChannelEvent.
unfoldable pub send_channel_event :
    Str → AvTransEvent → ChannelAdapter → ChannelAdapter × List Effect
send_channel_event sess_name event a =
    let (a', listener) = touch_listener sess_name a in
    elim listener [ none ↦ (a', []) | some l ↦ (a', listener_event l event ∷ []) ]
