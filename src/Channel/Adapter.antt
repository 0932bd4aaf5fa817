-- ===== src/Channel/Adapter.antt =====
-- softbus_channel_adapter.cpp: the servers, the sessions and the listeners. The sockets and the time
-- synchronisation of the softbus are an interface. A session id is a number, and `none` is -1.
use multi_hardware.Base.{
  ◌==◌, ℕ, Bool, false, not, ◌||◌, List, [], ◌∷◌, Option, none, some, is_empty, ltb, nat_eq,
  if◌then◌else◌,
}
use multi_hardware.Base.Map.{Map, lookup, has, emplace, erase}
use multi_hardware.Base.Str.{Str, str_eq, str_ltb}
use multi_hardware.AvCenter.Events.{event_channel_opened, AvTransEvent}
use multi_hardware.Channel.Names.{join_names, contains}

pub data AdapterErrno : Type 0 where
  success invalid_param session_error session_has_opened send_data_failed : AdapterErrno
  time_sync_failed : AdapterErrno

-- A listener is a number, and `none` a null pointer.
pub record ChannelAdapter : Type 0 where
  pub server_map : Map Str ℕ
  pub time_sync_sess_names : List Str
  pub dev_id_2_sess_id_map : Map Str ℕ
  pub listener_map : Map Str (Option ℕ)

-- What the calls of the softbus return; `socket` is `none` where it fails.
pub record SoftbusEnv : Type 0 where
  pub socket : Option ℕ
  pub listen : Bool
  pub bind : Bool
  pub send : Bool
  pub start_time_sync : Bool
  pub stop_time_sync : Bool

-- What an operation does outside: a socket that is shut down, an event that a new thread sends to a
-- key by SendChannelEvent, bytes that are sent in a session, and a call of a listener.
pub data Effect : Type 0 where
  shutdown : Option ℕ → Effect
  spawn : Str → AvTransEvent → Effect
  send_bytes : ℕ → Str → Effect
  listener_event : ℕ → AvTransEvent → Effect
  listener_stream : ℕ → Effect

abbrev pub max_recv_data_len : ℕ
max_recv_data_len = 104857600

-- The keys of a map that pass a test, in the order in which std::map visits them.
abbrev pub insert_key : Str → List Str → List Str
insert_key key [] = key ∷ []
insert_key key (other ∷ keys) =
    if str_ltb key other then key ∷ other ∷ keys else other ∷ insert_key key keys

unfoldable pub keys_with {ℓ} : {V : Type ℓ} → (Str → V → Bool) → Map Str V → List Str
keys_with test [] = []
keys_with test ((key, value) ∷ entries) =
    if test key value then insert_key key (keys_with test entries) else keys_with test entries

unfoldable pub create_channel_server :
    SoftbusEnv → Str → Str → ChannelAdapter → ChannelAdapter × AdapterErrno
create_channel_server env pkg_name sess_name a =
    let key = join_names pkg_name sess_name in
    if is_empty pkg_name || is_empty sess_name
    then (a, invalid_param)
    else if has key a.server_map
    then (a, success)
    else elim env.socket [
      | none ↦ (a, session_error)
      | some id ↦
          if not env.listen
          then (a, session_error)
          else (record a { server_map = emplace key id a.server_map }, success)
    ]

abbrev pub shut_first : List Str → Map Str ℕ → Map Str ℕ × Effect
shut_first [] m = (m, shutdown none)
shut_first (key ∷ keys) m = (erase key m, shutdown (lookup key m))

-- Of each map the first entry whose key contains the name is erased.
unfoldable pub remove_channel_server :
    Str → Str → ChannelAdapter → ChannelAdapter × AdapterErrno × List Effect
unfolding keys_with contains
remove_channel_server pkg_name sess_name a =
    let key = join_names pkg_name sess_name in
    let (servers, first) =
      shut_first (keys_with (λ other id. contains key other) a.server_map) a.server_map in
    let (sessions, second) =
      shut_first (keys_with (λ other id. contains sess_name other) a.dev_id_2_sess_id_map)
        a.dev_id_2_sess_id_map in
    if is_empty pkg_name || is_empty sess_name then (a, invalid_param, []) else (
      record a { server_map = servers; dev_id_2_sess_id_map = sessions },
      success,
      first ∷ second ∷ [],
    )

unfoldable pub get_sess_id_by_sess_name : Str → Str → ChannelAdapter → Option ℕ
get_sess_id_by_sess_name sess_name peer_dev_id a =
    lookup (join_names sess_name peer_dev_id) a.dev_id_2_sess_id_map

abbrev pub is_opened : Option ℕ → Bool
is_opened none = false
is_opened (some id) = ltb 0 id

-- The keys of the listeners that are not null and whose key contains the name.
abbrev pub is_listening : Str → Str → Option ℕ → Bool
is_listening name key none = false
is_listening name key (some listener) = contains name key

abbrev pub spawn_all : List Str → AvTransEvent → List Effect
spawn_all [] event = []
spawn_all (key ∷ keys) event = spawn key event ∷ spawn_all keys event

unfoldable pub send_event_channel_opened : Str → Str → ChannelAdapter → List Effect
unfolding keys_with
send_event_channel_opened my_sess_name peer_dev_id a =
    spawn_all (keys_with (is_listening my_sess_name) a.listener_map)
      (record { type = event_channel_opened; content = my_sess_name; peer_dev_id = peer_dev_id })

unfoldable pub open_softbus_channel :
    SoftbusEnv → Str → Str → Str → ChannelAdapter → ChannelAdapter × AdapterErrno × List Effect
unfolding get_sess_id_by_sess_name send_event_channel_opened
open_softbus_channel env my_sess_name peer_sess_name peer_dev_id a =
    let key = join_names my_sess_name peer_dev_id in
    if is_empty my_sess_name || (is_empty peer_sess_name || is_empty peer_dev_id)
    then (a, invalid_param, [])
    else if is_opened (get_sess_id_by_sess_name my_sess_name peer_dev_id a)
    then (a, session_has_opened, [])
    else elim env.socket [
      | none ↦ (a, session_error, [])
      | some id ↦ if not env.bind then (a, session_error, []) else (
        record a { dev_id_2_sess_id_map = emplace key id a.dev_id_2_sess_id_map },
        success,
        send_event_channel_opened my_sess_name peer_dev_id a,
      )
    ]

unfoldable pub close_softbus_channel :
    Str → Str → ChannelAdapter → ChannelAdapter × AdapterErrno × List Effect
unfolding get_sess_id_by_sess_name
close_softbus_channel sess_name peer_dev_id a =
    let key = join_names sess_name peer_dev_id in
    if is_empty sess_name || is_empty peer_dev_id then (a, invalid_param, []) else (
      record a { dev_id_2_sess_id_map = erase key a.dev_id_2_sess_id_map },
      success,
      shutdown (get_sess_id_by_sess_name sess_name peer_dev_id a) ∷ [],
    )

-- What strlen counts of data.c_str(): the bytes before the first NUL.
unfoldable pub until_nul : Str → Str
until_nul [] = []
until_nul (byte ∷ text) = let rest = until_nul text in if byte == 0 then [] else byte ∷ rest

abbrev pub send_in : SoftbusEnv → Option ℕ → Str → AdapterErrno × List Effect
send_in env none text = (send_data_failed, [])
send_in env (some id) text =
    (if env.send then success else send_data_failed, send_bytes id (until_nul text) ∷ [])

unfoldable pub send_bytes_data :
    SoftbusEnv → Str → Str → Str → ChannelAdapter → AdapterErrno × List Effect
unfolding get_sess_id_by_sess_name
send_bytes_data env sess_name peer_dev_id text a =
    if is_empty sess_name || (is_empty peer_dev_id || is_empty text)
    then (invalid_param, [])
    else send_in env (get_sess_id_by_sess_name sess_name peer_dev_id a) text
