-- ===== src/Channel/Sessions.antt =====
-- What happens to the sessions: opened and closed from here, taken over, closed by the softbus.
use multi_hardware.Base.{
  ℕ, ◌≡◌, refl, Bool, true, false, ◌&&◌, ◌||◌, List, [], ◌∷◌, Option, none, some, arith, ◌==◌,
  nat_eq, if◌then◌else◌, is_empty, Bool-cases, inl, inr,
}
use multi_hardware.Base.Map.{
  Map, lookup, has, insert, emplace, lookup-insert, lookup-emplace, lookup-erase,
}
use multi_hardware.Base.Str.{Str, str_eq, str_beq_iff}
use multi_hardware.Channel.Names.{join_names, contains, find_sess_name_by_peer_sess_name}
use multi_hardware.Channel.Adapter.{
  success, ChannelAdapter, SoftbusEnv, Effect, shutdown, spawn, send_bytes,
  get_sess_id_by_sess_name, is_listening, open_softbus_channel, close_softbus_channel,
  send_bytes_data, until_nul,
}
use multi_hardware.Channel.Callbacks.{
  register_channel_listener, take_session, on_softbus_channel_opened,
}
use multi_hardware.Channel.Keys.{has_underscore, join_names-injective, contains-join_names}

key-test :
    (s d t e : Str)
    → has_underscore d ≡ false
    → has_underscore e ≡ false
    → (join_names s d == join_names t e) ≡ (s == t) && (d == e)
key-test s d t e p q = ground (
  arith,
  str_beq_iff (join_names s d) (join_names t e),
  str_beq_iff s t,
  str_beq_iff d e,
  join_names-injective s d t e p q,
)

-- A channel is opened that has no session: it gets the socket's id, in which SendBytesData then
-- sends the bytes before the first NUL, and no other pair of a session name and a device id without '_' changes its session.
-- Closing it shuts that socket down, and every session is as it was before.
pub close_softbus_channel-open :
    (env : SoftbusEnv) (id : ℕ) (name peer_name device text other_name other_device : Str)
    (a : ChannelAdapter)
    → is_empty name ≡ false
    → is_empty peer_name ≡ false
    → is_empty device ≡ false
    → is_empty text ≡ false
    → has_underscore device ≡ false
    → has_underscore other_device ≡ false
    → get_sess_id_by_sess_name name device a ≡ none
    → env.socket ≡ some id
    → env.bind ≡ true
    → env.send ≡ true
    → let (a1, opened, _) = open_softbus_channel env name peer_name device a in
      let (a2, closed, effects) = close_softbus_channel name device a1 in
      (opened ≡ success)
      × (send_bytes_data env name device text a1 ≡ (success, send_bytes id (until_nul text) ∷ []))
      × (get_sess_id_by_sess_name other_name other_device a1 ≡ (
          if (name == other_name) && (device == other_device)
          then some id
          else get_sess_id_by_sess_name other_name other_device a))
      × (effects ≡ shutdown (some id) ∷ [])
      × (get_sess_id_by_sess_name other_name other_device a2
          ≡ get_sess_id_by_sess_name other_name other_device a)
unfolding open_softbus_channel close_softbus_channel send_bytes_data get_sess_id_by_sess_name has
close_softbus_channel-open env id name peer_name device text other_name other_device a n p d t u v
      new socket binds sends =
    ground (
      arith,
      key-test name device other_name other_device u v,
      key-test name device name device u u,
      str_beq_iff name name,
      str_beq_iff device device,
      str_beq_iff name other_name,
      str_beq_iff device other_device,
      lookup-emplace (join_names name device) (join_names other_name other_device) id
          a.dev_id_2_sess_id_map,
      lookup-emplace (join_names name device) (join_names name device) id a.dev_id_2_sess_id_map,
      lookup-erase (join_names name device) (join_names other_name other_device)
          (emplace (join_names name device) id a.dev_id_2_sess_id_map),
    )

take_session-keeps :
    (name key : Str) (id : ℕ) (listeners : Map Str (Option ℕ)) (m : Map Str ℕ)
    → lookup key m ≡ some id
    → lookup key (take_session name id listeners m) ≡ some id
unfolding take_session
take_session-keeps name key id [] m h = h
take_session-keeps name key id ((k, l) ∷ listeners) m h =
    take_session-keeps name key id listeners (if is_listening name k l then insert k id m else m)
      (ground (arith, lookup-insert k key id m))

take_session-takes :
    (name key : Str) (id l : ℕ) (listeners : Map Str (Option ℕ)) (m : Map Str ℕ)
    → contains name key ≡ true
    → lookup key listeners ≡ some (some l)
    → lookup key (take_session name id listeners m) ≡ some id
unfolding take_session lookup
take_session-takes name key id l [] m c h = cc
take_session-takes name key id l ((k, held) ∷ listeners) m c h = elim (Bool-cases (k == key)) [
  | inl same ↦
      take_session-keeps name key id listeners
        (if is_listening name k held then insert k id m else m)
        (ground (arith, str_beq_iff k key, lookup-insert k key id m))
  | inr differ ↦
      take_session-takes name key id l listeners
        (if is_listening name k held then insert k id m else m) c (ground arith)
]

-- A listener is registered for a session name and a device, and then any device, the same or
-- another, opens a channel to that session name. The session that is known for the first device is
-- now the one of the second, and what is sent to the first device, up to the first NUL, is sent in it.
pub on_softbus_channel_opened-takes :
    (env : SoftbusEnv) (name peer_name device other text : Str) (listener id : ℕ)
    (a : ChannelAdapter)
    → is_empty name ≡ false
    → is_empty device ≡ false
    → is_empty other ≡ false
    → is_empty text ≡ false
    → is_empty peer_name ≡ false
    → find_sess_name_by_peer_sess_name peer_name ≡ name
    → let a1 = (register_channel_listener name device (some listener) a).0 in
      let a2 = (on_softbus_channel_opened peer_name id other 0 a1).0 in
      (get_sess_id_by_sess_name name device a2 ≡ some id)
      × ((send_bytes_data env name device text a2).1 ≡ send_bytes id (until_nul text) ∷ [])
unfolding register_channel_listener on_softbus_channel_opened get_sess_id_by_sess_name
    send_bytes_data has
on_softbus_channel_opened-takes env name peer_name device other text listener id a n d o t p e =
    let key = join_names name device in
    let listeners = insert key (some listener) a.listener_map in
    let taken = take_session name id listeners a.dev_id_2_sess_id_map in
    let found : lookup key listeners ≡ some (some listener) =
      ground (arith, str_beq_iff key key, lookup-insert key key (some listener) a.listener_map) in
    let takes =
      take_session-takes name key id listener listeners a.dev_id_2_sess_id_map
        (contains-join_names name device) found in
    let known : lookup key (emplace (join_names name other) id taken) ≡ some id =
      ground (arith, lookup-emplace (join_names name other) key id taken) in
    rw (e, n, d, o, t, p) (known, rw known refl)

-- An event is sent to a key.
abbrev pub is_spawned : Str → List Effect → Bool
is_spawned key [] = false
is_spawned key (spawn other event ∷ effects) = (other == key) || is_spawned key effects
is_spawned key (_ ∷ effects) = is_spawned key effects
