-- ===== src/AvCenter/Channels.antt =====
-- Engine ids, and when the channel to a device is closed.
use multi_hardware.Base.{
  ℕ, ◌+◌, ◌≤◌, ◌≡◌, true, false, List, [], ◌∷◌, ◌++◌, none, some, arith, nat_eq, nat_beq_iff,
}
use multi_hardware.Base.Map.{Map, lookup, has, emplace, erase, lookup-emplace}
use multi_hardware.Base.Str.{Str, str_eq, str_beq_iff}
use multi_hardware.AvCenter.Center.{
  success, is_success, is_open, TransRole, is_known_role, base_engine_id, ControlCenter, Softbus,
  is_invalid_engine_id, initialize_av_center, is_used, is_connected, disconnect, release_av_center,
  create_control_channel, channel_opened, handle_channel_event,
}

is_connected-append :
    (peer : Str) (devices : List Str)
    → is_connected peer devices ≡ false
    → (is_connected peer (devices ++ peer ∷ []) ≡ true)
      × (disconnect peer (devices ++ peer ∷ []) ≡ devices)
unfolding is_connected disconnect
is_connected-append peer [] h = ground (arith, str_beq_iff peer peer)
is_connected-append peer (device ∷ devices) h = ground (arith, is_connected-append peer devices)

erase-append :
    (id : ℕ) (peer : Str) (engines : Map ℕ Str)
    → lookup id engines ≡ none
    → erase id (engines ++ (id, peer) ∷ []) ≡ engines
unfolding erase lookup
erase-append id peer [] h = ground (arith, nat_beq_iff id id)
erase-append id peer ((other, device) ∷ engines) h = ground (arith, erase-append id peer engines)

-- An engine with a valid id and no device opens a channel to a device that is not connected and
-- that no engine uses, the softbus opens it, and the engine is released. Then the channel to this
-- device is closed, and the engines' devices and the connected devices are what they were.
pub release_av_center-create_control_channel :
    (bus : Softbus) (id : ℕ) (peer content : Str) (c : ControlCenter)
    → is_invalid_engine_id id c ≡ false
    → c.initialized ≡ true
    → lookup id c.engine_2_dev_id_map ≡ none
    → is_used peer c.engine_2_dev_id_map ≡ false
    → is_connected peer c.connected_dev_ids ≡ false
    → is_success bus.register_channel_listener ≡ true
    → is_open (bus.open_softbus_channel peer) ≡ true
    → let (c1, created) = create_control_channel bus id peer c in
      let opened = (handle_channel_event channel_opened content peer c1).0 in
      let (c', released, closed) = release_av_center id opened in
      (created ≡ success)
      × (released ≡ success)
      × (closed ≡ some peer)
      × (c'.engine_2_dev_id_map ≡ c.engine_2_dev_id_map)
      × (c'.connected_dev_ids ≡ c.connected_dev_ids)
unfolding release_av_center create_control_channel handle_channel_event is_invalid_engine_id emplace
    has
release_av_center-create_control_channel bus id peer content c valid ready new unused apart listens
      opens =
    ground (
      arith,
      nat_beq_iff id id,
      lookup-emplace id id peer c.engine_2_dev_id_map,
      erase-append id peer c.engine_2_dev_id_map,
      is_connected-append peer c.connected_dev_ids,
    )

-- Two engines that a center in use initialises get different ids, and both ids are valid. The id
-- that a third engine would get is valid as well, although it was not given out.
pub initialize_av_center-ids :
    (bus : Softbus) (role : TransRole) (c : ControlCenter)
    → is_known_role role ≡ true
    → c.initialized ≡ true
    → base_engine_id ≤ c.root_engine_id
    → let (c1, _, first) = initialize_av_center bus role c in
      let (c2, _, second) = initialize_av_center bus role c1 in
      let n = c.root_engine_id in
      (first ≡ some n)
      × (second ≡ some (n + 1))
      × (is_invalid_engine_id n c2 ≡ false)
      × (is_invalid_engine_id (n + 1) c2 ≡ false)
      × (is_invalid_engine_id (n + 2) c2 ≡ false)
unfolding initialize_av_center is_invalid_engine_id
initialize_av_center-ids bus role c known ready base = ground arith
