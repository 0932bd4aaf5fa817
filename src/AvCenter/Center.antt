-- ===== src/AvCenter/Center.antt =====
-- av_trans_control_center.cpp: the engines, their callbacks and the channels to other devices. The
-- softbus adapter is an interface. An engine id below 0 is 0, since no code tells such ids apart.
use multi_hardware.Base.{
  ℕ, ◌+◌, Bool, true, false, not, ◌||◌, List, [], ◌∷◌, ◌++◌, Option, none, some, ◌==◌, nat_eq,
  if◌then◌else◌, ltb,
}
use multi_hardware.Base.Map.{Map, lookup, emplace, erase}
use multi_hardware.Base.Str.{Str, str, str_eq}

pub data AvTransErrno : Type 0 where
  success invalid_param_value create_channel_failed channel_already_created : AvTransErrno
  session_has_opened : AvTransErrno
  -- What the softbus adapter returns.
  other : ℕ → AvTransErrno

abbrev pub is_success : AvTransErrno → Bool
is_success success = true
is_success _ = false

abbrev pub is_open : AvTransErrno → Bool
is_open success = true
is_open session_has_opened = true
is_open _ = false

pub data TransRole : Type 0 where
  unknown av_sender av_receiver : TransRole

abbrev pub base_engine_id : ℕ
base_engine_id = 1000

abbrev pub receiver_session_name : Str
receiver_session_name = str "ohos.dhardware.av.sync.receiver.control"

-- `root_engine_id` is the next id that is given out.
pub record ControlCenter : Type 0 where
  pub trans_role : TransRole
  pub initialized : Bool
  pub root_engine_id : ℕ
  pub session_name : Str
  pub connected_dev_ids : List Str
  pub engine_2_dev_id_map : Map ℕ Str
  pub callback_map : Map ℕ ℕ

-- What the adapter's calls return.
pub record Softbus : Type 0 where
  pub create_channel_server : AvTransErrno
  pub register_channel_listener : AvTransErrno
  pub open_softbus_channel : Str → AvTransErrno

unfoldable pub is_invalid_engine_id : ℕ → ControlCenter → Bool
is_invalid_engine_id engine_id c = ltb engine_id base_engine_id || ltb c.root_engine_id engine_id

abbrev pub is_known_role : TransRole → Bool
is_known_role unknown = false
is_known_role _ = true

abbrev pub give_id : ControlCenter → ControlCenter × AvTransErrno × Option ℕ
give_id c = (record c { root_engine_id = c.root_engine_id + 1 }, success, some c.root_engine_id)

-- The third part is the engine id, `none` for INVALID_ENGINE_ID.
unfoldable pub initialize_av_center :
    Softbus → TransRole → ControlCenter → ControlCenter × AvTransErrno × Option ℕ
initialize_av_center bus role c =
    if not (is_known_role role)
    then (c, invalid_param_value, none)
    else if c.initialized
    then give_id c
    else if not (is_success bus.create_channel_server)
    then (c, bus.create_channel_server, none)
    else if not (is_success bus.register_channel_listener)
    then (c, bus.register_channel_listener, none)
    else give_id (record c { initialized = true; trans_role = role })

-- The loop over the engines that are left.
unfoldable pub is_used : Str → Map ℕ Str → Bool
is_used peer [] = false
is_used peer ((id, device) ∷ engines) = if device == peer then true else is_used peer engines

unfoldable pub is_connected : Str → List Str → Bool
is_connected peer [] = false
is_connected peer (device ∷ devices) = if device == peer then true else is_connected peer devices

unfoldable pub disconnect : Str → List Str → List Str
disconnect peer [] = []
disconnect peer (device ∷ devices) =
    if device == peer then devices else device ∷ disconnect peer devices

abbrev pub release_device :
    Option Str → ℕ → ControlCenter → ControlCenter × AvTransErrno × Option Str
release_device none engine_id c = (c, success, none)
release_device (some peer) engine_id c =
    let c1 = record c { engine_2_dev_id_map = erase engine_id c.engine_2_dev_id_map } in
    if is_used peer c1.engine_2_dev_id_map
    then (c1, success, none)
    else if not (is_connected peer c1.connected_dev_ids)
    then (c1, success, none)
    else (
      record c1 { connected_dev_ids = disconnect peer c1.connected_dev_ids },
      success,
      some peer,
    )

-- The third part is the device of which the time synchronisation is stopped and the channel closed.
-- That the listeners of the two control sessions are unregistered for it then is left out.
unfoldable pub release_av_center : ℕ → ControlCenter → ControlCenter × AvTransErrno × Option Str
unfolding is_used is_connected disconnect
release_av_center engine_id c =
    let c1 = record c { callback_map = erase engine_id c.callback_map } in
    if is_invalid_engine_id engine_id c
    then (c, invalid_param_value, none)
    else release_device (lookup engine_id c1.engine_2_dev_id_map) engine_id c1

abbrev pub add_engine : ℕ → Str → ControlCenter → ControlCenter
add_engine engine_id peer c = record c {
  engine_2_dev_id_map = emplace engine_id peer c.engine_2_dev_id_map;
}

unfoldable pub create_control_channel :
    Softbus → ℕ → Str → ControlCenter → ControlCenter × AvTransErrno
create_control_channel bus engine_id peer c =
    if is_invalid_engine_id engine_id c
    then (c, invalid_param_value)
    else if not c.initialized
    then (c, create_channel_failed)
    else if is_connected peer c.connected_dev_ids
    then (add_engine engine_id peer c, channel_already_created)
    else if not (is_success bus.register_channel_listener)
    then (c, bus.register_channel_listener)
    else if not (is_open (bus.open_softbus_channel peer))
    then (c, bus.open_softbus_channel peer)
    else (add_engine engine_id peer c, success)

-- `none` is a null callback.
unfoldable pub register_ctl_center_callback :
    ℕ → Option ℕ → ControlCenter → ControlCenter × AvTransErrno
register_ctl_center_callback engine_id none c = (c, invalid_param_value)
register_ctl_center_callback engine_id (some callback) c =
    if is_invalid_engine_id engine_id c
    then (c, invalid_param_value)
    else (record c { callback_map = emplace engine_id callback c.callback_map }, success)

pub data ChannelEvent : Type 0 where
  channel_opened channel_closed channel_open_fail : ChannelEvent

-- The second part says whether the time synchronisation with the device is started.
unfoldable pub handle_channel_event :
    ChannelEvent → Str → Str → ControlCenter → ControlCenter × Bool
handle_channel_event channel_closed content peer c = (c, false)
handle_channel_event channel_open_fail content peer c = (c, false)
handle_channel_event channel_opened content peer c = (
  record c { session_name = content; connected_dev_ids = c.connected_dev_ids ++ peer ∷ [] },
  content == receiver_session_name,
)
