-- ===== src/Channel/Examples.antt =====
-- The theorems of Channel at small inputs.
use multi_hardware.Base.Map.{lookup}
use multi_hardware.Base.{◌≡◌, refl, true, some, [], ◌∷◌}
use multi_hardware.Base.Map.{lookup}
use multi_hardware.Base.Str.{Str, str_beq}
use multi_hardware.Sender.Types.{owner_name_d_mic}
use multi_hardware.Channel.Names.{
  local_to_peer_session_name_map, join_names, sender_control_session_name_suffix,
  receiver_control_session_name_suffix, find_sess_name_by_peer_sess_name,
  local_to_peer_session_name_map,
}
use multi_hardware.Channel.Adapter.{
  until_nul, success, ChannelAdapter, SoftbusEnv, shutdown, send_bytes, get_sess_id_by_sess_name,
  open_softbus_channel, close_softbus_channel, send_bytes_data,
}
use multi_hardware.Channel.Callbacks.{register_channel_listener, on_softbus_channel_opened}
use multi_hardware.Channel.Sessions.{close_softbus_channel-open, on_softbus_channel_opened-takes}

abbrev sender_name : Str
sender_name = join_names owner_name_d_mic sender_control_session_name_suffix

abbrev receiver_name : Str
receiver_name = join_names owner_name_d_mic receiver_control_session_name_suffix

abbrev env : SoftbusEnv
env = record {
  socket = some 9;
  listen = true;
  bind = true;
  send = true;
  start_time_sync = true;
  stop_time_sync = true;
}

abbrev adapter : ChannelAdapter
adapter = record {
  server_map = [];
  time_sync_sess_names = [];
  dev_id_2_sess_id_map =
      (join_names sender_name (5 ∷ []), 3) ∷ (join_names sender_name (6 ∷ []), 4) ∷ [];
  listener_map = [];
}

close_softbus_channel-open_example :
    let (a1, opened, _) = open_softbus_channel env sender_name receiver_name (7 ∷ []) adapter in
    let (a2, closed, effects) = close_softbus_channel sender_name (7 ∷ []) a1 in
    (opened ≡ success)
    × (send_bytes_data env sender_name (7 ∷ []) (1 ∷ []) a1 ≡ (success, send_bytes 9 (1 ∷ []) ∷ []))
    × (get_sess_id_by_sess_name sender_name (5 ∷ []) a1 ≡ some 3)
    × (effects ≡ shutdown (some 9) ∷ [])
    × (get_sess_id_by_sess_name sender_name (5 ∷ []) a2 ≡ some 3)
unfolding get_sess_id_by_sess_name lookup str_beq until_nul
close_softbus_channel-open_example =
    close_softbus_channel-open env 9 sender_name receiver_name (7 ∷ []) (1 ∷ []) sender_name
      (5 ∷ []) adapter refl refl refl refl refl refl refl refl refl refl

on_softbus_channel_opened-takes_example :
    let a1 = (register_channel_listener sender_name (5 ∷ []) (some 1) adapter).0 in
    let a2 = (on_softbus_channel_opened receiver_name 8 (6 ∷ []) 0 a1).0 in
    (get_sess_id_by_sess_name sender_name (5 ∷ []) a2 ≡ some 8)
    × ((send_bytes_data env sender_name (5 ∷ []) (1 ∷ []) a2).1 ≡ send_bytes 8 (1 ∷ []) ∷ [])
unfolding find_sess_name_by_peer_sess_name lookup local_to_peer_session_name_map str_beq until_nul
on_softbus_channel_opened-takes_example =
    on_softbus_channel_opened-takes env sender_name receiver_name (5 ∷ []) (6 ∷ []) (1 ∷ []) 1 8
      adapter refl refl refl refl refl refl
