-- ===== src/AvCenter/Events.antt =====
-- av_trans_control_center.cpp: the events that the control center hands on to the synchronisation
-- manager and to the engines. The manager is there from the constructor to the destructor.
use multi_hardware.Base.{
  ℕ, Bool, true, false, ◌||◌, List, [], ◌∷◌, Option, none, some, ◌==◌, nat_eq, if◌then◌else◌,
}
use multi_hardware.Base.Str.{Str}
use multi_hardware.AvCenter.Center.{
  AvTransErrno, success, invalid_param_value, ControlCenter, is_invalid_engine_id, ChannelEvent,
  channel_opened, channel_closed, channel_open_fail, handle_channel_event,
}
use multi_hardware.AvCenter.SyncTypes.{
  start_av_sync, stop_av_sync, time_sync_result, Action, start_device_time_sync, SyncEnv,
}
use multi_hardware.AvCenter.SyncManager.{
  SyncManager, set_param_2_engines, add_stream_info, remove_stream_info, handle_av_sync_message,
}

pub data EventType : Type 0 where
  event_channel_opened event_channel_open_fail event_channel_closed : EventType
  event_start_success event_start_fail event_stop_success event_stop_fail : EventType
  event_engine_error event_remote_error event_data_received : EventType
  event_time_sync_result event_add_stream event_remove_stream : EventType

pub record AvTransEvent : Type 0 where
  pub type : EventType
  pub content : Str
  pub peer_dev_id : Str

pub record AvCenter : Type 0 where
  pub control : ControlCenter
  pub sync_manager : SyncManager

module _ (env : SyncEnv) where
  abbrev pub with_manager : AvCenter → SyncManager × List Action → AvCenter × List Action
  with_manager s (m, actions) = (record s { sync_manager = m }, actions)

  abbrev pub notify_by_type : EventType → AvTransEvent → AvCenter → AvCenter × List Action
  notify_by_type event_add_stream event s = with_manager s (
      add_stream_info env s.control
        (record { scene_type = event.content; peer_dev_id = event.peer_dev_id }) s.sync_manager)
  notify_by_type event_remove_stream event s = with_manager s (
      remove_stream_info s.control
        (record { scene_type = event.content; peer_dev_id = event.peer_dev_id }) s.sync_manager)
  notify_by_type _ event s = (s, [])

  unfoldable pub notify_av_center :
      ℕ → AvTransEvent → AvCenter → AvCenter × List Action × AvTransErrno
  notify_av_center engine_id event s =
      if is_invalid_engine_id engine_id s.control
      then (s, [], invalid_param_value)
      else let (s', actions) = notify_by_type event.type event s in (s', actions, success)

  abbrev pub handle_message : Option (ℕ × Str) → Str → AvCenter → AvCenter × List Action
  handle_message none peer s = (s, [])
  handle_message (some (type, content)) peer s =
      if (type == start_av_sync) || (type == stop_av_sync)
      then with_manager s (
          handle_av_sync_message env s.control
            (record { type = type; content = content; dst_dev_id = peer }) s.sync_manager)
      else (s, [])

  unfoldable pub handle_data_received : Str → Str → AvCenter → AvCenter × List Action
  handle_data_received content peer s = handle_message (env.unmarshal content) peer s

  abbrev pub channel_actions : Bool → Str → Str → List Action
  channel_actions true session peer = start_device_time_sync session peer ∷ []
  channel_actions false session peer = []

  abbrev pub channel_event : ChannelEvent → AvTransEvent → AvCenter → AvCenter × List Action
  channel_event kind event s =
      let (control, starts) = handle_channel_event kind event.content event.peer_dev_id s.control in
      (record s { control = control }, channel_actions starts event.content event.peer_dev_id)

  abbrev pub on_event_type : EventType → AvTransEvent → AvCenter → AvCenter × List Action
  on_event_type event_channel_opened event s = channel_event channel_opened event s
  on_event_type event_channel_closed event s = channel_event channel_closed event s
  on_event_type event_channel_open_fail event s = channel_event channel_open_fail event s
  on_event_type event_data_received event s = handle_data_received event.content event.peer_dev_id s
  on_event_type event_time_sync_result event s =
      (s, set_param_2_engines time_sync_result event.content s.control.callback_map)
  on_event_type _ event s = (s, [])

  unfoldable pub on_channel_event : AvTransEvent → AvCenter → AvCenter × List Action
  on_channel_event event s = on_event_type event.type event s
