-- ===== src/AvCenter/SyncManager.antt =====
-- av_sync_manager.cpp: the streams, and when the engines are synchronised. The calls that it makes
-- on the control center are actions; `center` is the center that it calls.
use multi_hardware.Base.{
  ℕ, ◌*◌, Bool, not, ◌&&◌, ◌||◌, List, [], ◌∷◌, ◌++◌, Option, none, some, ◌==◌, nat_eq,
  if◌then◌else◌, ltb, leb, length, is_empty,
}
use multi_hardware.Base.Map.{Map}
use multi_hardware.Base.Str.{Str, str, str_eq, str_ltb}
use multi_hardware.Context.Defs.{set_has, set_insert}
use multi_hardware.AvSync.Memory.{AvTransSharedMemory, max_clock_unit_count, unit_size}
use multi_hardware.AvCenter.Center.{ControlCenter}
use multi_hardware.AvCenter.SyncTypes.{
  start_av_sync, stop_av_sync, scene_type_d_mic, scene_type_d_screen, scene_type_d_speaker,
  scene_type_d_camera_str, AvTransMessage, AvStreamInfo, Action, send_bytes_data, set_parameter,
  set_shared_memory, SyncEnv, no_memory, create_av_trans_shared_memory,
  close_av_trans_shared_memory,
}

abbrev pub av_sync_stream_count : ℕ
av_sync_stream_count = 2

pub record SyncManager : Type 0 where
  pub stream_info_list : List AvStreamInfo
  pub source_memory : AvTransSharedMemory
  pub sink_memory : AvTransSharedMemory

unfoldable pub new_sync_manager : SyncManager
new_sync_manager = record {
  stream_info_list = [];
  source_memory = no_memory [];
  sink_memory = no_memory [];
}

-- AVTransControlCenter::SetParam2Engines, for a tag and for a memory; a registered callback is not
-- null.
unfoldable pub set_param_2_engines : ℕ → Str → Map ℕ ℕ → List Action
set_param_2_engines tag value [] = []
set_param_2_engines tag value ((engine, callback) ∷ callbacks) =
    set_parameter callback tag value ∷ set_param_2_engines tag value callbacks

unfoldable pub set_memory_2_engines : AvTransSharedMemory → Map ℕ ℕ → List Action
set_memory_2_engines m [] = []
set_memory_2_engines m ((engine, callback) ∷ callbacks) =
    set_shared_memory callback m ∷ set_memory_2_engines m callbacks

-- A std::set<std::string>, in order.
unfoldable pub insert_text : Str → List Str → List Str
insert_text s [] = s ∷ []
insert_text s (t ∷ ts) =
    let rest = insert_text s ts in
    if str_ltb t s then t ∷ rest else if str_ltb s t then s ∷ t ∷ ts else t ∷ ts

unfoldable pub scene_types : List AvStreamInfo → List Str
scene_types [] = []
scene_types (stream ∷ streams) = set_insert stream.scene_type (scene_types streams)

abbrev pub is_master : Str → Bool
is_master scene = (scene == scene_type_d_mic) || (scene == scene_type_d_speaker)

abbrev pub is_slave : Str → Bool
is_slave scene = (scene == scene_type_d_screen) || (scene == scene_type_d_camera_str)

abbrev pub insert_json : Option Str → List Str → Option (List Str)
insert_json none texts = none
insert_json (some text) texts = some (insert_text text texts)

-- A message to the device of each stream.
unfoldable pub send_to_streams : ℕ → Str → ControlCenter → List AvStreamInfo → List Action
send_to_streams type content center [] = []
send_to_streams type content center (stream ∷ streams) =
    send_bytes_data center.session_name
      (record { type = type; content = content; dst_dev_id = stream.peer_dev_id })
    ∷ send_to_streams type content center streams

unfoldable pub disable_sender_av_sync : ControlCenter → SyncManager → SyncManager × List Action
disable_sender_av_sync center m =
    if leb av_sync_stream_count (length m.stream_info_list) then (m, []) else (
      m,
      send_to_streams stop_av_sync [] center m.stream_info_list
          ++ close_av_trans_shared_memory m.source_memory
          ++ set_memory_2_engines (no_memory (str "sourceSharedMemory")) center.callback_map,
    )

unfoldable pub remove_streams : AvStreamInfo → List AvStreamInfo → List AvStreamInfo
remove_streams stream [] = []
remove_streams stream (other ∷ streams) =
    if (other.scene_type == stream.scene_type) && (other.peer_dev_id == stream.peer_dev_id)
    then remove_streams stream streams
    else other ∷ remove_streams stream streams

unfoldable pub remove_stream_info :
    ControlCenter → AvStreamInfo → SyncManager → SyncManager × List Action
remove_stream_info center stream m =
    disable_sender_av_sync center
      (record m { stream_info_list = remove_streams stream m.stream_info_list })

unfoldable pub disable_receiver_av_sync : ControlCenter → SyncManager → SyncManager × List Action
disable_receiver_av_sync center m = (
  m,
  close_av_trans_shared_memory m.sink_memory
      ++ set_param_2_engines stop_av_sync [] center.callback_map
      ++ set_memory_2_engines (no_memory (str "sinkSharedMemory")) center.callback_map,
)

module _ (env : SyncEnv) where
  abbrev pub add_group_info : AvStreamInfo → List Str → Option (List Str)
  add_group_info stream texts =
      if is_master stream.scene_type
      then insert_json (env.master_text stream.scene_type stream.peer_dev_id) texts
      else if is_slave stream.scene_type
      then insert_json (env.slave_text stream.scene_type stream.peer_dev_id) texts
      else some texts

  -- MergeGroupInfoInner; `none` where it returns false.
  unfoldable pub merge_group_info_inner : List AvStreamInfo → List Str → Option (List Str)
  merge_group_info_inner [] texts = some texts
  merge_group_info_inner (stream ∷ streams) texts = elim (add_group_info stream texts) [
    | none ↦ none
    | some texts' ↦ merge_group_info_inner streams texts'
  ]

  abbrev pub group_info : Option (List Str) → Option Str
  group_info none = none
  group_info (some texts) =
      let info = env.group_text texts in if is_empty info then none else some info

  -- MergeGroupInfo; `none` where it returns false.
  unfoldable pub merge_group_info : List AvStreamInfo → Option Str
  merge_group_info streams =
      let scenes = scene_types streams in
      let mic = set_has scene_type_d_mic scenes in
      let speaker = set_has scene_type_d_speaker scenes in
      let source_2_sink = set_has scene_type_d_screen scenes && speaker in
      let sink_2_source = set_has scene_type_d_camera_str scenes && mic in
      if ltb (length scenes) av_sync_stream_count
      then none
      else if mic && speaker
      then none
      else if not source_2_sink && not sink_2_source
      then none
      else group_info (merge_group_info_inner streams [])

  abbrev pub enable_sender_with :
      ControlCenter → Option Str → SyncManager → SyncManager × List Action
  enable_sender_with center none m = (m, [])
  enable_sender_with center (some info) m =
      let (memory, made) = create_av_trans_shared_memory env (str "sourceSharedMemory") unit_size in
      (
        record m { source_memory = memory },
        send_to_streams start_av_sync info center m.stream_info_list
            ++ made
            ++ set_memory_2_engines memory center.callback_map,
      )

  unfoldable pub enable_sender_av_sync : ControlCenter → SyncManager → SyncManager × List Action
  enable_sender_av_sync center m = enable_sender_with center (merge_group_info m.stream_info_list) m

  unfoldable pub add_stream_info :
      ControlCenter → AvStreamInfo → SyncManager → SyncManager × List Action
  add_stream_info center stream m =
      let m1 = record m { stream_info_list = m.stream_info_list ++ stream ∷ [] } in
      if ltb (length m1.stream_info_list) av_sync_stream_count
      then (m1, [])
      else enable_sender_av_sync center m1

  unfoldable pub enable_receiver_av_sync :
      ControlCenter → Str → SyncManager → SyncManager × List Action
  enable_receiver_av_sync center info m =
      let (memory, made) =
        create_av_trans_shared_memory env (str "sinkSharedMemory")
          (unit_size * max_clock_unit_count) in
      (
        record m { sink_memory = memory },
        made
            ++ set_memory_2_engines memory center.callback_map
            ++ set_param_2_engines start_av_sync info center.callback_map,
      )

  unfoldable pub handle_av_sync_message :
      ControlCenter → AvTransMessage → SyncManager → SyncManager × List Action
  handle_av_sync_message center message m =
      if message.type == start_av_sync
      then enable_receiver_av_sync center message.content m
      else if message.type == stop_av_sync
      then disable_receiver_av_sync center m
      else (m, [])
