-- ===== src/AvCenter/SyncExamples.antt =====
-- The theorems of the synchronisation manager at small inputs.
use multi_hardware.Base.{ℕ, ◌≡◌, true, [], ◌∷◌, Option, some, nat_eq}
use multi_hardware.Base.Str.{Str, str_eq}
use multi_hardware.AvCenter.Center.{av_receiver, ControlCenter}
use multi_hardware.AvCenter.SyncTypes.{
  start_av_sync, stop_av_sync, scene_type_d_screen, scene_type_d_speaker, AvStreamInfo, SyncEnv,
  no_memory,
}
use multi_hardware.AvCenter.SyncManager.{SyncManager, merge_group_info}
use multi_hardware.AvCenter.Events.{AvCenter}
use multi_hardware.AvCenter.Streams.{merge_group_info-swap}

abbrev sync_center : ControlCenter
sync_center = record {
  trans_role = av_receiver;
  initialized = true;
  root_engine_id = 1002;
  session_name = 4 ∷ [];
  connected_dev_ids = [];
  engine_2_dev_id_map = [];
  callback_map = (1000, 70) ∷ (1001, 71) ∷ [];
}

-- The empty text stops the synchronisation, any other starts it.
abbrev unmarshal : Str → Option (ℕ × Str)
unmarshal [] = some (stop_av_sync, [])
unmarshal (x ∷ rest) = some (start_av_sync, rest)

abbrev sync_env : SyncEnv
sync_env = record {
  created_fd = λ name size. 9;
  ashmem = record { size_of = λ fd. 600; set_prot = λ fd. true; mapped = true; memset = true };
  master_text = λ scene peer. some (1 ∷ peer);
  slave_text = λ scene peer. some (2 ∷ peer);
  group_text = λ texts. 3 ∷ [];
  unmarshal = unmarshal;
}

abbrev speaker : AvStreamInfo
speaker = record { scene_type = scene_type_d_speaker; peer_dev_id = 5 ∷ [] }

abbrev screen : AvStreamInfo
screen = record { scene_type = scene_type_d_screen; peer_dev_id = 5 ∷ [] }

abbrev manager : SyncManager
manager = record {
  stream_info_list = speaker ∷ screen ∷ [];
  source_memory = record { fd = 8; size = 12; name = 6 ∷ [] };
  sink_memory = no_memory [];
}

merge_group_info-swap_example :
    merge_group_info sync_env (speaker ∷ screen ∷ [])
    ≡ merge_group_info sync_env (screen ∷ speaker ∷ [])
merge_group_info-swap_example = merge_group_info-swap sync_env [] [] speaker screen

abbrev receiving : AvCenter
receiving = record { control = sync_center; sync_manager = manager }
