-- ===== src/AvCenter/SyncTypes.antt =====
-- What the synchronisation manager keeps and calls: av_sync_manager.h, av_trans_types.h,
-- av_trans_message.h, and the making and closing of shared memories in av_sync_utils.cpp.
use multi_hardware.Base.{ℕ, not, List, [], ◌∷◌, Option, ◌==◌, nat_eq, if◌then◌else◌}
use multi_hardware.Base.Str.{Str, str}
use multi_hardware.AvSync.Memory.{AvTransSharedMemory, Ashmem, is_invalid_shared_memory}

-- Values of AVTransTag.
abbrev pub start_av_sync : ℕ
start_av_sync = 65544

abbrev pub stop_av_sync : ℕ
stop_av_sync = 65545

abbrev pub time_sync_result : ℕ
time_sync_result = 65546

abbrev pub scene_type_d_mic : Str
scene_type_d_mic = str "dmic_stream"

abbrev pub scene_type_d_screen : Str
scene_type_d_screen = str "dscreen_stream"

abbrev pub scene_type_d_speaker : Str
scene_type_d_speaker = str "dspeaker_stream"

abbrev pub scene_type_d_camera_str : Str
scene_type_d_camera_str = str "dcamera_stream"

pub record AvTransMessage : Type 0 where
  pub type : ℕ
  pub content : Str
  pub dst_dev_id : Str

pub record AvStreamInfo : Type 0 where
  pub scene_type : Str
  pub peer_dev_id : Str

-- The calls out of the control center, in their order: the system's, the softbus adapter's, and
-- those on the callback of an engine.
pub data Action : Type 0 where
  ashmem_create : Str → ℕ → Action
  close_fd : ℕ → Action
  send_bytes_data : Str → AvTransMessage → Action
  set_parameter : ℕ → ℕ → Str → Action
  set_shared_memory : ℕ → AvTransSharedMemory → Action
  start_device_time_sync : Str → Str → Action

-- What the system and the JSON library answer during one call: the descriptor of AshmemCreate, the
-- texts of a master and a slave stream, the text of a group, and a message's text taken apart.
-- A null pointer of the library is `none`, for the group the empty text.
pub record SyncEnv : Type 0 where
  pub created_fd : Str → ℕ → ℕ
  pub ashmem : Ashmem
  pub master_text : Str → Str → Option Str
  pub slave_text : Str → Str → Option Str
  pub group_text : List Str → Str
  pub unmarshal : Str → Option (ℕ × Str)

abbrev pub no_memory : Str → AvTransSharedMemory
no_memory name = record { fd = 0; size = 0; name = name }

-- CreateAVTransSharedMemory.
unfoldable pub create_av_trans_shared_memory : SyncEnv → Str → ℕ → AvTransSharedMemory × List Action
create_av_trans_shared_memory env name size =
    let fd = env.created_fd name size in
    if fd == 0
    then (no_memory name, ashmem_create name size ∷ [])
    else if not (env.ashmem.set_prot fd)
    then (no_memory name, ashmem_create name size ∷ close_fd fd ∷ [])
    else if not env.ashmem.mapped
    then (no_memory name, ashmem_create name size ∷ close_fd fd ∷ [])
    else if not env.ashmem.memset
    then (no_memory name, ashmem_create name size ∷ close_fd fd ∷ [])
    else (record { fd = fd; size = size; name = name }, ashmem_create name size ∷ [])

-- CloseAVTransSharedMemory.
unfoldable pub close_av_trans_shared_memory : AvTransSharedMemory → List Action
close_av_trans_shared_memory m = if is_invalid_shared_memory m then [] else close_fd m.fd ∷ []
