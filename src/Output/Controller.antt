-- ===== src/Output/Controller.antt =====
-- output_controller.cpp: the state of the controller and what its threads do to it. The threads
-- themselves and the time of their waits are not modelled.
use multi_hardware.Base.{
  ℕ, Bool, true, false, not, ◌&&◌, Option, none, some, List, [], ◌∷◌, ◌++◌, length, ltb, ◌==◌,
  nat_eq, if◌then◌else◌,
}
use multi_hardware.Base.Map.{Map, lookup, emplace}
use multi_hardware.Base.Ints.{ℤ, pos}
use multi_hardware.Output.Statistician.{BufferMeta, Buffer, TimeStatistician, cleared_statistics}

pub data ControlStatus : Type 0 where
  start stop release started stopped released : ControlStatus

abbrev pub is_start : ControlStatus → Bool
is_start start = true
is_start _ = false

abbrev pub is_stop : ControlStatus → Bool
is_stop stop = true
is_stop _ = false

abbrev pub is_release : ControlStatus → Bool
is_release release = true
is_release _ = false

pub data ControlMode : Type 0 where
  smooth sync : ControlMode

abbrev pub is_sync : ControlMode → Bool
is_sync smooth = false
is_sync sync = true

abbrev pub queue_max_size : ℕ
queue_max_size = 100

-- A factor is the multiplication of an int64_t by the float, rounded to an int64_t.
pub record Factors : Type 0 where
  pub adjust_sleep_factor : ℤ → ℤ
  pub wait_clock_factor : ℤ → ℤ
  pub track_clock_factor : ℤ → ℤ

pub record Thresholds : Type 0 where
  pub wait_clock_thre : ℤ
  pub track_clock_thre : ℤ
  pub sleep_thre : ℤ
  pub dynamic_balance_thre : ℕ
  pub aver_interval_diff_thre : ℕ
  pub push_once_diff_thre : ℕ
  pub time_stamp_once_diff_thre : ℕ
  pub buffer_time : ℕ

-- The times that the controller keeps between two frames.
pub record Clock : Type 0 where
  pub enter_time : ℤ
  pub last_enter_time : ℤ
  pub last_time_stamp : ℤ
  pub leave_time : ℤ
  pub time_stamp_baseline : ℤ
  pub clock_time : ℤ
  pub clock_baseline : ℤ
  pub delta : ℤ
  pub sleep : ℤ
  pub dev_clock_diff : ℤ
  pub a_front : ℤ
  pub a_back : ℤ
  pub v_front : ℤ
  pub v_back : ℤ

-- In the parameters a number stands for a tag, and one for a value.
-- `handler_thread` and `control_thread` say whether the threads are there.
pub record OutputController : Type 0 where
  pub data_queue : List Buffer
  pub params_map : Map ℕ ℕ
  pub statistician : Option TimeStatistician
  pub listener : Bool
  pub status : ControlStatus
  pub mode : ControlMode
  pub control_thread : Bool
  pub handler_thread : Bool
  pub is_in_dynamic_balance : Bool
  pub is_baseline_init : Bool
  pub is_time_init : Bool
  pub is_allow_control : Bool
  pub dynamic_balance_count : ℕ
  pub factors : Factors
  pub thresholds : Thresholds
  pub clock : Clock

abbrev pub no_factor : ℤ → ℤ
no_factor a = pos 0

unfoldable pub prepare_sync : OutputController → OutputController
prepare_sync c = record c {
  is_in_dynamic_balance = true;
  is_time_init = false;
  is_baseline_init = false;
  is_allow_control = true;
  factors = record c.factors { adjust_sleep_factor = no_factor };
  thresholds = record c.thresholds {
    buffer_time = 0;
    wait_clock_thre = pos 0;
    track_clock_thre = pos 0;
    sleep_thre = pos 0;
  };
  clock = record c.clock { a_front = pos 0; a_back = pos 0; v_front = pos 0; v_back = pos 0 };
}

unfoldable pub prepare_smooth : OutputController → OutputController
prepare_smooth c = record c {
  is_in_dynamic_balance = false;
  is_time_init = false;
  is_baseline_init = false;
  is_allow_control = true;
  factors = record {
    adjust_sleep_factor = no_factor;
    wait_clock_factor = no_factor;
    track_clock_factor = no_factor;
  };
  thresholds = record c.thresholds {
    buffer_time = 0;
    sleep_thre = pos 0;
    dynamic_balance_thre = 0;
    aver_interval_diff_thre = 0;
    push_once_diff_thre = 0;
    time_stamp_once_diff_thre = 0;
  };
}

-- InitTimeStatistician.
abbrev pub init_time_statistician : OutputController → OutputController
init_time_statistician c = record c { statistician = some cleared_statistics }

-- PrepareSmooth and PrepareSync are virtual; these are those of the class itself.
unfoldable pub prepare_control : OutputController → OutputController
unfolding prepare_sync prepare_smooth
prepare_control c =
    init_time_statistician (if is_sync c.mode then prepare_sync c else prepare_smooth c)

unfoldable pub set_control_mode : ControlMode → OutputController → OutputController
unfolding prepare_control
set_control_mode mode c = prepare_control (record c { mode = mode })

-- CheckSyncInfo after the test for null.
unfoldable pub check_sync_info : BufferMeta → OutputController → OutputController
unfolding set_control_mode
check_sync_info meta c =
    let both = meta.has_sample_per_frame && meta.has_start_time in
    let cleared = record c { data_queue = [] } in
    if is_sync c.mode && not both
    then set_control_mode smooth cleared
    else if not (is_sync c.mode) && both
    then set_control_mode sync cleared
    else c

abbrev pub pop_front : List Buffer → List Buffer
pop_front [] = []
pop_front (buffer ∷ buffers) = buffers

abbrev pub push_with_meta : ℤ → Buffer → Option BufferMeta → OutputController → OutputController
push_with_meta push_time buffer none c = c
push_with_meta push_time buffer (some meta) c =
    let c1 = check_sync_info meta c in
    let stamped = record buffer {
      buffer_meta = some (record meta { user_push_data_time = some push_time });
    } in
    record c1 { data_queue = c1.data_queue ++ stamped ∷ [] }

abbrev pub push_buffer : ℤ → Option Buffer → OutputController → OutputController
push_buffer push_time none c = c
push_buffer push_time (some buffer) c = push_with_meta push_time buffer buffer.buffer_meta c

-- `push_time` is the current time; `none` is a null buffer.
unfoldable pub push_data : ℤ → Option Buffer → OutputController → OutputController
unfolding check_sync_info
push_data push_time frame c =
    let room =
      if ltb queue_max_size (length c.data_queue)
      then record c { data_queue = pop_front c.data_queue }
      else c in
    if not (is_start c.status) then c else push_buffer push_time frame room

unfoldable pub start_control : OutputController → OutputController × ControlStatus
start_control c =
    if is_start c.status
    then (c, started)
    else (record c { status = start; handler_thread = true; control_thread = true }, start)

unfoldable pub stop_control : OutputController → OutputController × ControlStatus
stop_control c =
    if is_stop c.status then (c, stopped) else (record c { status = stop; data_queue = [] }, stop)

unfoldable pub release_control : OutputController → OutputController × ControlStatus
release_control c = if is_release c.status then (c, released) else (
  record c {
    status = release;
    statistician = none;
    listener = false;
    handler_thread = false;
    control_thread = false;
    data_queue = [];
    params_map = [];
  },
  release,
)

-- `none` is ERROR_NOT_EXISTED.
unfoldable pub get_parameter : ℕ → OutputController → Option ℕ
get_parameter tag c = lookup tag c.params_map

-- SetParameter for a tag that it does not treat specially.
unfoldable pub set_parameter : ℕ → ℕ → OutputController → OutputController
set_parameter tag value c = record c { params_map = emplace tag value c.params_map }

pub data ControlResult : Type 0 where
  output_frame drop_frame repeat_fream : ControlResult

abbrev pub is_front : Buffer → List Buffer → Bool
is_front frame [] = false
is_front frame (buffer ∷ buffers) = buffer.id == frame.id

-- The frame is taken off the queue if it is still the first one.
abbrev pub pop_frame : Buffer → OutputController → OutputController
pop_frame frame c =
    if is_front frame c.data_queue then record c { data_queue = pop_front c.data_queue } else c

-- `posted` says whether the handler takes the frame.
unfoldable pub handle_control_result :
    ControlResult → Bool → Buffer → OutputController → OutputController
handle_control_result output_frame posted frame c = if not posted then c else pop_frame frame c
handle_control_result drop_frame posted frame c = pop_frame frame c
handle_control_result repeat_fream posted frame c = c
