-- ===== src/Output/Statistician.antt =====
-- time_statistician.cpp: the averages of the intervals between frames.
use multi_hardware.Base.{ℕ, ◌+◌, Bool, Option, none, some, if◌then◌else◌}
use multi_hardware.Base.Ints.{ℤ, pos, ◌+ℤ◌, ◌-ℤ◌, is_zero, quotient}

-- What the controller reads of a buffer: its meta data, where it has any, and its time stamp. Two
-- pointers are equal exactly if the buffers have the same `id`.
pub record BufferMeta : Type 0 where
  pub user_push_data_time : Option ℤ
  pub has_sample_per_frame : Bool
  pub has_start_time : Bool

pub record Buffer : Type 0 where
  pub id : ℕ
  pub buffer_meta : Option BufferMeta
  pub pts : ℤ

pub record TimeStatistician : Type 0 where
  pub push_index : ℕ
  pub aver_push_interval : ℤ
  pub last_push_time : ℤ
  pub push_time : ℤ
  pub push_interval_sum : ℤ
  pub push_interval : ℤ
  pub time_stamp_index : ℕ
  pub aver_time_stamp_interval : ℤ
  pub last_time_stamp : ℤ
  pub time_stamp : ℤ
  pub time_stamp_interval_sum : ℤ
  pub time_stamp_interval : ℤ

-- ClearStatistics, and the initial values of the members.
abbrev pub cleared_statistics : TimeStatistician
cleared_statistics = record {
  push_index = 0;
  aver_push_interval = pos 0;
  last_push_time = pos 0;
  push_time = pos 0;
  push_interval_sum = pos 0;
  push_interval = pos 0;
  time_stamp_index = 0;
  aver_time_stamp_interval = pos 0;
  last_time_stamp = pos 0;
  time_stamp = pos 0;
  time_stamp_interval_sum = pos 0;
  time_stamp_interval = pos 0;
}

-- The indices are counted without the bound of int32_t.
unfoldable pub cal_aver_push_interval : ℤ → TimeStatistician → TimeStatistician
cal_aver_push_interval push_time t =
    let interval = push_time -ℤ t.last_push_time in
    let index = t.push_index + 1 in
    let sum = t.push_interval_sum +ℤ interval in
    if is_zero t.last_push_time
    then record t { push_time = push_time; push_interval = interval; last_push_time = push_time }
    else record t {
      push_time = push_time;
      push_interval = interval;
      push_index = index;
      push_interval_sum = sum;
      aver_push_interval = quotient sum index;
      last_push_time = push_time;
    }

unfoldable pub cal_aver_time_stamp_interval : ℤ → TimeStatistician → TimeStatistician
cal_aver_time_stamp_interval time_stamp t =
    let interval = time_stamp -ℤ t.last_time_stamp in
    let index = t.time_stamp_index + 1 in
    let sum = t.time_stamp_interval_sum +ℤ interval in
    if is_zero t.last_time_stamp
    then record t {
      time_stamp = time_stamp;
      time_stamp_interval = interval;
      last_time_stamp = time_stamp;
    }
    else record t {
      time_stamp = time_stamp;
      time_stamp_interval = interval;
      time_stamp_index = index;
      time_stamp_interval_sum = sum;
      aver_time_stamp_interval = quotient sum index;
      last_time_stamp = time_stamp;
    }

abbrev pub cal_with_time : Option ℤ → ℤ → TimeStatistician → TimeStatistician
cal_with_time none pts t = cleared_statistics
cal_with_time (some push_time) pts t =
    cal_aver_time_stamp_interval pts (cal_aver_push_interval push_time t)

abbrev pub cal_with_meta : Option BufferMeta → ℤ → TimeStatistician → TimeStatistician
cal_with_meta none pts t = t
cal_with_meta (some buffer_meta) pts t = cal_with_time buffer_meta.user_push_data_time pts t

-- `none` is a null buffer.
unfoldable pub cal_process_time : Option Buffer → TimeStatistician → TimeStatistician
cal_process_time none t = t
cal_process_time (some buffer) t = cal_with_meta buffer.buffer_meta buffer.pts t
