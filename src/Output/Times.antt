-- ===== src/Output/Times.antt =====
-- output_controller.cpp: how long the controller sleeps before a frame is shown.
use multi_hardware.Base.{
  ◌+◌, ◌%◌, Bool, true, false, not, ◌&&◌, ◌||◌, Option, none, some, [], ltb, leb, if◌then◌else◌,
}
use multi_hardware.Base.Ints.{ℤ, pos, ◌+ℤ◌, ◌-ℤ◌, neg_int, lt_int, is_zero, magnitude, quotient}
use multi_hardware.Output.Statistician.{TimeStatistician}
use multi_hardware.Output.Controller.{OutputController, Clock, is_sync}

unfoldable pub init_baseline : ℤ → ℤ → OutputController → OutputController
init_baseline time_stamp clock_time c = record c {
  is_baseline_init = true;
  clock = record c.clock {
    time_stamp_baseline = time_stamp;
    clock_baseline = clock_time +ℤ pos c.thresholds.buffer_time;
  };
}

unfoldable pub init_time : ℤ → ℤ → OutputController → OutputController
init_time enter_time time_stamp c = record c {
  is_time_init = true;
  clock = record c.clock {
    delta = pos 0;
    sleep = pos 0;
    last_enter_time = enter_time;
    last_time_stamp = time_stamp;
    leave_time = enter_time;
  };
}

-- `now` is the current time.
unfoldable pub record_time : ℤ → ℤ → ℤ → OutputController → OutputController
record_time enter_time time_stamp now c = record c {
  is_time_init = true;
  clock = record c.clock {
    last_enter_time = enter_time;
    last_time_stamp = time_stamp;
    leave_time = now;
  };
}

-- CalSleepTime after the change of delta_ and sleep_, with the interval and the threshold.
abbrev pub adjust_sleep : ℤ → ℤ → Clock → Clock
adjust_sleep interval adjust_thre k =
    let sleep = k.sleep -ℤ adjust_thre in
    if is_zero interval
    then k
    else if lt_int adjust_thre k.delta && lt_int (pos 0) k.sleep
    then record k {
      delta = k.delta -ℤ (if lt_int sleep (pos 0) then k.sleep else adjust_thre);
      sleep = sleep;
    }
    else if lt_int k.delta (neg_int adjust_thre)
    then record k { sleep = k.sleep +ℤ k.delta; delta = pos 0 }
    else k

unfoldable pub cal_sleep_time : ℤ → OutputController → OutputController
cal_sleep_time time_stamp c =
    let k = c.clock in
    let interval = time_stamp -ℤ k.last_time_stamp in
    let elapse = k.enter_time -ℤ k.leave_time in
    let render = k.enter_time -ℤ k.last_enter_time in
    let delta = (render -ℤ k.sleep) -ℤ elapse in
    record c {
      clock =
          adjust_sleep interval (c.factors.adjust_sleep_factor interval)
            (record k { delta = k.delta +ℤ delta; sleep = interval -ℤ elapse });
    }

-- The time stamp less the sleep, where there is one.
abbrev pub composed_time : ℤ → Clock → ℤ
composed_time pts k = if lt_int (pos 0) k.sleep then pts -ℤ k.sleep else pts

abbrev pub add_sleep : ℤ → Clock → Clock
add_sleep time k = record k { sleep = k.sleep +ℤ time }

abbrev pub smooth_clock : Option TimeStatistician → ℤ → OutputController → Clock
smooth_clock none pts c = c.clock
smooth_clock (some t) pts c =
    let k = c.clock in
    let wait_clock_thre = c.factors.wait_clock_factor t.aver_time_stamp_interval in
    let track_clock_thre = c.factors.track_clock_factor t.aver_time_stamp_interval in
    let offset =
      (composed_time pts k -ℤ k.time_stamp_baseline) -ℤ (k.clock_time -ℤ k.clock_baseline) in
    if is_zero t.time_stamp_interval
    then k
    else if is_zero t.aver_time_stamp_interval
    then k
    else if lt_int wait_clock_thre offset || lt_int offset (neg_int track_clock_thre)
    then add_sleep offset k
    else k

unfoldable pub handle_smooth_time : ℤ → OutputController → OutputController
handle_smooth_time pts c = record c { clock = smooth_clock c.statistician pts c }

-- How far a frame is before the clock of the other stream.
abbrev pub sync_offset : ℤ → Clock → ℤ
sync_offset pts k =
    (((composed_time pts k -ℤ k.v_front) -ℤ k.v_back) -ℤ ((k.clock_time -ℤ k.a_front) -ℤ k.a_back))
    -ℤ k.dev_clock_diff

-- Half of an int64_t, rounded towards 0.
abbrev pub half : ℤ → ℤ
half a = quotient a 2

-- HandleSyncTime for a frame with meta data.
unfoldable pub handle_sync_time : ℤ → OutputController → OutputController
handle_sync_time pts c =
    let k = c.clock in
    let wait = c.thresholds.wait_clock_thre in
    let track = c.thresholds.track_clock_thre in
    let offset = sync_offset pts k in
    let append = half (track +ℤ wait) in
    if lt_int wait offset
    then record c { clock = add_sleep ((offset -ℤ wait) +ℤ append) k }
    else if lt_int offset (neg_int track)
    then record c { clock = add_sleep ((offset -ℤ track) -ℤ append) k }
    else c

abbrev pub clamp_sleep : ℤ → Clock → Clock
clamp_sleep sleep_thre k =
    let sleep = if lt_int sleep_thre k.sleep then sleep_thre else k.sleep in
    record k { sleep = if lt_int sleep (pos 0) then pos 0 else sleep }

-- SyncClock up to the wait, for a frame with meta data.
unfoldable pub sync_clock : ℤ → OutputController → OutputController
sync_clock pts c =
    let c1 = if is_sync c.mode then handle_sync_time pts c else handle_smooth_time pts c in
    record c1 { clock = clamp_sleep c1.thresholds.sleep_thre c1.clock }

abbrev pub balanced_once : Option TimeStatistician → OutputController → Bool
balanced_once none c = false
balanced_once (some t) c =
    not (is_zero t.aver_push_interval)
    && not (is_zero t.aver_time_stamp_interval)
    && ltb (magnitude (t.aver_push_interval -ℤ t.aver_time_stamp_interval))
        c.thresholds.aver_interval_diff_thre
    && ltb (magnitude (t.push_interval -ℤ t.aver_push_interval)) c.thresholds.push_once_diff_thre
    && ltb (magnitude (t.time_stamp_interval -ℤ t.aver_time_stamp_interval))
        c.thresholds.time_stamp_once_diff_thre

-- CheckIsProcessInDynamicBalance; the count is a uint8_t.
unfoldable pub check_is_process_in_dynamic_balance : OutputController → OutputController × Bool
check_is_process_in_dynamic_balance c =
    let count = if balanced_once c.statistician c then (c.dynamic_balance_count + 1) % 256 else 0 in
    let counted = record c { dynamic_balance_count = count } in
    if is_sync c.mode || c.is_in_dynamic_balance
    then (c, true)
    else if leb c.thresholds.dynamic_balance_thre count
    then (record counted { data_queue = []; is_in_dynamic_balance = true }, true)
    else (counted, false)
