-- ===== src/Output/Examples.antt =====
-- The theorems of Output at small inputs.
use multi_hardware.Base.{◌≤◌, ◌≡◌, refl, true, some, none, List, [], ◌∷◌, length, arith}
use multi_hardware.Base.Ints.{neg_int, pos, ◌-ℤ◌, ◌+ℤ◌, lt_int, quotient, difference}
use multi_hardware.Output.Statistician.{Buffer, cleared_statistics}
use multi_hardware.Output.Controller.{OutputController, Clock, start, sync, no_factor, output_frame}
use multi_hardware.Output.Times.{sync_offset, handle_sync_time}
use multi_hardware.Output.Queue.{Call, push, stop_it, output, calls, calls-queue}
use multi_hardware.Base.Map.{is_some}
use multi_hardware.AvSync.Memory.{master_not_ready}
use multi_hardware.Output.Looper.{Reading, control_output}
use multi_hardware.Output.Rereads.{one_frame, control_output-ends}
use multi_hardware.Output.Frames.{handle_sync_time-late}

abbrev frame : Buffer
frame = record {
  id = 1;
  buffer_meta =
      some
        (record { user_push_data_time = none; has_sample_per_frame = true; has_start_time = true });
  pts = pos 100;
}

abbrev times : Clock
times = record {
  enter_time = pos 0;
  last_enter_time = pos 0;
  last_time_stamp = pos 0;
  leave_time = pos 0;
  time_stamp_baseline = pos 0;
  clock_time = pos 50;
  clock_baseline = pos 0;
  delta = pos 0;
  sleep = pos 10;
  dev_clock_diff = pos 0;
  a_front = pos 0;
  a_back = pos 0;
  v_front = pos 0;
  v_back = pos 0;
}

abbrev controller : OutputController
controller = record {
  data_queue = [];
  params_map = [];
  statistician = some cleared_statistics;
  listener = true;
  status = start;
  mode = sync;
  control_thread = true;
  handler_thread = true;
  is_in_dynamic_balance = true;
  is_baseline_init = true;
  is_time_init = true;
  is_allow_control = true;
  dynamic_balance_count = 0;
  factors = record {
    adjust_sleep_factor = no_factor;
    wait_clock_factor = no_factor;
    track_clock_factor = no_factor;
  };
  thresholds = record {
    wait_clock_thre = pos 20;
    track_clock_thre = pos 10;
    sleep_thre = pos 30;
    dynamic_balance_thre = 0;
    aver_interval_diff_thre = 0;
    push_once_diff_thre = 0;
    time_stamp_once_diff_thre = 0;
    buffer_time = 0;
  };
  clock = times;
}

abbrev script : List Call
script =
    push (pos 3) (some frame)
    ∷ push (pos 4) (some frame)
    ∷ output output_frame true frame
    ∷ stop_it
    ∷ []

calls-queue_example : length (calls script controller).data_queue ≤ 101
calls-queue_example = calls-queue script controller (omega arith)

-- A frame that is 20 behind the clock, where the thresholds are 10 and 20.
abbrev late : OutputController
late = record controller { clock = record times { clock_time = pos 30; sleep = pos 90 } }

handle_sync_time-late_example :
    sync_offset (pos 100) (handle_sync_time (pos 100) late).clock ≡ pos 25
unfolding lt_int ◌-ℤ◌ difference neg_int handle_sync_time ◌+ℤ◌ quotient
handle_sync_time-late_example =
    handle_sync_time-late (pos 100) late refl refl (omega arith) (omega arith) refl

-- The clock of the audio is never ready.
abbrev not_ready : Reading
not_ready = record { memory_valid = true; ret = master_not_ready; pts = pos 0 }

control_output-ends_example :
    is_some (
      control_output not_ready
        (one_frame (λ i. frame) (λ i. not_ready))
        101
        (pos 7)
        (pos 8)
        frame
        controller)
    ≡ true
control_output-ends_example =
    control_output-ends (λ i. frame) (λ i. not_ready) not_ready (pos 7) (pos 8) frame controller
      (λ i. refl) refl
