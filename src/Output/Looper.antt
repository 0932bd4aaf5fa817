-- ===== src/Output/Looper.antt =====
-- output_controller.cpp: ControlOutput, and the wait for the clock of the audio.
use multi_hardware.Base.{
  ℕ, zero, suc, Bool, true, false, not, ◌||◌, Option, none, some, List, length, ltb, if◌then◌else◌,
}
use multi_hardware.Base.Ints.{ℤ, is_zero}
use multi_hardware.AvSync.Memory.{
  AvErrno, success, invalid_param, shared_memory_failed, master_not_ready, is_ok,
}
use multi_hardware.Output.Statistician.{BufferMeta, Buffer, TimeStatistician, cal_process_time}
use multi_hardware.Output.Controller.{
  OutputController, ControlResult, output_frame, is_sync, queue_max_size,
}
use multi_hardware.Output.Queue.{Call, calls}
use multi_hardware.Output.Times.{
  init_baseline, init_time, record_time, cal_sleep_time, sync_clock,
  check_is_process_in_dynamic_balance,
}

-- What a reading of the shared memory gives: whether sharedMem_ is that of a memory, the result of
-- ReadClockUnitFromMemory and the time in the unit.
pub record Reading : Type 0 where
  pub memory_valid : Bool
  pub ret : AvErrno
  pub pts : ℤ

abbrev pub is_master_not_ready : AvErrno → Bool
is_master_not_ready master_not_ready = true
is_master_not_ready _ = false

unfoldable pub acquire_sync_clock_time :
    Reading → Option BufferMeta → OutputController → OutputController × AvErrno
acquire_sync_clock_time reading none c = (c, invalid_param)
acquire_sync_clock_time reading (some meta) c =
    if not reading.memory_valid
    then (c, shared_memory_failed)
    else if not (is_ok reading.ret)
    then (c, reading.ret)
    else if is_zero reading.pts
    then (c, shared_memory_failed)
    else (record c { clock = record c.clock { clock_time = reading.pts } }, success)

-- The waits: what the other threads do in each, and what is read after it.
pub record Waits : Type 0 where
  pub others : ℕ → List Call
  pub readings : ℕ → Reading

-- The loop from wait `k` on; `none` is a loop that has not ended in the number of rounds given.
unfoldable pub wait_reread_clock_failed :
    Waits → ℕ → ℕ → Option BufferMeta → OutputController → Option (OutputController × Bool)
wait_reread_clock_failed waits zero k meta c = none
wait_reread_clock_failed waits (suc rounds) k meta c =
    let (c', ret) = acquire_sync_clock_time (waits.readings k) meta (calls (waits.others k) c) in
    let rest = wait_reread_clock_failed waits rounds (suc k) meta c' in
    if not (ltb (length c.data_queue) queue_max_size)
    then some (c, true)
    else if is_ok ret || not (is_sync c'.mode)
    then some (c', false)
    else rest

-- CheckIsClockInvalid; `first` is read before the waits.
unfoldable pub check_is_clock_invalid :
    Reading → Waits → ℕ → Option BufferMeta → OutputController → Option (OutputController × Bool)
unfolding acquire_sync_clock_time wait_reread_clock_failed
check_is_clock_invalid first waits rounds meta c =
    let (c', ret) = acquire_sync_clock_time first meta c in
    if not (is_sync c.mode)
    then some (record c { clock = record c.clock { clock_time = c.clock.enter_time } }, false)
    else if is_master_not_ready ret
    then wait_reread_clock_failed waits rounds 0 meta c'
    else some (c', not (is_ok ret))

abbrev pub process_in : Option TimeStatistician → Buffer → Option TimeStatistician
process_in none frame = none
process_in (some t) frame = some (cal_process_time (some frame) t)

-- CalProcessTime of the controller.
abbrev pub process_time : Buffer → OutputController → OutputController
process_time frame c = record c { statistician = process_in c.statistician frame }

-- ControlOutput after the tests; `now` is the time at the end.
abbrev pub balanced_output : ℤ → Buffer → OutputController × Bool → OutputController
balanced_output now frame (c, balanced) =
    let pts = frame.pts in
    let c1 = process_time frame c in
    let c2 = if not c1.is_time_init then init_time c1.clock.enter_time pts c1 else c1 in
    let c3 = if not c2.is_baseline_init then init_baseline pts c2.clock.clock_time c2 else c2 in
    let shown = sync_clock pts (cal_sleep_time pts c3) in
    if not balanced
    then record_time c1.clock.enter_time pts now c1
    else record_time shown.clock.enter_time pts now shown

abbrev pub timed_output :
    ℤ → Buffer → Option (OutputController × Bool) → Option (OutputController × ControlResult)
timed_output now frame none = none
timed_output now frame (some (c, true)) =
    some (record_time c.clock.enter_time frame.pts now (process_time frame c), output_frame)
timed_output now frame (some (c, false)) =
    some (balanced_output now frame (check_is_process_in_dynamic_balance c), output_frame)

-- ControlOutput of a frame with meta data at the time `enter_time`.
unfoldable pub control_output :
    Reading
    → Waits
    → ℕ
    → ℤ
    → ℤ
    → Buffer
    → OutputController
    → Option (OutputController × ControlResult)
unfolding check_is_clock_invalid
control_output first waits rounds enter_time now frame c =
    let c1 = record c { clock = record c.clock { enter_time = enter_time } } in
    if is_zero frame.pts || not c1.is_allow_control
    then some (c1, output_frame)
    else timed_output now frame (check_is_clock_invalid first waits rounds frame.buffer_meta c1)
