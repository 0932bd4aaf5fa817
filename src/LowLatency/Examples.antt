-- ===== src/LowLatency/Examples.antt =====
-- The theorems of LowLatency at small inputs.
use multi_hardware.Base.{◌≡◌, refl, true, false, List, [], ◌∷◌, arith}
use multi_hardware.LowLatency.Switches.{
  mode_enable, mode_disable, LowLatency, execute, enable_low_latency, close_low_latency,
}
use multi_hardware.LowLatency.Timer.{
  Event, enable_it, disable_it, execute_it, events, IsTimed, events-IsTimed,
  execute-close_low_latency,
}

abbrev off : LowLatency
off = record { low_latency_switch_set = []; event_handler = false; posted = 0; mode = mode_disable }

off-IsTimed : IsTimed off
off-IsTimed = record { posted = refl; handler = refl; mode = λ e. refl }

abbrev script : List Event
script = enable_it 1 ∷ execute_it ∷ enable_it 2 ∷ disable_it 1 ∷ disable_it 2 ∷ []

events-IsTimed_example : IsTimed (events script off)
events-IsTimed_example = events-IsTimed script off off-IsTimed

-- The camera is on.
abbrev camera_on : LowLatency
camera_on = record {
  low_latency_switch_set = 1 ∷ [];
  event_handler = true;
  posted = 1;
  mode = mode_enable;
}

camera_on-IsTimed : IsTimed camera_on
camera_on-IsTimed = record { posted = refl; handler = refl; mode = λ e. ground arith }

execute-close_low_latency_example :
    let closed = close_low_latency camera_on in
    (closed.mode ≡ mode_disable)
    × ((execute closed).mode ≡ mode_enable)
    × ((execute closed).low_latency_switch_set ≡ [])
    × ((enable_low_latency 2 closed).posted ≡ 2)
execute-close_low_latency_example =
    execute-close_low_latency 2 camera_on camera_on-IsTimed refl refl
