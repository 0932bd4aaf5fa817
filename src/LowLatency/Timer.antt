-- ===== src/LowLatency/Timer.antt =====
-- The timer runs while a switch is on.
use multi_hardware.Base.{
  ℕ, ◌≡◌, refl, Bool, true, false, not, List, [], ◌∷◌, is_empty, arith, nat_eq, if◌then◌else◌,
}
use multi_hardware.LowLatency.Switches.{
  Mode, mode_enable, mode_disable, LowLatency, start_timer, release_timer, stop_timer, execute,
  insert_switch, is_type_invalid, enable_low_latency, disable_low_latency, close_low_latency,
}

-- What happens, but for CloseLowLatency.
pub data Event : Type 0 where
  enable_it disable_it : ℕ → Event
  execute_it : Event

unfoldable pub event : Event → LowLatency → LowLatency
event (enable_it dh_type) l = enable_low_latency dh_type l
event (disable_it dh_type) l = disable_low_latency dh_type l
event execute_it l = execute l

unfoldable pub events : List Event → LowLatency → LowLatency
unfolding event
events [] l = l
events (x ∷ xs) l = events xs (event x l)

abbrev pub is_enabled : Mode → Bool
is_enabled mode_enable = true
is_enabled mode_disable = false

pub record IsTimed (l : LowLatency) : Type 0 where
  pub posted : l.posted ≡ (if is_empty l.low_latency_switch_set then 0 else 1)
  pub handler : l.event_handler ≡ not (is_empty l.low_latency_switch_set)
  pub mode : is_empty l.low_latency_switch_set ≡ true → is_enabled l.mode ≡ false

insert_switch-is_empty : (x : ℕ) (xs : List ℕ) → is_empty (insert_switch x xs) ≡ false
insert_switch-is_empty x [] = refl
insert_switch-is_empty x (y ∷ ys) = ground arith

enable-IsTimed :
    (x : ℕ) (l : LowLatency) (xs : List ℕ)
    → l.low_latency_switch_set ≡ xs
    → IsTimed l
    → IsTimed (enable_low_latency x l)
unfolding enable_low_latency start_timer
enable-IsTimed x l [] e h = ground (arith, h, e)
enable-IsTimed x l (y ∷ ys) e h = ground (arith, h, e, insert_switch-is_empty x (y ∷ ys))

event-IsTimed : (x : Event) (l : LowLatency) → IsTimed l → IsTimed (event x l)
unfolding event disable_low_latency stop_timer release_timer execute
event-IsTimed (enable_it x) l h = enable-IsTimed x l l.low_latency_switch_set refl h
event-IsTimed (disable_it x) l h = ground (arith, h)
event-IsTimed execute_it l h = ground (arith, h)

-- While nothing calls CloseLowLatency: if the timer has one posted task where a switch is on, and
-- neither a task nor low latency reported last where none is, then this stays so, whatever types of
-- hardware are enabled and disabled and however often the timer runs.
pub events-IsTimed : (xs : List Event) (l : LowLatency) → IsTimed l → IsTimed (events xs l)
unfolding events
events-IsTimed [] l h = h
events-IsTimed (x ∷ xs) l h = events-IsTimed xs (event x l) (event-IsTimed x l h)

-- Where a switch is on, CloseLowLatency clears the switches and restores the normal mode, but it
-- does not stop the timer: the next time this runs it reports low latency with no switch on, and
-- the type that is enabled next posts a second task.
pub execute-close_low_latency :
    (dh_type : ℕ) (l : LowLatency)
    → IsTimed l
    → is_empty l.low_latency_switch_set ≡ false
    → is_type_invalid dh_type ≡ false
    → let closed = close_low_latency l in
      (closed.mode ≡ mode_disable)
      × ((execute closed).mode ≡ mode_enable)
      × ((execute closed).low_latency_switch_set ≡ [])
      × ((enable_low_latency dh_type closed).posted ≡ 2)
unfolding close_low_latency execute enable_low_latency start_timer
execute-close_low_latency dh_type l h on valid = ground (arith, h)
