-- ===== src/LowLatency/Switches.antt =====
-- low_latency.cpp, with low_latency_timer.cpp and dh_timer.cpp, whose event handler is that of the
-- system: a task that is posted to it runs once.
use multi_hardware.Base.{
  ℕ, ◌+◌, Bool, true, false, not, ◌||◌, List, [], ◌∷◌, length, is_empty, leb, ◌==◌, nat_eq,
  if◌then◌else◌,
}
use multi_hardware.Constants.{max_switch_size}
use multi_hardware.Constants.DhType.{unknown, max_dh}

-- What was reported last to the system.
pub data Mode : Type 0 where
  mode_enable mode_disable : Mode

-- `event_handler` says whether the timer has one, and `posted` counts the tasks of the timer that
-- are posted to it.
pub record LowLatency : Type 0 where
  pub low_latency_switch_set : List ℕ
  pub event_handler : Bool
  pub posted : ℕ
  pub mode : Mode

unfoldable pub start_timer : LowLatency → LowLatency
start_timer l = record l { event_handler = true; posted = l.posted + 1 }

-- The tasks are removed and the event handler is stopped.
unfoldable pub release_timer : LowLatency → LowLatency
release_timer l = record l { event_handler = false; posted = 0 }

unfoldable pub stop_timer : LowLatency → LowLatency
unfolding release_timer
stop_timer l = record (release_timer l) { mode = mode_disable }

-- A task of the timer runs: it reports and posts itself again.
unfoldable pub execute : LowLatency → LowLatency
execute l =
    if not l.event_handler then l else if l.posted == 0 then l else record l { mode = mode_enable }

abbrev pub insert_switch : ℕ → List ℕ → List ℕ
insert_switch dh_type [] = dh_type ∷ []
insert_switch dh_type (x ∷ xs) = if x == dh_type then x ∷ xs else x ∷ insert_switch dh_type xs

abbrev pub erase_switch : ℕ → List ℕ → List ℕ
erase_switch dh_type [] = []
erase_switch dh_type (x ∷ xs) =
    if x == dh_type then erase_switch dh_type xs else x ∷ erase_switch dh_type xs

abbrev pub is_type_invalid : ℕ → Bool
is_type_invalid dh_type = leb dh_type unknown || leb max_dh dh_type

abbrev pub insert_bounded : ℕ → LowLatency → LowLatency
insert_bounded dh_type l =
    if leb max_switch_size (length l.low_latency_switch_set)
    then l
    else record l { low_latency_switch_set = insert_switch dh_type l.low_latency_switch_set }

unfoldable pub enable_low_latency : ℕ → LowLatency → LowLatency
unfolding start_timer
enable_low_latency dh_type l =
    if is_type_invalid dh_type
    then l
    else insert_bounded dh_type (if is_empty l.low_latency_switch_set then start_timer l else l)

unfoldable pub disable_low_latency : ℕ → LowLatency → LowLatency
unfolding stop_timer
disable_low_latency dh_type l =
    let erased = record l {
      low_latency_switch_set = erase_switch dh_type l.low_latency_switch_set;
    } in
    if is_type_invalid dh_type
    then l
    else if is_empty erased.low_latency_switch_set
    then stop_timer erased
    else erased

unfoldable pub close_low_latency : LowLatency → LowLatency
close_low_latency l = record l { low_latency_switch_set = []; mode = mode_disable }
