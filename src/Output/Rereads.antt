-- ===== src/Output/Rereads.antt =====
-- The wait for the clock ends.
use multi_hardware.Base.{
  ℕ, zero, suc, ◌+◌, ◌≤◌, ◌≡◌, refl, Bool, true, false, not, ◌&&◌, ◌||◌, Option, none, some, [],
  ◌∷◌, length, length-append, ltb, arith, Bool-cases, inl, inr, if◌then◌else◌,
}
use multi_hardware.Base.Map.{is_some}
use multi_hardware.Base.Ints.{ℤ, is_zero}
use multi_hardware.Output.Statistician.{BufferMeta, Buffer}
use multi_hardware.Output.Controller.{
  OutputController, is_sync, is_start, queue_max_size, check_sync_info, push_data,
}
use multi_hardware.Output.Queue.{push, call, calls}
use multi_hardware.Output.Looper.{
  Reading, Waits, acquire_sync_clock_time, wait_reread_clock_failed, control_output,
  check_is_clock_invalid, is_master_not_ready, timed_output,
}

abbrev pub meta_synced : Option BufferMeta → Bool
meta_synced none = false
meta_synced (some meta) = meta.has_sample_per_frame && meta.has_start_time

-- One frame comes in each wait.
abbrev pub one_frame : (ℕ → Buffer) → (ℕ → Reading) → Waits
one_frame frames readings = record {
  others = λ k. push (ℤ.pos k) (some (frames k)) ∷ [];
  readings = readings;
}

record Grown (n : ℕ) (c : OutputController) : Type 0 where
  size : n ≤ length c.data_queue
  runs : is_start c.status ≡ true
  synced : is_sync c.mode ≡ true

push_it :
    (time : ℤ) (frame : Buffer) (meta : Option BufferMeta) (n : ℕ) (c : OutputController)
    → frame.buffer_meta ≡ meta
    → meta_synced meta ≡ true
    → ltb (length c.data_queue) queue_max_size ≡ true
    → Grown n c
    → Grown (suc n) (call (push time (some frame)) c)
unfolding call push_data check_sync_info
push_it time frame none n c e m room g = ground arith
push_it time frame (some meta) n c e m room g = ground (
  arith,
  g,
  e,
  length-append c.data_queue
      (record frame { buffer_meta = some (record meta { user_push_data_time = some time }) } ∷ []),
)

acquire-Grown :
    (reading : Reading) (meta : Option BufferMeta) (n : ℕ) (c : OutputController)
    → Grown n c
    → Grown n (acquire_sync_clock_time reading meta c).0
unfolding acquire_sync_clock_time
acquire-Grown reading none n c g = g
acquire-Grown reading (some meta) n c g = ground (arith, g)

below :
    (k : ℕ) (c : OutputController)
    → ltb (length c.data_queue) queue_max_size ≡ true
    → Grown k c
    → suc k ≤ queue_max_size
below k c room g = ground (arith, g)

if-is_some :
    (full found : Bool) (c d : OutputController) (rest : Option (OutputController × Bool))
    → (full ≡ false → is_some rest ≡ true)
    → is_some (if full then some (c, true) else if found then some (d, false) else rest) ≡ true
if-is_some true found c d rest h = refl
if-is_some false true c d rest h = refl
if-is_some false false c d rest h = h refl

wait_reread-ends :
    (frames : ℕ → Buffer) (readings : ℕ → Reading) (rounds k : ℕ) (meta : Option BufferMeta)
    (c : OutputController)
    → ((i : ℕ) → meta_synced (frames i).buffer_meta ≡ true)
    → queue_max_size + 1 ≤ rounds + k
    → k ≤ queue_max_size
    → Grown k c
    → is_some (wait_reread_clock_failed (one_frame frames readings) rounds k meta c) ≡ true
unfolding wait_reread_clock_failed calls
wait_reread-ends frames readings zero k meta c synced enough bound g = ground arith
wait_reread-ends frames readings (suc rounds) k meta c synced enough bound g =
    let pushed = call (push (ℤ.pos k) (some (frames k))) c in
    if-is_some (not (ltb (length c.data_queue) queue_max_size)) _ _ _ _ (λ open_queue.
      let room : ltb (length c.data_queue) queue_max_size ≡ true = ground arith in
      let g' = push_it (ℤ.pos k) (frames k) (frames k).buffer_meta k c refl (synced k) room g in
      wait_reread-ends frames readings rounds (suc k) meta
        (acquire_sync_clock_time (readings k) meta pushed).0 synced (omega arith) (below k c room g)
        (acquire-Grown (readings k) meta (suc k) pushed g'))

check-ends :
    (frames : ℕ → Buffer) (readings : ℕ → Reading) (first : Reading) (meta : Option BufferMeta)
    (c : OutputController)
    → ((i : ℕ) → meta_synced (frames i).buffer_meta ≡ true)
    → is_start c.status ≡ true
    → is_some (check_is_clock_invalid first (one_frame frames readings) (queue_max_size + 1) meta c)
      ≡ true
unfolding check_is_clock_invalid
check-ends frames readings first meta c synced runs = elim (Bool-cases (is_sync c.mode)) [
  | inr smooth ↦ rw smooth refl
  | inl sync ↦
      let begins : Grown 0 c = record { size = omega arith; runs = runs; synced = sync } in
      let waits =
        wait_reread-ends frames readings (queue_max_size + 1) 0 meta
          (acquire_sync_clock_time first meta c).0 synced (omega arith) (omega arith)
          (acquire-Grown first meta 0 c begins) in
      rw sync (elim (Bool-cases (is_master_not_ready (acquire_sync_clock_time first meta c).1)) [
        | inl wait ↦ rw wait waits
        | inr done ↦ rw done refl
      ])
]

timed_output-is_some :
    (now : ℤ) (frame : Buffer) (r : Option (OutputController × Bool))
    → is_some r ≡ true
    → is_some (timed_output now frame r) ≡ true
timed_output-is_some now frame none h = h
timed_output-is_some now frame (some (c, true)) h = refl
timed_output-is_some now frame (some (c, false)) h = refl

-- A frame is controlled on a started controller, and in each wait for the clock of the audio one
-- frame comes that keeps the mode. Then ControlOutput ends after at most 101 waits, also where the
-- clock is never ready: a full queue ends the waiting.
pub control_output-ends :
    (frames : ℕ → Buffer) (readings : ℕ → Reading) (first : Reading) (enter_time now : ℤ)
    (frame : Buffer) (c : OutputController)
    → ((i : ℕ) → meta_synced (frames i).buffer_meta ≡ true)
    → is_start c.status ≡ true
    → is_some (
        control_output first
          (one_frame frames readings)
          (queue_max_size + 1)
          enter_time
          now
          frame
          c)
      ≡ true
unfolding control_output check_is_clock_invalid
control_output-ends frames readings first enter_time now frame c synced runs =
    let c1 : OutputController = record c { clock = record c.clock { enter_time = enter_time } } in
    let ended = check-ends frames readings first frame.buffer_meta c1 synced runs in
    elim (Bool-cases (is_zero frame.pts || not c.is_allow_control)) [
      | inl direct ↦ rw direct refl
      | inr timed ↦ rw timed (timed_output-is_some now frame _ ended)
    ]
