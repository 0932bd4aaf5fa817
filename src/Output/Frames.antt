-- ===== src/Output/Frames.antt =====
-- How long a frame waits.
use mathlib.Core.Path.{subst}
use multi_hardware.Base.{◌+◌, ◌≡◌, ◌⊎◌, ◌∙◌, refl, Bool, true, false, arith, if◌then◌else◌, ltb}
use multi_hardware.Base.Ints.{
  ℤ, pos, difference_parts, pos_part, neg_part, ◌+ℤ◌, ◌-ℤ◌, ◌≤ℤ◌, neg_int, lt_int, quotient,
  sum_parts, minus_parts, parts_injective,
}
use multi_hardware.Output.Controller.{OutputController, Clock, Thresholds, is_sync}
use multi_hardware.Output.Times.{
  sync_offset, add_sleep, half, handle_sync_time, handle_smooth_time, clamp_sleep, sync_clock,
}

lt_int-parts : (a b : ℤ) → lt_int a b ≡ ltb (pos_part a + neg_part b) (pos_part b + neg_part a)
unfolding lt_int
lt_int-parts a b = refl

positive_sum : (a d : ℤ) → lt_int (pos 0) a ≡ true → pos 0 ≤ℤ d → lt_int (pos 0) (a +ℤ d) ≡ true
positive_sum a d h k =
    ground (arith, lt_int-parts (pos 0) a, lt_int-parts (pos 0) (a +ℤ d), sum_parts a d)

half-nonneg : (a : ℤ) → pos 0 ≤ℤ a → pos 0 ≤ℤ half a
unfolding quotient
half-nonneg a h = ground arith

-- Both sides of an offset, with the fixed times in between.
offset_lem :
    (pts s d front back rest diff : ℤ)
    → ((((pts -ℤ (s +ℤ d)) -ℤ front) -ℤ back) -ℤ rest) -ℤ diff
      ≡ (((((pts -ℤ s) -ℤ front) -ℤ back) -ℤ rest) -ℤ diff) -ℤ d
offset_lem pts s d front back rest diff = parts_injective _ _ (
    omega (
      arith,
      sum_parts s d,
      minus_parts pts (s +ℤ d),
      minus_parts (pts -ℤ (s +ℤ d)) front,
      minus_parts ((pts -ℤ (s +ℤ d)) -ℤ front) back,
      minus_parts (((pts -ℤ (s +ℤ d)) -ℤ front) -ℤ back) rest,
      minus_parts ((((pts -ℤ (s +ℤ d)) -ℤ front) -ℤ back) -ℤ rest) diff,
      minus_parts pts s,
      minus_parts (pts -ℤ s) front,
      minus_parts ((pts -ℤ s) -ℤ front) back,
      minus_parts (((pts -ℤ s) -ℤ front) -ℤ back) rest,
      minus_parts ((((pts -ℤ s) -ℤ front) -ℤ back) -ℤ rest) diff,
      minus_parts (((((pts -ℤ s) -ℤ front) -ℤ back) -ℤ rest) -ℤ diff) d,
    ))

sync_offset-add_sleep :
    (pts d : ℤ) (k : Clock)
    → lt_int (pos 0) k.sleep ≡ true
    → lt_int (pos 0) (k.sleep +ℤ d) ≡ true
    → sync_offset pts (add_sleep d k) ≡ sync_offset pts k -ℤ d
sync_offset-add_sleep pts d k sleeps h =
    rw (h, sleeps)
      (offset_lem pts k.sleep d k.v_front k.v_back ((k.clock_time -ℤ k.a_front) -ℤ k.a_back)
        k.dev_clock_diff)

left_over : (offset wait append : ℤ) → offset -ℤ ((offset -ℤ wait) +ℤ append) ≡ wait -ℤ append
left_over offset wait append = parts_injective _ _ (
    omega (
      arith,
      minus_parts offset wait,
      sum_parts (offset -ℤ wait) append,
      minus_parts offset ((offset -ℤ wait) +ℤ append),
      minus_parts wait append,
    ))

more_sleep :
    (offset wait append : ℤ)
    → lt_int wait offset ≡ true
    → pos 0 ≤ℤ append
    → pos 0 ≤ℤ ((offset -ℤ wait) +ℤ append)
more_sleep offset wait append h k =
    ground
      (arith, lt_int-parts wait offset, minus_parts offset wait, sum_parts (offset -ℤ wait) append)

clamp_sleep-bounds :
    (thre : ℤ) (k : Clock)
    → let s = (clamp_sleep thre k).sleep in (pos 0 ≤ℤ s) × ((s ≤ℤ thre) ⊎ (s ≡ pos 0))
unfolding lt_int
clamp_sleep-bounds thre k = ground arith

if_thresholds :
    (b : Bool) (x y : OutputController) (t : Thresholds)
    → x.thresholds ≡ t
    → y.thresholds ≡ t
    → (if b then x else y).thresholds ≡ t
if_thresholds true x y t h k = h
if_thresholds false x y t h k = k

thresholds_kept :
    (pts : ℤ) (c : OutputController)
    → (if is_sync c.mode then handle_sync_time pts c else handle_smooth_time pts c).thresholds
      ≡ c.thresholds
unfolding handle_sync_time handle_smooth_time
thresholds_kept pts c =
    if_thresholds (is_sync c.mode) _ _ c.thresholds
      (if_thresholds (lt_int c.thresholds.wait_clock_thre (sync_offset pts c.clock)) _ _
        c.thresholds refl
        (if_thresholds (lt_int (sync_offset pts c.clock) (neg_int c.thresholds.track_clock_thre)) _
          _ c.thresholds refl refl))
      refl

-- Before a frame is shown the controller sleeps for no negative time, and for no longer than the
-- threshold of the sleep unless it does not sleep at all, whatever the clocks, the thresholds and
-- the factors are, and in both modes.
pub sync_clock-bounds :
    (pts : ℤ) (c : OutputController)
    → let c' = sync_clock pts c in
      (pos 0 ≤ℤ c'.clock.sleep)
      × ((c'.clock.sleep ≤ℤ c.thresholds.sleep_thre) ⊎ (c'.clock.sleep ≡ pos 0))
unfolding sync_clock
sync_clock-bounds pts c =
    let c1 = if is_sync c.mode then handle_sync_time pts c else handle_smooth_time pts c in
    let bounds = clamp_sleep-bounds c1.thresholds.sleep_thre c1.clock in
    let kept : c1.thresholds ≡ c.thresholds = thresholds_kept pts c in
    (
      bounds.0,
      subst
          (λ t.
            ((clamp_sleep c1.thresholds.sleep_thre c1.clock).sleep ≤ℤ t.sleep_thre)
            ⊎ ((clamp_sleep c1.thresholds.sleep_thre c1.clock).sleep ≡ pos 0))
          kept bounds.1,
    )

-- A frame that is to sleep already is before the clock of the audio by more than the threshold, and
-- the thresholds are not negative. Then HandleSyncTime makes it sleep so much longer that what is
-- left of its offset is the upper threshold less half of the sum of both.
pub handle_sync_time-early :
    (pts : ℤ) (c : OutputController)
    → lt_int (pos 0) c.clock.sleep ≡ true
    → lt_int c.thresholds.wait_clock_thre (sync_offset pts c.clock) ≡ true
    → pos 0 ≤ℤ c.thresholds.wait_clock_thre
    → pos 0 ≤ℤ c.thresholds.track_clock_thre
    → let wait = c.thresholds.wait_clock_thre in
      let track = c.thresholds.track_clock_thre in
      sync_offset pts (handle_sync_time pts c).clock ≡ wait -ℤ half (track +ℤ wait)
unfolding handle_sync_time
handle_sync_time-early pts c sleeps early w t =
    let wait = c.thresholds.wait_clock_thre in
    let track = c.thresholds.track_clock_thre in
    let offset = sync_offset pts c.clock in
    let append = half (track +ℤ wait) in
    let kept = half-nonneg (track +ℤ wait) (omega (arith, w, t, sum_parts track wait)) in
    rw early (
      sync_offset-add_sleep pts ((offset -ℤ wait) +ℤ append) c.clock sleeps (
        positive_sum c.clock.sleep ((offset -ℤ wait) +ℤ append) sleeps
          (more_sleep offset wait append early kept))
      ∙ left_over offset wait append)

left_behind : (offset track append : ℤ) → offset -ℤ ((offset -ℤ track) -ℤ append) ≡ track +ℤ append
left_behind offset track append = parts_injective _ _ (
    omega (
      arith,
      minus_parts offset track,
      minus_parts (offset -ℤ track) append,
      minus_parts offset ((offset -ℤ track) -ℤ append),
      sum_parts track append,
    ))

neg_int-parts : (a : ℤ) → pos_part (neg_int a) + pos_part a ≡ neg_part (neg_int a) + neg_part a
unfolding neg_int
neg_int-parts a = difference_parts (neg_part a) (pos_part a)

not_early :
    (offset wait track : ℤ)
    → lt_int offset (neg_int track) ≡ true
    → pos 0 ≤ℤ wait
    → pos 0 ≤ℤ track
    → lt_int wait offset ≡ false
not_early offset wait track h w t =
    ground
      (arith, lt_int-parts wait offset, lt_int-parts offset (neg_int track), neg_int-parts track)

-- A frame that is to sleep is behind the clock of the audio by more than the threshold for it, the
-- thresholds are not negative, and some sleep is left after HandleSyncTime. Then the frame is not
-- behind the clock any more: its offset is then that threshold and half of the sum of both.
pub handle_sync_time-late :
    (pts : ℤ) (c : OutputController)
    → let wait = c.thresholds.wait_clock_thre in
      let track = c.thresholds.track_clock_thre in
      lt_int (pos 0) c.clock.sleep ≡ true
      → lt_int (sync_offset pts c.clock) (neg_int track) ≡ true
      → pos 0 ≤ℤ wait
      → pos 0 ≤ℤ track
      → lt_int (pos 0) (handle_sync_time pts c).clock.sleep ≡ true
      → sync_offset pts (handle_sync_time pts c).clock ≡ track +ℤ half (track +ℤ wait)
unfolding handle_sync_time
handle_sync_time-late pts c sleeps late w t left =
    let wait = c.thresholds.wait_clock_thre in
    let track = c.thresholds.track_clock_thre in
    let offset = sync_offset pts c.clock in
    let append = half (track +ℤ wait) in
    let less = (offset -ℤ track) -ℤ append in
    let no = not_early offset wait track late w t in
    let slept : handle_sync_time pts c ≡ record c { clock = add_sleep less c.clock } =
      rw (no, late) refl in
    let still : lt_int (pos 0) (c.clock.sleep +ℤ less) ≡ true =
      subst (λ (x : OutputController). lt_int (pos 0) x.clock.sleep ≡ true) slept left in
    rw (no, late)
      (sync_offset-add_sleep pts less c.clock sleeps still ∙ left_behind offset track append)
