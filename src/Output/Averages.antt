-- ===== src/Output/Averages.antt =====
-- The averages of the statistician.
use multi_hardware.Base.{ℕ, suc, ◌+◌, ◌≡◌, refl, false, List, [], ◌∷◌, length, ap, sym, ◌∙◌, arith}
use multi_hardware.Base.Ints.{
  ℤ, pos, ◌+ℤ◌, ◌-ℤ◌, is_zero, quotient, sum_parts, minus_parts, parts_injective,
}
use multi_hardware.Output.Statistician.{
  TimeStatistician, cleared_statistics, cal_aver_push_interval,
}

-- Frames that are pushed at some times.
unfoldable pub push_times : List ℤ → TimeStatistician → TimeStatistician
push_times [] t = t
push_times (time ∷ times) t = push_times times (cal_aver_push_interval time t)

abbrev pub NoneZero : List ℤ → Type 0
NoneZero [] = Unit {0}
NoneZero (time ∷ times) = (is_zero time ≡ false) × NoneZero times

abbrev pub last_of : ℤ → List ℤ → ℤ
last_of time [] = time
last_of time (other ∷ times) = last_of other times

telescope : (first last time sum : ℤ) → sum ≡ last -ℤ first → sum +ℤ (time -ℤ last) ≡ time -ℤ first
telescope first last time sum e = rw e (
    parts_injective ((last -ℤ first) +ℤ (time -ℤ last)) (time -ℤ first) (
      omega (
        arith,
        sum_parts (last -ℤ first) (time -ℤ last),
        minus_parts time last,
        minus_parts time first,
        minus_parts last first,
      )))

-- One frame that is not the first.
counts :
    (time : ℤ) (t : TimeStatistician)
    → is_zero t.last_push_time ≡ false
    → let t1 = cal_aver_push_interval time t in
      (t1.last_push_time ≡ time)
      × (t1.push_interval_sum ≡ t.push_interval_sum +ℤ (time -ℤ t.last_push_time))
      × (t1.push_index ≡ t.push_index + 1)
      × (t1.aver_push_interval ≡ quotient t1.push_interval_sum (t.push_index + 1))
unfolding cal_aver_push_interval
counts time t live = rw live (refl, refl, refl, refl)

-- The first frame.
begins :
    (time : ℤ)
    → let t0 = cal_aver_push_interval time cleared_statistics in
      (t0.last_push_time ≡ time) × (t0.push_interval_sum ≡ pos 0) × (t0.push_index ≡ 0)
unfolding cal_aver_push_interval
begins time = (refl, refl, refl)

none_yet : (time : ℤ) → pos 0 ≡ time -ℤ time
none_yet time = parts_injective (pos 0) (time -ℤ time) (omega (arith, minus_parts time time))

-- From the second frame on.
push_times-Counted :
    (times : List ℤ) (first : ℤ) (n : ℕ) (t : TimeStatistician)
    → is_zero t.last_push_time ≡ false
    → NoneZero times
    → t.push_interval_sum ≡ t.last_push_time -ℤ first
    → t.push_index ≡ n
    → t.aver_push_interval ≡ quotient t.push_interval_sum n
    → let t' = push_times times t in
      (t'.last_push_time ≡ last_of t.last_push_time times)
      × (t'.push_index ≡ n + length times)
      × (t'.aver_push_interval
          ≡ quotient (last_of t.last_push_time times -ℤ first) (n + length times))
unfolding push_times
push_times-Counted [] first n t live ok e i a = (
  refl,
  rw i (omega arith),
  rw (a, e) (ap (λ k. quotient (t.last_push_time -ℤ first) k) (omega arith)),
)
push_times-Counted (time ∷ times) first n t live ok e i a =
    let t1 = cal_aver_push_interval time t in
    let (l1, s1, i1, a1) = counts time t live in
    let longer : n + 1 + length times ≡ n + suc (length times) = omega arith in
    let sum : t1.push_interval_sum ≡ t1.last_push_time -ℤ first =
      s1
      ∙ telescope first t.last_push_time time t.push_interval_sum e
      ∙ ap (λ x. x -ℤ first) (sym l1) in
    let rest =
      push_times-Counted times first (n + 1) t1 (rw l1 ok.0) ok.1 sum (rw (i1, i) refl)
        (rw (← i) a1) in
    (
      rest.0 ∙ ap (λ x. last_of x times) l1,
      rest.1 ∙ longer,
      rest.2
          ∙ ap (λ x. quotient (last_of x times -ℤ first) (n + 1 + length times)) l1
          ∙ ap (λ k. quotient (last_of time times -ℤ first) k) longer,
    )

-- After frames are pushed at at least two times, none of them 0, from cleared statistics on, the
-- average push interval is the time from the first to the last, divided by the number of intervals
-- and rounded towards 0, whatever the times in between.
pub push_times-average :
    (first second : ℤ) (times : List ℤ)
    → is_zero first ≡ false
    → is_zero second ≡ false
    → NoneZero times
    → let t = push_times (first ∷ second ∷ times) cleared_statistics in
      (t.push_index ≡ length times + 1)
      × (t.aver_push_interval ≡ quotient (last_of second times -ℤ first) (length times + 1))
unfolding push_times
push_times-average first second times f s ok =
    let t0 = cal_aver_push_interval first cleared_statistics in
    let t1 = cal_aver_push_interval second t0 in
    let (l0, s0, i0) = begins first in
    let (l1, s1, i1, a1) = counts second t0 (rw l0 f) in
    let sum : t1.push_interval_sum ≡ t1.last_push_time -ℤ first =
      s1
      ∙ ap (λ x. x +ℤ (second -ℤ t0.last_push_time)) s0
      ∙ ap (λ x. pos 0 +ℤ (second -ℤ x)) l0
      ∙ telescope first first second (pos 0) (none_yet first)
      ∙ ap (λ x. x -ℤ first) (sym l1) in
    let one : t1.push_index ≡ 1 = i1 ∙ ap (λ k. k + 1) i0 in
    let average : t1.aver_push_interval ≡ quotient t1.push_interval_sum 1 =
      a1 ∙ ap (λ k. quotient t1.push_interval_sum (k + 1)) i0 in
    let rest = push_times-Counted times first 1 t1 (rw l1 s) ok sum one average in
    let same : 1 + length times ≡ length times + 1 = omega arith in
    (
      rest.1 ∙ same,
      rest.2
          ∙ ap (λ x. quotient (last_of x times -ℤ first) (1 + length times)) l1
          ∙ ap (λ k. quotient (last_of second times -ℤ first) k) same,
    )
