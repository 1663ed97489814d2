-- ===== src/HealthCheck/Sleep.antt =====
-- How long the sleep that can be cancelled lasts (bosun-core/src/health_check.rs).
use bonsun.Base.{
  ℕ, zero, suc, ◌+◌, ◌-◌, ◌*◌, ◌/◌, ◌≤◌, ◌≡◌, sym, inl, inr, Bool, true, false, some, arith, ltb,
  Bool-cases,
}
use bonsun.HealthCheck.{Timer, smaller, poll, elapsed, finish, pause, sleep_loop, cancellable_sleep}

-- The clock: a reading lies between the times before and behind it, and a sleep lasts at least as long
-- as it is asked to.
pub record IsClock {W : Type 0} (timer : Timer W) (time : W → ℕ) : Type 0 where
  pub reads : (w : W) → (time w ≤ (timer.now w).0) × ((timer.now w).0 ≤ time (timer.now w).1)
  pub asks : (w : W) → time w ≤ time (timer.is_cancelled w).1
  pub sleeps : (d : ℕ) (w : W) → time w + d ≤ time (timer.sleep d w)

module _ {W : Type 0} (timer : Timer W) (time : W → ℕ) (total : ℕ) where
  module _ (start : ℕ) where
    pause-lasts :
        (fuel : ℕ) (w : W)
        → IsClock timer time
        → start ≤ time w
        → start + total ≤ time w + suc fuel * poll
        → start + total ≤ time (pause timer total start w) + fuel * poll
    pause-lasts fuel w clock begun enough = ground (
      arith,
      clock.reads w,
      clock.sleeps (smaller (total - ((timer.now w).0 - start)) poll) (timer.now w).1,
    )

    pause-later :
        (w : W) → IsClock timer time → start ≤ time w → start ≤ time (pause timer total start w)
    pause-later w clock begun = omega (
      arith,
      begun,
      clock.reads w,
      clock.sleeps (smaller (total - ((timer.now w).0 - start)) poll) (timer.now w).1,
    )

    sleep_loop-ends :
        (fuel : ℕ) (w : W)
        → IsClock timer time
        → start ≤ time w
        → start + total ≤ time w + fuel * poll
        → (slept : Bool) × (w' : W) × (sleep_loop timer total start fuel w ≡ some (slept, w'))
    unfolding sleep_loop
    sleep_loop-ends zero w clock begun enough =
        let past : ltb (elapsed timer start w).0 total ≡ false = ground (arith, clock.reads w) in
        let (slept, w') = finish timer (timer.now w).1 in (slept, w', rw (past, sleep_loop))
    sleep_loop-ends (suc fuel) w clock begun enough =
        let w1 = (timer.now w).1 in
        let w2 = (timer.is_cancelled w1).1 in
        let later : time w ≤ time w2 = omega (arith, clock.reads w, clock.asks w1) in
        elim (Bool-cases (ltb (elapsed timer start w).0 total)) [
          | inr past ↦ let (slept, w') = finish timer w1 in (slept, w', rw (past, sleep_loop))
          | inl before ↦ elim (Bool-cases (timer.is_cancelled w1).0) [
            | inl stop ↦ (false, w2, rw (before, stop, sleep_loop))
            | inr go ↦
                let begun' : start ≤ time w2 = omega (arith, begun, later) in
                let (slept, w', done) =
                  sleep_loop-ends fuel (pause timer total start w2) clock
                    (pause-later w2 clock begun')
                    (pause-lasts fuel w2 clock begun' (omega (arith, enough, later))) in
                (slept, w', rw (before, go, sleep_loop) done)
          ]
        ]

    finish-lasts :
        (w w' : W)
        → IsClock timer time
        → start ≤ time w
        → ltb (elapsed timer start w).0 total ≡ false
        → some (finish timer (timer.now w).1) ≡ some (true, w')
        → start + total ≤ time w'
    finish-lasts w w' clock begun past h =
        let there : (timer.is_cancelled (timer.now w).1).1 ≡ w' = ground (arith, h) in
        rw (sym there) (ground (arith, past, clock.reads w, clock.asks (timer.now w).1))

    sleep_loop-lasts :
        (fuel : ℕ) (w w' : W)
        → IsClock timer time
        → start ≤ time w
        → sleep_loop timer total start fuel w ≡ some (true, w')
        → start + total ≤ time w'
    unfolding sleep_loop
    sleep_loop-lasts zero w w' clock begun h =
        elim (Bool-cases (ltb (elapsed timer start w).0 total)) [
          | inl before ↦ absurd (ground (arith, before, h))
          | inr past ↦ finish-lasts w w' clock begun past (rw (past, sleep_loop) at h)
        ]
    sleep_loop-lasts (suc fuel) w w' clock begun h =
        let w1 = (timer.now w).1 in
        let w2 = (timer.is_cancelled w1).1 in
        elim (Bool-cases (ltb (elapsed timer start w).0 total)) [
          | inr past ↦ finish-lasts w w' clock begun past (rw (past, sleep_loop) at h)
          | inl before ↦ elim (Bool-cases (timer.is_cancelled w1).0) [
            | inl stop ↦ absurd (ground (arith, before, stop, h))
            | inr go ↦
                sleep_loop-lasts fuel (pause timer total start w2) w' clock
                  (pause-later w2 clock (omega (arith, begun, clock.reads w, clock.asks w1)))
                  (rw (before, go, sleep_loop) at h)
          ]
        ]

  -- If a reading lies between the times before and behind it, and a pause is as long as asked for, the
  -- sleep ends with a pause for each 50 milliseconds and one more as its fuel.
  pub cancellable_sleep-ends :
      (w : W)
      → IsClock timer time
      → (slept : Bool) × (w' : W) × (cancellable_sleep timer total w ≡ some (slept, w'))
  unfolding cancellable_sleep
  cancellable_sleep-ends w clock =
      sleep_loop-ends (timer.now w).0 (total / poll + 1) (timer.now w).1 clock (clock.reads w).1
        (omega (arith, clock.reads w))

  -- If a reading lies between the times before and behind it, and a pause is as long as asked for, then
  -- where the sleep says that it came to its end, the whole time has passed since it began.
  pub cancellable_sleep-lasts :
      (w w' : W)
      → IsClock timer time
      → cancellable_sleep timer total w ≡ some (true, w')
      → time w + total ≤ time w'
  unfolding cancellable_sleep
  cancellable_sleep-lasts w w' clock h =
      let whole =
        sleep_loop-lasts (timer.now w).0 (total / poll + 1) (timer.now w).1 w' clock
          (clock.reads w).1 h in
      omega (arith, whole, clock.reads w)
