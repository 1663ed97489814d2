-- ===== src/HealthCheck.antt =====
-- bosun-core/src/health_check.rs: the defaults of a health check, and the sleep that can be cancelled.
pub mod Sleep
pub mod Retry
mod Examples
use bonsun.Base.{
  ℕ, zero, suc, ◌+◌, ◌-◌, ◌*◌, ◌/◌, Bool, true, false, not, Option, none, some, ltb, leb,
  if◌then◌else◌,
}

abbrev pub default_timeout_sec : ℕ
default_timeout_sec = 10

abbrev pub default_retry_count : ℕ
default_retry_count = 3

abbrev pub default_retry_interval_sec : ℕ
default_retry_interval_sec = 2

-- `unwrap_or`
abbrev unwrap_or : Option ℕ → ℕ → ℕ
unwrap_or none d = d
unwrap_or (some n) d = n

abbrev pub smaller : ℕ → ℕ → ℕ
smaller a b = if leb a b then a else b

abbrev larger : ℕ → ℕ → ℕ
larger a b = if leb a b then b else a

-- `Duration::from_secs`, in nanoseconds.
abbrev from_secs : ℕ → ℕ
from_secs s = s * 1000000000

-- `resolve_defaults`
unfoldable pub resolve_defaults :
    (timeout_sec retry_count retry_interval_sec : Option ℕ) → ℕ × (ℕ × ℕ)
resolve_defaults timeout_sec retry_count retry_interval_sec = (
  from_secs (unwrap_or timeout_sec default_timeout_sec),
  (
    larger (unwrap_or retry_count default_retry_count) 1,
    from_secs (unwrap_or retry_interval_sec default_retry_interval_sec),
  ),
)

-- 50 milliseconds.
abbrev pub poll : ℕ
poll = 50000000

-- `Instant::now`, the token and `thread::sleep`; a reading and a sleep take time.
pub record Timer (W : Type 0) : Type 0 where
  pub now : W → ℕ × W
  pub is_cancelled : W → Bool × W
  pub sleep : ℕ → W → W

module _ {W : Type 0} (timer : Timer W) where
  -- `start.elapsed()`, which is nothing where the clock stands before `start`.
  abbrev pub elapsed : (start : ℕ) → W → ℕ × W
  elapsed start w = let (t, w') = timer.now w in (t - start, w')

  -- Behind the loop: `!cancel.is_cancelled()`.
  abbrev pub finish : W → Bool × W
  finish w = let (stop, w') = timer.is_cancelled w in (not stop, w')

  module _ (total start : ℕ) where
    -- One pause.
    abbrev pub pause : W → W
    pause w = let (t, w') = elapsed start w in timer.sleep (smaller (total - t) poll) w'

    -- The `while` loop; `none` means that the fuel, a unit for each pause, ran out.
    unfoldable pub sleep_loop : (fuel : ℕ) → W → Option (Bool × W)
    sleep_loop zero w =
        let (t, w1) = elapsed start w in
        let (stop, w2) = timer.is_cancelled w1 in
        elim (ltb t total) [
          | false ↦ some (finish w1)
          | true ↦ if stop then some (false, w2) else none
        ]
    sleep_loop (suc fuel) w =
        let (t, w1) = elapsed start w in
        let (stop, w2) = timer.is_cancelled w1 in
        elim (ltb t total) [
          | false ↦ some (finish w1)
          | true ↦ elim stop [ true ↦ some (false, w2) | false ↦ sleep_loop fuel (pause w2) ]
        ]

  -- `cancellable_sleep`
  unfoldable pub cancellable_sleep : (total : ℕ) → W → Option (Bool × W)
  cancellable_sleep total w =
      let (start, w') = timer.now w in sleep_loop total start (total / poll + 1) w'
