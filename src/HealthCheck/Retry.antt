-- ===== src/HealthCheck/Retry.antt =====
-- bosun-primitives/src/health_check/mod.rs: the attempts of a health check, and the runner.
pub mod Ends
use bonsun.Base.{
  ℕ, zero, suc, Bool, true, false, List, [], Option, none, some, Text, codes, if◌then◌else◌,
}
use bonsun.Primitive.{ℤ, negsuc}
use bonsun.Defers.Format.{HealthCheck, cmd, url}
use bonsun.Defers.Files.{IoError, Result, ok, err}
use bonsun.Defers.Replay.{
  HealthCheckError, cmd_exit_non_zero, cmd_timeout, cmd_spawn_error, url_bad_status, url_transport,
  cancelled,
}
use bonsun.HealthCheck.{Timer, resolve_defaults, cancellable_sleep}

-- `cmd::Attempt`
pub data CmdAttempt : Type 0 where
  success : CmdAttempt
  exit_non_zero : (code : ℤ) (stderr_excerpt : Text) → CmdAttempt
  timed_out : CmdAttempt
  spawn_error : IoError → CmdAttempt

-- `url::Attempt`
pub data UrlAttempt : Type 0 where
  success : UrlAttempt
  bad_status : (actual : ℕ) → UrlAttempt
  transport : (reason : Text) → UrlAttempt

-- `cmd::run_once`, and `url::run_once` with the agent of a timeout.
pub record Probe (W : Type 0) : Type 0 where
  pub run_cmd : (argv : List Text) (timeout : ℕ) → W → CmdAttempt × W
  pub run_url : (timeout : ℕ) (target : Text) (expected : ℕ) → W → UrlAttempt × W

-- What an attempt says: the loop ends, or goes on with what it remembers.
pub data Judged (S : Type 0) : Type 0 where
  finished : Result HealthCheckError Unit → Judged S
  failed : S → Judged S

-- The variables of the loop over a command, and of the loop over a URL.
pub record LastCmd : Type 0 where
  pub exit_code : Option ℤ
  pub stderr : Text
  pub had_timeout : Bool

pub record LastUrl : Type 0 where
  pub actual : Option ℕ
  pub transport_reason : Option Text

-- `match cmd::run_once(..)`
unfoldable pub judge_cmd : CmdAttempt → LastCmd → Judged LastCmd
judge_cmd CmdAttempt.success last = finished (ok tt)
judge_cmd (exit_non_zero code stderr) last =
    failed (record { exit_code = some code; stderr = stderr; had_timeout = false })
judge_cmd timed_out last = failed (record last { exit_code = none; had_timeout = true })
judge_cmd (spawn_error e) last = finished (err (cmd_spawn_error e))

-- `match url::run_once(..)`
unfoldable pub judge_url : UrlAttempt → LastUrl → Judged LastUrl
judge_url UrlAttempt.success last = finished (ok tt)
judge_url (bad_status actual) last =
    failed (record { actual = some actual; transport_reason = none })
judge_url (transport reason) last =
    failed (record { actual = none; transport_reason = some reason })

abbrev code_or : Option ℤ → ℤ → ℤ
code_or none d = d
code_or (some c) d = c

abbrev reason_or : Option Text → Text → Text
reason_or none d = d
reason_or (some r) d = r

abbrev expected_or : Option ℕ → ℕ → ℕ
expected_or none d = d
expected_or (some n) d = n

-- Behind the loop.
abbrev cmd_error : (argv : List Text) (retries : ℕ) → LastCmd → HealthCheckError
cmd_error argv retries last =
    if last.had_timeout
    then cmd_timeout argv retries
    else cmd_exit_non_zero (code_or last.exit_code (negsuc 0)) retries last.stderr

abbrev url_error : (target : Text) (expected retries : ℕ) → LastUrl → HealthCheckError
url_error target expected retries last = elim last.actual [
  | some actual ↦ url_bad_status target actual expected retries
  | none ↦ url_transport target retries (reason_or last.transport_reason (codes "unknown"))
]

abbrev pub default_expected_status : ℕ
default_expected_status = 200

module _ {W : Type 0} (timer : Timer W) where
  -- `none` where the fuel of a sleep ran out.
  abbrev pub Outcome : Type 0
  Outcome = Option (Result HealthCheckError Unit × W)

  module _ {S : Type 0} (interval : ℕ) (once : W → (S → Judged S) × W)
      (final : S → HealthCheckError) where
    -- The result of the sleep before the next attempt.
    abbrev pub slept_on : (S → W → Outcome) → S → Option (Bool × W) → Outcome
    slept_on next last none = none
    slept_on next last (some (true, w)) = next last w
    slept_on next last (some (false, w)) = some (err cancelled, w)

    -- Behind a failed attempt; `left` is the number of attempts to come.
    abbrev pub retry : (left : ℕ) → (S → W → Outcome) → S → W → Outcome
    retry zero next last w = next last w
    retry (suc left) next last w = slept_on next last (cancellable_sleep timer interval w)

    abbrev pub after_attempt : (left : ℕ) → (S → W → Outcome) → Judged S → W → Outcome
    after_attempt left next (finished r) w = some (r, w)
    after_attempt left next (failed last) w = retry left next last w

    abbrev pub attempt_unless : (left : ℕ) → (S → W → Outcome) → S → Bool × W → Outcome
    attempt_unless left next last (true, w) = some (err cancelled, w)
    attempt_unless left next last (false, w) =
        let (judge, w') = once w in after_attempt left next (judge last) w'

    -- `for attempt in 1..=retries`, and what is behind it; `left` counts the attempts down.
    unfoldable pub attempts : (left : ℕ) → S → W → Outcome
    attempts zero last w = some (err (final last), w)
    attempts (suc left) last w =
        attempt_unless left (λ last w. attempts left last w) last (timer.is_cancelled w)

  module _ (probe : Probe W) where
    abbrev pub cmd_once : (argv : List Text) (timeout : ℕ) → W → (LastCmd → Judged LastCmd) × W
    cmd_once argv timeout w =
        let (attempt, w') = probe.run_cmd argv timeout w in (judge_cmd attempt, w')

    abbrev pub url_once :
        (timeout : ℕ) (target : Text) (expected : ℕ) → W → (LastUrl → Judged LastUrl) × W
    url_once timeout target expected w =
        let (attempt, w') = probe.run_url timeout target expected w in (judge_url attempt, w')

    -- `run_cmd_with_retries`
    unfoldable pub run_cmd_with_retries :
        (argv : List Text) (timeout_sec retry_count retry_interval_sec : Option ℕ) → W → Outcome
    run_cmd_with_retries argv timeout_sec retry_count retry_interval_sec =
        let (timeout, (retries, interval)) =
          resolve_defaults timeout_sec retry_count retry_interval_sec in
        attempts interval (cmd_once argv timeout) (cmd_error argv retries) retries
          (record { exit_code = none; stderr = []; had_timeout = false })

    -- `run_url_with_retries`
    unfoldable pub run_url_with_retries :
        (target : Text) (expected_status timeout_sec retry_count retry_interval_sec : Option ℕ)
        → W
        → Outcome
    run_url_with_retries target expected_status timeout_sec retry_count retry_interval_sec =
        let (timeout, (retries, interval)) =
          resolve_defaults timeout_sec retry_count retry_interval_sec in
        let expected = expected_or expected_status default_expected_status in
        attempts interval (url_once timeout target expected) (url_error target expected retries)
          retries (record { actual = none; transport_reason = none })

    -- `RealHealthCheckRunner::run`
    unfoldable pub run_check : HealthCheck → W → Outcome
    run_check (cmd argv timeout_sec retry_count retry_interval_sec) =
        run_cmd_with_retries argv timeout_sec retry_count retry_interval_sec
    run_check (url target expected_status timeout_sec retry_count retry_interval_sec) =
        run_url_with_retries target expected_status timeout_sec retry_count retry_interval_sec
