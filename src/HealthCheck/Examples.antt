-- ===== src/HealthCheck/Examples.antt =====
-- Sleeps by a clock that stands still between the pauses.
use bonsun.Base.{ℕ, ◌+◌, ◌≡◌, refl, true, false, [], ◌∷◌, none, some, codes, leb, if◌then◌else◌}
use bonsun.HealthCheck.{Timer, resolve_defaults, sleep_loop, cancellable_sleep}
use bonsun.Primitive.{pos}
use bonsun.Defers.Format.{HealthCheck, cmd}
use bonsun.Defers.Files.{ok, err}
use bonsun.Defers.Replay.{cmd_exit_non_zero}
use bonsun.HealthCheck.Retry.{
  CmdAttempt, exit_non_zero, UrlAttempt, Probe, judge_cmd, attempts, run_cmd_with_retries,
  run_check,
}

abbrev timer : Timer ℕ
timer = record { now = λ t. (t, t); is_cancelled = λ t. (false, t); sleep = λ d t. t + d }

defaults_run : resolve_defaults none (some 0) none ≡ (10000000000, (1, 2000000000))
unfolding resolve_defaults
defaults_run = refl

sleep_run : cancellable_sleep timer 120000000 0 ≡ some (true, 120000000)
unfolding cancellable_sleep sleep_loop
sleep_run = refl

cancelled_run :
    cancellable_sleep (record timer { is_cancelled = λ t. (true, t) }) 120000000 0 ≡ some (false, 0)
unfolding cancellable_sleep sleep_loop
cancelled_run = refl

-- A service that answers from 150 milliseconds on.
abbrev booting : Probe ℕ
booting = record {
  run_cmd = λ argv timeout t.
      (if leb 150000000 t then CmdAttempt.success else exit_non_zero (pos 7) (codes "down"), t);
  run_url = λ timeout target expected t. (UrlAttempt.success, t);
}

abbrev patient : HealthCheck
patient = cmd (codes "check" ∷ []) none (some 2) (some 1)

abbrev hasty : HealthCheck
hasty = cmd (codes "check" ∷ []) none (some 2) (some 0)

answered_run : run_check timer booting patient 0 ≡ some (ok tt, 1000000000)
unfolding run_check run_cmd_with_retries resolve_defaults attempts judge_cmd cancellable_sleep
    sleep_loop
answered_run = refl

-- A second before each of the two attempts behind the first.
abbrev stubborn : HealthCheck
stubborn = cmd (codes "check" ∷ []) none (some 3) (some 1)

abbrev dead : Probe ℕ
dead = record booting { run_cmd = λ argv timeout t. (exit_non_zero (pos 7) (codes "down"), t) }

waited_run :
    run_check timer dead stubborn 0
    ≡ some (err (cmd_exit_non_zero (pos 7) 3 (codes "down")), 2000000000)
unfolding run_check run_cmd_with_retries resolve_defaults attempts judge_cmd cancellable_sleep
    sleep_loop
waited_run = refl

gave_up_run :
    run_check timer booting hasty 0 ≡ some (err (cmd_exit_non_zero (pos 7) 2 (codes "down")), 0)
unfolding run_check run_cmd_with_retries resolve_defaults attempts judge_cmd cancellable_sleep
    sleep_loop
gave_up_run = refl
