-- ===== src/HealthCheck/Retry/Ends.antt =====
-- That a health check ends, and when it succeeds (bosun-primitives/src/health_check/mod.rs).
use bonsun.Base.{ℕ, ◌≡◌, Option, some}
use bonsun.Defers.Format.{HealthCheck, cmd, url}
use bonsun.Defers.Files.{Result, ok}
use bonsun.Defers.Replay.{HealthCheckError}
use bonsun.HealthCheck.Retry.{CmdAttempt, UrlAttempt, Probe}

-- A run that returned: a success is one of an attempt just before.
abbrev pub Returns :
    {W : Type 0} → (Success : W → Type 0) → Option (Result HealthCheckError Unit × W) → Type 0
Returns {W = W} Success o =
    (r : Result HealthCheckError Unit) × (w : W) × (o ≡ some (r, w)) × (r ≡ ok tt → Success w)

-- The attempt behind which the world is this one succeeded.
abbrev pub Succeeded : {W : Type 0} → Probe W → HealthCheck → W → Type 0
Succeeded {W = W} probe (cmd argv timeout_sec retry_count retry_interval_sec) w =
    (timeout : ℕ) × (before : W) × (probe.run_cmd argv timeout before ≡ (CmdAttempt.success, w))
Succeeded {W = W} probe (url target expected_status timeout_sec retry_count retry_interval_sec) w =
    (timeout : ℕ) × (expected : ℕ) × (before : W) × (probe.run_url timeout target expected before
      ≡ (UrlAttempt.success, w))
