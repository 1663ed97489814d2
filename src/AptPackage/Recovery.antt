-- ===== src/AptPackage/Recovery.antt =====
-- bosun-primitives/src/apt_package/recovery.rs: `dpkg --configure -a`, and `apt-get update` with its attempts.
use bonsun.Base.{
  ℕ, zero, suc, ◌+◌, ◌-◌, Bool, ◌||◌, List, [], ◌∷◌, Option, none, some, Text, codes, length, any,
  get_elem?, ltb, leb, ◌==◌, if◌then◌else◌,
}
use bonsun.Primitive.{ℤ, PrimitiveError, cancelled}
use bonsun.AptPackage.{CommandResult, exited_with}
use bonsun.AptPackage.Texts.{has_text, stderr_excerpt}
use bonsun.Effects.{ok, Act, pure, throw, ◌>>=◌}

-- `CommandRunner::run` with the token, `Instant::now`, the token, `thread::sleep`, the random part of a pause,
-- whose numbers are floating, the file system of the logs, the lock of dpkg (whether it is free, and who holds it), and `str::trim`.
pub record Apt (W : Type 0) : Type 0 where
  pub command : (cmd : Text) (args : List Text) (deadline : ℕ) → Act W PrimitiveError CommandResult
  pub now : W → ℕ × W
  pub is_cancelled : W → Bool × W
  pub sleep : ℕ → W → W
  pub jitter : (base jitter_pct : ℕ) → W → ℕ × W
  pub log_dir_exists : W → Bool × W
  pub create_log_dir : Act W Text Unit
  pub write_file : (name contents : Text) → Act W Text Unit
  pub open_lock : Act W Text Unit
  pub get_lock : Act W Text (Bool × ℤ)
  pub trim : Text → Text

-- `min_deadline`
abbrev pub min_deadline : ℕ → ℕ → ℕ
min_deadline a b = if ltb a b then a else b

-- 60 seconds, in nanoseconds.
abbrev pub dpkg_configure_timeout : ℕ
dpkg_configure_timeout = 60000000000

-- Durations in nanoseconds.
pub record AptUpdatePolicy : Type 0 where
  pub per_attempt_timeout : ℕ
  pub max_attempts : ℕ
  pub backoffs : List ℕ
  pub jitter_pct : ℕ

-- `AptUpdatePolicy::default`
abbrev pub default_policy : AptUpdatePolicy
default_policy = record {
  per_attempt_timeout = 30000000000;
  max_attempts = 3;
  backoffs = 5000000000 ∷ 10000000000 ∷ 20000000000 ∷ [];
  jitter_pct = 25;
}

pub data UpdateFailure : Type 0 where
  retriable non_retriable : UpdateFailure

abbrev pub retriable_patterns : List Text
retriable_patterns =
    codes "connection refused"
    ∷ codes "timed out"
    ∷ codes "Temporary failure in name resolution"
    ∷ codes "503"
    ∷ codes "504"
    ∷ codes "Hash Sum mismatch"
    ∷ []

-- `classify_update_failure`
unfoldable pub classify_update_failure : (trim : Text → Text) → (stderr : Text) → UpdateFailure
classify_update_failure trim stderr =
    if has_text (codes "GPG error") stderr || has_text (codes "permission denied") stderr
    then non_retriable
    else if length (trim stderr) == 0
    then retriable
    else if any (λ p. has_text p stderr) retriable_patterns
    then retriable
    else non_retriable

abbrev pub update_args : List Text
update_args =
    codes "update"
    ∷ codes "-q"
    ∷ codes "-oAPT::Acquire::Retries=3"
    ∷ codes "-oDPkg::Lock::Timeout=30"
    ∷ []

abbrev pub last_of : List ℕ → ℕ
last_of [] = 0
last_of (d ∷ []) = d
last_of (d ∷ e ∷ ds) = last_of (e ∷ ds)

abbrev pub or_last : List ℕ → Option ℕ → ℕ
or_last ds none = last_of ds
or_last ds (some d) = d

-- The pause behind an attempt, without the random part.
abbrev pub base_backoff : List ℕ → (attempt : ℕ) → ℕ
base_backoff ds attempt = or_last ds (get_elem? ds attempt)

abbrev pub excerpt_of : Option CommandResult → PrimitiveError
excerpt_of none = PrimitiveError.exec (codes "apt-get update failed after retries") none []
excerpt_of (some r) =
    PrimitiveError.exec (codes "apt-get update failed after retries") r.exit_code
      (stderr_excerpt r.stderr)

module _ {W : Type 0} where
  -- An operation that does not fail.
  abbrev pub lift : {E A : Type 0} → (W → A × W) → Act W E A
  lift f w = let (a, w') = f w in (ok a, w')

  abbrev pub tell : {E : Type 0} → (W → W) → Act W E Unit
  tell f w = (ok tt, f w)

module _ {W : Type 0} (apt : Apt W) where
  abbrev pub Job : (A : Type 0) → Type 0
  Job A = Act W PrimitiveError A

  abbrev pub configured : CommandResult → Job Unit
  configured result =
      if exited_with 0 result.exit_code
      then pure tt
      else throw (
          PrimitiveError.exec (codes "dpkg --configure -a failed") result.exit_code
            (stderr_excerpt result.stderr))

  -- `run_dpkg_configure_a`
  unfoldable pub run_dpkg_configure_a : (deadline : ℕ) → Job Unit
  run_dpkg_configure_a deadline = lift apt.now >>= λ t.
      apt.command (codes "dpkg") (codes "--configure" ∷ codes "-a" ∷ [])
        (min_deadline deadline (t + dpkg_configure_timeout))
      >>= configured

  -- `jittered_backoff`
  abbrev pub jittered_backoff : (base jitter_pct : ℕ) → Job ℕ
  jittered_backoff base jitter_pct =
      if jitter_pct == 0 || base == 0 then pure base else lift (apt.jitter base jitter_pct)

  abbrev pub sleep_for : ℕ → Job Unit
  sleep_for dt = if dt == 0 then pure tt else tell (apt.sleep dt)

  abbrev pub sleep_until : (deadline wake_at : ℕ) → Job Unit
  sleep_until deadline wake_at = lift apt.now >>= λ t. sleep_for (min_deadline deadline wake_at - t)

  abbrev pub wait_unless_late : (deadline backoff now : ℕ) → Job Unit
  wait_unless_late deadline backoff now =
      if leb deadline now
      then throw cancelled
      else lift apt.now >>= λ t. sleep_until deadline (t + backoff)

  -- The pause between two attempts.
  unfoldable pub pause : AptUpdatePolicy → (deadline attempt : ℕ) → Job Unit
  pause policy deadline attempt =
      jittered_backoff (base_backoff policy.backoffs attempt) policy.jitter_pct >>= λ backoff.
      lift apt.now >>= λ t. wait_unless_late deadline backoff t

  module _ (policy : AptUpdatePolicy) (deadline : ℕ) where
    -- Behind an attempt that failed; `rest` is the next round.
    abbrev pub after_category :
        (rest : Job Unit) → (attempt : ℕ) → CommandResult → UpdateFailure → Job Unit
    after_category rest attempt result non_retriable = throw (excerpt_of (some result))
    after_category rest attempt result retriable =
        if leb policy.max_attempts (attempt + 1)
        then throw (excerpt_of (some result))
        else pause policy deadline attempt >>= λ _. rest

    abbrev pub after_update :
        (rest : CommandResult → Job Unit) → (attempt : ℕ) → CommandResult → Job Unit
    after_update rest attempt result =
        if exited_with 0 result.exit_code
        then pure tt
        else after_category (rest result) attempt result
            (classify_update_failure apt.trim result.stderr)

    -- The loop, with the number of rounds that are left.
    unfoldable pub update_rounds : (left attempt : ℕ) → (last : Option CommandResult) → Job Unit
    update_rounds zero attempt last = throw (excerpt_of last)
    update_rounds (suc left) attempt last = lift apt.now >>= λ t.
        apt.command (codes "apt-get") update_args
          (min_deadline deadline (t + policy.per_attempt_timeout))
        >>= λ result. after_update (λ r. update_rounds left (attempt + 1) (some r)) attempt result

    -- `run_apt_update_with_policy`
    abbrev pub run_apt_update_with_policy : Job Unit
    run_apt_update_with_policy = update_rounds policy.max_attempts 0 none

  -- `run_apt_update_with_retries`
  abbrev pub run_apt_update_with_retries : (deadline : ℕ) → Job Unit
  run_apt_update_with_retries deadline = run_apt_update_with_policy default_policy deadline
