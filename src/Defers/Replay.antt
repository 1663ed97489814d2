-- ===== src/Defers/Replay.antt =====
-- bosun-core/src/defers/replay.rs and action.rs: one cycle over the journal of deferred actions.
mod Failure
mod Down
mod Healthy
mod Examples
use bonsun.Base.{ℕ, ◌+◌, Bool, false, List, [], ◌∷◌, Option, none, some, Text, leb, if◌then◌else◌}
use bonsun.Primitive.{ℤ}
use bonsun.Defers.Format.{DeferEntry, HealthCheck}
use bonsun.Defers.Files.{IoError, Result, ok, err, Fs, pure, ◌>>=◌}
use bonsun.Defers.Journal.{
  DeferError, Serde, Op, saturating_succ, remove, bump_attempt, move_to_manual_clear, list_sorted,
}

pub data DispatchError : Type 0 where
  client_unavailable : DispatchError
  action : Text → DispatchError

pub data HealthCheckError : Type 0 where
  cmd_exit_non_zero : (exit_code : ℤ) (attempts : ℕ) (stderr_excerpt : Text) → HealthCheckError
  cmd_timeout : (argv : List Text) (attempts : ℕ) → HealthCheckError
  cmd_spawn_error : IoError → HealthCheckError
  url_bad_status : (url : Text) (actual expected attempts : ℕ) → HealthCheckError
  url_transport : (url : Text) (attempts : ℕ) (reason : Text) → HealthCheckError
  cancelled : HealthCheckError

pub record ReplayReport : Type 0 where
  pub executed : ℕ
  pub skipped_unavailable : ℕ
  pub failed : ℕ
  pub promoted_to_manual_clear : ℕ
  pub health_check_failed : ℕ

abbrev pub empty_report : ReplayReport
empty_report = record {
  executed = 0;
  skipped_unavailable = 0;
  failed = 0;
  promoted_to_manual_clear = 0;
  health_check_failed = 0;
}

-- The counters, each with `saturating_add(1)`.
abbrev pub count_executed : ReplayReport → ReplayReport
count_executed r = record r { executed = saturating_succ r.executed }

abbrev pub count_skipped : ReplayReport → ReplayReport
count_skipped r = record r { skipped_unavailable = saturating_succ r.skipped_unavailable }

abbrev pub count_failed : ReplayReport → ReplayReport
count_failed r = record r { failed = saturating_succ r.failed }

abbrev pub count_promoted : ReplayReport → ReplayReport
count_promoted r = record r {
  promoted_to_manual_clear = saturating_succ r.promoted_to_manual_clear;
}

abbrev pub count_unhealthy : ReplayReport → ReplayReport
count_unhealthy r = record r { health_check_failed = saturating_succ r.health_check_failed }

-- What the replay is given: the client, the runner of health checks, and the cancellation token,
-- which others may set between two calls.
pub record Client (W : Type 0) : Type 0 where
  pub dispatch : DeferEntry → W → Result DispatchError Unit × W
  pub run : HealthCheck → W → Result HealthCheckError Unit × W
  pub is_cancelled : W → Bool × W

-- An entry whose attempts are exhausted is promoted; `count` is the counter for one that is kept.
unfoldable pub after_bump :
    DeferEntry → (count : ReplayReport → ReplayReport) → ReplayReport → Op ReplayReport
after_bump updated count report =
    if leb updated.max_attempts updated.attempt_count
    then (move_to_manual_clear updated >>= λ _. pure (count_promoted report))
    else pure (count report)

module _ (json : Serde) where
  -- After a failed action or health check.
  unfoldable pub after_failure :
      DeferEntry → (count : ReplayReport → ReplayReport) → ReplayReport → Op ReplayReport
  after_failure e count report = bump_attempt json e >>= λ updated. after_bump updated count report

  -- The result of the health check, `ok` where the entry has none.
  unfoldable pub after_health :
      Result HealthCheckError Unit → DeferEntry → ReplayReport → Op ReplayReport
  after_health (ok _) e report = remove e >>= λ _. pure (count_executed report)
  after_health (err cancelled) e report = pure report
  after_health (err _) e report = after_failure e count_unhealthy report

  module _ {W : Type 0} (client : Client W) where
    -- A result, and the state of the journal and of the rest of the world.
    abbrev pub Run : Type 0
    Run = Result DeferError ReplayReport × (Fs Text × W)

    abbrev beside : W → Result DeferError ReplayReport × Fs Text → Run
    beside w (r, fs) = (r, (fs, w))

    unfoldable pub check_health : Option HealthCheck → DeferEntry → ReplayReport → Fs Text → W → Run
    check_health none e report fs w = beside w (after_health (ok tt) e report fs)
    check_health (some check) e report fs w =
        let (result, w') = client.run check w in beside w' (after_health result e report fs)

    -- `match dispatch(..)`
    unfoldable pub after_dispatch :
        Result DispatchError Unit → DeferEntry → ReplayReport → Fs Text → W → Run
    after_dispatch (ok _) e report fs w = check_health e.health_check e report fs w
    after_dispatch (err client_unavailable) e report fs w = (ok (count_skipped report), (fs, w))
    after_dispatch (err (action _)) e report fs w =
        beside w (after_failure e count_failed report fs)

    unfoldable pub replay_entry : DeferEntry → ReplayReport → Fs Text → W → Run
    replay_entry e report fs w =
        let (result, w') = client.dispatch e w in after_dispatch result e report fs w'

    abbrev pub and_rest : Run → (ReplayReport → Fs Text → W → Run) → Run
    and_rest (ok report, (fs, w)) rest = rest report fs w
    and_rest (err x, s) rest = (err x, s)

    -- The loop of `replay_with_health_check`.
    unfoldable pub replay_all : List DeferEntry → ReplayReport → Fs Text → W → Run
    replay_all [] report fs w = (ok report, (fs, w))
    replay_all (e ∷ es) report fs w =
        let (stop, w') = client.is_cancelled w in
        if stop
        then (ok report, (fs, w'))
        else and_rest (replay_entry e report fs w') (replay_all es)

    abbrev replay_listed : Result DeferError (List DeferEntry) × Fs Text → W → Run
    replay_listed (ok entries, fs) w = replay_all entries empty_report fs w
    replay_listed (err x, fs) w = (err x, (fs, w))

    -- `replay_with_health_check`
    unfoldable pub replay_with_health_check : Fs Text → W → Run
    replay_with_health_check fs w = replay_listed (list_sorted json fs) w

-- The client of `replay`: the runner of `NoopHealthCheckRunner`, and a token that nobody sets.
abbrev pub unchecked : {W : Type 0} → (DeferEntry → W → Result DispatchError Unit × W) → Client W
unchecked dispatch = record {
  dispatch = dispatch;
  run = λ check w. (ok tt, w);
  is_cancelled = λ w. (false, w);
}

-- `replay`
unfoldable pub replay :
    {W : Type 0}
    → (json : Serde) (dispatch : DeferEntry → W → Result DispatchError Unit × W) → Fs Text
    → W
    → Result DeferError ReplayReport × (Fs Text × W)
replay json dispatch fs w = replay_with_health_check json (unchecked dispatch) fs w
