-- ===== src/Service.antt =====
-- What bosun-primitives/src/systemd_service and runr_service share: the specification of a service, the
-- notification by changed resources, the validator, the health check and the deferral of a restart.
pub mod Systemd
pub mod Frame
pub mod Reached
pub mod Deferral
pub mod Runr
use bonsun.Base.{
  ℕ, Bool, true, false, List, [], ◌∷◌, ◌++◌, Option, none, some, Text, text_eq, codes, contains,
  keep, any, sort_texts, if◌then◌else◌,
}
use bonsun.Resource.{Resource}
use bonsun.Primitive.{
  ℤ, PrimitiveError, cancelled, validation, health_check_failed, defer_io, ChangeReport,
  deferred_with,
}
use bonsun.Defers.Format.{
  DeferAction, DeferPriority, HealthCheck, DeferEntry, filename_slug, make_id,
}
use bonsun.Defers.Files.{Fs}
use bonsun.Defers.Journal.{Serde, DeferError, EnqueueResult, enqueue}
use bonsun.Defers.Replay.{HealthCheckError}
use bonsun.Effects.{Result, ok, err, Act, pure, throw, ◌>>=◌, match_result}

pub data ServiceState : Type 0 where
  running stopped absent : ServiceState

-- `name` is the text of the `UnitName`, which serde has checked.
pub record ServiceSpec : Type 0 where
  pub name : Text
  pub state : ServiceState
  pub enable : Bool
  pub health_check : Option HealthCheck
  pub validate_with : Option (List Text)

pub data Action : Type 0 where
  no_change start stop restart reload : Action

-- A Duration and an io::Error are given by their texts.
pub data ValidateError : Type 0 where
  exit_non_zero : (exit_code : ℤ) (stderr_excerpt : Text) → ValidateError
  timeout : (duration : Text) → ValidateError
  spawn : (source : Text) → ValidateError

-- What an apply of a service changes: the directory of deferred actions, the flag that a daemon was
-- reloaded in this apply, and the rest of the world.
pub record Node (V : Type 0) : Type 0 where
  pub defers : Fs Text
  pub daemon_reload_done : Bool
  pub outside : V

-- The rest of `ApplyCtx`, and the `Display` of errors.
pub record Tools (V : Type 0) : Type 0 where
  pub validator : List Text → V → Result ValidateError Unit × V
  pub health_check_runner : HealthCheck → V → Result HealthCheckError Unit × V
  pub utc_now : V → ℕ
  pub json : Serde
  pub root : Text
  pub display_health : HealthCheckError → Text
  pub display_defer : DeferError → Text

abbrev pub Job : (V A : Type 0) → Type 0
Job V A = Act (Node V) PrimitiveError A

abbrev pub default_max_attempts : ℕ
default_max_attempts = 3

abbrev pub current_spec_version : ℕ
current_spec_version = 1

-- `Vec::dedup`
unfoldable pub dedup_from : Text → List Text → List Text
dedup_from x [] = x ∷ []
dedup_from x (y ∷ ys) = if text_eq x y then dedup_from x ys else x ∷ dedup_from y ys

abbrev pub dedup : List Text → List Text
dedup [] = []
dedup (x ∷ xs) = dedup_from x xs

-- `resource.restart_on.iter().any(..)`
abbrev pub triggered : List Text → List Text → Bool
triggered changed ids = any (contains changed) ids

module _ {P : Type 0} where
  -- `collect_notify_sources`
  unfoldable pub collect_notify_sources :
      (changed : List Text) → Resource P → (restart_triggered reload_triggered : Bool) → List Text
  collect_notify_sources changed r restart_triggered reload_triggered = dedup (
      sort_texts (
        (if restart_triggered then keep (contains changed) r.restart_on else [])
        ++ (if reload_triggered then keep (contains changed) r.reload_on else [])))

-- `map_validate_error`
unfoldable pub map_validate_error : ValidateError → Text → PrimitiveError
map_validate_error (exit_non_zero exit_code stderr_excerpt) validator =
    validation validator stderr_excerpt
map_validate_error (timeout d) validator = validation validator (codes "timeout after " ++ d)
map_validate_error (spawn e) validator = validation validator (codes "failed to spawn: " ++ e)

module _ {V : Type 0} where
  -- A call that changes only the world outside.
  abbrev pub kept_beside : {E A : Type 0} → Node V → Result E A × V → Result E A × Node V
  kept_beside node (r, v) = (r, record node { outside = v })

  abbrev pub on_outside : {E A : Type 0} → Act V E A → Act (Node V) E A
  on_outside call node = kept_beside node (call node.outside)

  abbrev pub filed_beside : {E A : Type 0} → Node V → Result E A × Fs Text → Result E A × Node V
  filed_beside node (r, fs) = (r, record node { defers = fs })

  -- An operation of the journal.
  abbrev pub on_defers : {E A : Type 0} → Act (Fs Text) E A → Act (Node V) E A
  on_defers op node = filed_beside node (op node.defers)

  module _ (tools : Tools V) where
    abbrev pub validated : Text → Result ValidateError Unit → Job V Unit
    validated validator (ok _) = pure tt
    validated validator (err e) = throw (map_validate_error e validator)

    unfoldable pub validate_by : Option (List Text) → Job V Unit
    validate_by none = pure tt
    validate_by (some []) = pure tt
    validate_by (some (validator ∷ argv)) =
        match_result (on_outside (tools.validator (validator ∷ argv))) (validated validator)

    -- `run_validate_if_configured`
    abbrev pub run_validate_if_configured : ServiceSpec → Job V Unit
    run_validate_if_configured spec = validate_by spec.validate_with

    abbrev pub checked : ServiceSpec → Result HealthCheckError Unit → Job V Unit
    checked spec (ok _) = pure tt
    checked spec (err HealthCheckError.cancelled) = throw cancelled
    checked spec (err e) = throw (health_check_failed spec.name (tools.display_health e))

    unfoldable pub check_by : ServiceSpec → Option HealthCheck → Job V Unit
    check_by spec none = pure tt
    check_by spec (some check) =
        match_result (on_outside (tools.health_check_runner check)) (checked spec)

    -- `run_health_check_if_configured`
    abbrev pub run_health_check_if_configured : ServiceSpec → Job V Unit
    run_health_check_if_configured spec = check_by spec spec.health_check

    abbrev pub deferral :
        (init_system : Text)
        → ServiceSpec
        → DeferAction
        → DeferPriority
        → List Text
        → V
        → DeferEntry
    deferral init_system spec action priority sources v = record {
      spec_version = current_spec_version;
      id = make_id init_system action spec.name;
      action = action;
      init_system = init_system;
      target = spec.name;
      validate_cmd = spec.validate_with;
      health_check = spec.health_check;
      priority = priority;
      enqueued_at = tools.utc_now v;
      enqueued_by = sources;
      attempt_count = 0;
      max_attempts = default_max_attempts;
    }

    abbrev enqueued_as : Text → Result DeferError EnqueueResult → Job V ChangeReport
    enqueued_as message (ok _) = pure (deferred_with message)
    enqueued_as message (err e) = throw (defer_io tools.root (tools.display_defer e))

    -- `enqueue_defer`
    unfoldable pub enqueue_defer :
        (init_system kind : Text)
        → ServiceSpec
        → DeferAction
        → DeferPriority
        → List Text
        → Job V ChangeReport
    enqueue_defer init_system kind spec action priority sources node =
        match_result
          (on_defers
            (enqueue tools.json (deferral init_system spec action priority sources node.outside)))
          (enqueued_as (
            codes "deferred "
            ++ (filename_slug action ++ (codes " of " ++ (kind ++ (b':' ∷ spec.name))))))
          node
