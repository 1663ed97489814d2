-- ===== src/ProcessSignal.antt =====
-- bosun-primitives/src/process_signal: the plan and the apply of a signal, over the trait ProcessSignalRunner.
pub mod Argv
pub mod Apply
pub mod Runner
mod Examples
use bonsun.Base.{
  ℕ, Bool, true, false, List, [], ◌∷◌, ◌++◌, Option, none, some, Text, codes, contains, ◌==◌,
  if◌then◌else◌,
}
use bonsun.Resource.{Resource}
use bonsun.Primitive.{
  PrimitiveError, invalid_payload, apply_failed, defer_io, Diff, is_no_change, ChangeReport,
  unchanged, changed_with, deferred_with,
}
use bonsun.Defers.Format.{DeferAction, command, DeferPriority, DeferEntry}
use bonsun.Defers.Journal.{DeferError, EnqueueResult, enqueue}
use bonsun.Service.{
  Node, Tools, Job, current_spec_version, default_max_attempts, on_outside, on_defers,
}
use bonsun.Effects.{Result, ok, err, Act, pure, throw, ◌>>=◌, from_result, match_result, map_err}

-- The name has passed `UnitName::new`.
pub record ProcessSignalSpec : Type 0 where
  pub name : Text
  pub signal : Text
  pub process_name : Option Text
  pub process_user : Option Text
  pub deferred : Bool

abbrev pub allowed_signals : List Text
allowed_signals =
    codes "HUP"
    ∷ codes "TERM"
    ∷ codes "INT"
    ∷ codes "USR1"
    ∷ codes "USR2"
    ∷ codes "WINCH"
    ∷ codes "PIPE"
    ∷ []

-- `str::strip_prefix`
unfoldable pub strip_prefix : Text → Text → Option Text
strip_prefix [] s = some s
strip_prefix (p ∷ ps) [] = none
strip_prefix (p ∷ ps) (c ∷ cs) = if p == c then strip_prefix ps cs else none

abbrev pub or_self : Text → Option Text → Text
or_self s none = s
or_self s (some t) = t

-- `normalize_signal_for_display`
abbrev pub bare : Text → Text
bare signal = or_self signal (strip_prefix (codes "SIG") signal)

-- `describe_selector`
abbrev pub describe_selector : (process_name process_user : Option Text) → Text
describe_selector (some n) none = codes "by-name=" ++ n
describe_selector none (some u) = codes "by-user=" ++ u
describe_selector (some n) (some u) =
    codes "by-name=" ++ n ++ codes " by-user=" ++ u ++ codes " (invalid)"
describe_selector none none = codes "no-selector (invalid)"

abbrev one_selector : (name got : Text) → PrimitiveError
one_selector name got = invalid_payload (
    codes "process.signal '"
    ++ name
    ++ codes "': exactly one of process_name/process_user required, got "
    ++ got)

abbrev pub pkill : (signal : Text) → List Text → List Text
pkill signal selector = codes "pkill" ∷ codes "--signal" ∷ signal ∷ selector

-- The selector of `build_signal_argv`.
abbrev pub select :
    (name signal : Text) (process_name process_user : Option Text)
    → Result PrimitiveError (List Text)
select name signal (some n) none = ok (pkill signal (n ∷ []))
select name signal none (some u) = ok (pkill signal (codes "-u" ∷ u ∷ []))
select name signal (some n) (some u) = err (one_selector name (codes "both"))
select name signal none none = err (one_selector name (codes "neither"))

-- `debug` is the `Debug` of a text.
module _ (debug : Text → Text) where
  -- The dash in the message is three bytes.
  abbrev not_allowed : Text → PrimitiveError
  not_allowed raw = invalid_payload (
      codes "process.signal: signal "
      ++ debug raw
      ++ codes " not in allowlist "
      ++ codes "[\"HUP\", \"TERM\", \"INT\", \"USR1\", \"USR2\", \"WINCH\", \"PIPE\"]"
      ++ codes "; KILL/STOP/CONT excluded by design "
      ++ (226 ∷ 128 ∷ 148 ∷ [])
      ++ codes " use service.unit for stopping")

  -- `normalize_signal`
  unfoldable pub normalize_signal : Text → Result PrimitiveError Text
  normalize_signal raw =
      if contains allowed_signals (bare raw) then ok (bare raw) else err (not_allowed raw)

  abbrev pub with_signal :
      ProcessSignalSpec → Result PrimitiveError Text → Result PrimitiveError (List Text)
  with_signal spec (err e) = err e
  with_signal spec (ok signal) = select spec.name signal spec.process_name spec.process_user

  -- `build_signal_argv`
  unfoldable pub build_signal_argv : ProcessSignalSpec → Result PrimitiveError (List Text)
  build_signal_argv spec = with_signal spec (normalize_signal spec.signal)

  abbrev payload_error : Text → PrimitiveError
  payload_error e = invalid_payload (codes "process.signal payload: " ++ e)

  abbrev pub planned :
      {P : Type 0}
      → (stateless payload : P) → ProcessSignalSpec
      → Result PrimitiveError (List Text)
      → Result PrimitiveError (Diff P)
  planned stateless payload spec (err e) = err e
  planned stateless payload spec (ok argv) = ok (
      Diff.update stateless payload (
        codes "send "
        ++ bare spec.signal
        ++ codes " to "
        ++ describe_selector spec.process_name spec.process_user))

  abbrev pub plan_of :
      {P : Type 0}
      → (stateless payload : P) → Result Text ProcessSignalSpec
      → Result PrimitiveError (Diff P)
  plan_of stateless payload (err e) = err (payload_error e)
  plan_of stateless payload (ok spec) = planned stateless payload spec (build_signal_argv spec)

  -- `compute_diff`; `from_value` is serde, `stateless` the value written into every difference.
  unfoldable pub compute_diff :
      {P : Type 0}
      → (stateless : P) → (from_value : P → Result Text ProcessSignalSpec) → Resource P
      → Result PrimitiveError (Diff P)
  compute_diff stateless from_value r = plan_of stateless r.payload (from_value r.payload)

  -- `runner` is `ProcessSignalRunner::run`.
  module _ {V : Type 0} (tools : Tools V) (runner : List Text → Act V Text Unit) where
    abbrev pub signal_entry : ProcessSignalSpec → List Text → V → DeferEntry
    signal_entry spec argv v = record {
      spec_version = current_spec_version;
      id = codes "process.signal:" ++ spec.name;
      action = command argv;
      init_system = [];
      target = spec.name;
      validate_cmd = none;
      health_check = none;
      priority = DeferPriority.command;
      enqueued_at = tools.utc_now v;
      enqueued_by = [];
      attempt_count = 0;
      max_attempts = default_max_attempts;
    }

    abbrev queued : ProcessSignalSpec → Result DeferError EnqueueResult → Job V ChangeReport
    queued spec (ok _) = pure (
        deferred_with (
          codes "queued "
          ++ spec.signal
          ++ codes " signal for "
          ++ describe_selector spec.process_name spec.process_user))
    queued spec (err e) = throw (defer_io tools.root (tools.display_defer e))

    -- `enqueue_defer`
    unfoldable pub enqueue_defer : ProcessSignalSpec → List Text → Job V ChangeReport
    enqueue_defer spec argv node =
        match_result (on_defers (enqueue tools.json (signal_entry spec argv node.outside)))
          (queued spec) node

    abbrev pub sent : ProcessSignalSpec → ChangeReport
    sent spec = changed_with (
        codes "sent "
        ++ spec.signal
        ++ codes " signal to "
        ++ describe_selector spec.process_name spec.process_user)

    -- `execute_sync`
    unfoldable pub execute_sync : ProcessSignalSpec → List Text → Job V ChangeReport
    execute_sync spec argv =
        map_err apply_failed (on_outside (runner argv)) >>= λ _. pure (sent spec)

    abbrev pub carry_out : ProcessSignalSpec → List Text → Bool → Job V ChangeReport
    carry_out spec argv true = enqueue_defer spec argv
    carry_out spec argv false = execute_sync spec argv

    abbrev pub with_payload : Result Text ProcessSignalSpec → Job V ChangeReport
    with_payload (err e) = throw (payload_error e)
    with_payload (ok spec) =
        from_result (build_signal_argv spec) >>= λ argv. carry_out spec argv spec.deferred

    -- `run`
    unfoldable pub run :
        {P J : Type 0}
        → (from_value : P → Result Text ProcessSignalSpec) → Resource P
        → Diff J
        → Job V ChangeReport
    run from_value r diff =
        if is_no_change diff then pure unchanged else with_payload (from_value r.payload)
