-- ===== src/Orchestrator/Branches.antt =====
-- bosun-core/src/orchestrator.rs: the report of `apply`, the variables of its loop, and the ways in
-- which an iteration ends.
use bonsun.Base.{
  ℕ, ◌+◌, Bool, true, not, List, [], ◌∷◌, ◌++◌, Option, none, some, Text, codes, contains,
  if◌then◌else◌,
}
use bonsun.Primitive.{
  panic, Result, err, Payload, static_str, owned_string, non_string, Call, returned, panicked,
  ApplyCtx, record_changed,
}

pub data Outcome : Type 0 where
  unchanged changed : Outcome
  failed : (error : Text) → Outcome
  skipped : Outcome
  deferred interrupted : (reason : Text) → Outcome

pub record ResourceApplyOutcome : Type 0 where
  pub id : Text
  pub kind : Text
  pub outcome : Outcome
  pub message : Text

pub record ApplySummary : Type 0 where
  pub changed : ℕ
  pub no_change : ℕ
  pub failed : ℕ
  pub skipped : ℕ
  pub deferred : ℕ
  pub interrupted : ℕ

abbrev pub empty_summary : ApplySummary
empty_summary = record {
  changed = 0;
  no_change = 0;
  failed = 0;
  skipped = 0;
  deferred = 0;
  interrupted = 0;
}

-- The variables of the loop of `apply`.
pub record Loop (W : Type 0) : Type 0 where
  pub ctx : ApplyCtx W
  pub resources : List ResourceApplyOutcome
  pub summary : ApplySummary
  pub aborted : Bool
  pub failed_or_interrupted : List Text

-- `panic_message`
unfoldable pub panic_message : Payload → Text
panic_message (static_str s) = s
panic_message (owned_string s) = s
panic_message non_string = codes "<non-string panic payload>"

-- `call_primitive`: a panic becomes an error
unfoldable pub call_primitive : {A : Type 0} → Text → Call A → Result A
call_primitive context (returned r) = r
call_primitive context (panicked p) = err (panic context (panic_message p))

-- `resource.depends_on.iter().find(|dep| failed_or_interrupted.contains(*dep))`
unfoldable pub find_failed : List Text → List Text → Option Text
find_failed failed_set [] = none
find_failed failed_set (dep ∷ deps) =
    if contains failed_set dep then some dep else find_failed failed_set deps

abbrev pub unknown_kind : Text
unknown_kind = codes "unknown"

abbrev pub entry_of : Text → Text → Outcome → Text → ResourceApplyOutcome
entry_of id kind outcome message = record {
  id = id;
  kind = kind;
  outcome = outcome;
  message = message;
}

module _ {W : Type 0} (id kind : Text) where
  abbrev push : Outcome → Text → Loop W → List ResourceApplyOutcome
  push outcome message s = s.resources ++ entry_of id kind outcome message ∷ []

  -- The ways in which an iteration ends.
  unfoldable pub interrupt : Text → Loop W → Loop W
  interrupt reason s = record s {
    resources = push (interrupted reason) reason s;
    summary = record (s.summary) { interrupted = s.summary.interrupted + 1 };
    aborted = true;
    failed_or_interrupted = id ∷ s.failed_or_interrupted;
  }

  unfoldable pub fail : (continue_on_error : Bool) → (error message : Text) → Loop W → Loop W
  fail continue_on_error error message s = record s {
    resources = push (failed error) message s;
    summary = record (s.summary) { failed = s.summary.failed + 1 };
    aborted = if not continue_on_error then true else s.aborted;
    failed_or_interrupted = id ∷ s.failed_or_interrupted;
  }

  unfoldable pub skip_aborted : Loop W → Loop W
  skip_aborted s = record s {
    resources = push skipped (codes "skipped: aborted after earlier failure") s;
    summary = record (s.summary) { skipped = s.summary.skipped + 1 };
  }

  unfoldable pub skip_dependent : Text → Loop W → Loop W
  skip_dependent failed_dep s = record s {
    resources =
        push skipped
          (codes "skipped: transitive failure of dependency '" ++ (failed_dep ++ codes "'")) s;
    summary = record (s.summary) { skipped = s.summary.skipped + 1 };
    failed_or_interrupted = id ∷ s.failed_or_interrupted;
  }

  unfoldable pub keep_unchanged : Text → Loop W → Loop W
  keep_unchanged message s = record s {
    resources = push unchanged message s;
    summary = record (s.summary) { no_change = s.summary.no_change + 1 };
  }

  unfoldable pub defer : Text → Loop W → Loop W
  defer reason s = record s {
    resources = push (deferred reason) reason s;
    summary = record (s.summary) { deferred = s.summary.deferred + 1 };
  }

  unfoldable pub change : Text → Loop W → Loop W
  change message s = record s {
    ctx = record_changed s.ctx id;
    resources = push changed message s;
    summary = record (s.summary) { changed = s.summary.changed + 1 };
  }
