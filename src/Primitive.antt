-- ===== src/Primitive.antt =====
-- bosun-core/src/primitive.rs and diff.rs: the contract between the orchestrator and a primitive.
mod Examples
use bonsun.Base.{
  ℕ, Bool, true, false, List, [], ◌∷◌, Option, none, some, Text, text_eq, contains, if◌then◌else◌,
}
use bonsun.Resource.{Resource}

-- `i32`; `negsuc n` is -(n + 1)
pub data ℤ : Type 0 where
  pos negsuc : ℕ → ℤ

pub data PrimitiveError : Type 0 where
  io : (context source : Text) → PrimitiveError
  invalid_payload : Text → PrimitiveError
  exec : (reason : Text) (exit : Option ℤ) (stderr_excerpt : Text) → PrimitiveError
  dpkg_locked : (holder_pid : Option ℤ) → PrimitiveError
  chown_not_permitted : (requested actual : Text) → PrimitiveError
  invalid_target cancelled : PrimitiveError
  panic : (context message : Text) → PrimitiveError
  apply_failed : (reason : Text) → PrimitiveError
  runr_unavailable : (base_url reason : Text) → PrimitiveError
  systemd_unavailable : (reason : Text) → PrimitiveError
  validation : (validator stderr_excerpt : Text) → PrimitiveError
  health_check_failed : (target reason : Text) → PrimitiveError
  defer_io : (path reason : Text) → PrimitiveError

-- `PrimitiveError::is_deferrable`
unfoldable pub is_deferrable : PrimitiveError → Bool
is_deferrable (dpkg_locked _) = true
is_deferrable (runr_unavailable _ _) = true
is_deferrable (systemd_unavailable _) = true
is_deferrable _ = false

pub data Result (A : Type 0) : Type 0 where
  ok : A → Result A
  err : PrimitiveError → Result A

-- `J` is the type of JSON values.
pub data Diff (J : Type 0) : Type 0 where
  no_change : Diff J
  add : (description : Text) (payload : J) → Diff J
  update : (from to : J) (description : Text) → Diff J

pub record ChangeReport : Type 0 where
  pub changed : Bool
  pub message : Text
  pub deferred : Bool

-- `Diff::is_no_change`
abbrev pub is_no_change : {J : Type 0} → Diff J → Bool
is_no_change no_change = true
is_no_change _ = false

-- `ChangeReport::no_change`, `changed` and `deferred`
abbrev pub unchanged : ChangeReport
unchanged = record { changed = false; message = []; deferred = false }

abbrev pub changed_with : Text → ChangeReport
changed_with message = record { changed = true; message = message; deferred = false }

abbrev pub deferred_with : Text → ChangeReport
deferred_with message = record { changed = false; message = message; deferred = true }

-- What a panic carries.
pub data Payload : Type 0 where
  static_str owned_string : Text → Payload
  non_string : Payload

-- How a call of code that the orchestrator does not own ends.
pub data Call (A : Type 0) : Type 0 where
  returned : Result A → Call A
  panicked : Payload → Call A

-- `ApplyCtx`: the set of changed resources, and all else that is outside of the orchestrator.
pub record ApplyCtx (W : Type 0) : Type 0 where
  pub changed_resources : List Text
  pub world : W

-- `ApplyCtx::record_changed`
unfoldable pub record_changed : {W : Type 0} → ApplyCtx W → Text → ApplyCtx W
record_changed ctx id = record ctx {
  changed_resources =
      if contains ctx.changed_resources id
      then ctx.changed_resources
      else id ∷ ctx.changed_resources;
}

-- `ApplyCtx::is_changed`
unfoldable pub is_changed : {W : Type 0} → ApplyCtx W → Text → Bool
is_changed ctx id = contains ctx.changed_resources id

-- `trait Primitive`, less the two constants and `build_payload`, which the orchestrator never uses.
pub record Primitive (P J W : Type 0) : Type 0 where
  pub plan : Resource P → W → Call (Diff J) × W
  pub apply : Resource P → Diff J → ApplyCtx W → Call ChangeReport × ApplyCtx W
