-- ===== src/RunrTimer.antt =====
-- bosun-primitives/src/runr_timer: the plan and the apply of a timer of runr.
mod Converge
mod Examples
use bonsun.Base.{
  ℕ, Bool, true, false, List, [], ◌∷◌, ◌++◌, Option, none, some, Text, text_eq, codes,
  if◌then◌else◌,
}
use bonsun.Resource.{Resource}
use bonsun.Primitive.{
  PrimitiveError, invalid_payload, apply_failed, runr_unavailable, Diff, update, is_no_change,
  ChangeReport, unchanged, changed_with,
}
use bonsun.Defers.Journal.{decimal}
use bonsun.Service.Runr.{
  RunrError, unavailable, api_error, bad_response, not_found, restart_not_observed, io_failed,
}
use bonsun.Effects.{Result, ok, err, Act, pure, throw, ◌>>=◌, map_err}

pub data TimerState : Type 0 where
  enabled disabled absent : TimerState

pub record RunrTimerSpec : Type 0 where
  pub name : Text
  pub state : TimerState
  pub start_now : Bool

-- `TimerStatus`, less the parts that are not read.
pub record TimerStatus : Type 0 where
  pub name : Text
  pub enabled_flag : Option Bool

pub data TimerAction : Type 0 where
  no_change : TimerAction
  enable : (start_now : Bool) → TimerAction
  disable stop_and_disable : TimerAction

-- The operations of `trait RunrHandle` on timers. An `ActionAck` is not read.
pub record TimerHandle (V : Type 0) : Type 0 where
  pub base_url : Text
  pub timer_statuses : Act V RunrError (List TimerStatus)
  pub timer_enable : Text → Bool → Act V RunrError Unit
  pub timer_disable : Text → Bool → Act V RunrError Unit
  pub timer_stop : Text → Act V RunrError Unit

-- `timers.iter().find(|t| t.name == spec.name)`
unfoldable pub timer_of : Text → List TimerStatus → Option TimerStatus
timer_of name [] = none
timer_of name (t ∷ ts) = if text_eq t.name name then some t else timer_of name ts

abbrev or_false : Option Bool → Bool
or_false none = false
or_false (some b) = b

abbrev pub enabled_now : Option TimerStatus → Bool
enabled_now none = false
enabled_now (some t) = or_false t.enabled_flag

abbrev decide_in : TimerState → (start_now on : Bool) → TimerAction
decide_in enabled start_now on = if on then no_change else enable start_now
decide_in disabled start_now on = if on then disable else no_change
decide_in absent start_now on = if on then stop_and_disable else no_change

-- `decide_timer_action`
unfoldable pub decide_timer_action : RunrTimerSpec → Option TimerStatus → TimerAction
decide_timer_action spec current = decide_in spec.state spec.start_now (enabled_now current)

abbrev payload_error : Text → PrimitiveError
payload_error e = invalid_payload (codes "runr.timer payload: " ++ e)

abbrev planned :
    {P : Type 0}
    → (pending payload : P) → Result Text RunrTimerSpec
    → Result PrimitiveError (Diff P)
planned pending payload (err e) = err (payload_error e)
planned pending payload (ok spec) =
    ok (update pending payload (codes "converge runr.timer:" ++ spec.name))

-- `compute_diff`; `pending` is the value written into every difference.
abbrev pub compute_diff :
    {P : Type 0}
    → (pending : P) → (from_value : P → Result Text RunrTimerSpec) → Resource P
    → Result PrimitiveError (Diff P)
compute_diff pending from_value r = planned pending r.payload (from_value r.payload)

abbrev bool_text : Bool → Text
bool_text true = codes "true"
bool_text false = codes "false"

-- `display` is the `Display` of an error.
module _ (display : RunrError → Text) where
  -- `map_runr_error`
  unfoldable pub map_timer_error : (base_url op : Text) → RunrError → PrimitiveError
  map_timer_error base_url op (unavailable url source) =
      runr_unavailable url (op ++ codes ": " ++ source)
  map_timer_error base_url op (not_found kind name) = apply_failed (
      codes "runr " ++ kind ++ codes " not found: " ++ name ++ codes " (during " ++ op ++ codes ")")
  map_timer_error base_url op (api_error status body) = apply_failed (
      codes "runr API error during "
      ++ op
      ++ codes ": status="
      ++ decimal status
      ++ codes ", body="
      ++ body)
  map_timer_error base_url op (bad_response message) =
      apply_failed (codes "runr returned invalid JSON during " ++ op ++ codes ": " ++ message)
  map_timer_error base_url op (restart_not_observed unit) =
      apply_failed
        (codes "runr restart of " ++ unit ++ codes " not observed (op=" ++ op ++ codes ")")
  map_timer_error base_url op (io_failed e) =
      runr_unavailable base_url (op ++ codes ": i/o error: " ++ e)
  map_timer_error base_url op e =
      apply_failed (codes "runr error during " ++ op ++ codes ": " ++ display e)

module _ {V : Type 0} (display : RunrError → Text) where
  module _ (runr : TimerHandle V) where
    abbrev pub Job : Type 0
    Job = Act V PrimitiveError ChangeReport

    abbrev pub call : {A : Type 0} → (op : Text) → Act V RunrError A → Act V PrimitiveError A
    call op = map_err (map_timer_error display runr.base_url op)

    -- `match action`
    unfoldable pub perform : RunrTimerSpec → TimerAction → Job
    perform spec no_change = pure unchanged
    perform spec (enable start_now) =
        call (codes "timer_enable") (runr.timer_enable spec.name start_now) >>= λ _. pure (
          changed_with (
            codes "enabled runr.timer:"
            ++ spec.name
            ++ codes " (start_now="
            ++ bool_text start_now
            ++ codes ")"))
    perform spec disable =
        call (codes "timer_disable") (runr.timer_disable spec.name false) >>= λ _.
        pure (changed_with (codes "disabled runr.timer:" ++ spec.name))
    perform spec stop_and_disable = call (codes "timer_stop") (runr.timer_stop spec.name) >>= λ _.
        call (codes "timer_disable") (runr.timer_disable spec.name true) >>= λ _.
        pure (changed_with (codes "stopped and disabled runr.timer:" ++ spec.name))

    -- `run` behind the payload, with a client.
    unfoldable pub converge : RunrTimerSpec → Job
    converge spec = call (codes "timer_statuses") runr.timer_statuses >>= λ timers.
        perform spec (decide_timer_action spec (timer_of spec.name timers))

  abbrev with_runr : RunrTimerSpec → Option (TimerHandle V) → Act V PrimitiveError ChangeReport
  with_runr spec none =
      throw (runr_unavailable (codes "n/a") (codes "runr client not initialized in ApplyCtx"))
  with_runr spec (some runr) = converge runr spec

  abbrev with_payload :
      Option (TimerHandle V) → Result Text RunrTimerSpec → Act V PrimitiveError ChangeReport
  with_payload runr (err e) = throw (payload_error e)
  with_payload runr (ok spec) = with_runr spec runr

  -- `run`; `from_value` is serde.
  unfoldable pub run :
      {P J : Type 0}
      → Option (TimerHandle V)
      → (from_value : P → Result Text RunrTimerSpec) → Resource P
      → Diff J
      → Act V PrimitiveError ChangeReport
  run runr from_value r diff =
      if is_no_change diff then pure unchanged else with_payload runr (from_value r.payload)
