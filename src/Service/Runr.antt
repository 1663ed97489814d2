-- ===== src/Service/Runr.antt =====
-- bosun-primitives/src/runr_service/plan.rs and apply.rs: the decision table of a runr service and its
-- apply. The client of runr is the parameter `RunrHandle`.
pub mod Poll
mod Verify
mod Converge
mod Examples
use bonsun.Base.{
  ℕ, Bool, true, false, List, [], ◌∷◌, ◌++◌, Option, none, some, Text, text_eq, codes,
  if◌then◌else◌,
}
use bonsun.Resource.{Resource}
use bonsun.Primitive.{
  PrimitiveError, invalid_payload, apply_failed, runr_unavailable, Diff, is_no_change, ChangeReport,
  unchanged, changed_with,
}
use bonsun.Defers.Format.{DeferAction, DeferPriority}
use bonsun.Defers.Journal.{decimal}
use bonsun.Service.{
  running, stopped, absent, ServiceSpec, Action, no_change, start, stop, restart, reload, Node,
  Tools, Job, triggered, collect_notify_sources, on_outside, run_validate_if_configured,
  run_health_check_if_configured, enqueue_defer,
}
use bonsun.Effects.{Result, ok, err, Act, pure, throw, ◌>>=◌, match_result, map_err}

-- `RunrError` of bosun-runr-client; an error of another crate is given by its text.
pub data RunrError : Type 0 where
  unavailable : (base_url source : Text) → RunrError
  api_error : (status : ℕ) (body : Text) → RunrError
  bad_response : (message : Text) → RunrError
  not_found : (kind name : Text) → RunrError
  restart_not_observed : (unit : Text) → RunrError
  start_not_observed : (unit last_state : Text) → RunrError
  service_start_failed : (unit : Text) → RunrError
  io_failed : (source : Text) → RunrError

-- `ServiceStatus`, less the parts that are not read.
pub record ServiceStatus : Type 0 where
  pub name : Text
  pub state : Text
  pub pid : Option ℕ
  pub restarts : ℕ

-- `trait RunrHandle`, less the operations that the apply does not call. An `ActionAck` is not read.
pub record RunrHandle (V : Type 0) : Type 0 where
  pub base_url : Text
  pub daemon_reload : Act V RunrError Unit
  pub service_start : Text → Act V RunrError Unit
  pub service_stop : Text → Act V RunrError Unit
  pub service_statuses : Act V RunrError (List ServiceStatus)
  pub verify_start : Text → Act V RunrError ServiceStatus

abbrev pub running_state : Text
running_state = codes "Running"

-- `statuses.iter().find(|s| s.name == name)`
unfoldable pub status_of : Text → List ServiceStatus → Option ServiceStatus
status_of name [] = none
status_of name (s ∷ ss) = if text_eq s.name name then some s else status_of name ss

abbrev pub is_running : Option ServiceStatus → Bool
is_running none = false
is_running (some s) = text_eq s.state running_state

-- `decide_action_runr`
unfoldable pub decide_action_runr :
    ServiceSpec → Option ServiceStatus → (restart_triggered reload_triggered : Bool) → Action
decide_action_runr spec current restart_triggered reload_triggered = elim spec.state [
  | running ↦
      if is_running current
      then (if restart_triggered then restart else if reload_triggered then reload else no_change)
      else start
  | stopped ↦ if is_running current then stop else no_change
  | absent ↦ if is_running current then stop else no_change
]

-- `map_runr_error`
unfoldable pub map_runr_error : (base_url op : Text) → RunrError → PrimitiveError
map_runr_error base_url op (unavailable url source) =
    runr_unavailable url (op ++ codes ": " ++ source)
map_runr_error base_url op (not_found kind name) =
    apply_failed (
      codes "runr " ++ kind ++ codes " not found: " ++ name ++ codes " (during " ++ op ++ codes ")")
map_runr_error base_url op (api_error status body) = apply_failed (
    codes "runr API error during "
    ++ op
    ++ codes ": status="
    ++ decimal status
    ++ codes ", body="
    ++ body)
map_runr_error base_url op (bad_response message) =
    apply_failed (codes "runr returned invalid JSON during " ++ op ++ codes ": " ++ message)
map_runr_error base_url op (restart_not_observed unit) =
    apply_failed (codes "runr restart of " ++ unit ++ codes " not observed (op=" ++ op ++ codes ")")
map_runr_error base_url op (start_not_observed unit last_state) = apply_failed (
    codes "runr start of "
    ++ unit
    ++ codes " did not reach Running (last="
    ++ last_state
    ++ codes ", op="
    ++ op
    ++ codes ")")
map_runr_error base_url op (service_start_failed unit) =
    apply_failed
      (codes "runr " ++ unit ++ codes " entered Failed after start (op=" ++ op ++ codes ")")
map_runr_error base_url op (io_failed e) =
    runr_unavailable base_url (op ++ codes ": i/o error: " ++ e)

module _ {V : Type 0} (display_runr : RunrError → Text) where
  -- The result of `daemon_reload`: only where the daemon cannot be reached, the flag goes down again.
  unfoldable pub reloaded : Result RunrError Unit → Job V Unit
  reloaded (ok _) node = (ok tt, node)
  reloaded (err (unavailable url source)) node = (
    err (runr_unavailable url (codes "daemon_reload: " ++ source)),
    record node { daemon_reload_done = false },
  )
  reloaded (err e) node =
      (err (apply_failed (codes "runr.daemon_reload failed: " ++ display_runr e)), node)

module _ {V : Type 0} (runr : RunrHandle V) where
  -- A call whose error is mapped with the name of the operation.
  abbrev pub call : {A : Type 0} → Text → Act V RunrError A → Job V A
  call op m = map_err (map_runr_error runr.base_url op) (on_outside m)

  abbrev pub reload_unless : (RunrError → Text) → (done : Bool) → Job V Unit
  reload_unless display_runr true node = (ok tt, node)
  reload_unless display_runr false node =
      match_result (on_outside runr.daemon_reload) (reloaded display_runr)
        (record node { daemon_reload_done = true })

  -- Step 1 of `run`: `daemon_reload`, once in an apply.
  unfoldable pub ensure_reloaded : (RunrError → Text) → Job V Unit
  ensure_reloaded display_runr node = reload_unless display_runr node.daemon_reload_done node

  -- `execute_start`
  unfoldable pub execute_start : ServiceSpec → Job V ChangeReport
  execute_start spec = call (codes "service_start") (runr.service_start spec.name) >>= λ _.
      call (codes "verify_start") (runr.verify_start spec.name) >>= λ _.
      pure (changed_with (codes "started runr.service:" ++ spec.name))

  -- `execute_stop`
  unfoldable pub execute_stop : ServiceSpec → Job V ChangeReport
  execute_stop spec = call (codes "service_stop") (runr.service_stop spec.name) >>= λ _.
      pure (changed_with (codes "stopped runr.service:" ++ spec.name))

  module _ (tools : Tools V) where
    abbrev pub deferred_as :
        ServiceSpec → DeferAction → DeferPriority → List Text → Job V ChangeReport
    deferred_as spec action priority sources = run_validate_if_configured tools spec >>= λ _.
        enqueue_defer tools (codes "runr") (codes "runr.service") spec action priority sources

    -- `match action`
    unfoldable pub perform : ServiceSpec → List Text → Action → Job V ChangeReport
    perform spec sources no_change = pure unchanged
    perform spec sources start = execute_start spec >>= λ report.
        run_health_check_if_configured tools spec >>= λ _. pure report
    perform spec sources stop = execute_stop spec
    perform spec sources restart =
        deferred_as spec DeferAction.restart DeferPriority.restart sources
    perform spec sources reload = deferred_as spec DeferAction.reload DeferPriority.reload sources

    abbrev pub decide_and_perform :
        {P : Type 0}
        → List Text
        → Resource P
        → ServiceSpec
        → List ServiceStatus
        → Job V ChangeReport
    decide_and_perform changed r spec statuses =
        let restart_triggered = triggered changed r.restart_on in
        let reload_triggered = triggered changed r.reload_on in
        perform spec (collect_notify_sources changed r restart_triggered reload_triggered) (
          decide_action_runr spec (status_of spec.name statuses) restart_triggered reload_triggered)

    -- `run` behind the checks of the payload and of the client.
    unfoldable pub converge :
        {P : Type 0}
        → (RunrError → Text)
        → List Text
        → Resource P
        → ServiceSpec
        → Job V ChangeReport
    converge display_runr changed r spec = ensure_reloaded display_runr >>= λ _.
        call (codes "service_statuses") runr.service_statuses >>= decide_and_perform changed r spec

module _ {V : Type 0} (display_runr : RunrError → Text) where
  abbrev pub with_client :
      {P : Type 0}
      → Tools V
      → Option (RunrHandle V)
      → List Text
      → Resource P
      → Result Text ServiceSpec
      → Job V ChangeReport
  with_client tools runr changed r (err e) =
      throw (invalid_payload (codes "runr.service payload: " ++ e))
  with_client tools none changed r (ok spec) =
      throw (runr_unavailable (codes "n/a") (codes "runr client not initialized in ApplyCtx"))
  with_client tools (some runr) changed r (ok spec) =
      converge runr tools display_runr changed r spec

  -- `run`. `changed` is the set of changed resources in the context, `from_value` is serde.
  unfoldable pub run :
      {P J : Type 0}
      → (from_value : P → Result Text ServiceSpec) → Tools V
      → Option (RunrHandle V)
      → List Text
      → Resource P
      → Diff J
      → Job V ChangeReport
  run from_value tools runr changed r diff =
      if is_no_change diff
      then pure unchanged
      else with_client tools runr changed r (from_value r.payload)
