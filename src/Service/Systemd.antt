-- ===== src/Service/Systemd.antt =====
-- bosun-primitives/src/systemd_service/plan.rs and apply.rs: the decision table of a systemd service and
-- its apply. The client of systemd is the parameter `SystemdHandle`.
mod Frame
pub mod Converge
mod Throttle
mod Untouched
mod Deferral
mod Examples
use bonsun.Base.{
  Bool, true, false, ◌&&◌, not, List, [], ◌++◌, Option, none, some, Text, text_eq, codes,
  if◌then◌else◌,
}
use bonsun.Resource.{Resource}
use bonsun.Primitive.{
  PrimitiveError, io, invalid_payload, apply_failed, systemd_unavailable, Diff, is_no_change,
  ChangeReport, unchanged, changed_with,
}
use bonsun.Defers.Format.{DeferAction, DeferPriority}
use bonsun.Service.{
  running, stopped, absent, ServiceSpec, Action, no_change, start, stop, restart, reload, Node,
  Tools, Job, triggered, collect_notify_sources, on_outside, run_validate_if_configured,
  run_health_check_if_configured, enqueue_defer,
}
use bonsun.Effects.{Result, ok, err, Act, pure, throw, ◌>>=◌, from_result, match_result, map_err}

-- `SystemdError` of bosun-systemd-client; an error of another crate and a Duration are given by their texts.
pub data SystemdError : Type 0 where
  bus_unavailable : (reason : Text) → SystemdError
  dbus : (source : Text) → SystemdError
  no_such_unit : (name : Text) → SystemdError
  authorization_denied : (action unit : Text) → SystemdError
  job_failed : (job result active_state : Text) → SystemdError
  restart_not_observed : (unit : Text) → SystemdError
  timeout : (duration : Text) → SystemdError
  io_failed : (source : Text) → SystemdError

-- `UnitInfo`, less the parts that the apply does not read.
pub record UnitInfo : Type 0 where
  pub active_state : Text
  pub invocation_id : Text

-- `trait SystemdHandle`, less the operations that the apply does not call.
pub record SystemdHandle (V : Type 0) : Type 0 where
  pub daemon_reload : Act V SystemdError Unit
  pub needs_daemon_reload : Text → Act V SystemdError Bool
  pub start_unit : Text → Act V SystemdError Unit
  pub stop_unit : Text → Act V SystemdError Unit
  pub enable_unit : Text → Act V SystemdError Unit
  pub is_unit_enabled : Text → Act V SystemdError Bool
  pub unit_info : Text → Act V SystemdError UnitInfo

abbrev pub is_active : Option UnitInfo → Bool
is_active none = false
is_active (some u) = text_eq u.active_state (codes "active")

-- `decide_action_systemd`
unfoldable pub decide_action_systemd :
    ServiceSpec → Option UnitInfo → (restart_triggered reload_triggered : Bool) → Action
decide_action_systemd spec current restart_triggered reload_triggered = elim spec.state [
  | running ↦
      if is_active current
      then (if restart_triggered then restart else if reload_triggered then reload else no_change)
      else start
  | stopped ↦ if is_active current then stop else no_change
  | absent ↦ if is_active current then stop else no_change
]

-- `map_systemd_error`
unfoldable pub map_systemd_error : Text → SystemdError → PrimitiveError
map_systemd_error op (bus_unavailable reason) =
    systemd_unavailable (op ++ codes ": bus unavailable: " ++ reason)
map_systemd_error op (dbus e) = systemd_unavailable (op ++ codes ": dbus error: " ++ e)
map_systemd_error op (no_such_unit name) =
    apply_failed (codes "systemd unit not found: " ++ name ++ codes " (during " ++ op ++ codes ")")
map_systemd_error op (authorization_denied action unit) = apply_failed (
    codes "authorization denied for "
    ++ action
    ++ codes " on "
    ++ unit
    ++ codes " (during "
    ++ op
    ++ codes "); run as root or add a polkit rule")
map_systemd_error op (job_failed job result active_state) = apply_failed (
    codes "systemd job "
    ++ job
    ++ codes " failed during "
    ++ op
    ++ codes ": result="
    ++ result
    ++ codes ", active_state="
    ++ active_state)
map_systemd_error op (restart_not_observed unit) =
    apply_failed (codes "restart of " ++ unit ++ codes " not observed (op=" ++ op ++ codes ")")
map_systemd_error op (timeout d) =
    systemd_unavailable (op ++ codes ": timeout after " ++ d ++ codes " waiting for job")
map_systemd_error op (io_failed e) = io (codes "systemd " ++ op) e

-- `verify_invocation_change`
unfoldable pub verify_invocation_change :
    (before : Option UnitInfo) (after : UnitInfo) → ServiceSpec → Result PrimitiveError Unit
verify_invocation_change none after spec = ok tt
verify_invocation_change (some before) after spec =
    if text_eq before.invocation_id []
    then ok tt
    else if not (text_eq after.invocation_id []) && text_eq after.invocation_id before.invocation_id
    then err (
        apply_failed (
          codes "systemd.service:"
          ++ spec.name
          ++ codes ": restart not observed (InvocationID unchanged: "
          ++ before.invocation_id
          ++ codes ")"))
    else ok tt

module _ {V : Type 0} where
  abbrev pub reloaded : Result SystemdError Unit → Job V Unit
  reloaded (ok _) node = (ok tt, node)
  reloaded (err e) node = (
    err (map_systemd_error (codes "daemon_reload") e),
    record node { daemon_reload_done = false },
  )

  -- The `swap` of the flag.
  abbrev pub raise_flag : Node V → Node V
  raise_flag node = record node { daemon_reload_done = true }

  -- The result of `unit_info` before the action.
  abbrev pub snapshot_of : Result SystemdError UnitInfo → Job V (Option UnitInfo)
  snapshot_of (ok info) = pure (some info)
  snapshot_of (err (no_such_unit _)) = pure none
  snapshot_of (err e) = throw (map_systemd_error (codes "unit_info") e)

  module _ (systemd : SystemdHandle V) where
    -- A call whose error is mapped with the name of the operation.
    abbrev pub call : {A : Type 0} → Text → Act V SystemdError A → Job V A
    call op m = map_err (map_systemd_error op) (on_outside m)

    -- The first ten lines of step 1, the flag being down.
    abbrev pub reload_if : Bool → Job V Unit
    reload_if false node = (ok tt, node)
    reload_if true node = match_result (on_outside systemd.daemon_reload) reloaded (raise_flag node)

    abbrev pub reload_unless : ServiceSpec → (done : Bool) → Job V Unit
    reload_unless spec true = pure tt
    reload_unless spec false =
        call (codes "needs_daemon_reload") (systemd.needs_daemon_reload spec.name) >>= reload_if

    -- Step 1 of `run`: `daemon_reload`, once in an apply.
    unfoldable pub ensure_reloaded : ServiceSpec → Job V Unit
    ensure_reloaded spec node = reload_unless spec node.daemon_reload_done node

    abbrev pub enable_unless : Text → Bool → Job V Unit
    enable_unless name true = pure tt
    enable_unless name false = call (codes "enable_unit") (systemd.enable_unit name)

    -- Step 2
    unfoldable pub ensure_enabled : ServiceSpec → Job V Unit
    ensure_enabled spec =
        if spec.enable
        then (call (codes "is_unit_enabled") (systemd.is_unit_enabled spec.name)
            >>= enable_unless spec.name)
        else pure tt

    -- Step 3
    unfoldable pub snapshot : ServiceSpec → Job V (Option UnitInfo)
    snapshot spec = match_result (on_outside (systemd.unit_info spec.name)) snapshot_of

    -- `execute_start`
    unfoldable pub execute_start : ServiceSpec → Option UnitInfo → Job V ChangeReport
    execute_start spec before = call (codes "start_unit") (systemd.start_unit spec.name) >>= λ _.
        call (codes "unit_info") (systemd.unit_info spec.name) >>= λ after.
        from_result (verify_invocation_change before after spec) >>= λ _.
        pure (changed_with (codes "started systemd.service:" ++ spec.name))

    -- `execute_stop`
    unfoldable pub execute_stop : ServiceSpec → Job V ChangeReport
    execute_stop spec = call (codes "stop_unit") (systemd.stop_unit spec.name) >>= λ _.
        pure (changed_with (codes "stopped systemd.service:" ++ spec.name))

    module _ (tools : Tools V) where
      abbrev pub deferred_as :
          ServiceSpec → DeferAction → DeferPriority → List Text → Job V ChangeReport
      deferred_as spec action priority sources = run_validate_if_configured tools spec >>= λ _.
          enqueue_defer tools (codes "systemd") (codes "systemd.service") spec action priority
            sources

      -- `match action`
      unfoldable pub perform :
          ServiceSpec → Option UnitInfo → List Text → Action → Job V ChangeReport
      perform spec before sources no_change = pure unchanged
      perform spec before sources start = execute_start spec before >>= λ report.
          run_health_check_if_configured tools spec >>= λ _. pure report
      perform spec before sources stop = execute_stop spec
      perform spec before sources restart =
          deferred_as spec DeferAction.restart DeferPriority.restart sources
      perform spec before sources reload =
          deferred_as spec DeferAction.reload DeferPriority.reload sources

      abbrev pub decide_and_perform :
          {P : Type 0} → List Text → Resource P → ServiceSpec → Option UnitInfo → Job V ChangeReport
      decide_and_perform changed r spec before =
          let restart_triggered = triggered changed r.restart_on in
          let reload_triggered = triggered changed r.reload_on in
          perform spec before (collect_notify_sources changed r restart_triggered reload_triggered)
            (decide_action_systemd spec before restart_triggered reload_triggered)

      -- `run` behind the checks of the payload and of the client.
      unfoldable pub converge :
          {P : Type 0} → List Text → Resource P → ServiceSpec → Job V ChangeReport
      converge changed r spec = ensure_reloaded spec >>= λ _.
          ensure_enabled spec >>= λ _. snapshot spec >>= decide_and_perform changed r spec

  abbrev pub with_client :
      {P : Type 0}
      → Tools V
      → Option (SystemdHandle V)
      → List Text
      → Resource P
      → Result Text ServiceSpec
      → Job V ChangeReport
  with_client tools systemd changed r (err e) =
      throw (invalid_payload (codes "systemd.service payload: " ++ e))
  with_client tools none changed r (ok spec) =
      throw (systemd_unavailable (codes "systemd client not initialized in ApplyCtx"))
  with_client tools (some systemd) changed r (ok spec) = converge systemd tools changed r spec

  -- `run`. `changed` is the set of changed resources in the context, `from_value` is serde.
  unfoldable pub run :
      {P J : Type 0}
      → (from_value : P → Result Text ServiceSpec) → Tools V
      → Option (SystemdHandle V)
      → List Text
      → Resource P
      → Diff J
      → Job V ChangeReport
  run from_value tools systemd changed r diff =
      if is_no_change diff
      then pure unchanged
      else with_client tools systemd changed r (from_value r.payload)
