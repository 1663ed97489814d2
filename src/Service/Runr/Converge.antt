-- ===== src/Service/Runr/Converge.antt =====
-- What an apply of a runr service reaches (bosun-primitives/src/runr_service): the service runs exactly where
-- the specification wants it to, and its decision table agrees with that of systemd.
use bonsun.Base.{
  ◌≡◌, ◌∙◌, ap, refl, Bool, true, false, List, [], Option, none, some, codes, text_eq,
  if◌then◌else◌, Text, arith,
}
use bonsun.Resource.{Resource}
use bonsun.Primitive.{Diff, is_no_change, ChangeReport}
use bonsun.Defers.Format.{HealthCheck, DeferAction, DeferPriority}
use bonsun.Service.{
  ServiceSpec, Action, start, stop, restart, reload, Node, Tools, triggered, kept_beside,
}
use bonsun.Service.Frame.{IsRun, validate_by-Keeps, check_by-Keeps, enqueue_defer-Keeps}
use bonsun.Service.Reached.{
  wants_active, Is, Reaches, Keeps-Reaches, beside-Is, beside-Reaches, reached,
}
use bonsun.Service.Systemd.{UnitInfo, is_active, decide_action_systemd}
use bonsun.Service.Systemd.Converge.{decide_action_systemd-reached}
use bonsun.Service.Runr.{
  RunrError, ServiceStatus, RunrHandle, status_of, is_running, decide_action_runr, execute_start,
  execute_stop, deferred_as, perform, converge, run,
}
use bonsun.Effects.{Result, ok, err, Ends, Keeps, bind-Ends, map_err-Ends, Ends-ok, anyhow}

-- The decision tables of runr and of systemd agree, for the same specification and the same notifications,
-- where both say alike whether the service runs.
pub decide_action_runr-systemd :
    (spec : ServiceSpec) (s : Option ServiceStatus) (u : Option UnitInfo)
    → (restart_triggered reload_triggered : Bool) → is_running s ≡ is_active u
    → decide_action_runr spec s restart_triggered reload_triggered
      ≡ decide_action_systemd spec u restart_triggered reload_triggered
unfolding decide_action_runr decide_action_systemd
decide_action_runr-systemd spec s u restart_triggered reload_triggered alike = ground (arith, alike)

-- `runs` says which services run, and the client says so too: one that `verify_start` accepts runs, one that
-- was stopped does not. Neither the validator nor the health check change it.
pub record IsSupervisor {V : Type 0} (runr : RunrHandle V) (tools : Tools V)
    (runs : Text → V → Bool) : Type 0 where
  pub verifies :
      (n : Text) (v : V) → Ends (λ _ v'. runs n v' ≡ true) (λ e v'. Unit) (runr.verify_start n v)
  pub stops :
      (n : Text) (v : V) → Ends (λ _ v'. runs n v' ≡ false) (λ e v'. Unit) (runr.service_stop n v)
  pub tells :
      (v : V)
      → Ends
          (λ ss v'. (n : Text) → runs n v' ≡ is_running (status_of n ss))
          (λ e v'. Unit)
          (runr.service_statuses v)
  pub stays_valid :
      (argv : List Text) (n : Text) (v : V)
      → Keeps (λ v'. runs n v' ≡ runs n v) (tools.validator argv v)
  pub stays_checked :
      (check : HealthCheck) (n : Text) (v : V)
      → Keeps (λ v'. runs n v' ≡ runs n v) (tools.health_check_runner check v)

module _ {V : Type 0} {runs : Text → V → Bool} {runr : RunrHandle V} {tools : Tools V}
    (supervisor : IsSupervisor runr tools runs) where
  IsRun-Is : (name : Text) (b : Bool) → IsRun tools (Is runs name b)
  IsRun-Is name b = record {
    validates = λ argv node h.
        beside-Is runs name b node _ h (supervisor.stays_valid argv name node.outside);
    checks = λ check node h.
        beside-Is runs name b node _ h (supervisor.stays_checked check name node.outside);
  }

  execute_start-Reaches :
      (spec : ServiceSpec) (node : Node V)
      → Reaches runs spec.name true (execute_start runr spec node)
  unfolding execute_start
  execute_start-Reaches spec node =
      let n = spec.name in
      bind-Ends _ (anyhow _) (λ _ node1 _.
        bind-Ends _
          (map_err-Ends _ _
            (beside-Reaches runs n true node1 _ (supervisor.verifies n node1.outside)))
          (λ _ node2 h2. record { holds = h2 }))

  execute_stop-Reaches :
      (spec : ServiceSpec) (node : Node V)
      → Reaches runs spec.name false (execute_stop runr spec node)
  unfolding execute_stop
  execute_stop-Reaches spec node =
      let n = spec.name in
      bind-Ends _
        (map_err-Ends _ _ (beside-Reaches runs n false node _ (supervisor.stops n node.outside)))
        (λ _ node1 h1. record { holds = h1 })

  deferred_as-Reaches :
      (spec : ServiceSpec) (b : Bool) (action : DeferAction) (priority : DeferPriority)
      → (sources : List Text) (node : Node V) → Is runs spec.name b node
      → Reaches runs spec.name b (deferred_as runr tools spec action priority sources node)
  deferred_as-Reaches spec b action priority sources node h =
      let ran = IsRun-Is spec.name b in
      Keeps-Reaches runs spec.name b _ (
        bind-Ends _ (validate_by-Keeps ran spec.validate_with node h)
          (λ _. enqueue_defer-Keeps ran (λ _ _ k. k) _ _ spec action priority sources))

  perform-Reaches :
      (spec : ServiceSpec) (sources : List Text) (action : Action) (b : Bool) (node : Node V)
      → Is runs spec.name b node
      → Reaches runs spec.name (reached action b) (perform runr tools spec sources action node)
  unfolding perform
  perform-Reaches spec sources Action.no_change b node h = record { holds = h }
  perform-Reaches spec sources start b node h =
      bind-Ends _ (execute_start-Reaches spec node) (λ report node1 h1.
        bind-Ends _
          (Keeps-Reaches runs spec.name true _
            (check_by-Keeps (IsRun-Is spec.name true) spec spec.health_check node1 h1))
          (λ _ node2 h2. record { holds = h2 }))
  perform-Reaches spec sources stop b node h = execute_stop-Reaches spec node
  perform-Reaches spec sources restart b node h =
      deferred_as-Reaches spec b DeferAction.restart DeferPriority.restart sources node h
  perform-Reaches spec sources reload b node h =
      deferred_as-Reaches spec b DeferAction.reload DeferPriority.reload sources node h

  -- What the snapshot tells is so.
  beside-Told :
      (name : Text) (node : Node V) (x : Result RunrError (List ServiceStatus) × V)
      → Ends (λ ss v'. (n : Text) → runs n v' ≡ is_running (status_of n ss)) (λ e v'. Unit) x
      → Ends
          (λ ss node'. Is runs name (is_running (status_of name ss)) node')
          (λ e node'. Unit)
          (kept_beside node x)
  beside-Told name node (ok ss, v) h = record { holds = h.holds name }
  beside-Told name node (err e, v) h = record { holds = tt }

  -- A unit of systemd that is active exactly if the service runs.
  abbrev twin : Bool → Option UnitInfo
  twin running_now =
      if running_now
      then some (record { active_state = codes "active"; invocation_id = [] })
      else none

  twin-is_active : (b : Bool) → b ≡ is_active (twin b)
  unfolding text_eq
  twin-is_active true = refl
  twin-is_active false = refl

  decide_action_runr-reached :
      (spec : ServiceSpec) (current : Option ServiceStatus) (restarted reloaded : Bool)
      → reached (decide_action_runr spec current restarted reloaded) (is_running current)
        ≡ wants_active spec.state
  decide_action_runr-reached spec current restarted reloaded =
      let unit = twin (is_running current) in
      let alike = twin-is_active (is_running current) in
      rw (decide_action_runr-systemd spec current unit restarted reloaded alike) (
        ap (reached (decide_action_systemd spec unit restarted reloaded)) alike
        ∙ decide_action_systemd-reached spec unit restarted reloaded)

  converge-Reaches :
      {P : Type 0} (display_runr : RunrError → Text) (changed : List Text) (r : Resource P)
      → (spec : ServiceSpec) (node : Node V)
      → Reaches runs spec.name
          (wants_active spec.state)
          (converge runr tools display_runr changed r spec node)
  unfolding converge
  converge-Reaches display_runr changed r spec node = bind-Ends _ (anyhow _) (λ _ node1 _.
      bind-Ends _
        (map_err-Ends _ _ (beside-Told spec.name node1 _ (supervisor.tells node1.outside)))
        (λ ss node2 h.
          rw⁻¹
            (decide_action_runr-reached spec (status_of spec.name ss)
              (triggered changed r.restart_on) (triggered changed r.reload_on))
            (perform-Reaches spec _ _ (is_running (status_of spec.name ss)) node2 h)))

  -- If the client tells which services run, a service runs behind a start that is verified and does not run
  -- behind a stop that succeeds, and the validator and the health check do not change that, then behind an
  -- apply that succeeds with a difference to apply, the service of the specification runs exactly if its
  -- state is `running`.
  pub runr_run-converges :
      {P J : Type 0} (display_runr : RunrError → Text) (from_value : P → Result Text ServiceSpec)
      → (changed : List Text) (r : Resource P) (diff : Diff J) (node node' : Node V)
      → (spec : ServiceSpec) (report : ChangeReport) → is_no_change diff ≡ false
      → from_value r.payload ≡ ok spec
      → run display_runr from_value tools (some runr) changed r diff node ≡ (ok report, node')
      → runs spec.name node'.outside ≡ wants_active spec.state
  unfolding run
  runr_run-converges display_runr from_value changed r diff node node' spec report some_diff read
        h =
      Ends-ok report node' (rw (some_diff, read) at h)
        (converge-Reaches display_runr changed r spec node)
