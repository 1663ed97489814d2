-- ===== src/Service/Systemd/Converge.antt =====
-- What an apply of a systemd service reaches (bosun-primitives/src/systemd_service/apply.rs): the unit is
-- active exactly where the specification wants it to run.
use bonsun.Base.{◌≡◌, refl, Bool, true, false, List, Option, some, Text, codes, text_eq, arith}
use bonsun.Resource.{Resource}
use bonsun.Primitive.{Diff, is_no_change, ChangeReport}
use bonsun.Defers.Format.{HealthCheck, DeferAction, DeferPriority}
use bonsun.Service.{
  ServiceSpec, Action, start, stop, restart, reload, Node, Tools, triggered, kept_beside,
}
use bonsun.Service.Systemd.{
  SystemdError, no_such_unit, UnitInfo, SystemdHandle, is_active, decide_action_systemd,
  verify_invocation_change, snapshot_of, snapshot, deferred_as, execute_start, execute_stop,
  perform, converge, run,
}
use bonsun.Service.Reached.{
  wants_active, Is, Reaches, Keeps-Reaches, beside-Is, beside-Reaches, verified-Reaches, reached,
}
use bonsun.Service.Frame.{IsRun, validate_by-Keeps, check_by-Keeps, enqueue_defer-Keeps}
use bonsun.Effects.{
  Result, ok, err, Ends, Keeps, bind-Ends, match_result-Ends, map_err-Ends, Ends-ok, anyhow,
}

-- `active` says which units are active, and the client says so too: a unit whose job of starting succeeds
-- is active, one whose job of stopping succeeds is not. Neither the question for the state nor the
-- validator and the health check change it.
pub record IsManager {V : Type 0} (systemd : SystemdHandle V) (tools : Tools V)
    (active : Text → V → Bool) : Type 0 where
  pub starts :
      (n : Text) (v : V) → Ends (λ _ v'. active n v' ≡ true) (λ e v'. Unit) (systemd.start_unit n v)
  pub stops :
      (n : Text) (v : V) → Ends (λ _ v'. active n v' ≡ false) (λ e v'. Unit) (systemd.stop_unit n v)
  pub tells :
      (n : Text) (v : V)
      → Ends
          (λ info v'. active n v' ≡ text_eq info.active_state (codes "active"))
          (λ e v'. (name : Text) → e ≡ no_such_unit name → active n v' ≡ false)
          (systemd.unit_info n v)
  pub stays_told :
      (m n : Text) (v : V) → Keeps (λ v'. active n v' ≡ active n v) (systemd.unit_info m v)
  pub stays_valid :
      (argv : List Text) (n : Text) (v : V)
      → Keeps (λ v'. active n v' ≡ active n v) (tools.validator argv v)
  pub stays_checked :
      (check : HealthCheck) (n : Text) (v : V)
      → Keeps (λ v'. active n v' ≡ active n v) (tools.health_check_runner check v)

pub decide_action_systemd-reached :
    (spec : ServiceSpec) (before : Option UnitInfo) (restarted reloaded : Bool)
    → reached (decide_action_systemd spec before restarted reloaded) (is_active before)
      ≡ wants_active spec.state
unfolding decide_action_systemd
decide_action_systemd-reached spec before restarted reloaded = ground arith

module _ {V : Type 0} {active : Text → V → Bool} {systemd : SystemdHandle V} {tools : Tools V}
    (manager : IsManager systemd tools active) where
  IsRun-Is : (name : Text) (b : Bool) → IsRun tools (Is active name b)
  IsRun-Is name b = record {
    validates = λ argv node h.
        beside-Is active name b node _ h (manager.stays_valid argv name node.outside);
    checks = λ check node h.
        beside-Is active name b node _ h (manager.stays_checked check name node.outside);
  }

  execute_start-Reaches :
      (spec : ServiceSpec) (before : Option UnitInfo) (node : Node V)
      → Reaches active spec.name true (execute_start systemd spec before node)
  unfolding execute_start
  execute_start-Reaches spec before node =
      let n = spec.name in
      bind-Ends _
        (map_err-Ends _ _ (beside-Reaches active n true node _ (manager.starts n node.outside)))
        (λ _ node1 h1.
          bind-Ends _
            (Keeps-Reaches active n true _ (
              map_err-Ends _ _
                (beside-Is active n true node1 _ h1 (manager.stays_told n n node1.outside))))
            (λ after node2 h2.
              bind-Ends _
                (verified-Reaches active n true (verify_invocation_change before after spec) node2
                  h2)
                (λ _ node3 h3. record { holds = h3 })))

  execute_stop-Reaches :
      (spec : ServiceSpec) (node : Node V)
      → Reaches active spec.name false (execute_stop systemd spec node)
  unfolding execute_stop
  execute_stop-Reaches spec node =
      let n = spec.name in
      bind-Ends _
        (map_err-Ends _ _ (beside-Reaches active n false node _ (manager.stops n node.outside)))
        (λ _ node1 h1. record { holds = h1 })

  deferred_as-Reaches :
      (spec : ServiceSpec) (b : Bool) (action : DeferAction) (priority : DeferPriority)
      → (sources : List Text) (node : Node V) → Is active spec.name b node
      → Reaches active spec.name b (deferred_as systemd tools spec action priority sources node)
  deferred_as-Reaches spec b action priority sources node h =
      let ran = IsRun-Is spec.name b in
      Keeps-Reaches active spec.name b _ (
        bind-Ends _ (validate_by-Keeps ran spec.validate_with node h)
          (λ _. enqueue_defer-Keeps ran (λ _ _ k. k) _ _ spec action priority sources))

  perform-Reaches :
      (spec : ServiceSpec) (before : Option UnitInfo) (sources : List Text) (action : Action)
      → (b : Bool) (node : Node V) → Is active spec.name b node
      → Reaches active spec.name
          (reached action b)
          (perform systemd tools spec before sources action node)
  unfolding perform
  perform-Reaches spec before sources Action.no_change b node h = record { holds = h }
  perform-Reaches spec before sources start b node h =
      bind-Ends _ (execute_start-Reaches spec before node) (λ report node1 h1.
        bind-Ends _
          (Keeps-Reaches active spec.name true _
            (check_by-Keeps (IsRun-Is spec.name true) spec spec.health_check node1 h1))
          (λ _ node2 h2. record { holds = h2 }))
  perform-Reaches spec before sources stop b node h = execute_stop-Reaches spec node
  perform-Reaches spec before sources restart b node h =
      deferred_as-Reaches spec b DeferAction.restart DeferPriority.restart sources node h
  perform-Reaches spec before sources reload b node h =
      deferred_as-Reaches spec b DeferAction.reload DeferPriority.reload sources node h

  -- What the snapshot tells is so.
  abbrev Seen : (name : Text) → Option UnitInfo → Node V → Type 0
  Seen name before node = Is active name (is_active before) node

  snapshot_of-Seen :
      (name : Text) (e : SystemdError) (node : Node V)
      → ((m : Text) → e ≡ no_such_unit m → Is active name false node)
      → Ends (Seen name) (λ e node. Unit) (snapshot_of (err e) node)
  snapshot_of-Seen name (no_such_unit m) node h = record { holds = h m refl }
  snapshot_of-Seen name _ node h = record { holds = tt }

  beside-Told :
      (name : Text) (node : Node V) (x : Result SystemdError UnitInfo × V)
      → Ends
          (λ info v'. active name v' ≡ text_eq info.active_state (codes "active"))
          (λ e v'. (m : Text) → e ≡ no_such_unit m → active name v' ≡ false)
          x
      → Ends
          (λ info. Seen name (some info))
          (λ e node'. (m : Text) → e ≡ no_such_unit m → Is active name false node')
          (kept_beside node x)
  beside-Told name node (ok info, v) h = record { holds = h.holds }
  beside-Told name node (err e, v) h = record { holds = h.holds }

  snapshot-Seen :
      (spec : ServiceSpec) (node : Node V)
      → Ends (Seen spec.name) (λ e node'. Unit) (snapshot systemd spec node)
  unfolding snapshot
  snapshot-Seen spec node =
      match_result-Ends _ _ (beside-Told spec.name node _ (manager.tells spec.name node.outside))
        (λ info node1 h1. record { holds = h1 }) (snapshot_of-Seen spec.name)

  converge-Reaches :
      {P : Type 0} (changed : List Text) (r : Resource P) (spec : ServiceSpec) (node : Node V)
      → Reaches active spec.name
          (wants_active spec.state)
          (converge systemd tools changed r spec node)
  unfolding converge
  converge-Reaches changed r spec node = bind-Ends _ (anyhow _) (λ _ node1 _.
      bind-Ends _ (anyhow _) (λ _ node2 _. bind-Ends _ (snapshot-Seen spec node2) (λ before node3 h.
        rw⁻¹
          (decide_action_systemd-reached spec before (triggered changed r.restart_on)
            (triggered changed r.reload_on))
          (perform-Reaches spec before _ _ (is_active before) node3 h))))

  -- If the client tells which units are active, a unit is active behind a start and not active behind a
  -- stop that succeed, and the validator and the health check do not change that, then behind an apply
  -- that succeeds with a difference to apply, the unit of the specification is active exactly if its
  -- state is `running`.
  pub run-converges :
      {P J : Type 0} (from_value : P → Result Text ServiceSpec) (changed : List Text)
      → (r : Resource P) (diff : Diff J) (node node' : Node V) (spec : ServiceSpec)
      → (report : ChangeReport) → is_no_change diff ≡ false
      → from_value r.payload ≡ ok spec
      → run from_value tools (some systemd) changed r diff node ≡ (ok report, node')
      → active spec.name node'.outside ≡ wants_active spec.state
  unfolding run
  run-converges from_value changed r diff node node' spec report some_diff read h =
      Ends-ok report node' (rw (some_diff, read) at h) (converge-Reaches changed r spec node)
