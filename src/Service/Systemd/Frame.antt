-- ===== src/Service/Systemd/Frame.antt =====
-- What the steps of an apply of a systemd service keep (bosun-primitives/src/systemd_service/apply.rs), if
-- the calls of the client, the validator and the health check keep it.
use bonsun.Base.{inl, inr, Bool-cases, Bool, true, false, List, Option, Text}
use bonsun.Primitive.{PrimitiveError}
use bonsun.Defers.Format.{DeferAction, DeferPriority}
use bonsun.Defers.Files.{Fs}
use bonsun.Service.{
  ServiceSpec, Action, no_change, start, stop, restart, reload, Node, Tools, on_outside,
}
use bonsun.Service.Frame.{IsRun, validate_by-Keeps, check_by-Keeps, enqueue_defer-Keeps}
use bonsun.Service.Systemd.{
  SystemdError, no_such_unit, UnitInfo, SystemdHandle, verify_invocation_change, snapshot_of,
  enable_unless, ensure_enabled, snapshot, execute_start, execute_stop, deferred_as, perform,
}
use bonsun.Effects.{Result, ok, err, Keeps, bind-Ends, match_result-Ends, map_err-Ends, from_result}

-- The calls that an apply makes besides `daemon_reload`.
pub record IsKept {V : Type 0} (systemd : SystemdHandle V) (tools : Tools V) (I : Node V → Type 0)
    : Type 0 where
  pub starts :
      (n : Text) (node : Node V) → I node → Keeps I (on_outside (systemd.start_unit n) node)
  pub stops : (n : Text) (node : Node V) → I node → Keeps I (on_outside (systemd.stop_unit n) node)
  pub enables :
      (n : Text) (node : Node V) → I node → Keeps I (on_outside (systemd.enable_unit n) node)
  pub asks :
      (n : Text) (node : Node V) → I node → Keeps I (on_outside (systemd.is_unit_enabled n) node)
  pub tells : (n : Text) (node : Node V) → I node → Keeps I (on_outside (systemd.unit_info n) node)
  pub ran : IsRun tools I

module _ {V : Type 0} {systemd : SystemdHandle V} {tools : Tools V} {I : Node V → Type 0} where
  module _ (kept : IsKept systemd tools I) where
    enable_unless-Keeps :
        (n : Text) (already : Bool) (node : Node V)
        → I node
        → Keeps I (enable_unless systemd n already node)
    enable_unless-Keeps n true node h = record { holds = h }
    enable_unless-Keeps n false node h = map_err-Ends _ _ (kept.enables n node h)

    pub ensure_enabled-Keeps :
        (spec : ServiceSpec) (node : Node V) → I node → Keeps I (ensure_enabled systemd spec node)
    unfolding ensure_enabled
    ensure_enabled-Keeps spec node h = elim (Bool-cases spec.enable) [
      | inr off ↦ rw off (record { holds = h })
      | inl on ↦ rw on (
          bind-Ends _ (map_err-Ends _ _ (kept.asks spec.name node h))
            (enable_unless-Keeps spec.name))
    ]

    snapshot_of-Keeps :
        (e : SystemdError) (node : Node V) → I node → Keeps I (snapshot_of (err e) node)
    snapshot_of-Keeps (no_such_unit name) node h = record { holds = h }
    snapshot_of-Keeps _ node h = record { holds = h }

    pub snapshot-Keeps :
        (spec : ServiceSpec) (node : Node V) → I node → Keeps I (snapshot systemd spec node)
    unfolding snapshot
    snapshot-Keeps spec node h =
        match_result-Ends _ _ (kept.tells spec.name node h) (λ info node' h'. record { holds = h' })
          snapshot_of-Keeps

    verified-Keeps :
        (r : Result PrimitiveError Unit) (node : Node V) → I node → Keeps I (from_result r node)
    verified-Keeps (ok _) node h = record { holds = h }
    verified-Keeps (err _) node h = record { holds = h }

    pub execute_start-Keeps :
        (spec : ServiceSpec) (before : Option UnitInfo) (node : Node V)
        → I node
        → Keeps I (execute_start systemd spec before node)
    unfolding execute_start
    execute_start-Keeps spec before node h =
        bind-Ends _ (map_err-Ends _ _ (kept.starts spec.name node h)) (λ _ node1 h1.
          bind-Ends _ (map_err-Ends _ _ (kept.tells spec.name node1 h1)) (λ after node2 h2.
            bind-Ends _ (verified-Keeps (verify_invocation_change before after spec) node2 h2)
              (λ _ node3 h3. record { holds = h3 })))

    pub execute_stop-Keeps :
        (spec : ServiceSpec) (node : Node V) → I node → Keeps I (execute_stop systemd spec node)
    unfolding execute_stop
    execute_stop-Keeps spec node h =
        bind-Ends _ (map_err-Ends _ _ (kept.stops spec.name node h))
          (λ _ node1 h1. record { holds = h1 })

    module _
        (filed : (node : Node V) (fs : Fs Text) → I node → I (record node { defers = fs })) where
      deferred_as-Keeps :
          (spec : ServiceSpec) (action : DeferAction) (priority : DeferPriority)
          → (sources : List Text) (node : Node V) → I node
          → Keeps I (deferred_as systemd tools spec action priority sources node)
      deferred_as-Keeps spec action priority sources node h =
          bind-Ends _ (validate_by-Keeps kept.ran spec.validate_with node h)
            (λ _. enqueue_defer-Keeps kept.ran filed _ _ spec action priority sources)

      pub perform-Keeps :
          (spec : ServiceSpec) (before : Option UnitInfo) (sources : List Text) (action : Action)
          → (node : Node V) → I node
          → Keeps I (perform systemd tools spec before sources action node)
      unfolding perform
      perform-Keeps spec before sources no_change node h = record { holds = h }
      perform-Keeps spec before sources start node h =
          bind-Ends _ (execute_start-Keeps spec before node h) (λ report node1 h1.
            bind-Ends _ (check_by-Keeps kept.ran spec spec.health_check node1 h1)
              (λ _ node2 h2. record { holds = h2 }))
      perform-Keeps spec before sources stop node h = execute_stop-Keeps spec node h
      perform-Keeps spec before sources restart node h =
          deferred_as-Keeps spec DeferAction.restart DeferPriority.restart sources node h
      perform-Keeps spec before sources reload node h =
          deferred_as-Keeps spec DeferAction.reload DeferPriority.reload sources node h
