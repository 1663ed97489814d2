-- ===== src/Service/Systemd/Untouched.antt =====
-- When an apply of a systemd service leaves the journal of deferred actions alone
-- (bosun-primitives/src/systemd_service/apply.rs).
use bonsun.Base.{◌≡◌, refl, Bool, true, false, List, Option, some, Text}
use bonsun.Resource.{Resource}
use bonsun.Primitive.{PrimitiveError, Diff, no_change, add, update, ChangeReport, unchanged}
use bonsun.Defers.Format.{DeferAction, DeferPriority}
use bonsun.Defers.Files.{Fs}
use bonsun.Service.{
  triggered, ServiceSpec, Action, start, stop, restart, reload, Node, Tools, kept_beside,
}
use bonsun.Service.Frame.{validate_by-Keeps, check_by-Keeps}
use bonsun.Service.Deferral.{is_defer_io, enqueue_defer-tells}
use bonsun.Service.Systemd.{
  SystemdHandle, UnitInfo, raise_flag, reload_if, reload_unless, ensure_reloaded,
  decide_action_systemd, perform, deferred_as, converge, with_client, run,
}
use bonsun.Service.Systemd.Frame.{
  IsKept, ensure_enabled-Keeps, snapshot-Keeps, execute_start-Keeps, execute_stop-Keeps,
}
use bonsun.Effects.{
  Result, ok, err, Ends, Keeps, Ends-weaken, bind-Ends, match_result-Ends, map_err-Ends,
}

-- The action for the state of the unit and the changed resources.
abbrev pub decided : {P : Type 0} → List Text → Resource P → ServiceSpec → Option UnitInfo → Action
decided changed r spec before =
    decide_action_systemd spec before (triggered changed r.restart_on)
      (triggered changed r.reload_on)

module _ {V : Type 0} (fs : Fs Text) where
  abbrev pub Same : Node V → Type 0
  Same node = node.defers ≡ fs

  beside-Same :
      {E A : Type 0} (node : Node V) (x : Result E A × V)
      → Same node
      → Keeps Same (kept_beside node x)
  beside-Same node (ok a, v) h = record { holds = h }
  beside-Same node (err e, v) h = record { holds = h }

  module _ (systemd : SystemdHandle V) (tools : Tools V) where
    pub IsKept-Same : IsKept systemd tools Same
    IsKept-Same = record {
      starts = λ n node h. beside-Same node _ h;
      stops = λ n node h. beside-Same node _ h;
      enables = λ n node h. beside-Same node _ h;
      asks = λ n node h. beside-Same node _ h;
      tells = λ n node h. beside-Same node _ h;
      ran = record {
        validates = λ argv node h. beside-Same node _ h;
        checks = λ check node h. beside-Same node _ h;
      };
    }

    reload_if-Same :
        (needed : Bool) (node : Node V) → Same node → Keeps Same (reload_if systemd needed node)
    reload_if-Same false node h = record { holds = h }
    reload_if-Same true node h =
        match_result-Ends _ _ (beside-Same (raise_flag node) (systemd.daemon_reload node.outside) h)
          (λ _ node1 h1. record { holds = h1 }) (λ e node1 h1. record { holds = h1 })

    reload_unless-Same :
        (spec : ServiceSpec) (done : Bool) (node : Node V)
        → Same node
        → Keeps Same (reload_unless systemd spec done node)
    reload_unless-Same spec true node h = record { holds = h }
    reload_unless-Same spec false node h =
        bind-Ends _ (map_err-Ends _ _ (beside-Same node _ h)) reload_if-Same

    abbrev Undeferred : Result PrimitiveError ChangeReport × Node V → Type 0
    Undeferred x =
        Ends (λ report node. report.deferred ≡ false → Same node)
          (λ e node. is_defer_io e ≡ false → Same node) x

    Keeps-Undeferred :
        (x : Result PrimitiveError ChangeReport × Node V) → Keeps Same x → Undeferred x
    Keeps-Undeferred x h = Ends-weaken (λ r s k _. k) (λ e s k _. k) h

    deferred_as-Undeferred :
        (spec : ServiceSpec) (action : DeferAction) (priority : DeferPriority)
        → (sources : List Text) (node : Node V) → Same node
        → Undeferred (deferred_as systemd tools spec action priority sources node)
    deferred_as-Undeferred spec action priority sources node h =
        bind-Ends _
          (Ends-weaken {bad = λ e. Same} (λ r s k. k) (λ e s k _. k)
            (validate_by-Keeps IsKept-Same.ran spec.validate_with node h))
          (λ _ node1 h1.
            Ends-weaken (λ r s k no. absurd cc) (λ e s k no. absurd cc)
              (enqueue_defer-tells tools _ _ spec action priority sources node1))

    perform-Undeferred :
        (spec : ServiceSpec) (before : Option UnitInfo) (sources : List Text) (action : Action)
        → (node : Node V) → Same node
        → Undeferred (perform systemd tools spec before sources action node)
    unfolding perform
    perform-Undeferred spec before sources Action.no_change node h = record { holds = λ _. h }
    perform-Undeferred spec before sources start node h = Keeps-Undeferred _ (
        bind-Ends _ (execute_start-Keeps IsKept-Same spec before node h) (λ report node1 h1.
          bind-Ends _ (check_by-Keeps IsKept-Same.ran spec spec.health_check node1 h1)
            (λ _ node2 h2. record { holds = h2 })))
    perform-Undeferred spec before sources stop node h =
        Keeps-Undeferred _ (execute_stop-Keeps IsKept-Same spec node h)
    perform-Undeferred spec before sources restart node h =
        deferred_as-Undeferred spec DeferAction.restart DeferPriority.restart sources node h
    perform-Undeferred spec before sources reload node h =
        deferred_as-Undeferred spec DeferAction.reload DeferPriority.reload sources node h

    -- The three steps before the action, and the action.
    converge-by :
        {P : Type 0} (changed : List Text) (r : Resource P) (spec : ServiceSpec) (node : Node V)
        → (good : ChangeReport → Node V → Type 0) (bad : PrimitiveError → Node V → Type 0)
        → ((e : PrimitiveError) (node' : Node V) → Same node' → bad e node')
        → ((before : Option UnitInfo) (sources : List Text) (action : Action) (node' : Node V)
            → action ≡ decided changed r spec before
            → Same node'
            → Ends good bad (perform systemd tools spec before sources action node'))
        → Same node
        → Ends good bad (converge systemd tools changed r spec node)
    unfolding converge ensure_reloaded
    converge-by changed r spec node good bad early acts h =
        let kept = IsKept-Same in
        bind-Ends _
          (Ends-weaken {bad = λ e. Same} (λ a s k. k) early
            (reload_unless-Same spec node.daemon_reload_done node h))
          (λ _ node1 h1.
            bind-Ends _
              (Ends-weaken {bad = λ e. Same} (λ a s k. k) early
                (ensure_enabled-Keeps kept spec node1 h1))
              (λ _ node2 h2.
                bind-Ends _
                  (Ends-weaken {bad = λ e. Same} (λ a s k. k) early
                    (snapshot-Keeps kept spec node2 h2))
                  (λ before node3. acts before _ _ node3 refl)))

    pub with_client-by :
        {P : Type 0} (changed : List Text) (r : Resource P) (spec : Result Text ServiceSpec)
        → (node : Node V) (good : ChangeReport → Node V → Type 0)
        → (bad : PrimitiveError → Node V → Type 0)
        → ((e : PrimitiveError) (node' : Node V) → Same node' → bad e node')
        → ((s : ServiceSpec) (before : Option UnitInfo) (sources : List Text) (action : Action)
            → (node' : Node V) → spec ≡ ok s
            → action ≡ decided changed r s before
            → Same node'
            → Ends good bad (perform systemd tools s before sources action node'))
        → Same node
        → Ends good bad (with_client tools (some systemd) changed r spec node)
    with_client-by changed r (err e) node good bad early acts h = record { holds = early _ node h }
    with_client-by changed r (ok spec) node good bad early acts h =
        converge-by changed r spec node good bad early
          (λ before sources action node'. acts spec before sources action node' refl) h

    pub run-by :
        {P J : Type 0} (from_value : P → Result Text ServiceSpec) (changed : List Text)
        → (r : Resource P) (diff : Diff J) (node : Node V)
        → (good : ChangeReport → Node V → Type 0) (bad : PrimitiveError → Node V → Type 0)
        → good unchanged node
        → ((e : PrimitiveError) (node' : Node V) → Same node' → bad e node')
        → ((s : ServiceSpec) (before : Option UnitInfo) (sources : List Text) (action : Action)
            → (node' : Node V) → from_value r.payload ≡ ok s
            → action ≡ decided changed r s before
            → Same node'
            → Ends good bad (perform systemd tools s before sources action node'))
        → Same node
        → Ends good bad (run from_value tools (some systemd) changed r diff node)
    unfolding run
    run-by from_value changed r no_change node good bad idle early acts h = record { holds = idle }
    run-by from_value changed r (add _ _) node good bad idle early acts h =
        with_client-by changed r (from_value r.payload) node good bad early acts h
    run-by from_value changed r (update _ _ _) node good bad idle early acts h =
        with_client-by changed r (from_value r.payload) node good bad early acts h

    -- Whichever calls fail: where an apply of a systemd service succeeds without a deferred action, or fails
    -- with an error other than one of the journal, the directory of the journal is as it was, and none of
    -- its system calls was made.
    pub run-undeferred :
        {P J : Type 0} (from_value : P → Result Text ServiceSpec) (changed : List Text)
        → (r : Resource P) (diff : Diff J) (node : Node V) → node.defers ≡ fs
        → Ends
            (λ report node'. report.deferred ≡ false → node'.defers ≡ fs)
            (λ e node'. is_defer_io e ≡ false → node'.defers ≡ fs)
            (run from_value tools (some systemd) changed r diff node)
    run-undeferred from_value changed r diff node h =
        run-by from_value changed r diff node _ _ (λ _. h) (λ e node' k _. k)
          (λ s before sources action node' _ _. perform-Undeferred s before sources action node') h
