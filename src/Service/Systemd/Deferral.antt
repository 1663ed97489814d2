-- ===== src/Service/Systemd/Deferral.antt =====
-- What an apply of a systemd service does to the journal of deferred actions
-- (bosun-primitives/src/systemd_service/apply.rs).
use bonsun.Base.{
  ℕ, ◌≡◌, refl, ◌⊎◌, sym, ◌∙◌, ap, arith, Bool, inl, inr, true, false, List, Option, some, Text,
  codes,
}
use bonsun.Resource.{Resource}
use bonsun.Primitive.{PrimitiveError, Diff, ChangeReport}
use bonsun.Defers.Format.{DeferAction, DeferPriority}
use bonsun.Defers.Files.{Directory, quiet}
use bonsun.Service.{
  triggered, deferral, ServiceSpec, Action, start, stop, restart, reload, Node, Tools,
}
use bonsun.Service.Frame.{validate_by-Keeps}
use bonsun.Service.Deferral.{Survives, IsPending, RoundTrips, enqueue_defer-IsPending}
use bonsun.Service.Systemd.{
  SystemdHandle, UnitInfo, execute_start, execute_stop, decide_action_systemd, perform, deferred_as,
  run,
}
use bonsun.Service.Systemd.Untouched.{Same, IsKept-Same, decided, run-by}
use bonsun.Effects.{Result, ok, Ends, Ends-weaken, bind-Ends, Ends-ok, anyhow}

read_same : (r : Result Text ServiceSpec) (s t : ServiceSpec) → r ≡ ok s → r ≡ ok t → s ≡ t
read_same r s t h h' = cc

restart_asked :
    (spec : ServiceSpec) (before : Option UnitInfo) (restarts reloads : Bool)
    → decide_action_systemd spec before restarts reloads ≡ Action.restart
    → restarts ≡ true
unfolding decide_action_systemd
restart_asked spec before restarts reloads h = ground (arith, h)

reload_asked :
    (spec : ServiceSpec) (before : Option UnitInfo) (restarts reloads : Bool)
    → decide_action_systemd spec before restarts reloads ≡ Action.reload
    → (restarts ≡ false) × (reloads ≡ true)
unfolding decide_action_systemd
reload_asked spec before restarts reloads h = ground (arith, h)

module _ {V : Type 0} where
  -- The results of an operation that only started, stopped or did nothing.
  abbrev Prompt : Result PrimitiveError ChangeReport × Node V → Type 0
  Prompt x = Ends (λ report node. report.deferred ≡ false) (λ e node. Unit) x

  execute_start-Prompt :
      (systemd : SystemdHandle V) (spec : ServiceSpec) (before : Option UnitInfo) (node : Node V)
      → Prompt (execute_start systemd spec before node)
  unfolding execute_start
  execute_start-Prompt systemd spec before node = bind-Ends _ (anyhow _) (λ _ node1 _.
      bind-Ends _ (anyhow _)
        (λ after node2 _. bind-Ends _ (anyhow _) (λ _ node3 _. record { holds = refl })))

  execute_stop-Prompt :
      (systemd : SystemdHandle V) (spec : ServiceSpec) (node : Node V)
      → Prompt (execute_stop systemd spec node)
  unfolding execute_stop
  execute_stop-Prompt systemd spec node =
      bind-Ends _ (anyhow _) (λ _ node1 _. record { holds = refl })

module _ {V : Type 0} (systemd : SystemdHandle V) (tools : Tools V) (d : Directory Text)
    (ns : List ℕ) where
  -- What is pending, by whether a change asks for a restart, and for a reload.
  abbrev pub Pending : (restarts reloads : Bool) → ServiceSpec → Node V → Type 0
  Pending restarts reloads spec node =
      ((restarts ≡ true) × IsPending tools (codes "systemd") spec DeferAction.restart d node)
      ⊎ ((restarts ≡ false)
          × (reloads ≡ true)
          × IsPending tools (codes "systemd") spec DeferAction.reload d node)

  module _ (restarts reloads : Bool) where
    abbrev Deferred : ServiceSpec → Result PrimitiveError ChangeReport × Node V → Type 0
    Deferred spec x =
        Ends (λ report node. report.deferred ≡ true → Pending restarts reloads spec node)
          (λ e node. Unit) x

    Prompt-Deferred :
        (spec : ServiceSpec) (x : Result PrimitiveError ChangeReport × Node V)
        → Prompt x
        → Deferred spec x
    Prompt-Deferred spec x h = Ends-weaken (λ r s no yes. absurd cc) (λ e s k. k) h

    -- A deferral with a way to tell its entry pending.
    deferred_as-Deferred :
        (spec : ServiceSpec) (action : DeferAction) (priority : DeferPriority) (sources : List Text)
        → (node : Node V)
        → ((node' : Node V)
            → IsPending tools (codes "systemd") spec action d node'
            → Pending restarts reloads spec node')
        → ((v : V)
            → Survives tools (deferral tools (codes "systemd") spec action priority sources v))
        → Same (quiet d ns) node
        → Deferred spec (deferred_as systemd tools spec action priority sources node)
    deferred_as-Deferred spec action priority sources node tell back h =
        bind-Ends _
          (Ends-weaken {bad = λ e. Same (quiet d ns)} (λ a s k. k) (λ e s k. tt)
            (validate_by-Keeps (IsKept-Same (quiet d ns) systemd tools).ran spec.validate_with node
              h))
          (λ _ node1 h1.
            Ends-weaken (λ r s k _. tell s k) (λ e s k. k)
              (enqueue_defer-IsPending tools _ _ spec action priority sources d ns node1
                (back node1.outside) h1))

    perform-Deferred :
        (spec : ServiceSpec) (before : Option UnitInfo) (sources : List Text) (action : Action)
        → (node : Node V) → action ≡ decide_action_systemd spec before restarts reloads
        → RoundTrips tools (codes "systemd") spec
        → Same (quiet d ns) node
        → Deferred spec (perform systemd tools spec before sources action node)
    unfolding perform
    perform-Deferred spec before sources Action.no_change node decision back h = record {
      holds = λ yes. absurd cc;
    }
    perform-Deferred spec before sources start node decision back h = Prompt-Deferred spec _ (
        bind-Ends _ (execute_start-Prompt systemd spec before node)
          (λ report node1 h1. bind-Ends _ (anyhow _) (λ _ node2 _. record { holds = h1 })))
    perform-Deferred spec before sources stop node decision back h =
        Prompt-Deferred spec _ (execute_stop-Prompt systemd spec node)
    perform-Deferred spec before sources restart node decision back h =
        deferred_as-Deferred spec DeferAction.restart DeferPriority.restart sources node
          (λ _ pending. inl (restart_asked spec before restarts reloads (sym decision), pending))
          (λ v. (back sources v).0) h
    perform-Deferred spec before sources reload node decision back h =
        deferred_as-Deferred spec DeferAction.reload DeferPriority.reload sources node
          (λ _ pending.
            let (none, asked) = reload_asked spec before restarts reloads (sym decision) in
            inr (none, asked, pending))
          (λ v. (back sources v).1) h

  -- If no call of the journal fails and serde_json reads the restarts and reloads of the unit that it wrote,
  -- then behind an apply of a systemd service that ends with a deferred action, a restart of the unit is pending
  -- if a resource changed that it restarts on, and else a resource changed that it reloads on and a reload is
  -- pending, each under the identifier that `make_id` gives it: its entry, with this action, is what the file
  -- with its name holds, or the journal is as it was and had an entry for the unit with this identifier, or
  -- with an action that subsumes it.
  pub run-deferred :
      {P J : Type 0} (from_value : P → Result Text ServiceSpec) (changed : List Text)
      → (r : Resource P) (diff : Diff J) (node node' : Node V) (spec : ServiceSpec)
      → (report : ChangeReport) → RoundTrips tools (codes "systemd") spec
      → node.defers ≡ quiet d ns
      → from_value r.payload ≡ ok spec
      → run from_value tools (some systemd) changed r diff node ≡ (ok report, node')
      → report.deferred ≡ true
      → Pending (triggered changed r.restart_on) (triggered changed r.reload_on) spec node'
  run-deferred from_value changed r diff node node' spec report back calm read h =
      Ends-ok report node' h (
        run-by (quiet d ns) systemd tools from_value changed r diff node
          (λ report node.
            report.deferred ≡ true
            → Pending (triggered changed r.restart_on) (triggered changed r.reload_on) spec node)
          (λ e node. Unit) (λ yes. absurd cc) (λ e node' k. tt)
          (λ s before sources action node1 same decision.
            let here = read_same (from_value r.payload) s spec same read in
            rw here (
              perform-Deferred (triggered changed r.restart_on) (triggered changed r.reload_on) spec
                before sources action node1 (decision ∙ ap (λ t. decided changed r t before) here)
                back))
          calm)
