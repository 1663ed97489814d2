-- ===== src/Service/Systemd/Throttle.antt =====
-- How often an apply of systemd services reloads the daemon (bosun-primitives/src/systemd_service/apply.rs).
use bonsun.Base.{
  ℕ, ◌+◌, ◌≤◌, ◌≡◌, refl, Bool, true, false, List, [], ◌∷◌, some, Text, arith, if◌then◌else◌,
}
use bonsun.Resource.{Resource}
use bonsun.Primitive.{Diff, no_change, add, update}
use bonsun.Defers.Format.{HealthCheck}
use bonsun.Service.{ServiceSpec, Node, Tools, kept_beside}
use bonsun.Service.Systemd.{
  SystemdError, SystemdHandle, reload_if, raise_flag, reload_unless, ensure_reloaded, converge,
  with_client, run,
}
use bonsun.Service.Systemd.Frame.{IsKept, ensure_enabled-Keeps, snapshot-Keeps, perform-Keeps}
use bonsun.Effects.{
  Result, ok, err, Ends, Keeps, Keeps-state, Ends-weaken, bind-Ends, match_result-Ends,
  map_err-Ends,
}

-- `reloads` counts the calls of `daemon_reload` that succeeded: they raise it by one, and every other
-- call leaves it.
pub record IsCounted {V : Type 0} (systemd : SystemdHandle V) (tools : Tools V) (reloads : V → ℕ)
    : Type 0 where
  pub counts :
      (v : V)
      → Ends
          (λ _ v'. reloads v' ≡ reloads v + 1)
          (λ e v'. reloads v' ≡ reloads v)
          (systemd.daemon_reload v)
  pub asks_reload :
      (n : Text) (v : V) → Keeps (λ v'. reloads v' ≡ reloads v) (systemd.needs_daemon_reload n v)
  pub starts : (n : Text) (v : V) → Keeps (λ v'. reloads v' ≡ reloads v) (systemd.start_unit n v)
  pub stops : (n : Text) (v : V) → Keeps (λ v'. reloads v' ≡ reloads v) (systemd.stop_unit n v)
  pub enables : (n : Text) (v : V) → Keeps (λ v'. reloads v' ≡ reloads v) (systemd.enable_unit n v)
  pub asks : (n : Text) (v : V) → Keeps (λ v'. reloads v' ≡ reloads v) (systemd.is_unit_enabled n v)
  pub tells : (n : Text) (v : V) → Keeps (λ v'. reloads v' ≡ reloads v) (systemd.unit_info n v)
  pub validates :
      (argv : List Text) (v : V) → Keeps (λ v'. reloads v' ≡ reloads v) (tools.validator argv v)
  pub checks :
      (check : HealthCheck) (v : V)
      → Keeps (λ v'. reloads v' ≡ reloads v) (tools.health_check_runner check v)

-- The reloads so far, and one that is still allowed where the flag is down.
abbrev budget : {V : Type 0} → (V → ℕ) → Node V → ℕ
budget reloads node = reloads node.outside + (if node.daemon_reload_done then 0 else 1)

module _ {V : Type 0} (reloads : V → ℕ) (bound : ℕ) where
  abbrev Within : Node V → Type 0
  Within node = budget reloads node ≤ bound

  -- The calls that leave the count.
  beside-Within :
      {E A : Type 0} (node : Node V) (x : Result E A × V)
      → Within node
      → Keeps (λ v'. reloads v' ≡ reloads node.outside) x
      → Keeps Within (kept_beside node x)
  beside-Within node (ok a, v) h kept = record { holds = omega (arith, h, kept.holds) }
  beside-Within node (err e, v) h kept = record { holds = omega (arith, h, kept.holds) }

  module _ {systemd : SystemdHandle V} {tools : Tools V}
      (counted : IsCounted systemd tools reloads) where
    IsKept-Within : IsKept systemd tools Within
    IsKept-Within = record {
      starts = λ n node h. beside-Within node _ h (counted.starts n node.outside);
      stops = λ n node h. beside-Within node _ h (counted.stops n node.outside);
      enables = λ n node h. beside-Within node _ h (counted.enables n node.outside);
      asks = λ n node h. beside-Within node _ h (counted.asks n node.outside);
      tells = λ n node h. beside-Within node _ h (counted.tells n node.outside);
      ran = record {
        validates = λ argv node h. beside-Within node _ h (counted.validates argv node.outside);
        checks = λ check node h. beside-Within node _ h (counted.checks check node.outside);
      };
    }

    -- The call behind the flag that was raised: a failure puts the flag down again.
    beside-raised :
        (node : Node V) (x : Result SystemdError Unit × V)
        → node.daemon_reload_done ≡ false
        → Within node
        → Ends
            (λ _ v'. reloads v' ≡ reloads node.outside + 1)
            (λ e v'. reloads v' ≡ reloads node.outside)
            x
        → Ends
            (λ _. Within)
            (λ e node'. reloads node'.outside + 1 ≤ bound)
            (kept_beside (raise_flag node) x)
    beside-raised node (ok a, v) down h kept =
        let room : reloads node.outside + 1 ≤ bound = rw down at h in
        record { holds = omega (arith, kept.holds, room) }
    beside-raised node (err e, v) down h kept =
        let room : reloads node.outside + 1 ≤ bound = rw down at h in
        record { holds = omega (arith, kept.holds, room) }

    -- `needs_daemon_reload` leaves the flag down and the count.
    abbrev Down : Node V → Type 0
    Down node = (node.daemon_reload_done ≡ false) × Within node

    beside-Down :
        {E A : Type 0} (node : Node V) (x : Result E A × V)
        → Down node
        → Keeps (λ v'. reloads v' ≡ reloads node.outside) x
        → Keeps Down (kept_beside node x)
    beside-Down node (ok a, v) h kept = record { holds = (h.0, omega (arith, h.1, kept.holds)) }
    beside-Down node (err e, v) h kept = record { holds = (h.0, omega (arith, h.1, kept.holds)) }

    reload_if-Within :
        (needed : Bool) (node : Node V) → Down node → Keeps Within (reload_if systemd needed node)
    reload_if-Within false node h = record { holds = h.1 }
    reload_if-Within true node h =
        match_result-Ends _ _ (beside-raised node _ h.0 h.1 (counted.counts node.outside))
          (λ _ node1 h1. record { holds = h1 }) (λ e node1 h1. record { holds = h1 })

    reload_unless-Within :
        (spec : ServiceSpec) (done : Bool) (node : Node V)
        → node.daemon_reload_done ≡ done
        → Within node
        → Keeps Within (reload_unless systemd spec done node)
    reload_unless-Within spec true node up h = record { holds = h }
    reload_unless-Within spec false node down h =
        bind-Ends _
          (Ends-weaken {bad = λ e. Down} (λ a s k. k) (λ e s k. k.1)
            (map_err-Ends _ _
              (beside-Down node _ (down, h) (counted.asks_reload spec.name node.outside))))
          reload_if-Within

    ensure_reloaded-Within :
        (spec : ServiceSpec) (node : Node V)
        → Within node
        → Keeps Within (ensure_reloaded systemd spec node)
    unfolding ensure_reloaded
    ensure_reloaded-Within spec node h =
        reload_unless-Within spec node.daemon_reload_done node refl h

    converge-Within :
        {P : Type 0} (changed : List Text) (r : Resource P) (spec : ServiceSpec) (node : Node V)
        → Within node
        → Keeps Within (converge systemd tools changed r spec node)
    unfolding converge
    converge-Within changed r spec node h =
        let kept = IsKept-Within in
        bind-Ends _ (ensure_reloaded-Within spec node h) (λ _ node1 h1.
          bind-Ends _ (ensure_enabled-Keeps kept spec node1 h1) (λ _ node2 h2.
            bind-Ends _ (snapshot-Keeps kept spec node2 h2)
              (λ before. perform-Keeps kept (λ _ _ k. k) spec before _ _)))

    with_client-Within :
        {P : Type 0} (changed : List Text) (r : Resource P) (spec : Result Text ServiceSpec)
        → (node : Node V) → Within node
        → Keeps Within (with_client tools (some systemd) changed r spec node)
    with_client-Within changed r (err e) node h = record { holds = h }
    with_client-Within changed r (ok spec) node h = converge-Within changed r spec node h

    run-Within :
        {P J : Type 0} (from_value : P → Result Text ServiceSpec) (changed : List Text)
        → (r : Resource P) (diff : Diff J) (node : Node V) → Within node
        → Keeps Within (run from_value tools (some systemd) changed r diff node)
    unfolding run
    run-Within from_value changed r no_change node h = record { holds = h }
    run-Within from_value changed r (add _ _) node h =
        with_client-Within changed r (from_value r.payload) node h
    run-Within from_value changed r (update _ _ _) node h =
        with_client-Within changed r (from_value r.payload) node h

-- One service after another, as the orchestrator applies them: an error does not hinder the next one.
abbrev pub run_each :
    {V P J : Type 0}
    → (P → Result Text ServiceSpec)
    → Tools V
    → SystemdHandle V
    → List (List Text × (Resource P × Diff J))
    → Node V
    → Node V
run_each from_value tools systemd [] node = node
run_each from_value tools systemd ((changed, (r, diff)) ∷ rest) node =
    run_each from_value tools systemd rest
      (run from_value tools (some systemd) changed r diff node).1

module _ {V P J : Type 0} (reloads : V → ℕ) {systemd : SystemdHandle V} {tools : Tools V} where
  run_each-Within :
      (bound : ℕ) (from_value : P → Result Text ServiceSpec)
      → (services : List (List Text × (Resource P × Diff J))) (node : Node V)
      → IsCounted systemd tools reloads
      → Within reloads bound node
      → Within reloads bound (run_each from_value tools systemd services node)
  run_each-Within bound from_value [] node counted h = h
  run_each-Within bound from_value ((changed, (r, diff)) ∷ rest) node counted h =
      run_each-Within bound from_value rest _ counted
        (Keeps-state _ (run-Within reloads bound counted from_value changed r diff node h))

  -- If `reloads` counts the calls of `daemon_reload` that succeed, then applies of any number of services,
  -- whichever calls fail, reload the daemon at most once more where the flag is down at first, and not at
  -- all where it is up.
  pub run_each-reloads :
      (from_value : P → Result Text ServiceSpec)
      → (services : List (List Text × (Resource P × Diff J))) (node : Node V)
      → IsCounted systemd tools reloads
      → reloads (run_each from_value tools systemd services node).outside
        ≤ reloads node.outside + (if node.daemon_reload_done then 0 else 1)
  run_each-reloads from_value services node counted =
      let within =
        run_each-Within (budget reloads node) from_value services node counted (omega arith) in
      omega (arith, within)
