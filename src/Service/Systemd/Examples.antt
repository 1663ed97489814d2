-- ===== src/Service/Systemd/Examples.antt =====
-- One unit under a manager that does what it is asked to do, and applies of its service.
use bonsun.Base.{
  ℕ, zero, suc, ◌+◌, ◌≤◌, ◌≡◌, refl, Bool, true, false, List, [], ◌∷◌, ◌++◌, none, some, map,
  append_assoc, Text, codes, text_eq, text_le, any, contains, insert_text, sort_texts,
}
use bonsun.Resource.{Resource}
use bonsun.Primitive.{Diff, add, changed_with, deferred_with}
use bonsun.Defers.Format.{
  DeferAction, DeferPriority, DeferEntry, filename, sortkey, make_id, filename_slug,
}
use bonsun.Defers.Files.{lookup, unlink, quiet, syscall, read_clock}
use bonsun.Defers.Journal.{
  Serde, is_deferred, subsumes, enqueue, list_sorted, read_all, read_entry, walk, admit,
  drop_subsumed, write_entry, atomic_write, write_tmp, fsync_dir,
}
use bonsun.Service.{
  triggered, running, ServiceSpec, Node, Tools, dedup_from, collect_notify_sources, validate_by,
  check_by, enqueue_defer,
}
use bonsun.Service.Deferral.{is_defer_io, RoundTrips}
use bonsun.Service.Systemd.{
  UnitInfo, SystemdHandle, decide_action_systemd, verify_invocation_change, ensure_reloaded,
  ensure_enabled, snapshot, execute_start, perform, converge, run,
}
use bonsun.Service.Reached.{wants_active}
use bonsun.Service.Systemd.Throttle.{IsCounted, run_each, run_each-reloads}
use bonsun.Service.Systemd.Converge.{IsManager, run-converges}
use bonsun.Service.Systemd.Untouched.{run-undeferred}
use bonsun.Service.Systemd.Deferral.{Pending, run-deferred}
use bonsun.Effects.{Result, ok, err, Ends, ◌>>=◌, match_result, map_err}

-- Whether the unit is active, and how often the daemon was reloaded.
abbrev World : Type 0
World = Bool × ℕ

abbrev info : Bool → UnitInfo
info true = record { active_state = codes "active"; invocation_id = codes "7f" }
info false = record { active_state = codes "inactive"; invocation_id = [] }

abbrev manager : SystemdHandle World
manager = record {
  daemon_reload = λ (up, n). (ok tt, (up, n + 1));
  needs_daemon_reload = λ name v. (ok true, v);
  start_unit = λ name (up, n). (ok tt, (true, n));
  stop_unit = λ name (up, n). (ok tt, (false, n));
  enable_unit = λ name v. (ok tt, v);
  is_unit_enabled = λ name v. (ok false, v);
  unit_info = λ name (up, n). (ok (info up), (up, n));
}

abbrev nginx : ServiceSpec
nginx = record {
  name = codes "nginx";
  state = running;
  enable = true;
  health_check = none;
  validate_with = some (codes "true" ∷ []);
}

-- Texts one behind the other, each of them ended by a zero.
abbrev write_texts : List Text → Text
write_texts [] = []
write_texts (x ∷ xs) = map suc x ++ (0 ∷ write_texts xs)

abbrev push : ℕ → List Text → List Text
push c [] = (c ∷ []) ∷ []
push c (x ∷ xs) = (c ∷ x) ∷ xs

abbrev read_texts : Text → List Text
read_texts [] = []
read_texts (zero ∷ s) = [] ∷ read_texts s
read_texts (suc c ∷ s) = push c (read_texts s)

abbrev but_last : List Text → List Text
but_last [] = []
but_last (x ∷ []) = []
but_last (x ∷ y ∷ rest) = x ∷ but_last (y ∷ rest)

read_one : (x s : Text) → read_texts (map suc x ++ (0 ∷ s)) ≡ x ∷ read_texts s
read_one [] s = refl
read_one (c ∷ x) s = rw (read_one x s)

read_written : (xs : List Text) (s : Text) → read_texts (write_texts xs ++ s) ≡ xs ++ read_texts s
read_written [] s = refl
read_written (x ∷ xs) s = rw (
  append_assoc (map suc x) (0 ∷ write_texts xs) s,
  read_one x (write_texts xs ++ s),
  read_written xs s,
)

but_last-append : (xs : List Text) (y : Text) → but_last (xs ++ (y ∷ [])) ≡ xs
but_last-append [] y = refl
but_last-append (x ∷ []) y = refl
but_last-append (x ∷ z ∷ xs) y = rw (but_last-append (z ∷ xs) y)

survives : (xs : List Text) → but_last (read_texts (write_texts xs ++ codes "\n")) ≡ xs
survives xs = rw (read_written xs (codes "\n")) (but_last-append xs (9 ∷ []))

-- The entries of the unit, as `enqueue_defer` makes them.
abbrev entry_of : DeferAction → DeferPriority → List Text → DeferEntry
entry_of action priority sources = record {
  spec_version = 1;
  id = make_id (codes "systemd") action (codes "nginx");
  action = action;
  init_system = codes "systemd";
  target = codes "nginx";
  validate_cmd = some (codes "true" ∷ []);
  health_check = none;
  priority = priority;
  enqueued_at = 0;
  enqueued_by = sources;
  attempt_count = 0;
  max_attempts = 3;
}

-- The restarts and the reloads of the unit, written as their sources behind a tag.
abbrev tag : DeferAction → ℕ
tag DeferAction.restart = 0
tag _ = 1

abbrev read_entry_of : Text → Result Text DeferEntry
read_entry_of [] = err (codes "empty")
read_entry_of (zero ∷ s) =
    ok (entry_of DeferAction.restart DeferPriority.restart (but_last (read_texts s)))
read_entry_of (suc _ ∷ s) =
    ok (entry_of DeferAction.reload DeferPriority.reload (but_last (read_texts s)))

abbrev by_sources : Serde
by_sources = record {
  to_json = λ e. tag e.action ∷ write_texts e.enqueued_by;
  from_json = read_entry_of;
}

abbrev tools : Tools World
tools = record {
  validator = λ argv v. (ok tt, v);
  health_check_runner = λ check v. (ok tt, v);
  utc_now = λ v. 0;
  json = by_sources;
  root = codes "/var/lib/bosun/defers";
  display_health = λ e. [];
  display_defer = λ e. [];
}

tools-RoundTrips : RoundTrips tools (codes "systemd") nginx
tools-RoundTrips sources v = (rw (survives sources), rw (survives sources))

abbrev active : Text → World → Bool
active name (up, n) = up

told : (up : Bool) → up ≡ text_eq (info up).active_state (codes "active")
unfolding text_eq
told true = refl
told false = refl

manager-IsManager : IsManager manager tools active
manager-IsManager = record {
  starts = λ n v. record { holds = refl };
  stops = λ n v. record { holds = refl };
  tells = λ n v. record { holds = told v.0 };
  stays_told = λ m n v. record { holds = refl };
  stays_valid = λ argv n v. record { holds = refl };
  stays_checked = λ check n v. record { holds = refl };
}

manager-IsCounted : IsCounted manager tools (λ v. v.1)
manager-IsCounted = record {
  counts = λ v. record { holds = refl };
  asks_reload = λ n v. record { holds = refl };
  starts = λ n v. record { holds = refl };
  stops = λ n v. record { holds = refl };
  enables = λ n v. record { holds = refl };
  asks = λ n v. record { holds = refl };
  tells = λ n v. record { holds = refl };
  validates = λ argv v. record { holds = refl };
  checks = λ check v. record { holds = refl };
}

-- The service is notified by a file.
abbrev service : Resource Text
service = record {
  id = codes "systemd.service:nginx";
  kind = codes "systemd.service";
  spec_version = 1;
  payload = [];
  reload_on = [];
  restart_on = codes "f" ∷ [];
  depends_on = [];
}

abbrev any_diff : Diff Text
any_diff = add [] []

abbrev node : Bool → Node World
node up = record { defers = quiet [] []; daemon_reload_done = false; outside = (up, 0) }

abbrev from_value : Text → Result Text ServiceSpec
from_value payload = ok nginx

started_run : run from_value tools (some manager) [] service any_diff (node false) ≡ (
  ok (changed_with (codes "started systemd.service:nginx")),
  record { defers = quiet [] []; daemon_reload_done = true; outside = (true, 1) },
)
unfolding run converge ensure_reloaded ensure_enabled snapshot perform execute_start
    decide_action_systemd verify_invocation_change check_by any contains text_eq ◌>>=◌ match_result
    map_err
started_run = refl

run-converges_example : true ≡ wants_active running
run-converges_example =
    run-converges manager-IsManager from_value [] service any_diff (node false) _ nginx _ refl refl
      started_run

run_each-reloads_example :
    (run_each from_value tools manager
      (([], (service, any_diff)) ∷ ([], (service, any_diff)) ∷ [])
      (node false)).outside.1
    ≤ 0 + 1
run_each-reloads_example =
    run_each-reloads (λ v. v.1) from_value
      (([], (service, any_diff)) ∷ ([], (service, any_diff)) ∷ []) (node false) manager-IsCounted

run-undeferred_example :
    Ends
      (λ report node'. report.deferred ≡ false → node'.defers ≡ quiet [] [])
      (λ e node'. is_defer_io e ≡ false → node'.defers ≡ quiet [] [])
      (run from_value tools (some manager) [] service any_diff (node false))
run-undeferred_example =
    run-undeferred (quiet [] []) manager tools from_value [] service any_diff (node false) refl

abbrev restart_entry : DeferEntry
restart_entry = entry_of DeferAction.restart DeferPriority.restart (codes "f" ∷ [])

abbrev restarting : Node World
restarting = record {
  defers = quiet ((filename restart_entry, by_sources.to_json restart_entry ++ codes "\n") ∷ []) [];
  daemon_reload_done = true;
  outside = (true, 1);
}

deferred_run :
    run from_value tools (some manager) (codes "f" ∷ []) service any_diff (node true)
    ≡ (ok (deferred_with (codes "deferred restart of systemd.service:nginx")), restarting)
unfolding run converge ensure_reloaded ensure_enabled snapshot perform decide_action_systemd
    collect_notify_sources dedup_from validate_by enqueue_defer any contains text_eq ◌>>=◌
    match_result map_err enqueue list_sorted read_all read_entry walk admit drop_subsumed
    write_entry atomic_write write_tmp fsync_dir syscall read_clock lookup unlink is_deferred
    subsumes text_le insert_text sort_texts filename sortkey make_id filename_slug
deferred_run = refl

run-deferred_example :
    Pending manager tools [] []
      (triggered (codes "f" ∷ []) service.restart_on)
      (triggered (codes "f" ∷ []) service.reload_on)
      nginx
      restarting
run-deferred_example =
    run-deferred manager tools [] [] from_value (codes "f" ∷ []) service any_diff (node true)
      restarting nginx _ tools-RoundTrips refl refl deferred_run refl
