-- ===== src/Service/Runr/Examples.antt =====
-- A service under a supervisor that does what it is asked to do, and a start that takes some time.
use bonsun.Base.{
  ℕ, ◌+◌, ◌≡◌, refl, Bool, true, false, map, List, [], ◌∷◌, none, some, Text, codes, text_eq,
  text_eq_refl, inl, inr, Bool-cases, any, contains, leb, if◌then◌else◌,
}
use bonsun.Resource.{Resource}
use bonsun.Primitive.{Diff, add, changed_with}
use bonsun.Defers.Files.{quiet}
use bonsun.Service.{running, ServiceSpec, Node, Tools, check_by}
use bonsun.Service.Reached.{wants_active}
use bonsun.Service.Systemd.{UnitInfo, decide_action_systemd}
use bonsun.Service.Runr.{
  RunrError, ServiceStatus, RunrHandle, running_state, status_of, is_running, decide_action_runr,
  reloaded, ensure_reloaded, execute_start, perform, converge, run,
}
use bonsun.Service.Runr.Poll.{Poller, judge_start, poll_loop, verify_start}
use bonsun.Service.Runr.Converge.{IsSupervisor, decide_action_runr-systemd, runr_run-converges}
use bonsun.Effects.{Result, ok, err, ◌>>=◌, match_result, map_err}

abbrev status : (state name : Text) → ServiceStatus
status state name = record { name = name; state = state; pid = none; restarts = 0 }

-- The world is the list of the services that run.
abbrev statuses : List Text → List ServiceStatus
statuses = map (status running_state)

abbrev without : Text → List Text → List Text
without name [] = []
without name (n ∷ ns) = if text_eq n name then without name ns else n ∷ without name ns

abbrev supervisor : RunrHandle (List Text)
supervisor = record {
  base_url = codes "http://127.0.0.1:8080";
  daemon_reload = λ up. (ok tt, up);
  service_start = λ name up. (ok tt, up);
  service_stop = λ name up. (ok tt, without name up);
  service_statuses = λ up. (ok (statuses up), up);
  verify_start = λ name up. (ok (status running_state name), name ∷ up);
}

abbrev web : ServiceSpec
web = record {
  name = codes "web";
  state = running;
  enable = false;
  health_check = none;
  validate_with = none;
}

abbrev tools : Tools (List Text)
tools = record {
  validator = λ argv up. (ok tt, up);
  health_check_runner = λ check up. (ok tt, up);
  utc_now = λ up. 0;
  json = record { to_json = λ e. []; from_json = λ bytes. err [] };
  root = [];
  display_health = λ e. [];
  display_defer = λ e. [];
}

abbrev runs : Text → List Text → Bool
runs name up = is_running (status_of name (statuses up))

runs-verified : (name : Text) (up : List Text) → runs name (name ∷ up) ≡ true
unfolding status_of
runs-verified name up = rw (text_eq_refl name) (text_eq_refl running_state)

runs-without : (name : Text) (up : List Text) → runs name (without name up) ≡ false
unfolding status_of
runs-without name [] = refl
runs-without name (n ∷ up) = elim (Bool-cases (text_eq n name)) [
  | inl same ↦ rw same (runs-without name up)
  | inr other ↦ rw (other, other) (runs-without name up)
]

supervisor-IsSupervisor : IsSupervisor supervisor tools runs
supervisor-IsSupervisor = record {
  verifies = λ n up. record { holds = runs-verified n up };
  stops = λ n up. record { holds = runs-without n up };
  tells = λ up. record { holds = λ n. refl };
  stays_valid = λ argv n up. record { holds = refl };
  stays_checked = λ check n up. record { holds = refl };
}

abbrev service : Resource Text
service = record {
  id = codes "runr.service:web";
  kind = codes "runr.service";
  spec_version = 1;
  payload = [];
  reload_on = [];
  restart_on = [];
  depends_on = [];
}

abbrev from_value : Text → Result Text ServiceSpec
from_value payload = ok web

abbrev display_runr : RunrError → Text
display_runr e = []

abbrev any_diff : Diff Text
any_diff = add [] []

abbrev node : List Text → Node (List Text)
node up = record { defers = quiet [] []; daemon_reload_done = false; outside = up }

started_run : run display_runr from_value tools (some supervisor) [] service any_diff (node []) ≡ (
  ok (changed_with (codes "started runr.service:web")),
  record { defers = quiet [] []; daemon_reload_done = true; outside = codes "web" ∷ [] },
)
unfolding run converge ensure_reloaded reloaded perform execute_start decide_action_runr status_of
    check_by any contains text_eq ◌>>=◌ match_result map_err
started_run = refl

runr_run-converges_example : runs (codes "web") (codes "web" ∷ []) ≡ wants_active running
runr_run-converges_example =
    runr_run-converges supervisor-IsSupervisor display_runr from_value [] service any_diff (node [])
      _ web _ refl refl started_run

abbrev active : UnitInfo
active = record { active_state = codes "active"; invocation_id = [] }

decide_action_runr-systemd_example :
    decide_action_runr web (some (status running_state (codes "web"))) true false
    ≡ decide_action_systemd web (some active) true false
unfolding text_eq
decide_action_runr-systemd_example =
    decide_action_runr-systemd web (some (status running_state (codes "web"))) (some active) true
      false refl

-- A daemon whose service runs from the third unit of time on, and a clock that moves with the pauses.
abbrev slow : Poller ℕ
slow = record {
  service_statuses = λ t.
      (ok (status (if leb 3 t then running_state else codes "Starting") (codes "web") ∷ []), t);
  now = λ t. (t, t);
  sleep = λ d t. t + d;
}

verified_run :
    verify_start slow (codes "web") 1 5 0 ≡ some (ok (status running_state (codes "web")), 3)
unfolding verify_start poll_loop judge_start status_of text_eq
verified_run = refl
