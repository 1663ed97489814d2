-- ===== src/AptPackage/Examples.antt =====
-- A node whose package lists are out of date, an install on it, and a removal.
use bonsun.Base.{
  inl, ℕ, ◌+◌, ◌≤◌, ◌≡◌, refl, Bool, true, false, List, [], ◌∷◌, none, some, Text, text_eq, codes,
  if◌then◌else◌, arith,
}
use bonsun.Resource.{Resource}
use bonsun.Primitive.{pos, PrimitiveError, Diff, add, changed_with}
use bonsun.AptPackage.{
  exited_with, AptPackageState, present, absent, AptPackageSpec, CommandResult,
  analyze_install_result,
}
use bonsun.AptPackage.Texts.{has_text}
use bonsun.AptPackage.Recovery.{Apt, update_rounds}
use bonsun.AptPackage.Apply.{
  action_word, probe_dpkg_lock, write_log, check_cancel_or_deadline, recover_then_retry,
  after_install, run_install, query_dpkg_status, run_remove, converge, run,
}
use bonsun.AptPackage.Calls.{IsCounted, apt_run-calls}
use bonsun.AptPackage.Converge.{Gone, Settled, IsDpkg, apt_run-settles}
use bonsun.Effects.{Ends, Result, ok, ◌>>=◌, match_result, map_err}

-- Whether the package is installed, whether the lists are up to date, and the number of commands.
abbrev World : Type 0
World = Bool × (Bool × ℕ)

abbrev word : Bool → Text
word b = if b then codes "installed" else codes "not-installed"

abbrev status : Text → World → Text
status name (there, rest) = word there

abbrev quietly : Text → CommandResult
quietly out = record { exit_code = some (pos 0); stdout = out; stderr = [] }

abbrev install : World → Result PrimitiveError CommandResult × World
install (there, (true, n)) = (ok (quietly []), (true, (true, n)))
install (there, (false, n)) = (
  ok (record {
    exit_code = some (pos 100);
    stdout = [];
    stderr = codes "E: Unable to locate package nginx";
  }),
  (there, (false, n)),
)

abbrev step : Text → World → Result PrimitiveError CommandResult × World
step verb (there, (fresh, n)) =
    if text_eq verb (codes "install")
    then install (there, (fresh, n))
    else if text_eq verb (codes "update")
    then (ok (quietly []), (there, (true, n)))
    else if text_eq verb (codes "-W")
    then (ok (quietly (word there)), (there, (fresh, n)))
    else (ok (quietly []), (false, (fresh, n)))

abbrev verb_of : List Text → Text
verb_of [] = []
verb_of (verb ∷ args) = verb

abbrev one_more : World → World
one_more (there, (fresh, n)) = (there, (fresh, n + 1))

abbrev apt : Apt World
apt = record {
  command = λ cmd args d w. step (verb_of args) (one_more w);
  now = λ w. (0, w);
  is_cancelled = λ w. (false, w);
  sleep = λ d w. w;
  jitter = λ base pct w. (base, w);
  log_dir_exists = λ w. (true, w);
  create_log_dir = λ w. (ok tt, w);
  write_file = λ name contents w. (ok tt, w);
  open_lock = λ w. (ok tt, w);
  get_lock = λ w. (ok (true, pos 0), w);
  trim = λ s. s;
}

abbrev nginx : AptPackageState → AptPackageSpec
nginx state = record {
  name = codes "nginx";
  version = none;
  state = state;
  timeout_sec = 600;
  allow_downgrade = true;
  allow_change_held = true;
}

abbrev web_server : Resource Text
web_server = record {
  id = codes "apt.package:nginx";
  kind = codes "apt.package";
  spec_version = 1;
  payload = [];
  reload_on = [];
  restart_on = [];
  depends_on = [];
}

abbrev any_diff : Diff Text
any_diff = add [] []

abbrev from_value : AptPackageState → Text → Result Text AptPackageSpec
from_value state payload = ok (nginx state)

-- An install that fails, an update, and an install that does not.
recovered_run :
    run apt 900 [] (from_value present) web_server any_diff (false, (false, 0))
    ≡ (ok (changed_with (codes "installed nginx")), (true, (true, 3)))
unfolding run converge run_install after_install recover_then_retry write_log
    check_cancel_or_deadline update_rounds probe_dpkg_lock analyze_install_result has_text text_eq
    ◌>>=◌ match_result map_err
recovered_run = refl

removed_run :
    run apt 900 [] (from_value absent) web_server any_diff (true, (false, 0))
    ≡ (ok (changed_with (codes "removed nginx")), (false, (false, 2)))
unfolding run converge run_remove query_dpkg_status check_cancel_or_deadline probe_dpkg_lock text_eq
    ◌>>=◌ map_err
removed_run = refl

install_leads :
    (name : Text) (w : World)
    → Ends
        (λ r w'. exited_with 0 r.exit_code ≡ true → status name w' ≡ codes "installed")
        (λ e w'. Unit)
        (install w)
install_leads name (there, (true, n)) = record { holds = λ good. refl }
install_leads name (there, (false, n)) = record { holds = λ good. absurd cc }

remove_leads :
    (name : Text) (purge : Bool) (w : World)
    → Ends
        (λ r w'. exited_with 0 r.exit_code ≡ true → Gone purge (status name w'))
        (λ e w'. Unit)
        (step (action_word purge) w)
unfolding text_eq
remove_leads name true w = record { holds = λ good. refl }
remove_leads name false w = record { holds = λ good. inl refl }

apt-IsDpkg : IsDpkg apt status
unfolding text_eq
apt-IsDpkg = record {
  installs = λ spec d w. install_leads spec.name (one_more w);
  removes = λ spec purge d w. remove_leads spec.name purge (one_more w);
  prints = λ name d w. record { holds = λ good. refl };
  fails = λ name d w. record { holds = λ bad. absurd cc };
  looks = λ name w. refl;
  creates = λ name w. refl;
  writes = λ name file contents w. refl;
}

counted_install : (w : World) → (install w).1.1.1 ≡ w.1.1
counted_install (there, (true, n)) = refl
counted_install (there, (false, n)) = refl

counted : (verb : Text) (w : World) → (step verb w).1.1.1 ≡ w.1.1
counted verb (there, (fresh, n)) = ground (arith, counted_install (there, (fresh, n)))

apt-IsCounted : IsCounted apt (λ w. w.1.1)
apt-IsCounted = record {
  commands = λ cmd args d w. omega (arith, counted (verb_of args) (one_more w));
  reads = λ w. ground arith;
  asks = λ w. ground arith;
  sleeps = λ d w. ground arith;
  draws = λ base pct w. ground arith;
  looks = λ w. ground arith;
  creates = λ w. ground arith;
  writes = λ name contents w. ground arith;
  opens = λ w. ground arith;
  locks = λ w. ground arith;
}

apt_run-settles_example : Settled present (status (codes "nginx") (true, (true, 3)))
apt_run-settles_example =
    apt_run-settles apt status apt-IsDpkg (nginx present) 900 [] (from_value present) web_server
      any_diff (false, (false, 0)) (true, (true, 3)) (changed_with (codes "installed nginx")) refl
      refl recovered_run

apt_run-calls_example :
    (run apt 900 [] (from_value present) web_server any_diff (false, (false, 0))).1.1.1 ≤ 0 + 5
apt_run-calls_example =
    apt_run-calls (λ w. w.1.1) apt apt-IsCounted 900 [] (from_value present) web_server any_diff
      (false, (false, 0))
