-- ===== src/ProcessSignal/Examples.antt =====
-- A deferred SIGHUP and one that is sent at once, and a child that never ends.
use bonsun.Base.{
  sym, ◌∙◌, ap, ℕ, ◌+◌, ◌≡◌, refl, ap, Bool, true, false, List, [], ◌∷◌, none, some, Text, codes,
  text_eq, text_le, any, contains, insert_text, sort_texts, arith,
}
use bonsun.Resource.{Resource}
use bonsun.Primitive.{PrimitiveError, Diff, add, deferred_with}
use bonsun.Defers.Format.{command, DeferPriority, DeferEntry, filename, sortkey, filename_slug}
use bonsun.Defers.Files.{lookup, unlink, quiet, syscall, read_clock}
use bonsun.Defers.Journal.{
  Serde, is_deferred, subsumes, enqueue, list_sorted, read_all, read_entry, walk, admit,
  drop_subsumed, write_entry, atomic_write, write_tmp, fsync_dir,
}
use bonsun.Service.{Node, Tools}
use bonsun.Service.Deferral.{Survives}
use bonsun.ProcessSignal.{
  ProcessSignalSpec, strip_prefix, normalize_signal, build_signal_argv, signal_entry, enqueue_defer,
  execute_sync, sent, run,
}
use bonsun.ProcessSignal.Apply.{Signals, signal_run-Signals}
use bonsun.ProcessSignal.Runner.{Children, runner_run, IsTimed, Returns, runner_run-Returns}
use bonsun.Effects.{Result, ok, err, Act, ◌>>=◌, match_result, map_err}

-- The commands that ran.
abbrev World : Type 0
World = List (List Text)

abbrev runner : List Text → Act World Text Unit
runner argv ran = (ok tt, argv ∷ ran)

abbrev debug : Text → Text
debug s = s

abbrev hup : Bool → ProcessSignalSpec
hup deferred = record {
  name = codes "reload";
  signal = codes "SIGHUP";
  process_name = some (codes "pg_doorman");
  process_user = none;
  deferred = deferred;
}

abbrev hup_argv : List Text
hup_argv = codes "pkill" ∷ codes "--signal" ∷ codes "HUP" ∷ codes "pg_doorman" ∷ []

abbrev hup_entry : DeferEntry
hup_entry = record {
  spec_version = 1;
  id = codes "process.signal:reload";
  action = command hup_argv;
  init_system = [];
  target = codes "reload";
  validate_cmd = none;
  health_check = none;
  priority = DeferPriority.command;
  enqueued_at = 0;
  enqueued_by = [];
  attempt_count = 0;
  max_attempts = 3;
}

-- The one entry is written as one byte.
abbrev one_entry : Serde
one_entry = record { to_json = λ e. codes "e"; from_json = λ s. ok hup_entry }

abbrev tools : Tools World
tools = record {
  validator = λ argv v. (ok tt, v);
  health_check_runner = λ check v. (ok tt, v);
  utc_now = λ v. 0;
  json = one_entry;
  root = codes "/var/lib/bosun/defers";
  display_health = λ e. [];
  display_defer = λ e. [];
}

abbrev signal : Resource Text
signal = record {
  id = codes "process.signal:reload";
  kind = codes "process.signal";
  spec_version = 1;
  payload = [];
  reload_on = [];
  restart_on = [];
  depends_on = [];
}

abbrev any_diff : Diff Text
any_diff = add [] []

abbrev node : Node World
node = record { defers = quiet [] []; daemon_reload_done = false; outside = [] }

abbrev from_value : Bool → Text → Result Text ProcessSignalSpec
from_value deferred payload = ok (hup deferred)

hup_built : build_signal_argv debug (hup true) ≡ ok hup_argv
unfolding build_signal_argv normalize_signal strip_prefix contains any text_eq
hup_built = refl

abbrev or_empty : Result PrimitiveError (List Text) → List Text
or_empty (ok argv) = argv
or_empty (err e) = []

hup-Survives :
    (argv : List Text)
    → build_signal_argv debug (hup true) ≡ ok argv
    → Survives tools (signal_entry debug tools runner (hup true) argv [])
hup-Survives argv h =
    ap (λ a. ok (signal_entry debug tools runner (hup true) a [])) (ap or_empty (sym hup_built ∙ h))

abbrev waiting : Node World
waiting = record {
  defers = quiet ((filename hup_entry, codes "e\n") ∷ []) [];
  daemon_reload_done = false;
  outside = [];
}

deferred_run :
    run debug tools runner (from_value true) signal any_diff node
    ≡ (ok (deferred_with (codes "queued SIGHUP signal for by-name=pg_doorman")), waiting)
unfolding run build_signal_argv normalize_signal strip_prefix enqueue_defer any contains text_eq
    ◌>>=◌ match_result map_err enqueue list_sorted read_all read_entry walk admit drop_subsumed
    write_entry atomic_write write_tmp fsync_dir syscall read_clock lookup unlink is_deferred
    subsumes text_le insert_text sort_texts filename sortkey filename_slug
deferred_run = refl

sent_run : run debug tools runner (from_value false) signal any_diff node ≡ (
  ok (sent debug tools runner (hup false)),
  record { defers = quiet [] []; daemon_reload_done = false; outside = hup_argv ∷ [] },
)
unfolding run build_signal_argv normalize_signal strip_prefix execute_sync any contains text_eq
    ◌>>=◌ map_err
sent_run = refl

signal_run-Signals_example :
    Signals debug tools runner
      (hup true)
      node
      (deferred_with (codes "queued SIGHUP signal for by-name=pg_doorman"))
      waiting
signal_run-Signals_example =
    signal_run-Signals debug tools runner (hup true) (from_value true) signal any_diff [] [] node
      waiting (deferred_with (codes "queued SIGHUP signal for by-name=pg_doorman")) refl refl refl
      hup-Survives deferred_run

-- The world is the time.
abbrev stuck : Children ℕ
stuck = record {
  spawn = λ argv t. (ok tt, t);
  try_wait = λ t. (ok none, t);
  kill = λ t. t;
  wait = λ t. t;
  now = λ t. (t, t);
  sleep = λ d t. t + d;
}

stuck-IsTimed : IsTimed stuck (λ t. t)
stuck-IsTimed = record {
  reads = λ t. (ground arith, ground arith);
  asks = λ t. ground arith;
  sleeps = λ d t. ground arith;
}

runner_run-Returns_example : Returns (runner_run stuck hup_argv 7)
runner_run-Returns_example = runner_run-Returns stuck (λ t. t) stuck-IsTimed hup_argv 7
