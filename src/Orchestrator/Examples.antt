-- ===== src/Orchestrator/Examples.antt =====
-- A backend in which one resource fails, and runs of the orchestrator over it.
use bonsun.Base.{
  ℕ, ◌+◌, ◌-◌, ◌*◌, ◌≤◌, ◌⊎◌, inr, sym, arith, ◌≡◌, refl, Bool, true, false, List, [], ◌∷◌, some,
  Text, codes, text_eq, contains, All, if◌then◌else◌,
}
use bonsun.Resource.{Resource}
use bonsun.Registry.{Registry, get, empty_registry, add}
use bonsun.Primitive.{
  Diff, Primitive, ok, is_deferrable, returned, panicked, Payload, ApplyCtx, record_changed,
}
use bonsun.Pacer.{interval_for}
use bonsun.Pacer.Bounds.{Fills}
use bonsun.Orchestrator.{
  failed, skipped, ResourceApplyOutcome, entry_of, Loop, Backend, ApplyOpts, call_primitive,
  panic_message, find_failed, kind_of, interrupt, fail, skip_aborted, skip_dependent,
  keep_unchanged, defer, change, after_apply, run_apply, after_plan, run_plan, with_primitive,
  after_dependencies, process, unless_aborted, after_sleep, pause, visit, visit_all, initial,
  apply_in, has_interruptions,
}
use bonsun.Orchestrator.Idle.{Idle}
use bonsun.Orchestrator.Runs.{holds_back}
use bonsun.Orchestrator.Applied.{
  behind, behind_next, apply_in-stopped, apply_in-blocked, apply_in-Counts, apply_in-entries,
}
use bonsun.Orchestrator.Paced.{IsMetered, apply_in-paced}
use bonsun.Orchestrator.Report.{entry_ids, Counts}

abbrev a : Text
a = codes "a"

abbrev b : Text
b = codes "b"

abbrev resource : Text → List Text → Resource ℕ
resource id depends_on = record {
  id = id;
  kind = codes "file.content";
  spec_version = 1;
  payload = 0;
  reload_on = [];
  restart_on = [];
  depends_on = depends_on;
}

-- `b` depends on `a`.
abbrev reg : Registry ℕ
reg = (add (add empty_registry (resource a [])).1 (resource b (a ∷ []))).1

-- The world is a log. The primitive panics on `a` and changes everything else.
primitive : Primitive ℕ ℕ (List Text)
primitive = record {
  plan = λ r w. (returned (ok (Diff.add (codes "create") 0)), w);
  apply = λ r d ctx.
      if text_eq r.id a then (panicked (Payload.static_str (codes "boom")), ctx) else (
        returned (ok (record { changed = true; message = codes "done"; deferred = false })),
        record ctx { world = r.id ∷ ctx.world },
      );
}

abbrev backend : Backend ℕ ℕ (List Text)
backend = record {
  primitives = λ k. some primitive;
  mark_dirty = λ k w. k ∷ w;
  sleep = λ t w. (true, w);
  display = λ e. codes "error";
}

abbrev opts : Bool → ApplyOpts
opts c = record {
  continue_on_error = c;
  pacer = record { target = 0; min_interval = 0; max_interval = 0 };
}

abbrev start : ApplyCtx (List Text)
start = record { changed_resources = []; world = [] }

program : Unit {0}
unfolding primitive add get text_eq contains record_changed call_primitive panic_message find_failed
    kind_of interrupt fail skip_aborted skip_dependent keep_unchanged defer change after_apply
    run_apply after_plan run_plan with_primitive after_dependencies process unless_aborted
    after_sleep pause visit visit_all apply_in interval_for is_deferrable has_interruptions
program = tt

abbrev failure : ResourceApplyOutcome
failure = entry_of a (codes "file.content") (failed (codes "error")) (codes "error")

abbrev held : ResourceApplyOutcome
held =
    entry_of b (codes "file.content") skipped
      (codes "skipped: transitive failure of dependency 'a'")

apply_in-continue :
    (apply_in backend reg (opts true) (a ∷ b ∷ []) start).resources ≡ failure ∷ held ∷ []
unfolding program
apply_in-continue = refl

abbrev aborted_skip : ResourceApplyOutcome
aborted_skip =
    entry_of b (codes "file.content") skipped (codes "skipped: aborted after earlier failure")

apply_in-abort :
    (apply_in backend reg (opts false) (a ∷ b ∷ []) start).resources ≡ failure ∷ aborted_skip ∷ []
unfolding program
apply_in-abort = refl

apply_in-entries_example :
    entry_ids (apply_in backend reg (opts true) (a ∷ b ∷ []) start).resources ≡ a ∷ b ∷ []
apply_in-entries_example = apply_in-entries backend reg (opts true) (a ∷ b ∷ []) start

apply_in-Counts_example :
    Counts
      (apply_in backend reg (opts true) (a ∷ b ∷ []) start).summary
      (apply_in backend reg (opts true) (a ∷ b ∷ []) start).resources
apply_in-Counts_example = apply_in-Counts backend reg (opts true) (a ∷ b ∷ []) start

apply_in-stopped_example :
    All (λ (e : ResourceApplyOutcome). e.outcome ≡ skipped) (aborted_skip ∷ [])
apply_in-stopped_example =
    apply_in-stopped backend reg (opts false) (a ∷ b ∷ []) start [] failure (aborted_skip ∷ [])
      apply_in-abort refl

get-b : get reg b ≡ some (resource b (a ∷ []))
unfolding program
get-b = refl

contains-a : contains (a ∷ []) a ≡ true
unfolding program
contains-a = refl

-- The loop behind the resource that fails, and behind the one that is held back.
abbrev failed_loop : Loop (List Text)
failed_loop = behind backend reg (opts true) (a ∷ b ∷ []) start (a ∷ [])

abbrev held_loop : Loop (List Text)
held_loop = behind_next backend reg (opts true) (a ∷ b ∷ []) start (a ∷ []) b

apply_in-blocked_example :
    (holds_back held.outcome ≡ true)
    × Idle backend reg (opts true) (interval_for (opts true).pacer 2) failed_loop held_loop
    × (apply_in backend reg (opts true) (a ∷ b ∷ []) start
        ≡ visit_all backend reg (opts true) (interval_for (opts true).pacer 2) 2 [] held_loop)
apply_in-blocked_example =
    apply_in-blocked backend reg (opts true) (a ∷ b ∷ []) start (failure ∷ []) held []
      (resource b (a ∷ [])) a apply_in-continue get-b contains-a (unfold text_eq in refl)

apply_in-quiet : has_interruptions (apply_in backend reg (opts true) (a ∷ b ∷ []) start) ≡ false
unfolding program
apply_in-quiet = refl

abbrev halted_loop : Loop (List Text)
halted_loop = record (initial backend reg (opts false) start) { aborted = true }

-- The world is the time that the pauses took, in nanoseconds. The primitive changes everything.
abbrev timeless : Primitive ℕ ℕ ℕ
timeless = record {
  plan = λ r w. (returned (ok (Diff.add (codes "create") 0)), w);
  apply = λ r d ctx.
      (returned (ok (record { changed = true; message = codes "done"; deferred = false })), ctx);
}

abbrev napping : Backend ℕ ℕ ℕ
napping = record {
  primitives = λ k. some timeless;
  mark_dirty = λ k w. w;
  sleep = λ t w. (true, w + t);
  display = λ e. codes "error";
}

planned_still :
    (p : Primitive ℕ ℕ ℕ) → some timeless ≡ some p → (r : Resource ℕ) (w : ℕ) → (p.plan r w).1 ≡ w
planned_still p same r w = let here : timeless ≡ p = cc in rw (sym here) refl

applied_still :
    (p : Primitive ℕ ℕ ℕ)
    → some timeless ≡ some p
    → (r : Resource ℕ) (d : Diff ℕ) (ctx : ApplyCtx ℕ) → (p.apply r d ctx).1.world ≡ ctx.world
applied_still p same r d ctx = let here : timeless ≡ p = cc in rw (sym here) refl

napping-IsMetered : IsMetered napping (λ w. w)
napping-IsMetered = record {
  sleeps = λ t w. (omega arith, inr refl);
  marks = λ kind w. refl;
  plans = λ kind p same r w. planned_still p same r w;
  applies = λ kind p same r d ctx. applied_still p same r d ctx;
}

-- 100 nanoseconds for two resources.
abbrev paced_opts : ApplyOpts
paced_opts = record {
  continue_on_error = false;
  pacer = record { target = 100; min_interval = 10; max_interval = 1000 };
}

abbrev midnight : ApplyCtx ℕ
midnight = record { changed_resources = []; world = 0 }

-- One pause between the two.
paced_run : (apply_in napping reg paced_opts (a ∷ b ∷ []) midnight).ctx.world ≡ 50
unfolding program
paced_run = refl

apply_in-paced_example :
    ((apply_in napping reg paced_opts (a ∷ b ∷ []) midnight).ctx.world
      ≤ 0 + (2 - 1) * interval_for (paced_opts.pacer) 2)
    × (((apply_in napping reg paced_opts (a ∷ b ∷ []) midnight).aborted ≡ true)
        ⊎ ((apply_in napping reg paced_opts (a ∷ b ∷ []) midnight).ctx.world
            ≡ 0 + (2 - 1) * interval_for (paced_opts.pacer) 2))
    × (Fills (paced_opts.pacer) 2 (interval_for (paced_opts.pacer) 2)
        ⊎ (interval_for (paced_opts.pacer) 2 ≡ 10))
apply_in-paced_example =
    apply_in-paced napping reg paced_opts (λ w. w) napping-IsMetered (a ∷ b ∷ []) midnight
      (omega arith) (omega arith)
