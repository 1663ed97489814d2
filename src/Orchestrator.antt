-- ===== src/Orchestrator.antt =====
-- bosun-core/src/orchestrator.rs: `plan_only` and `apply` over the topological order.
mod Branches
mod Steps
mod Visits
mod Runs
mod Report
mod Idle
mod Applied
mod Paced
pub mod Planning
mod Examples
pub use Branches.{
  Outcome, unchanged, changed, failed, skipped, deferred, interrupted, ResourceApplyOutcome,
  ApplySummary, empty_summary, Loop, unknown_kind, entry_of,
}
unfoldable pub use Branches.{
  panic_message, call_primitive, find_failed, interrupt, fail, skip_aborted, skip_dependent,
  keep_unchanged, defer, change,
}
use bonsun.Base.{
  ℕ, zero, suc, ◌+◌, Bool, true, false, ◌&&◌, ◌||◌, not, List, [], ◌∷◌, ◌++◌, Option, none, some,
  Text, text_eq, codes, contains, length, ltb, ◌==◌, if◌then◌else◌,
}
use bonsun.Resource.{Resource}
use bonsun.Pacer.{PacerConfig, interval_for}
use bonsun.Registry
use bonsun.Registry.{Registry, get, topological_order}
use bonsun.Primitive.{
  PrimitiveError, cancelled, panic, is_deferrable, Result, ok, err, Diff, no_change, add, update,
  ChangeReport, Payload, static_str, owned_string, non_string, Call, returned, panicked, ApplyCtx,
  record_changed, Primitive,
}

-- What the orchestrator is given: `primitives`, the callback `mark_dirty`, `cancellable_sleep` of
-- health_check.rs, and the `Display` of an error, which the crate thiserror derives.
pub record Backend (P J W : Type 0) : Type 0 where
  pub primitives : Text → Option (Primitive P J W)
  pub mark_dirty : Text → W → W
  pub sleep : ℕ → W → Bool × W
  pub display : PrimitiveError → Text

pub record ApplyOpts : Type 0 where
  pub continue_on_error : Bool
  pub pacer : PacerConfig

module _ {P J W : Type 0} (backend : Backend P J W) (reg : Registry P) (opts : ApplyOpts) where
  abbrev with_ctx : ApplyCtx W → Loop W → Loop W
  with_ctx ctx s = record s { ctx = ctx }

  abbrev with_world : W → Loop W → Loop W
  with_world w s = record s { ctx = record (s.ctx) { world = w } }

  -- `registry.get(&id).map(|r| r.kind.clone()).unwrap_or_else(..)`
  pub kind_of : Text → Text
  kind_of id = elim (get reg id) [ none ↦ unknown_kind | some r ↦ r.kind ]

  -- `match apply_result`
  pub after_apply : Text → Text → Result ChangeReport → Loop W → Loop W
  after_apply id kind (ok report) s =
      if report.deferred
      then defer id kind report.message s
      else if report.changed
      then change id kind report.message s
      else keep_unchanged id kind report.message s
  after_apply id kind (err cancelled) s =
      interrupt id kind (codes "apply cancelled by deadline or signal") s
  after_apply id kind (err e) s =
      if is_deferrable e
      then defer id kind (backend.display e) s
      else fail id kind opts.continue_on_error (backend.display e) (backend.display e) s

  -- Steps 3 and 4
  pub run_apply : Primitive P J W → Resource P → Text → Diff J → Loop W → Loop W
  run_apply primitive r id diff s =
      let dirty : ApplyCtx W = record (s.ctx) { world = backend.mark_dirty r.kind s.ctx.world } in
      let (call, ctx) = primitive.apply r diff dirty in
      after_apply id r.kind (call_primitive (codes "apply " ++ r.id) call) (with_ctx ctx s)

  -- `match plan_result` and step 2
  pub after_plan : Primitive P J W → Resource P → Text → Result (Diff J) → Loop W → Loop W
  after_plan primitive r id (ok no_change) s = keep_unchanged id r.kind [] s
  after_plan primitive r id (ok diff) s = run_apply primitive r id diff s
  after_plan primitive r id (err cancelled) s =
      interrupt id r.kind (codes "plan cancelled by deadline or signal") s
  after_plan primitive r id (err e) s =
      let message = codes "plan failed: " ++ backend.display e in
      fail id r.kind opts.continue_on_error message message s

  -- Step 1
  pub run_plan : Primitive P J W → Resource P → Text → Loop W → Loop W
  run_plan primitive r id s =
      let (call, w) = primitive.plan r s.ctx.world in
      after_plan primitive r id (call_primitive (codes "plan " ++ r.id) call) (with_world w s)

  pub with_primitive : Option (Primitive P J W) → Resource P → Text → Loop W → Loop W
  with_primitive none r id s =
      let message = codes "no primitive registered for kind '" ++ (r.kind ++ codes "'") in
      fail id r.kind opts.continue_on_error message message s
  with_primitive (some primitive) r id s = run_plan primitive r id s

  pub after_dependencies : Option Text → Resource P → Text → Loop W → Loop W
  after_dependencies (some dep) r id s = skip_dependent id r.kind dep s
  after_dependencies none r id s = with_primitive (backend.primitives r.kind) r id s

  pub process : Option (Resource P) → Text → Loop W → Loop W
  process none id s =
      fail id unknown_kind opts.continue_on_error
        (codes "resource missing from registry during topo iteration") [] s
  process (some r) id s =
      after_dependencies (find_failed s.failed_or_interrupted r.depends_on) r id s

  pub unless_aborted : Text → Loop W → Loop W
  unless_aborted id s =
      if s.aborted then skip_aborted id (kind_of id) s else process (get reg id) id s

  pub after_sleep : Bool → Text → Loop W → Loop W
  after_sleep true id s = unless_aborted id s
  after_sleep false id s = interrupt id (kind_of id) (codes "apply cancelled during pacer sleep") s

  pub pause : (interval : ℕ) → Text → Loop W → Loop W
  pause interval id s =
      let (slept, w) = backend.sleep interval s.ctx.world in after_sleep slept id (with_world w s)

  -- One iteration. `idx` is the number of the resource.
  pub visit : (interval idx : ℕ) → Text → Loop W → Loop W
  visit interval idx id s =
      if ltb 0 idx && (not (interval == 0) && not s.aborted)
      then pause interval id s
      else unless_aborted id s

  pub visit_all : (interval idx : ℕ) → List Text → Loop W → Loop W
  visit_all interval idx [] s = s
  visit_all interval idx (id ∷ order) s =
      visit_all interval (suc idx) order (visit interval idx id s)

  abbrev pub initial : ApplyCtx W → Loop W
  initial ctx = record {
    ctx = ctx;
    resources = [];
    summary = empty_summary;
    aborted = false;
    failed_or_interrupted = [];
  }

  -- The loop of `Orchestrator::apply` over the order that `topological_order` returned.
  pub apply_in : List Text → ApplyCtx W → Loop W
  apply_in order ctx = visit_all (interval_for opts.pacer (length order)) 0 order (initial ctx)

  -- `Orchestrator::apply`: an error of the registry is returned before any resource is visited.
  pub apply : (List Text → List Text) → ApplyCtx W → Option (Registry.Result (Loop W))
  apply iter ctx = elim (topological_order iter reg) [
    | none ↦ none
    | some (Registry.err e) ↦ some (Registry.err e)
    | some (Registry.ok order) ↦ some (Registry.ok (apply_in order ctx))
  ]

-- `ApplyReport::has_failures`
unfoldable pub has_failures : {W : Type 0} → Loop W → Bool
has_failures report = ltb 0 report.summary.failed

-- `ApplyReport::has_interruptions`
unfoldable pub has_interruptions : {W : Type 0} → Loop W → Bool
has_interruptions report = ltb 0 report.summary.interrupted
