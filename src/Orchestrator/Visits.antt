-- ===== src/Orchestrator/Visits.antt =====
-- Every iteration of `Orchestrator::apply` is one step, on every branch
-- (bosun-core/src/orchestrator.rs).
use bonsun.Base.{
  ℕ, ◌≡◌, refl, Bool, true, false, ◌&&◌, not, Option, none, some, Text, if◌then◌else◌, ltb, ◌==◌,
}
use bonsun.Resource.{Resource}
use bonsun.Registry.{Registry, get}
use bonsun.Primitive.{PrimitiveError, is_deferrable, Result, ok, err, Diff, ChangeReport, Primitive}
use bonsun.Orchestrator
use bonsun.Orchestrator.{
  Loop, Backend, ApplyOpts, find_failed, after_apply, run_apply, after_plan, run_plan,
  with_primitive, after_dependencies, process, unless_aborted, after_sleep, pause, visit,
}
use bonsun.Orchestrator.Steps.{
  Step, Step-ctx, interrupt-Step, fail-Step, skip_aborted-Step, skip_dependent-Step,
  keep_unchanged-Step, defer-Step, change-Step,
}

Step-if :
    {W : Type 0} {c : Bool} {id : Text} {s : Loop W} (b : Bool) (x y : Loop W)
    → (b ≡ true → Step c id s x)
    → (b ≡ false → Step c id s y)
    → Step c id s (if b then x else y)
Step-if true x y hx hy = hx refl
Step-if false x y hx hy = hy refl

module _ {P J W : Type 0} (backend : Backend P J W) (reg : Registry P) (opts : ApplyOpts) where
  abbrev Steps : Text → Loop W → Loop W → Type 0
  Steps = Step opts.continue_on_error

  failure-Step :
      (id kind : Text) (e : PrimitiveError) (s : Loop W)
      → Steps id s (
          if is_deferrable e
          then Orchestrator.defer id kind (backend.display e) s
          else Orchestrator.fail id kind opts.continue_on_error
              (backend.display e)
              (backend.display e)
              s)
  failure-Step id kind e s =
      Step-if (is_deferrable e) _ _ (λ _. defer-Step _ id kind s _)
        (λ _. fail-Step opts.continue_on_error id kind s _ _)

  after_apply-Step :
      (id kind : Text) (r : Result ChangeReport) (s : Loop W)
      → Steps id s (after_apply backend reg opts id kind r s)
  unfolding after_apply
  after_apply-Step id kind (ok report) s =
      Step-if report.deferred _ _ (λ _. defer-Step _ id kind s _)
        λ _.
          Step-if report.changed _ _ (λ _. change-Step _ id kind s _)
            (λ _. keep_unchanged-Step _ id kind s _)
  after_apply-Step id kind (err PrimitiveError.cancelled) s = interrupt-Step _ id kind s _
  after_apply-Step id kind (err e) s = failure-Step id kind e s

  run_apply-Step :
      (p : Primitive P J W) (r : Resource P) (id : Text) (d : Diff J) (s : Loop W)
      → Steps id s (run_apply backend reg opts p r id d s)
  unfolding run_apply
  run_apply-Step p r id d s = Step-ctx _ (after_apply-Step id r.kind _ _)

  after_plan-Step :
      (p : Primitive P J W) (r : Resource P) (id : Text) (d : Result (Diff J)) (s : Loop W)
      → Steps id s (after_plan backend reg opts p r id d s)
  unfolding after_plan
  after_plan-Step p r id (ok Diff.no_change) s = keep_unchanged-Step _ id r.kind s _
  after_plan-Step p r id (ok d) s = run_apply-Step p r id d s
  after_plan-Step p r id (err PrimitiveError.cancelled) s = interrupt-Step _ id r.kind s _
  after_plan-Step p r id (err e) s = fail-Step opts.continue_on_error id r.kind s _ _

  run_plan-Step :
      (p : Primitive P J W) (r : Resource P) (id : Text) (s : Loop W)
      → Steps id s (run_plan backend reg opts p r id s)
  unfolding run_plan
  run_plan-Step p r id s = Step-ctx _ (after_plan-Step p r id _ _)

  with_primitive-Step :
      (p : Option (Primitive P J W)) (r : Resource P) (id : Text) (s : Loop W)
      → Steps id s (with_primitive backend reg opts p r id s)
  unfolding with_primitive
  with_primitive-Step none r id s = fail-Step opts.continue_on_error id r.kind s _ _
  with_primitive-Step (some p) r id s = run_plan-Step p r id s

  after_dependencies-Step :
      (dep : Option Text) (r : Resource P) (id : Text) (s : Loop W)
      → s.aborted ≡ false
      → Steps id s (after_dependencies backend reg opts dep r id s)
  unfolding after_dependencies
  after_dependencies-Step (some dep) r id s a = skip_dependent-Step _ id r.kind s dep a
  after_dependencies-Step none r id s a = with_primitive-Step (backend.primitives r.kind) r id s

  process-Step :
      (r : Option (Resource P)) (id : Text) (s : Loop W)
      → s.aborted ≡ false
      → Steps id s (process backend reg opts r id s)
  unfolding process
  process-Step none id s a = fail-Step opts.continue_on_error id _ s _ _
  process-Step (some r) id s a = after_dependencies-Step _ r id s a

  unless_aborted-Step : (id : Text) (s : Loop W) → Steps id s (unless_aborted backend reg opts id s)
  unfolding unless_aborted
  unless_aborted-Step id s =
      Step-if s.aborted _ _ (λ a. skip_aborted-Step _ id _ s a)
        (λ a. process-Step (get reg id) id s a)

  after_sleep-Step :
      (slept : Bool) (id : Text) (s : Loop W) → Steps id s (after_sleep backend reg opts slept id s)
  unfolding after_sleep
  after_sleep-Step true id s = unless_aborted-Step id s
  after_sleep-Step false id s = interrupt-Step _ id _ s _

  pause-Step :
      (interval : ℕ) (id : Text) (s : Loop W) → Steps id s (pause backend reg opts interval id s)
  unfolding pause
  pause-Step interval id s = Step-ctx _ (after_sleep-Step _ id _)

  -- An iteration adds one entry for its resource to the report, and the variables of the loop agree
  -- with the outcome of that entry.
  pub visit-Step :
      (interval idx : ℕ) (id : Text) (s : Loop W)
      → Steps id s (visit backend reg opts interval idx id s)
  unfolding visit
  visit-Step interval idx id s =
      Step-if (ltb 0 idx && (not (interval == 0) && not s.aborted))
        (pause backend reg opts interval id s) (unless_aborted backend reg opts id s)
        (λ _. pause-Step interval id s) (λ _. unless_aborted-Step id s)
