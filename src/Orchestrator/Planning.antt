-- ===== src/Orchestrator/Planning.antt =====
-- `Orchestrator::plan_only` (bosun-core/src/orchestrator.rs).
mod Drift
mod Examples
use bonsun.Base.{
  ℕ, ◌+◌, Bool, false, ◌||◌, not, List, [], ◌∷◌, ◌++◌, Option, none, some, Text, codes, ltb, ◌==◌,
  length,
}
use bonsun.Resource.{Resource}
use bonsun.Registry
use bonsun.Registry.{Registry, get, topological_order}
use bonsun.Primitive.{Result, ok, err, Diff, no_change, add, update, Primitive}
use bonsun.Orchestrator.{Backend, ApplyOpts, call_primitive, unknown_kind}

pub record ResourcePlan (J : Type 0) : Type 0 where
  pub id : Text
  pub kind : Text
  pub diff : Diff J

pub record PlanSummary : Type 0 where
  pub add : ℕ
  pub update : ℕ
  pub no_change : ℕ

pub record PlanFailure : Type 0 where
  pub id : Text
  pub kind : Text
  pub message : Text

-- `PlanReport`, with the world that the calls of the primitives leave behind.
pub record PlanReport (J W : Type 0) : Type 0 where
  pub resources : List (ResourcePlan J)
  pub summary : PlanSummary
  pub errors : List PlanFailure
  pub world : W

-- `PlanReport::has_drift`
unfoldable pub has_drift : {J W : Type 0} → PlanReport J W → Bool
has_drift report = ltb 0 report.summary.add || ltb 0 report.summary.update

-- `PlanReport::has_errors`
unfoldable pub has_errors : {J W : Type 0} → PlanReport J W → Bool
has_errors report = not (length report.errors == 0)

pub count_diff : {J : Type 0} → Diff J → PlanSummary → PlanSummary
count_diff no_change t = record t { no_change = t.no_change + 1 }
count_diff (add _ _) t = record t { add = t.add + 1 }
count_diff (update _ _ _) t = record t { update = t.update + 1 }

module _ {P J W : Type 0} (backend : Backend P J W) (reg : Registry P) where
  pub plan_error : Text → Text → Text → PlanReport J W → PlanReport J W
  plan_error id kind message s = record s {
    errors = s.errors ++ record { id = id; kind = kind; message = message } ∷ [];
  }

  -- `match plan_result`
  pub note_plan : Text → Text → Result (Diff J) → PlanReport J W → PlanReport J W
  note_plan id kind (ok diff) s = record s {
    resources = s.resources ++ record { id = id; kind = kind; diff = diff } ∷ [];
    summary = count_diff diff s.summary;
  }
  note_plan id kind (err e) s = plan_error id kind (backend.display e) s

  pub plan_with : Option (Primitive P J W) → Resource P → Text → PlanReport J W → PlanReport J W
  plan_with none r id s =
      plan_error id r.kind (codes "no primitive registered for kind '" ++ (r.kind ++ codes "'")) s
  plan_with (some primitive) r id s =
      let (call, w) = primitive.plan r s.world in
      note_plan id r.kind (call_primitive (codes "plan " ++ r.id) call) (record s { world = w })

  pub plan_found : Option (Resource P) → Text → PlanReport J W → PlanReport J W
  plan_found none id s =
      plan_error id unknown_kind (codes "resource missing from registry during topo iteration") s
  plan_found (some r) id s = plan_with (backend.primitives r.kind) r id s

  pub plan_all : List Text → PlanReport J W → PlanReport J W
  plan_all [] s = s
  plan_all (id ∷ order) s = plan_all order (plan_found (get reg id) id s)

  abbrev pub empty_report : W → PlanReport J W
  empty_report w = record {
    resources = [];
    summary = record { add = 0; update = 0; no_change = 0 };
    errors = [];
    world = w;
  }

  pub plan_in : List Text → W → PlanReport J W
  plan_in order w = plan_all order (empty_report w)

  pub plan_only : (List Text → List Text) → W → Option (Registry.Result (PlanReport J W))
  plan_only iter w = elim (topological_order iter reg) [
    | none ↦ none
    | some (Registry.err e) ↦ some (Registry.err e)
    | some (Registry.ok order) ↦ some (Registry.ok (plan_in order w))
  ]
