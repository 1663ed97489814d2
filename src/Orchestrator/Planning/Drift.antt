-- ===== src/Orchestrator/Planning/Drift.antt =====
-- What the report of `plan_only` says (bosun-core/src/orchestrator.rs).
use bonsun.Base.{
  ℕ, suc, ◌+◌, ◌≡◌, ◌↔◌, refl, sym, ◌∙◌, Bool, true, false, ◌||◌, List, [], ◌∷◌, ◌++◌, Option, none,
  some, arith, Text, count, count-append, hit, length, length-append, ◌<◌, ltb,
}
use bonsun.Resource.{Resource}
use bonsun.Registry.{Registry, get}
use bonsun.Primitive.{Result, ok, err, Diff, no_change, Primitive}
use bonsun.Orchestrator.{Backend}
use bonsun.Orchestrator.Planning.{
  ResourcePlan, PlanSummary, PlanFailure, PlanReport, has_drift, has_errors, count_diff, plan_error,
  note_plan, plan_with, plan_found, plan_all, empty_report, plan_in,
}

module _ {J : Type 0} where
  abbrev pub plan_ids : List (ResourcePlan J) → List Text
  plan_ids [] = []
  plan_ids (p ∷ ps) = p.id ∷ plan_ids ps

  abbrev pub is_pending : Diff J → Bool
  is_pending no_change = false
  is_pending _ = true

  -- Some planned resource would change.
  abbrev pub any_pending : List (ResourcePlan J) → Bool
  any_pending [] = false
  any_pending (p ∷ ps) = is_pending p.diff || any_pending ps

abbrev pub error_ids : List PlanFailure → List Text
error_ids [] = []
error_ids (e ∷ es) = e.id ∷ error_ids es

error_ids-append : (es fs : List PlanFailure) → error_ids (es ++ fs) ≡ error_ids es ++ error_ids fs
error_ids-append [] fs = refl
error_ids-append (e ∷ es) fs = rw (error_ids-append es fs)

module _ {J : Type 0} where
  plan_ids-append :
      (ps qs : List (ResourcePlan J)) → plan_ids (ps ++ qs) ≡ plan_ids ps ++ plan_ids qs
  plan_ids-append [] qs = refl
  plan_ids-append (p ∷ ps) qs = rw (plan_ids-append ps qs)

  any_pending_snoc :
      (ps : List (ResourcePlan J)) (q : ResourcePlan J)
      → any_pending (ps ++ q ∷ []) ≡ (any_pending ps || is_pending q.diff)
  any_pending_snoc [] q = ground arith
  any_pending_snoc (p ∷ ps) q = ground (arith, any_pending_snoc ps q)

module _ {J W : Type 0} where
  -- How often a resource stands in the report, as planned or as an error.
  abbrev pub reported : PlanReport J W → Text → ℕ
  reported s v = count v (plan_ids s.resources) + count v (error_ids s.errors)

  record Planned (id : Text) (s s' : PlanReport J W) : Type 0 where
    once : (v : Text) → reported s' v ≡ hit id v + reported s v
    drifts : has_drift s ≡ any_pending s.resources → has_drift s' ≡ any_pending s'.resources
    sized : length s'.resources + length s'.errors ≡ suc (length s.resources + length s.errors)

counted-drift :
    {J : Type 0} (d : Diff J) (t : PlanSummary) (b : Bool)
    → (ltb 0 t.add || ltb 0 t.update) ≡ b
    → (ltb 0 (count_diff d t).add || ltb 0 (count_diff d t).update) ≡ (b || is_pending d)
unfolding count_diff
counted-drift no_change t b h = ground arith
counted-drift _ t b h = ground arith

module _ {J W : Type 0} where
  Planned-world :
      {id : Text} {s s' : PlanReport J W} (w : W)
      → Planned id (record s { world = w }) s'
      → Planned id s s'
  unfolding has_drift
  Planned-world w p = record { once = p.once; drifts = p.drifts; sized = p.sized }

module _ {P J W : Type 0} (backend : Backend P J W) (reg : Registry P) where
  plan_error-Planned :
      (id kind message : Text) (s : PlanReport J W)
      → Planned id s (plan_error backend reg id kind message s)
  unfolding plan_error has_drift
  plan_error-Planned id kind message s = record {
    once = λ v. rw error_ids-append (omega (arith, count-append v (error_ids s.errors) (id ∷ [])));
    drifts = λ h. h;
    sized =
        omega
          (arith, length-append s.errors (record { id = id; kind = kind; message = message } ∷ []));
  }

  note_plan-Planned :
      (id kind : Text) (r : Result (Diff J)) (s : PlanReport J W)
      → Planned id s (note_plan backend reg id kind r s)
  unfolding note_plan count_diff has_drift
  note_plan-Planned id kind (ok d) s =
      let entry : ResourcePlan J = record { id = id; kind = kind; diff = d } in
      record {
        once = λ v.
            rw plan_ids-append (omega (arith, count-append v (plan_ids s.resources) (id ∷ [])));
        drifts = λ h.
            counted-drift d s.summary (any_pending s.resources) h
            ∙ sym (any_pending_snoc s.resources entry);
        sized = omega (arith, length-append s.resources (entry ∷ []));
      }
  note_plan-Planned id kind (err e) s = plan_error-Planned id kind _ s

  plan_with-Planned :
      (p : Option (Primitive P J W)) (r : Resource P) (id : Text) (s : PlanReport J W)
      → Planned id s (plan_with backend reg p r id s)
  unfolding plan_with
  plan_with-Planned none r id s = plan_error-Planned id r.kind _ s
  plan_with-Planned (some p) r id s = Planned-world _ (note_plan-Planned id r.kind _ _)

  plan_found-Planned :
      (r : Option (Resource P)) (id : Text) (s : PlanReport J W)
      → Planned id s (plan_found backend reg r id s)
  unfolding plan_found
  plan_found-Planned none id s = plan_error-Planned id _ _ s
  plan_found-Planned (some r) id s = plan_with-Planned (backend.primitives r.kind) r id s

  plan_all-reported :
      (order : List Text) (s : PlanReport J W) (v : Text)
      → reported (plan_all backend reg order s) v ≡ count v order + reported s v
  unfolding plan_all
  plan_all-reported [] s v = omega arith
  plan_all-reported (id ∷ order) s v = omega (
    arith,
    plan_all-reported order (plan_found backend reg (get reg id) id s) v,
    (plan_found-Planned (get reg id) id s).once v,
  )

  plan_all-drift :
      (order : List Text) (s : PlanReport J W)
      → has_drift s ≡ any_pending s.resources
      → has_drift (plan_all backend reg order s)
        ≡ any_pending (plan_all backend reg order s).resources
  unfolding plan_all
  plan_all-drift [] s h = h
  plan_all-drift (id ∷ order) s h =
      plan_all-drift order _ ((plan_found-Planned (get reg id) id s).drifts h)

  plan_all-length :
      (order : List Text) (s : PlanReport J W)
      → (length (plan_all backend reg order s).resources
          + length (plan_all backend reg order s).errors)
        ≡ length order + (length s.resources + length s.errors)
  unfolding plan_all
  plan_all-length [] s = omega arith
  plan_all-length (id ∷ order) s = omega (
    arith,
    plan_all-length order (plan_found backend reg (get reg id) id s),
    (plan_found-Planned (get reg id) id s).sized,
  )

  -- Each resource of the order is reported as often as it stands there, as planned or as an error:
  -- an error never ends the run.
  pub plan_in-reported :
      (order : List Text) (w : W) (v : Text)
      → reported (plan_in backend reg order w) v ≡ count v order
  unfolding plan_in
  plan_in-reported order w v = omega (arith, plan_all-reported order _ v)

  -- The summary reports drift exactly if some planned resource would be added or updated; and there
  -- are errors exactly if fewer resources are planned than stand in the order.
  pub plan_in-drift :
      (order : List Text) (w : W)
      → (has_drift (plan_in backend reg order w)
          ≡ any_pending (plan_in backend reg order w).resources)
        × ((has_errors (plan_in backend reg order w) ≡ true)
            ↔ (length (plan_in backend reg order w).resources < length order))
  unfolding plan_in has_drift has_errors
  plan_in-drift order w = (
    plan_all-drift order _ refl,
    ground (arith, plan_all-length order (empty_report backend reg w)),
  )
