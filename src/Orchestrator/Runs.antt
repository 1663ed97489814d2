-- ===== src/Orchestrator/Runs.antt =====
-- A run of `Orchestrator::apply` as a sequence of steps (bosun-core/src/orchestrator.rs).
use bonsun.Base.{
  ℕ, suc, ◌≡◌, refl, ap, sym, ◌∙◌, Bool, true, false, ◌&&◌, ◌||◌, not, List, [], ◌∷◌, ◌++◌, some,
  inl, inr, arith, Text, text_eq_iff, contains, Bool-cases, ltb, ◌==◌,
}
use bonsun.Resource.{Resource}
use bonsun.Registry.{Registry, get}
use bonsun.Orchestrator.{
  Outcome, failed, skipped, interrupted, ResourceApplyOutcome, Loop, Backend, ApplyOpts, entry_of,
  find_failed, kind_of, after_dependencies, process, skip_aborted, skip_dependent, interrupt,
  unless_aborted, after_sleep, pause, visit, visit_all,
}
use bonsun.Orchestrator.Steps.{Step}
use bonsun.Orchestrator.Visits.{visit-Step}

-- The outcomes of a resource to which nothing was applied to the end.
abbrev pub blocks : Outcome → Bool
blocks (failed _) = true
blocks (interrupted _) = true
blocks skipped = true
blocks _ = false

-- The outcomes of a resource that was held back.
abbrev pub holds_back : Outcome → Bool
holds_back skipped = true
holds_back (interrupted _) = true
holds_back _ = false

snoc-injective : {A : Type 0} (xs : List A) (a b : A) → xs ++ a ∷ [] ≡ xs ++ b ∷ [] → a ≡ b
snoc-injective [] a b e = cc
snoc-injective (x ∷ xs) a b e = snoc-injective xs a b (cc)

pub find_failed-some :
    (set deps : List Text) (d : Text)
    → contains deps d ≡ true
    → contains set d ≡ true
    → (d' : Text) × (find_failed set deps ≡ some d')
unfolding find_failed contains
find_failed-some set [] d h k = cc
find_failed-some set (x ∷ deps) d h k = elim (Bool-cases (contains set x)) [
  | inl here ↦ (x, rw here)
  | inr there ↦
      let (d', e) = find_failed-some set deps d (ground (arith, there, text_eq_iff x d)) k in
      (d', rw there e)
]

module _ {P W : Type 0} (reg : Registry P) (c : Bool) where
  pub record Visit (id : Text) (s s' : Loop W) : Type 0 where
    pub step : Step c id s s'
    pub halted : s.aborted ≡ true → step.entry.outcome ≡ skipped
    pub blocked :
        (r : Resource P) (d : Text)
        → get reg id ≡ some r
        → contains r.depends_on d ≡ true
        → (s.aborted || contains s.failed_or_interrupted d) ≡ true
        → holds_back (step.entry.outcome) ≡ true

  -- `Run s order entries s'`: from `s` the loop goes through `order`, adds `entries` to the report
  -- and ends in `s'`.
  pub data Run : Loop W → List Text → List ResourceApplyOutcome → Loop W → Type 0 where
    finish : {s : Loop W} → Run s [] [] s
    next :
        {s t u : Loop W} {id : Text} {order : List Text} {entries : List ResourceApplyOutcome}
        (v : Visit id s t)
        → Run t order entries u
        → Run s (id ∷ order) (v.step.entry ∷ entries) u

module _ {P J W : Type 0} (backend : Backend P J W) (reg : Registry P) (opts : ApplyOpts)
    (interval : ℕ) where
  -- After an abort nothing is called any more.
  pub visit_halted :
      (idx : ℕ) (id : Text) (s : Loop W)
      → s.aborted ≡ true
      → visit backend reg opts interval idx id s ≡ skip_aborted id (kind_of backend reg opts id) s
  unfolding visit unless_aborted
  visit_halted idx id s a = ground arith

  abbrev HoldsBack : Loop W → Loop W → Type 0
  HoldsBack s s' =
      (e : ResourceApplyOutcome) × (s'.resources ≡ s.resources ++ e ∷ [])
      × (holds_back e.outcome ≡ true)

  HoldsBack-skip : (id kind dep : Text) (s : Loop W) → HoldsBack s (skip_dependent id kind dep s)
  unfolding skip_dependent
  HoldsBack-skip id kind dep s = (entry_of id kind skipped _, refl, refl)

  HoldsBack-interrupt :
      (id kind reason : Text) (s : Loop W) → HoldsBack s (interrupt id kind reason s)
  unfolding interrupt
  HoldsBack-interrupt id kind reason s = (entry_of id kind (interrupted reason) _, refl, refl)

  module _ (id : Text) (r : Resource P) (d : Text) (found : get reg id ≡ some r) where
    unless_aborted-HoldsBack :
        (s : Loop W)
        → s.aborted ≡ false
        → find_failed s.failed_or_interrupted r.depends_on ≡ some d
        → HoldsBack s (unless_aborted backend reg opts id s)
    unfolding unless_aborted process after_dependencies skip_dependent
    unless_aborted-HoldsBack s a e =
        rw (a, found, process) (rw (e, process) (HoldsBack-skip id r.kind d s))

    after_sleep-HoldsBack :
        (slept : Bool) (s : Loop W)
        → s.aborted ≡ false
        → find_failed s.failed_or_interrupted r.depends_on ≡ some d
        → HoldsBack s (after_sleep backend reg opts slept id s)
    unfolding after_sleep
    after_sleep-HoldsBack true s a e = unless_aborted-HoldsBack s a e
    after_sleep-HoldsBack false s a e = HoldsBack-interrupt id _ _ s

    pub visit-HoldsBack :
        (idx : ℕ) (s : Loop W)
        → s.aborted ≡ false
        → find_failed s.failed_or_interrupted r.depends_on ≡ some d
        → HoldsBack s (visit backend reg opts interval idx id s)
    unfolding visit pause
    visit-HoldsBack idx s a e =
        elim (Bool-cases (ltb 0 idx && (not (interval == 0) && not s.aborted))) [
          | inl paced ↦ rw paced (after_sleep-HoldsBack _ _ a e)
          | inr direct ↦ rw direct (unless_aborted-HoldsBack s a e)
        ]

  module _ (idx : ℕ) (id : Text) (s : Loop W) where
    abbrev step : Step opts.continue_on_error id s (visit backend reg opts interval idx id s)
    step = visit-Step backend reg opts interval idx id s

    step-halted : s.aborted ≡ true → step.entry.outcome ≡ skipped
    unfolding skip_aborted
    step-halted a =
        ap (λ (e : ResourceApplyOutcome). e.outcome)
          (snoc-injective s.resources step.entry
            (entry_of id (kind_of backend reg opts id) skipped _)
            (sym step.pushed ∙ ap (λ (t : Loop W). t.resources) (visit_halted idx id s a)))

    step-held :
        HoldsBack s (visit backend reg opts interval idx id s)
        → holds_back (step.entry.outcome) ≡ true
    step-held (e, pushed, held) =
        rw (← snoc-injective s.resources step.entry e (sym step.pushed ∙ pushed)) at held

    step-blocked :
        (r : Resource P) (d : Text)
        → get reg id ≡ some r
        → contains r.depends_on d ≡ true
        → (s.aborted || contains s.failed_or_interrupted d) ≡ true
        → holds_back (step.entry.outcome) ≡ true
    step-blocked r d found dep bad = elim (Bool-cases s.aborted) [
      | inl a ↦ rw (step-halted a)
      | inr a ↦
          let (d', e) =
            find_failed-some s.failed_or_interrupted r.depends_on d dep (ground (arith, a)) in
          step-held (visit-HoldsBack id r d' found idx s a e)
    ]

    pub visit-Visit :
        Visit reg opts.continue_on_error id s (visit backend reg opts interval idx id s)
    visit-Visit = record { step = step; halted = step-halted; blocked = step-blocked }

  -- The loop is a run over the order that it is given.
  pub visit_all-Run :
      (idx : ℕ) (order : List Text) (s : Loop W)
      → (entries : List ResourceApplyOutcome) × Run reg opts.continue_on_error s order entries
          (visit_all backend reg opts interval idx order s)
  unfolding visit_all
  visit_all-Run idx [] s = ([], finish)
  visit_all-Run idx (id ∷ order) s =
      let (entries, run) =
        visit_all-Run (suc idx) order (visit backend reg opts interval idx id s) in
      (_, next (visit-Visit idx id s) run)
