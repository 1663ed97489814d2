-- ===== src/Orchestrator/Applied.antt =====
-- What `Orchestrator::apply` guarantees, for any primitives, any world and any signals
-- (bosun-core/src/orchestrator.rs).
use bonsun.Base.{
  suc, ◌≡◌, refl, ap, sym, ◌∙◌, Bool, true, false, List, [], ◌∷◌, ◌++◌, length, ◌||◌, ℕ, some,
  arith, Text, contains, All,
}
use bonsun.Resource.{Resource}
use bonsun.Pacer.{interval_for}
use bonsun.Registry.{Registry, get}
use bonsun.Primitive.{ApplyCtx}
use bonsun.Orchestrator.{
  skipped, ResourceApplyOutcome, Loop, Backend, ApplyOpts, initial, apply_in, visit, visit_all,
  skip_aborted, has_interruptions,
}
use bonsun.Orchestrator.Idle.{Idle, visit-Idle, visit_all-split}
use bonsun.Orchestrator.Steps.{stops}
use bonsun.Orchestrator.Runs.{Run, next, visit-Visit, visit_all-Run, visit_halted, holds_back}
use bonsun.Orchestrator.Report.{
  entry_ids, entry_ids-append, same_first, tally, Counts, Grows-Counts, has_blocked, is_interrupted,
  any_stops, Run-resources, Run-Grows, Run-stopped, Run-blocked, Run-knows, Run-aborted,
}

no_stops :
    (c : Bool) (es : List ResourceApplyOutcome)
    → c ≡ true
    → tally is_interrupted es ≡ 0
    → any_stops c es ≡ false
no_stops c [] go h = refl
no_stops c (e ∷ es) go h = ground (arith, no_stops c es)

module _ {P J W : Type 0} (backend : Backend P J W) (reg : Registry P) (opts : ApplyOpts) where
  -- After an abort the world and the set of changed resources stay as they are: no primitive, no
  -- callback and no pause is called any more.
  pub visit_all_halted :
      (interval idx : ℕ) (order : List Text) (s : Loop W)
      → s.aborted ≡ true
      → (visit_all backend reg opts interval idx order s).ctx ≡ s.ctx
  unfolding visit_all skip_aborted
  visit_all_halted interval idx [] s a = refl
  visit_all_halted interval idx (id ∷ order) s a =
      let same = visit_halted backend reg opts interval idx id s a in
      visit_all_halted interval (suc idx) order (visit backend reg opts interval idx id s)
        (ap (λ (t : Loop W). t.aborted) same ∙ a)
      ∙ ap (λ (t : Loop W). t.ctx) same

  module _ (order : List Text) (ctx : ApplyCtx W) where
    abbrev report : Loop W
    report = apply_in backend reg opts order ctx

    run :
        (entries : List ResourceApplyOutcome) × Run reg opts.continue_on_error
          (initial backend reg opts ctx)
          order
          entries
          report
    unfolding apply_in
    run = visit_all-Run backend reg opts _ 0 order (initial backend reg opts ctx)

    entries-resources : report.resources ≡ run.0
    entries-resources = (Run-resources reg opts.continue_on_error run.1).0

    -- The report has one entry for each resource, in the order of the run.
    pub apply_in-entries : entry_ids report.resources ≡ order
    apply_in-entries = rw entries-resources (Run-resources reg opts.continue_on_error run.1).1

    -- The six counters of the summary are the numbers of entries with each outcome.
    pub apply_in-Counts : Counts report.summary report.resources
    apply_in-Counts =
        rw entries-resources
          (Grows-Counts run.0 report.summary (Run-Grows reg opts.continue_on_error run.1))

    -- Behind a resource that was interrupted, or that failed without `continue_on_error`, every
    -- resource is skipped.
    pub apply_in-stopped :
        (xs : List ResourceApplyOutcome) (e : ResourceApplyOutcome) (ys : List ResourceApplyOutcome)
        → report.resources ≡ xs ++ e ∷ ys
        → stops opts.continue_on_error e.outcome ≡ true
        → All (λ e. e.outcome ≡ skipped) ys
    apply_in-stopped xs e ys split =
        Run-stopped reg opts.continue_on_error run.1 xs e ys (sym entries-resources ∙ split)

    abbrev pace : ℕ
    pace = interval_for opts.pacer (length order)

    -- The variables of the loop behind the resources `ids`.
    abbrev pub behind : List Text → Loop W
    behind ids = visit_all backend reg opts pace 0 ids (initial backend reg opts ctx)

    -- Those behind the next resource too.
    abbrev pub behind_next : List Text → Text → Loop W
    behind_next ids id = visit backend reg opts pace (length ids) id (behind ids)

    order-split :
        (xs : List ResourceApplyOutcome) (e : ResourceApplyOutcome) (ys : List ResourceApplyOutcome)
        → report.resources ≡ xs ++ e ∷ ys
        → order ≡ entry_ids xs ++ e.id ∷ entry_ids ys
    order-split xs e ys split =
        sym apply_in-entries ∙ ap entry_ids split ∙ entry_ids-append xs (e ∷ ys)

    report-split :
        (xs : List ResourceApplyOutcome) (e : ResourceApplyOutcome) (ys : List ResourceApplyOutcome)
        → report.resources ≡ xs ++ e ∷ ys
        → report
          ≡ visit_all backend reg opts pace
              (suc (length (entry_ids xs)))
              (entry_ids ys)
              (behind_next (entry_ids xs) e.id)
    unfolding apply_in
    report-split xs e ys split =
        ap (λ ids. visit_all backend reg opts pace 0 ids (initial backend reg opts ctx))
          (order-split xs e ys split)
        ∙ visit_all-split backend reg opts pace (entry_ids xs) e.id (entry_ids ys) _

    -- Behind the resources of the first entries, what these show to be blocked is known.
    behind-knows :
        (xs : List ResourceApplyOutcome) (e : ResourceApplyOutcome) (ys : List ResourceApplyOutcome)
        (d : Text)
        → report.resources ≡ xs ++ e ∷ ys
        → has_blocked xs d ≡ true
        → ((behind (entry_ids xs)).aborted
            || contains (behind (entry_ids xs)).failed_or_interrupted d)
          ≡ true
    behind-knows xs e ys d split bad =
        let c = opts.continue_on_error in
        let (es, first) =
          visit_all-Run backend reg opts pace 0 (entry_ids xs) (initial backend reg opts ctx) in
        let (es', rest) =
          visit_all-Run backend reg opts pace (suc (length (entry_ids xs))) (entry_ids ys)
            (behind_next (entry_ids xs) e.id) in
        let last =
          visit-Visit backend reg opts pace (length (entry_ids xs)) e.id (behind (entry_ids xs)) in
        let (held, names) = Run-resources reg c first in
        let whole : es ++ last.step.entry ∷ es' ≡ xs ++ e ∷ ys =
          sym (ap (λ l. l ++ last.step.entry ∷ es') held)
          ∙ sym (Run-resources reg c (next last rest)).0
          ∙ ap (λ (t : Loop W). t.resources) (sym (report-split xs e ys split))
          ∙ split in
        let same : es ≡ xs = same_first es xs _ _ names whole in
        Run-knows reg c first d (rw same (ground (arith, bad)))

    -- A resource that depends on one that failed, was interrupted or was skipped before it, is not
    -- applied: it is skipped, or the run is interrupted at it, and its iteration of the loop, which the
    -- run goes through, leaves the world and the set of changed resources as they were, or as the pause
    -- before the resource left them.
    pub apply_in-blocked :
        (xs : List ResourceApplyOutcome) (e : ResourceApplyOutcome) (ys : List ResourceApplyOutcome)
        (r : Resource P) (d : Text)
        → report.resources ≡ xs ++ e ∷ ys
        → get reg e.id ≡ some r
        → contains r.depends_on d ≡ true
        → has_blocked xs d ≡ true
        → (holds_back e.outcome ≡ true)
          × Idle backend reg opts pace (behind (entry_ids xs)) (behind_next (entry_ids xs) e.id)
          × (report
              ≡ visit_all backend reg opts pace
                  (suc (length (entry_ids xs)))
                  (entry_ids ys)
                  (behind_next (entry_ids xs) e.id))
    apply_in-blocked xs e ys r d split found dep bad = (
      Run-blocked reg opts.continue_on_error run.1 xs e ys r d (sym entries-resources ∙ split) found
          dep (ground (arith, bad)),
      visit-Idle backend reg opts pace e.id r d (length (entry_ids xs)) (behind (entry_ids xs))
          found dep (behind-knows xs e ys d split bad),
      report-split xs e ys split,
    )

    -- With `continue_on_error` a run that reports no interruption was never aborted.
    pub apply_in-continues :
        opts.continue_on_error ≡ true → has_interruptions report ≡ false → report.aborted ≡ false
    unfolding has_interruptions
    apply_in-continues go quiet =
        Run-aborted reg opts.continue_on_error run.1
        ∙ no_stops opts.continue_on_error run.0 go
            (ground (arith, quiet, apply_in-Counts.interrupted, entries-resources))
