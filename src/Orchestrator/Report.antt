-- ===== src/Orchestrator/Report.antt =====
-- What the report of `Orchestrator::apply` says of a run (bosun-core/src/orchestrator.rs).
use bonsun.Base.{
  ℕ, ◌+◌, ◌≡◌, ◌≢◌, refl, ap, sym, ◌∙◌, Bool, true, false, ◌&&◌, ◌||◌, List, [], ◌∷◌, ◌++◌,
  append-nil, append_assoc, some, arith, Text, text_eq, contains, if◌then◌else◌, All,
}
use bonsun.Resource.{Resource}
use bonsun.Registry.{Registry, get}
use bonsun.Orchestrator.{
  Outcome, unchanged, changed, failed, skipped, deferred, interrupted, ResourceApplyOutcome,
  ApplySummary, empty_summary, Loop,
}
use bonsun.Orchestrator.Steps.{Step, add_outcome, stops}
use bonsun.Orchestrator.Runs.{Run, finish, next, blocks, holds_back}

abbrev pub entry_ids : List ResourceApplyOutcome → List Text
entry_ids [] = []
entry_ids (e ∷ es) = e.id ∷ entry_ids es

-- How many entries pass a test.
abbrev pub tally : (Outcome → Bool) → List ResourceApplyOutcome → ℕ
tally p [] = 0
tally p (e ∷ es) = (if p e.outcome then 1 else 0) + tally p es

abbrev pub is_unchanged : Outcome → Bool
is_unchanged unchanged = true
is_unchanged _ = false

abbrev pub is_changed : Outcome → Bool
is_changed changed = true
is_changed _ = false

abbrev pub is_failed : Outcome → Bool
is_failed (failed _) = true
is_failed _ = false

abbrev pub is_skipped : Outcome → Bool
is_skipped skipped = true
is_skipped _ = false

abbrev pub is_deferred : Outcome → Bool
is_deferred (deferred _) = true
is_deferred _ = false

abbrev pub is_interrupted : Outcome → Bool
is_interrupted (interrupted _) = true
is_interrupted _ = false

-- The counters are the numbers of entries with each outcome.
pub record Counts (t : ApplySummary) (es : List ResourceApplyOutcome) : Type 0 where
  pub changed : t.changed ≡ tally is_changed es
  pub no_change : t.no_change ≡ tally is_unchanged es
  pub failed : t.failed ≡ tally is_failed es
  pub skipped : t.skipped ≡ tally is_skipped es
  pub deferred : t.deferred ≡ tally is_deferred es
  pub interrupted : t.interrupted ≡ tally is_interrupted es

-- The entries from `es` on add their numbers to the counters.
pub Grows : ApplySummary → List ResourceApplyOutcome → ApplySummary → Type 0
Grows t es u =
    (u.changed ≡ t.changed + tally is_changed es)
    × (u.no_change ≡ t.no_change + tally is_unchanged es)
    × (u.failed ≡ t.failed + tally is_failed es)
    × (u.skipped ≡ t.skipped + tally is_skipped es)
    × (u.deferred ≡ t.deferred + tally is_deferred es)
    × (u.interrupted ≡ t.interrupted + tally is_interrupted es)

Grows-cons :
    (o : Outcome) (e : ResourceApplyOutcome) (t u : ApplySummary) (es : List ResourceApplyOutcome)
    → e.outcome ≡ o
    → Grows (add_outcome o t) es u
    → Grows t (e ∷ es) u
unfolding Grows
Grows-cons unchanged e t u es is g = ground arith
Grows-cons _ e t u es is g = ground arith

pub Grows-Counts :
    (es : List ResourceApplyOutcome) (u : ApplySummary) → Grows empty_summary es u → Counts u es
unfolding Grows
Grows-Counts es u g = omega arith

-- Some entry for `d` has an outcome that holds dependents back.
abbrev pub has_blocked : List ResourceApplyOutcome → Text → Bool
has_blocked [] d = false
has_blocked (e ∷ es) d = (text_eq e.id d && blocks e.outcome) || has_blocked es d

abbrev pub any_stops : Bool → List ResourceApplyOutcome → Bool
any_stops c [] = false
any_stops c (e ∷ es) = stops c e.outcome || any_stops c es

pub entry_ids-append :
    (xs : List ResourceApplyOutcome) (ys : List ResourceApplyOutcome)
    → entry_ids (xs ++ ys) ≡ entry_ids xs ++ entry_ids ys
entry_ids-append [] ys = refl
entry_ids-append (x ∷ xs) ys = ap (λ l. x.id ∷ l) (entry_ids-append xs ys)

-- The first entries of a report are told by how many they are.
pub same_first :
    (xs ys : List ResourceApplyOutcome) (xs' ys' : List ResourceApplyOutcome)
    → entry_ids xs ≡ entry_ids ys
    → xs ++ xs' ≡ ys ++ ys'
    → xs ≡ ys
same_first [] [] xs' ys' names h = refl
same_first [] (y ∷ ys) xs' ys' names h = absurd cc
same_first (x ∷ xs) [] xs' ys' names h = absurd cc
same_first (x ∷ xs) (y ∷ ys) xs' ys' names h =
    let rest : xs ≡ ys = same_first xs ys xs' ys' (cc) (cc) in cc

not_nil :
    (xs : List ResourceApplyOutcome) (e : ResourceApplyOutcome) (ys : List ResourceApplyOutcome)
    → [] ≢ xs ++ e ∷ ys
not_nil [] e ys h = cc
not_nil (x ∷ xs) e ys h = cc

module _ {P W : Type 0} (reg : Registry P) (c : Bool) where
  pub Run-resources :
      {s s' : Loop W} {order : List Text} {es : List ResourceApplyOutcome}
      → Run reg c s order es s'
      → (s'.resources ≡ s.resources ++ es) × (entry_ids es ≡ order)
  Run-resources finish = (sym (append-nil _), refl)
  Run-resources (next {s = s} {entries = es} v run) =
      let (rest, names) = Run-resources run in
      (
        rest ∙ ap (λ l. l ++ es) v.step.pushed ∙ append_assoc s.resources (v.step.entry ∷ []) es,
        cc (names, v.step.named),
      )

  pub Run-Grows :
      {s s' : Loop W} {order : List Text} {es : List ResourceApplyOutcome}
      → Run reg c s order es s'
      → Grows s.summary es s'.summary
  Run-Grows finish = unfold Grows in ground arith
  Run-Grows (next {s = s} {u = u} {entries = es} v run) =
      Grows-cons v.step.entry.outcome v.step.entry s.summary u.summary es refl
        (rw v.step.counted at (Run-Grows run))

  Run-halted :
      {s s' : Loop W} {order : List Text} {es : List ResourceApplyOutcome}
      → Run reg c s order es s'
      → s.aborted ≡ true
      → All (λ e. e.outcome ≡ skipped) es
  Run-halted finish a = tt
  Run-halted (next v run) a = (v.halted a, Run-halted run (ground (arith, v.step.aborts, a)))

  pub Run-stopped :
      {s s' : Loop W} {order : List Text} {es : List ResourceApplyOutcome}
      → Run reg c s order es s'
      → (xs : List ResourceApplyOutcome) (e : ResourceApplyOutcome) (ys : List ResourceApplyOutcome)
      → es ≡ xs ++ e ∷ ys
      → stops c e.outcome ≡ true
      → All (λ e. e.outcome ≡ skipped) ys
  Run-stopped finish xs e ys split stop = absurd (not_nil xs e ys split)
  Run-stopped (next {entries = es} v run) [] e ys split stop =
      let same : v.step.entry ≡ e = cc in
      let rest : es ≡ ys = cc in
      rw rest at (Run-halted run (ground (arith, v.step.aborts, stop, same)))
  Run-stopped (next v run) (x ∷ xs) e ys split stop = Run-stopped run xs e ys (cc) stop

  -- What stands behind a blocked resource is known to be blocked in every later state.
  later_blocked :
      {s t : Loop W} {id : Text} (p : Step c id s t) (d : Text) (x : ResourceApplyOutcome)
      (xs : List ResourceApplyOutcome)
      → p.entry ≡ x
      → (s.aborted || contains s.failed_or_interrupted d || has_blocked (x ∷ xs) d) ≡ true
      → (t.aborted || contains t.failed_or_interrupted d || has_blocked xs d) ≡ true
  later_blocked p d x xs same bad = ground (arith, p.aborts, p.noted d, p.named)

  -- What the entries of a run show to be blocked is known at its end.
  pub Run-knows :
      {s s' : Loop W} {order : List Text} {es : List ResourceApplyOutcome}
      → Run reg c s order es s'
      → (d : Text) → (s.aborted || contains s.failed_or_interrupted d || has_blocked es d) ≡ true
      → (s'.aborted || contains s'.failed_or_interrupted d) ≡ true
  Run-knows finish d bad = ground (arith, bad)
  Run-knows (next {entries = es} v run) d bad =
      Run-knows run d (later_blocked v.step d v.step.entry es refl bad)

  pub Run-blocked :
      {s s' : Loop W} {order : List Text} {es : List ResourceApplyOutcome}
      → Run reg c s order es s'
      → (xs : List ResourceApplyOutcome) (e : ResourceApplyOutcome) (ys : List ResourceApplyOutcome)
        (r : Resource P) (d : Text)
      → es ≡ xs ++ e ∷ ys
      → get reg e.id ≡ some r
      → contains r.depends_on d ≡ true
      → (s.aborted || contains s.failed_or_interrupted d || has_blocked xs d) ≡ true
      → holds_back e.outcome ≡ true
  Run-blocked finish xs e ys r d split found dep bad = absurd (not_nil xs e ys split)
  Run-blocked (next v run) [] e ys r d split found dep bad =
      let same : v.step.entry ≡ e = cc in
      rw same at
        (v.blocked r d (ground (arith, found, same, v.step.named)) dep (ground (arith, bad)))
  Run-blocked (next {s = s} {id = id} v run) (x ∷ xs) e ys r d split found dep bad =
      let same : v.step.entry ≡ x = cc in
      Run-blocked run xs e ys r d (cc) found dep (later_blocked v.step d x xs same bad)

  -- The run is aborted at the end exactly if an entry stopped it.
  pub Run-aborted :
      {s s' : Loop W} {order : List Text} {es : List ResourceApplyOutcome}
      → Run reg c s order es s'
      → s'.aborted ≡ (s.aborted || any_stops c es)
  Run-aborted finish = ground arith
  Run-aborted (next v run) = ground (arith, Run-aborted run, v.step.aborts)
