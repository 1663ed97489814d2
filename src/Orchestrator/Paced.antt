-- ===== src/Orchestrator/Paced.antt =====
-- How long the pauses of `Orchestrator::apply` take (bosun-core/src/orchestrator.rs and pacer.rs).
use bonsun.Base.{
  ℕ, suc, ◌+◌, ◌-◌, ◌*◌, ◌≤◌, ◌<◌, ◌≡◌, refl, sym, ◌∙◌, ◌⊎◌, inl, inr, Bool, true, false, ◌&&◌,
  ◌||◌, if◌then◌else◌, not, List, [], ◌∷◌, length, Option, none, some, arith, Text, Bool-cases, ltb,
  ◌==◌,
}
use bonsun.Resource.{Resource}
use bonsun.Registry.{Registry, get}
use bonsun.Pacer.{interval_for, u32_max}
use bonsun.Pacer.Bounds.{Fills, interval_for-Fills, less_one}
use bonsun.Primitive.{
  Diff, no_change, Primitive, cancelled, Result, ok, err, ChangeReport, ApplyCtx, record_changed,
}
use bonsun.Orchestrator.{
  Loop, Backend, ApplyOpts, initial, interrupt, fail, skip_aborted, skip_dependent, keep_unchanged,
  defer, change, after_apply, run_apply, after_plan, run_plan, with_primitive, after_dependencies,
  process, unless_aborted, after_sleep, pause, visit, visit_all, apply_in,
}
use bonsun.Orchestrator.Runs.{visit_all-Run}
use bonsun.Orchestrator.Report.{Run-aborted}

-- `slept` is what the pauses took: a pause that came to its end took its whole time and one that was broken
-- off no more, and the primitives and the dirty mark take nothing of it.
pub record IsMetered {P J W : Type 0} (backend : Backend P J W) (slept : W → ℕ) : Type 0 where
  pub sleeps :
      (t : ℕ) (w : W)
      → (slept (backend.sleep t w).1 ≤ slept w + t)
        × (((backend.sleep t w).0 ≡ false) ⊎ (slept (backend.sleep t w).1 ≡ slept w + t))
  pub marks : (kind : Text) (w : W) → slept (backend.mark_dirty kind w) ≡ slept w
  pub plans :
      (kind : Text) (p : Primitive P J W)
      → backend.primitives kind ≡ some p
      → (r : Resource P) (w : W) → slept (p.plan r w).1 ≡ slept w
  pub applies :
      (kind : Text) (p : Primitive P J W)
      → backend.primitives kind ≡ some p
      → (r : Resource P) (diff : Diff J) (ctx : ApplyCtx W)
      → slept (p.apply r diff ctx).1.world ≡ slept ctx.world

module _ {P J W : Type 0} (backend : Backend P J W) (reg : Registry P) (opts : ApplyOpts)
    (slept : W → ℕ) (metered : IsMetered backend slept) where
  abbrev total : Loop W → ℕ
  total s = slept s.ctx.world

  after_apply-total :
      (id kind : Text) (r : Result ChangeReport) (s : Loop W)
      → total (after_apply backend reg opts id kind r s) ≡ total s
  unfolding after_apply defer change keep_unchanged interrupt fail record_changed
  after_apply-total id kind (ok report) s = ground arith
  after_apply-total id kind (err cancelled) s = refl
  after_apply-total id kind (err e) s = ground arith

  module _ (p : Primitive P J W) (r : Resource P) (known : backend.primitives r.kind ≡ some p)
      (id : Text) where
    run_apply-total :
        (d : Diff J) (s : Loop W) → total (run_apply backend reg opts p r id d s) ≡ total s
    unfolding run_apply
    run_apply-total d s =
        after_apply-total id r.kind _ _
        ∙ metered.applies r.kind p known r d _
        ∙ metered.marks r.kind s.ctx.world

    after_plan-total :
        (d : Result (Diff J)) (s : Loop W)
        → total (after_plan backend reg opts p r id d s) ≡ total s
    unfolding after_plan keep_unchanged interrupt fail
    after_plan-total (ok no_change) s = refl
    after_plan-total (ok d) s = run_apply-total d s
    after_plan-total (err cancelled) s = refl
    after_plan-total (err e) s = refl

    run_plan-total : (s : Loop W) → total (run_plan backend reg opts p r id s) ≡ total s
    unfolding run_plan
    run_plan-total s = after_plan-total _ _ ∙ metered.plans r.kind p known r s.ctx.world

  with_primitive-total :
      (p : Option (Primitive P J W)) (r : Resource P) (id : Text) (s : Loop W)
      → backend.primitives r.kind ≡ p
      → total (with_primitive backend reg opts p r id s) ≡ total s
  unfolding with_primitive fail
  with_primitive-total none r id s known = refl
  with_primitive-total (some p) r id s known = run_plan-total p r known id s

  after_dependencies-total :
      (dep : Option Text) (r : Resource P) (id : Text) (s : Loop W)
      → total (after_dependencies backend reg opts dep r id s) ≡ total s
  unfolding after_dependencies skip_dependent
  after_dependencies-total (some dep) r id s = refl
  after_dependencies-total none r id s = with_primitive-total _ r id s refl

  process-total :
      (r : Option (Resource P)) (id : Text) (s : Loop W)
      → total (process backend reg opts r id s) ≡ total s
  unfolding process fail
  process-total none id s = refl
  process-total (some r) id s = after_dependencies-total _ r id s

  total-if :
      (b : Bool) (x y : Loop W) (n : ℕ) → total x ≡ n → total y ≡ n → total (if b then x else y) ≡ n
  total-if true x y n hx hy = hx
  total-if false x y n hx hy = hy

  unless_aborted-total :
      (id : Text) (s : Loop W) → total (unless_aborted backend reg opts id s) ≡ total s
  unfolding unless_aborted skip_aborted
  unless_aborted-total id s = total-if s.aborted _ _ _ refl (process-total (get reg id) id s)

  aborted-if :
      (b : Bool) (x y : Loop W) → b ≡ true → x.aborted ≡ true → (if b then x else y).aborted ≡ true
  aborted-if true x y b a = a
  aborted-if false x y b a = absurd cc

  unless_aborted-halted :
      (id : Text) (s : Loop W)
      → s.aborted ≡ true
      → (unless_aborted backend reg opts id s).aborted ≡ true
  unfolding unless_aborted skip_aborted
  unless_aborted-halted id s a = aborted-if s.aborted _ _ a a

  -- What stands behind `n` pauses: all of them took their time, unless the run was aborted.
  abbrev Paces : (interval n : ℕ) → Loop W → Loop W → Type 0
  Paces interval n s t =
      (total t ≤ total s + n * interval) × ((t.aborted ≡ true) ⊎ (total t ≡ total s + n * interval))

  module _ (interval : ℕ) where
    abbrev woken : Loop W → W → Loop W
    woken s w = record s { ctx = record (s.ctx) { world = w } }

    after_sleep-Paces :
        (id : Text) (s : Loop W) (whole : Bool) (w : W)
        → (slept w ≤ total s + interval) × ((whole ≡ false) ⊎ (slept w ≡ total s + interval))
        → Paces interval 1 s (after_sleep backend reg opts whole id (woken s w))
    unfolding after_sleep interrupt
    after_sleep-Paces id s true w told =
        let same = unless_aborted-total id (woken s w) in
        (omega (arith, same, told), inr (ground (arith, same, told)))
    after_sleep-Paces id s false w told = (omega (arith, told), inl refl)

    direct-Paces :
        (id : Text) (s : Loop W)
        → (interval == 0 || s.aborted) ≡ true
        → Paces interval 1 s (unless_aborted backend reg opts id s)
    direct-Paces id s why = elim (Bool-cases s.aborted) [
      | inl a ↦
          let same = unless_aborted-total id s in
          (omega (arith, same), inl (unless_aborted-halted id s a))
      | inr a ↦
          let same = unless_aborted-total id s in
          let none : interval ≡ 0 = ground (arith, why, a) in
          (omega (arith, same), inr (rw none (same ∙ omega arith)))
    ]

    visit-Paces :
        (idx : ℕ) (id : Text) (s : Loop W)
        → Paces interval 1 s (visit backend reg opts interval (suc idx) id s)
    unfolding visit pause
    visit-Paces idx id s =
        elim (Bool-cases (ltb 0 (suc idx) && (not (interval == 0) && not s.aborted))) [
          | inl paced ↦ rw paced (after_sleep-Paces id s _ _ (metered.sleeps interval s.ctx.world))
          | inr direct ↦ rw direct (direct-Paces id s (ground (arith, direct)))
        ]

    Paces-trans :
        (n : ℕ) (s t u : Loop W)
        → Paces interval 1 s t
        → Paces interval n t u
        → (t.aborted ≡ true → u.aborted ≡ true)
        → Paces interval (suc n) s u
    Paces-trans n s t u first rest stays = ground (arith, first, rest, stays)

    visit_all-aborted :
        (idx : ℕ) (order : List Text) (s : Loop W)
        → s.aborted ≡ true
        → (visit_all backend reg opts interval idx order s).aborted ≡ true
    visit_all-aborted idx order s a =
        Run-aborted reg opts.continue_on_error
          (visit_all-Run backend reg opts interval idx order s).1
        ∙ ground (arith, a)

    visit_all-Paces :
        (idx : ℕ) (order : List Text) (s : Loop W)
        → Paces interval (length order) s (visit_all backend reg opts interval (suc idx) order s)
    unfolding visit_all
    visit_all-Paces idx [] s = (omega arith, inr (omega arith))
    visit_all-Paces idx (id ∷ order) s =
        let t = visit backend reg opts interval (suc idx) id s in
        Paces-trans (length order) s t (visit_all backend reg opts interval (suc (suc idx)) order t)
          (visit-Paces idx id s) (visit_all-Paces (suc idx) order t)
          (visit_all-aborted (suc (suc idx)) order t)

    first-total :
        (id : Text) (s : Loop W) → total (visit backend reg opts interval 0 id s) ≡ total s
    unfolding visit
    first-total id s = unless_aborted-total id s

    run-Paces :
        (order : List Text) (s : Loop W)
        → Paces interval (length order - 1) s (visit_all backend reg opts interval 0 order s)
    unfolding visit_all
    run-Paces [] s = (omega arith, inr (omega arith))
    run-Paces (id ∷ order) s =
        rw (less_one (length order), sym (first-total id s))
          (visit_all-Paces 0 order (visit backend reg opts interval 0 id s))

  -- If a pause that comes to its end takes its whole time, one that is broken off no more, and nothing else
  -- takes any of it, then a run over one to 2 ^ 32 - 1 resources takes for its pauses at most the interval for
  -- each resource but one, and exactly that unless it is aborted. That is no more than the target, and less by
  -- no more than one interval and a nanosecond for each resource unless the interval is the maximum; or the
  -- interval is the minimum.
  pub apply_in-paced :
      (order : List Text) (ctx : ApplyCtx W)
      → 0 < length order
      → length order ≤ u32_max
      → let report = apply_in backend reg opts order ctx in
        let interval = interval_for opts.pacer (length order) in
        let whole = (length order - 1) * interval in
        (slept report.ctx.world ≤ slept ctx.world + whole)
        × ((report.aborted ≡ true) ⊎ (slept report.ctx.world ≡ slept ctx.world + whole))
        × (Fills opts.pacer (length order) interval ⊎ (interval ≡ opts.pacer.min_interval))
  unfolding apply_in
  apply_in-paced order ctx pos small =
      let (most, exact) =
        run-Paces (interval_for opts.pacer (length order)) order (initial backend reg opts ctx) in
      (most, exact, interval_for-Fills opts.pacer (length order) pos small)
