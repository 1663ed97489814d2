-- ===== src/Orchestrator/Idle.antt =====
-- What an iteration of `Orchestrator::apply` that holds a resource back does to the world: nothing but the
-- pause (bosun-core/src/orchestrator.rs).
use bonsun.Base.{
  ℕ, suc, ◌+◌, ◌≡◌, refl, ap, ◌∙◌, ◌⊎◌, inl, inr, Bool, true, false, ◌&&◌, ◌||◌, not, List, [], ◌∷◌,
  ◌++◌, length, some, arith, Text, contains, Bool-cases, ltb, ◌==◌,
}
use bonsun.Resource.{Resource}
use bonsun.Registry.{Registry, get}
use bonsun.Orchestrator.{
  Loop, Backend, ApplyOpts, find_failed, after_dependencies, process, skip_aborted, skip_dependent,
  interrupt, unless_aborted, after_sleep, pause, visit, visit_all,
}
use bonsun.Orchestrator.Runs.{find_failed-some, visit_halted}

module _ {P J W : Type 0} (backend : Backend P J W) (reg : Registry P) (opts : ApplyOpts)
    (interval : ℕ) where
  zero_add : (n : ℕ) → 0 + n ≡ n
  zero_add n = omega arith

  -- No primitive and no callback was called between the two states: the world and the set of changed
  -- resources are as they were, or as the pause left them.
  abbrev pub Idle : Loop W → Loop W → Type 0
  Idle s t =
      (t.ctx ≡ s.ctx) ⊎ (t.ctx ≡ record (s.ctx) { world = (backend.sleep interval s.ctx.world).1 })

  module _ (id : Text) (r : Resource P) (d : Text) (found : get reg id ≡ some r) where
    unless_aborted-ctx :
        (s : Loop W)
        → s.aborted ≡ false
        → find_failed s.failed_or_interrupted r.depends_on ≡ some d
        → (unless_aborted backend reg opts id s).ctx ≡ s.ctx
    unfolding unless_aborted process after_dependencies skip_dependent
    unless_aborted-ctx s a e = rw (a, found, process) (rw (e, process) refl)

    after_sleep-ctx :
        (slept : Bool) (s : Loop W)
        → s.aborted ≡ false
        → find_failed s.failed_or_interrupted r.depends_on ≡ some d
        → (after_sleep backend reg opts slept id s).ctx ≡ s.ctx
    unfolding after_sleep interrupt
    after_sleep-ctx true s a e = unless_aborted-ctx s a e
    after_sleep-ctx false s a e = refl

    visit_failed-Idle :
        (idx : ℕ) (s : Loop W)
        → s.aborted ≡ false
        → find_failed s.failed_or_interrupted r.depends_on ≡ some d
        → Idle s (visit backend reg opts interval idx id s)
    unfolding visit pause
    visit_failed-Idle idx s a e =
        elim (Bool-cases (ltb 0 idx && (not (interval == 0) && not s.aborted))) [
          | inl paced ↦ rw paced (inr (after_sleep-ctx _ _ a e))
          | inr direct ↦ rw direct (inl (unless_aborted-ctx s a e))
        ]

  pub visit-Idle :
      (id : Text) (r : Resource P) (d : Text) (idx : ℕ) (s : Loop W)
      → get reg id ≡ some r
      → contains r.depends_on d ≡ true
      → (s.aborted || contains s.failed_or_interrupted d) ≡ true
      → Idle s (visit backend reg opts interval idx id s)
  unfolding skip_aborted
  visit-Idle id r d idx s found dep bad = elim (Bool-cases s.aborted) [
    | inl a ↦ inl (ap (λ (t : Loop W). t.ctx) (visit_halted backend reg opts interval idx id s a))
    | inr a ↦
        let (d', e) =
          find_failed-some s.failed_or_interrupted r.depends_on d dep (ground (arith, a)) in
        visit_failed-Idle id r d' found idx s a e
  ]

  visit_all-append :
      (idx : ℕ) (before after : List Text) (s : Loop W)
      → visit_all backend reg opts interval idx (before ++ after) s
        ≡ visit_all backend reg opts interval
            (idx + length before)
            after
            (visit_all backend reg opts interval idx before s)
  unfolding visit_all
  visit_all-append idx [] after s =
      ap (λ n. visit_all backend reg opts interval n after s) (omega arith)
  visit_all-append idx (id ∷ before) after s =
      visit_all-append (suc idx) before after (visit backend reg opts interval idx id s)
      ∙ ap
          (λ n. visit_all backend reg opts interval n after (
            visit_all backend reg opts interval (suc idx) before
              (visit backend reg opts interval idx id s)))
          (omega arith)

  -- A run from the start, at one of its resources.
  pub visit_all-split :
      (before : List Text) (id : Text) (after : List Text) (s : Loop W)
      → visit_all backend reg opts interval 0 (before ++ id ∷ after) s
        ≡ visit_all backend reg opts interval (suc (length before)) after (
            visit backend reg opts interval
              (length before)
              id
              (visit_all backend reg opts interval 0 before s))
  unfolding visit_all
  visit_all-split before id after s =
      visit_all-append 0 before (id ∷ after) s
      ∙ ap
          (λ n.
            visit_all backend reg opts interval n (id ∷ after)
              (visit_all backend reg opts interval 0 before s))
          (zero_add (length before))
