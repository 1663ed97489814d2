-- ===== src/Orchestrator/Steps.antt =====
-- What one iteration of `Orchestrator::apply` does to the report and to the variables of the loop
-- (bosun-core/src/orchestrator.rs).
use bonsun.Base.{
  ◌+◌, ◌≡◌, refl, Bool, true, false, ◌&&◌, ◌||◌, not, [], ◌∷◌, ◌++◌, arith, Text, text_eq,
  text_eq_refl, contains,
}
use bonsun.Primitive.{ApplyCtx, record_changed, is_changed}
use bonsun.Orchestrator.{
  Outcome, unchanged, changed, failed, skipped, deferred, interrupted, ResourceApplyOutcome,
  ApplySummary, Loop, entry_of, interrupt, fail, skip_aborted, skip_dependent, keep_unchanged,
  defer, change,
}

-- The counter that an outcome belongs to goes up by one.
abbrev pub add_outcome : Outcome → ApplySummary → ApplySummary
add_outcome unchanged t = record t { no_change = t.no_change + 1 }
add_outcome changed t = record t { changed = t.changed + 1 }
add_outcome (failed _) t = record t { failed = t.failed + 1 }
add_outcome skipped t = record t { skipped = t.skipped + 1 }
add_outcome (deferred _) t = record t { deferred = t.deferred + 1 }
add_outcome (interrupted _) t = record t { interrupted = t.interrupted + 1 }

-- The outcomes that end the run.
abbrev pub stops : (continue_on_error : Bool) → Outcome → Bool
stops c (failed _) = not c
stops c (interrupted _) = true
stops c _ = false

-- The outcomes for which dependents are skipped. A resource that is skipped after an abort is not
-- noted, since nothing is applied behind it.
abbrev pub marks : (aborted : Bool) → Outcome → Bool
marks a (failed _) = true
marks a (interrupted _) = true
marks a skipped = not a
marks a _ = false

module _ {W : Type 0} where
  pub record Step (c : Bool) (id : Text) (s s' : Loop W) : Type 0 where
    pub entry : ResourceApplyOutcome
    pub pushed : s'.resources ≡ s.resources ++ entry ∷ []
    pub named : entry.id ≡ id
    pub counted : s'.summary ≡ add_outcome entry.outcome s.summary
    pub aborts : s'.aborted ≡ (s.aborted || stops c entry.outcome)
    pub noted :
        (v : Text)
        → contains s'.failed_or_interrupted v
          ≡ (contains s.failed_or_interrupted v || (text_eq id v && marks s.aborted entry.outcome))
    pub recorded : entry.outcome ≡ changed → is_changed s'.ctx id ≡ true

  -- A change of the context alone does not matter.
  pub Step-ctx :
      {c : Bool} {id : Text} {s s' : Loop W} (ctx : ApplyCtx W)
      → Step c id (record s { ctx = ctx }) s'
      → Step c id s s'
  Step-ctx ctx p = record {
    entry = p.entry;
    pushed = p.pushed;
    named = p.named;
    counted = p.counted;
    aborts = p.aborts;
    noted = p.noted;
    recorded = p.recorded;
  }

  module _ (c : Bool) (id kind : Text) (s : Loop W) where
    pub interrupt-Step : (reason : Text) → Step c id s (interrupt id kind reason s)
    unfolding interrupt contains
    interrupt-Step reason = record {
      entry = entry_of id kind (interrupted reason) reason;
      pushed = refl;
      named = refl;
      counted = refl;
      aborts = ground arith;
      noted = λ v. ground arith;
      recorded = λ e. cc;
    }

    pub fail-Step : (error message : Text) → Step c id s (fail id kind c error message s)
    unfolding fail contains
    fail-Step error message = record {
      entry = entry_of id kind (failed error) message;
      pushed = refl;
      named = refl;
      counted = refl;
      aborts = ground arith;
      noted = λ v. ground arith;
      recorded = λ e. cc;
    }

    pub skip_aborted-Step : s.aborted ≡ true → Step c id s (skip_aborted id kind s)
    unfolding skip_aborted contains
    skip_aborted-Step a = record {
      entry = entry_of id kind skipped _;
      pushed = refl;
      named = refl;
      counted = refl;
      aborts = ground arith;
      noted = λ v. ground arith;
      recorded = λ e. cc;
    }

    pub skip_dependent-Step :
        (dep : Text) → s.aborted ≡ false → Step c id s (skip_dependent id kind dep s)
    unfolding skip_dependent contains
    skip_dependent-Step dep a = record {
      entry = entry_of id kind skipped _;
      pushed = refl;
      named = refl;
      counted = refl;
      aborts = ground arith;
      noted = λ v. ground arith;
      recorded = λ e. cc;
    }

    pub keep_unchanged-Step : (message : Text) → Step c id s (keep_unchanged id kind message s)
    unfolding keep_unchanged contains
    keep_unchanged-Step message = record {
      entry = entry_of id kind unchanged message;
      pushed = refl;
      named = refl;
      counted = refl;
      aborts = ground arith;
      noted = λ v. ground arith;
      recorded = λ e. cc;
    }

    pub defer-Step : (reason : Text) → Step c id s (defer id kind reason s)
    unfolding defer contains
    defer-Step reason = record {
      entry = entry_of id kind (deferred reason) reason;
      pushed = refl;
      named = refl;
      counted = refl;
      aborts = ground arith;
      noted = λ v. ground arith;
      recorded = λ e. cc;
    }

    pub change-Step : (message : Text) → Step c id s (change id kind message s)
    unfolding change contains is_changed record_changed
    change-Step message = record {
      entry = entry_of id kind changed message;
      pushed = refl;
      named = refl;
      counted = refl;
      aborts = ground arith;
      noted = λ v. ground arith;
      recorded = λ e. ground (arith, text_eq_refl id);
    }
