-- ===== src/ProcessSignal/Argv.antt =====
-- The commands that bosun-primitives/src/process_signal/apply.rs builds.
use bonsun.Base.{
  ◌≡◌, refl, ◌⊎◌, inl, inr, true, List, [], ◌∷◌, ◌++◌, Option, none, some, Text, codes, contains,
  arith, Bool-cases,
}
use bonsun.ProcessSignal.{
  ProcessSignalSpec, allowed_signals, strip_prefix, or_self, bare, pkill, select, normalize_signal,
  build_signal_argv,
}
use bonsun.Effects.{ok}

strip_prefix-append : (p s t : Text) → strip_prefix p s ≡ some t → s ≡ p ++ t
unfolding strip_prefix
strip_prefix-append [] s t h = cc
strip_prefix-append (p ∷ ps) [] t h = absurd cc
strip_prefix-append (p ∷ ps) (c ∷ cs) t h = ground (arith, strip_prefix-append ps cs t)

-- The text is the signal, with or without the prefix.
abbrev pub Names : (raw signal : Text) → Type 0
Names raw signal = (raw ≡ signal) ⊎ (raw ≡ codes "SIG" ++ signal)

stripped-Names :
    (raw : Text) (o : Option Text) → strip_prefix (codes "SIG") raw ≡ o → Names raw (or_self raw o)
stripped-Names raw none h = inl refl
stripped-Names raw (some t) h = inr (strip_prefix-append (codes "SIG") raw t h)

-- The argument of pkill that says which processes get the signal.
abbrev pub IsSelector : ProcessSignalSpec → List Text → Type 0
IsSelector spec selector =
    ((n : Text) × (spec.process_name ≡ some n) × (spec.process_user ≡ none) × (selector ≡ n ∷ []))
    ⊎ ((u : Text) × (spec.process_name ≡ none)
        × (spec.process_user ≡ some u)
        × (selector ≡ codes "-u" ∷ u ∷ []))

-- A call of pkill with an allowed signal, the one that is asked for, and one selector.
abbrev pub IsSignal : ProcessSignalSpec → List Text → Type 0
IsSignal spec argv =
    (signal : Text) × (selector : List Text) × (contains allowed_signals signal ≡ true)
    × Names spec.signal signal
    × IsSelector spec selector
    × (argv ≡ pkill signal selector)

select-IsSelector :
    (name signal : Text) (n u : Option Text) (argv : List Text)
    → select name signal n u ≡ ok argv
    → (selector : List Text) × (((p : Text) × (n ≡ some p) × (u ≡ none) × (selector ≡ p ∷ []))
        ⊎ ((p : Text) × (n ≡ none) × (u ≡ some p) × (selector ≡ codes "-u" ∷ p ∷ [])))
      × (argv ≡ pkill signal selector)
select-IsSelector name signal (some n) none argv h = (n ∷ [], inl (n, refl, refl, refl), cc)
select-IsSelector name signal none (some u) argv h =
    (codes "-u" ∷ u ∷ [], inr (u, refl, refl, refl), cc)
select-IsSelector name signal (some n) (some u) argv h = absurd cc
select-IsSelector name signal none none argv h = absurd cc

module _ (debug : Text → Text) where
  pub build_signal_argv-IsSignal :
      (spec : ProcessSignalSpec) (argv : List Text)
      → build_signal_argv debug spec ≡ ok argv
      → IsSignal spec argv
  unfolding build_signal_argv normalize_signal
  build_signal_argv-IsSignal spec argv h =
      elim (Bool-cases (contains allowed_signals (bare spec.signal))) [
        | inl fine ↦
            let (selector, picked, same) =
              select-IsSelector spec.name (bare spec.signal) spec.process_name spec.process_user
                argv (rw fine at h) in
            (bare spec.signal, selector, fine, stripped-Names spec.signal _ refl, picked, same)
        | inr bad ↦ absurd (ground (arith, bad, h))
      ]
