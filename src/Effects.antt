-- ===== src/Effects.antt =====
-- Operations that change a state and may fail, as the primitives chain them with `?`: what an operation did
-- stands also if it fails.
use bonsun.Base.{◌≡◌}
pub use bonsun.Defers.Files.{Result, ok, err}

abbrev pub Act : (S E A : Type 0) → Type 0
Act S E A = S → Result E A × S

module _ {S E : Type 0} where
  abbrev pub pure : {A : Type 0} → A → Act S E A
  pure a s = (ok a, s)

  abbrev pub throw : {A : Type 0} → E → Act S E A
  throw e s = (err e, s)

  abbrev pub and_then : {A B : Type 0} → Result E A × S → (A → Act S E B) → Result E B × S
  and_then (ok a, s) f = f a s
  and_then (err e, s) f = (err e, s)

  infixl 5 ◌>>=◌
  unfoldable pub ◌>>=◌ : {A B : Type 0} → Act S E A → (A → Act S E B) → Act S E B
  (m >>= f) s = and_then (m s) f

  abbrev pub with_result :
      {E' A B : Type 0} → (Result E A → Act S E' B) → Result E A × S → Result E' B × S
  with_result f (r, s) = f r s

  -- `match` on the result of an operation.
  unfoldable pub match_result :
      {E' A B : Type 0} → Act S E A → (Result E A → Act S E' B) → Act S E' B
  match_result m f s = with_result f (m s)

  abbrev pub from_result : {A : Type 0} → Result E A → Act S E A
  from_result r s = (r, s)

  abbrev pub with_error : {E' A : Type 0} → (E → E') → Result E A × S → Result E' A × S
  with_error f (ok a, s) = (ok a, s)
  with_error f (err e, s) = (err (f e), s)

  -- `map_err`
  unfoldable pub map_err : {E' A : Type 0} → (E → E') → Act S E A → Act S E' A
  map_err f m s = with_error f (m s)

module _ {S : Type 0} where
  abbrev pub After :
      {E A : Type 0} → (good : A → S → Type 0) → (bad : E → S → Type 0) → Result E A × S → Type 0
  After good bad (ok a, s) = good a s
  After good bad (err e, s) = bad e s

  -- `good` holds of a success and the state behind it, `bad` of a failure.
  pub record Ends {E A : Type 0} (good : A → S → Type 0) (bad : E → S → Type 0) (x : Result E A × S)
      : Type 0 where
    pub holds : After good bad x

  and_then-After :
      {E A B : Type 0} (between : A → S → Type 0) (good : B → S → Type 0) (bad : E → S → Type 0)
      → (x : Result E A × S) (f : A → Act S E B) → After between bad x
      → ((a : A) (s : S) → between a s → Ends good bad (f a s))
      → After good bad (and_then x f)
  and_then-After between good bad (ok a, s) f h next = (next a s h).holds
  and_then-After between good bad (err e, s) f h next = h

  pub bind-Ends :
      {E A B : Type 0} (m : Act S E A) {f : A → Act S E B} {s : S} {between : A → S → Type 0}
      → {good : B → S → Type 0} {bad : E → S → Type 0} → Ends between bad (m s)
      → ((a : A) (s' : S) → between a s' → Ends good bad (f a s'))
      → Ends good bad ((m >>= f) s)
  unfolding ◌>>=◌
  bind-Ends m {f = f} {s = s} {between = between} {good = good} {bad = bad} h next = record {
    holds = and_then-After between good bad (m s) f h.holds next;
  }

  with_result-After :
      {E E' A B : Type 0} (done : A → S → Type 0) (failed : E → S → Type 0)
      → (good : B → S → Type 0) (bad : E' → S → Type 0) (f : Result E A → Act S E' B)
      → (x : Result E A × S) → After done failed x
      → ((a : A) (s : S) → done a s → Ends good bad (f (ok a) s))
      → ((e : E) (s : S) → failed e s → Ends good bad (f (err e) s))
      → After good bad (with_result f x)
  with_result-After done failed good bad f (ok a, s) h next caught = (next a s h).holds
  with_result-After done failed good bad f (err e, s) h next caught = (caught e s h).holds

  pub match_result-Ends :
      {E E' A B : Type 0} (m : Act S E A) (f : Result E A → Act S E' B) {s : S}
      → {done : A → S → Type 0} {failed : E → S → Type 0}
      → {good : B → S → Type 0} {bad : E' → S → Type 0} → Ends done failed (m s)
      → ((a : A) (s' : S) → done a s' → Ends good bad (f (ok a) s'))
      → ((e : E) (s' : S) → failed e s' → Ends good bad (f (err e) s'))
      → Ends good bad (match_result m f s)
  unfolding match_result
  match_result-Ends m f {s = s} {done = done} {failed = failed} {good = good} {bad = bad} h next
        caught =
      record { holds = with_result-After done failed good bad f (m s) h.holds next caught }

  with_error-After :
      {E E' A : Type 0} (good : A → S → Type 0) (bad : E' → S → Type 0)
      → (f : E → E') (x : Result E A × S) → After good (λ e. bad (f e)) x
      → After good bad (with_error f x)
  with_error-After good bad f (ok a, s) h = h
  with_error-After good bad f (err e, s) h = h

  pub map_err-Ends :
      {E E' A : Type 0} (g : E → E') (m : Act S E A) {s : S} {good : A → S → Type 0}
      → {bad : E' → S → Type 0} → Ends good (λ e. bad (g e)) (m s)
      → Ends good bad (map_err g m s)
  unfolding map_err
  map_err-Ends g m {s = s} {good = good} {bad = bad} h = record {
    holds = with_error-After good bad g (m s) h.holds;
  }

  -- What an operation keeps, whether it fails or not.
  abbrev pub Keeps : {E A : Type 0} → (S → Type 0) → Result E A × S → Type 0
  Keeps I x = Ends (λ a. I) (λ e. I) x

  weaken :
      {E A : Type 0} (good good' : A → S → Type 0) (bad bad' : E → S → Type 0)
      → (x : Result E A × S) → ((a : A) (s : S) → good a s → good' a s)
      → ((e : E) (s : S) → bad e s → bad' e s)
      → After good bad x
      → After good' bad' x
  weaken good good' bad bad' (ok a, s) f g h = f a s h
  weaken good good' bad bad' (err e, s) f g h = g e s h

  pub Ends-weaken :
      {E A : Type 0} {good good' : A → S → Type 0} {bad bad' : E → S → Type 0}
      → {x : Result E A × S} → ((a : A) (s : S) → good a s → good' a s)
      → ((e : E) (s : S) → bad e s → bad' e s)
      → Ends good bad x
      → Ends good' bad' x
  Ends-weaken {good = good} {good' = good'} {bad = bad} {bad' = bad'} {x = x} f g h = record {
    holds = weaken good good' bad bad' x f g h.holds;
  }

  -- What holds of the end of an operation holds where the end is known.
  pub Ends-ok :
      {E A : Type 0} {good : A → S → Type 0} {bad : E → S → Type 0} {x : Result E A × S}
      → (a : A) (s : S) → x ≡ (ok a, s)
      → Ends good bad x
      → good a s
  Ends-ok a s same h = rw same at h.holds

  kept_state :
      {E A : Type 0} (I : S → Type 0) (x : Result E A × S) → After (λ a. I) (λ e. I) x → I x.1
  kept_state I (ok a, s) h = h
  kept_state I (err e, s) h = h

  pub Keeps-state : {E A : Type 0} {I : S → Type 0} (x : Result E A × S) → Keeps I x → I x.1
  Keeps-state {I = I} x h = kept_state I x h.holds

  -- Of every end.
  pub anyhow : {E A : Type 0} (x : Result E A × S) → Keeps (λ s. Unit) x
  anyhow (ok a, s) = record { holds = tt }
  anyhow (err e, s) = record { holds = tt }
