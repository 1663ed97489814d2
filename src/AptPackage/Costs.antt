-- ===== src/AptPackage/Costs.antt =====
-- How many commands an operation runs, and how the bounds of its parts add up.
use bonsun.Base.{ℕ, ◌+◌, ◌≤◌, ◌≡◌, refl, Bool, true, false, if◌then◌else◌, arith}
use bonsun.Effects.{
  Result, ok, err, Act, pure, throw, ◌>>=◌, and_then, match_result, map_err, with_error,
}

module _ {W : Type 0} (calls : W → ℕ) where
  -- The operation runs at most so many commands, whether it fails or not.
  pub record Costs {E A : Type 0} (n : ℕ) (m : Act W E A) : Type 0 where
    pub costs : (w : W) → calls (m w).1 ≤ calls w + n

  pub pure-Costs : {E A : Type 0} (a : A) → Costs {E = E} 0 (pure a)
  pure-Costs a = record { costs = λ w. ground arith }

  pub throw-Costs : {E A : Type 0} (e : E) → Costs {A = A} 0 (throw e)
  throw-Costs e = record { costs = λ w. ground arith }

  pub free : {E A : Type 0} (m : Act W E A) → ((w : W) → calls (m w).1 ≤ calls w) → Costs 0 m
  free m h = record { costs = λ w. omega (arith, h w) }

  pub weaken : {E A : Type 0} {m : Act W E A} (j k : ℕ) → j ≤ k → Costs j m → Costs k m
  weaken j k le h = record { costs = λ w. omega (arith, le, h.costs w) }

  and_then-calls :
      {E A B : Type 0} (k : ℕ) (x : Result E A × W) (f : A → Act W E B)
      → ((a : A) → Costs k (f a))
      → calls (and_then x f).1 ≤ calls x.1 + k
  and_then-calls k (ok a, w) f h = (h a).costs w
  and_then-calls k (err e, w) f h = omega arith

  pub bind-Costs :
      {E A B : Type 0} {m : Act W E A} {f : A → Act W E B} (j k : ℕ)
      → Costs j m
      → ((a : A) → Costs k (f a))
      → Costs (j + k) (m >>= f)
  unfolding ◌>>=◌
  bind-Costs {m = m} {f = f} j k h next = record {
    costs = λ w. omega (arith, h.costs w, and_then-calls k (m w) f next);
  }

  -- What runs no command, before and behind what runs some.
  pub free_before :
      {E A B : Type 0} {m : Act W E A} {f : A → Act W E B} (k : ℕ)
      → Costs 0 m
      → ((a : A) → Costs k (f a))
      → Costs k (m >>= f)
  free_before k h next = weaken (0 + k) k (omega arith) (bind-Costs 0 k h next)

  pub free_behind :
      {E A B : Type 0} {m : Act W E A} {f : A → Act W E B} (k : ℕ)
      → Costs k m
      → ((a : A) → Costs 0 (f a))
      → Costs k (m >>= f)
  free_behind k h next = weaken (k + 0) k (omega arith) (bind-Costs k 0 h next)

  pub match_result-Costs :
      {E E' A B : Type 0} {m : Act W E A} {f : Result E A → Act W E' B} (j k : ℕ)
      → Costs j m
      → ((r : Result E A) → Costs k (f r))
      → Costs (j + k) (match_result m f)
  unfolding match_result
  match_result-Costs {m = m} {f = f} j k h next = record {
    costs = λ w. omega (arith, h.costs w, (next (m w).0).costs (m w).1);
  }

  with_error-calls :
      {E E' A : Type 0} (g : E → E') (x : Result E A × W) → calls (with_error g x).1 ≡ calls x.1
  with_error-calls g (ok a, w) = refl
  with_error-calls g (err e, w) = refl

  pub map_err-Costs :
      {E E' A : Type 0} {m : Act W E A} (g : E → E') (k : ℕ) → Costs k m → Costs k (map_err g m)
  unfolding map_err
  map_err-Costs {m = m} g k h = record {
    costs = λ w. omega (arith, h.costs w, with_error-calls g (m w));
  }

  pub if-Costs :
      {E A : Type 0} {m m' : Act W E A} (b : Bool) (k : ℕ)
      → Costs k m
      → Costs k m'
      → Costs k (if b then m else m')
  if-Costs true k h h' = h
  if-Costs false k h h' = h'
