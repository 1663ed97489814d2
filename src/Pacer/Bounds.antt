-- ===== src/Pacer/Bounds.antt =====
-- The bounds of the pause between resources (bosun-core/src/pacer.rs).
use native.Mathlib.Nat.{div-add-mod, mod-lt, mul-le-mul_left}
use bonsun.Base.{
  ℕ, zero, suc, ◌+◌, ◌-◌, ◌*◌, ◌/◌, ◌≤◌, ◌<◌, ◌≡◌, ◌⊎◌, inl, inr, true, false, arith, sym,
  Bool-cases, ◌==◌,
}
use bonsun.Pacer.{PacerConfig, is_enabled, interval_for, u32_max}

-- An enabled pacer pauses at least the minimum, and at most the maximum unless that is below the
-- minimum, which then is the pause.
pub interval_for_bounds :
    (c : PacerConfig) (n : ℕ)
    → is_enabled c ≡ true
    → 0 < n
    → (c.min_interval ≤ interval_for c n)
      × (c.min_interval ≤ c.max_interval → interval_for c n ≤ c.max_interval)
      × (c.max_interval < c.min_interval → interval_for c n ≡ c.min_interval)
unfolding interval_for
interval_for_bounds c n on pos = (ground arith, ground arith, ground arith)

-- The division of the target, rounded down, leaves room for a pause less than the resources.
division_fits : (t n x : ℕ) → x ≤ t / suc n → n * x ≤ t
division_fits t n x below = omega (arith, mul-le-mul_left n below, div-add-mod t (suc n))

zero_div : (n : ℕ) → 0 / suc n ≡ 0
zero_div n = omega arith

interval_for_cases :
    (c : PacerConfig) (n : ℕ)
    → suc n ≤ u32_max
    → ((interval_for c (suc n) ≤ c.target / suc n)
        × ((interval_for c (suc n) ≡ c.target / suc n) ⊎ (interval_for c (suc n) ≡ c.max_interval)))
      ⊎ (interval_for c (suc n) ≡ c.min_interval)
unfolding interval_for is_enabled
interval_for_cases c n small = elim (Bool-cases (c.target == 0)) [
  | inl off ↦
      let none : c.target ≡ 0 = ground (arith, off) in
      rw none (inl (omega arith, inl (sym (zero_div n))))
  | inr on ↦ ground (arith, on)
]

pub less_one : (n : ℕ) → suc n - 1 ≡ n
less_one n = omega arith

-- The pauses of `n` resources, of which the first has none, and what they should come to: no more than the
-- target, and less by no more than one pause and a nanosecond for each resource unless the pause is the maximum.
abbrev pub Fills : PacerConfig → (n interval : ℕ) → Type 0
Fills c n interval =
    ((n - 1) * interval ≤ c.target)
    × ((c.target < (n - 1) * interval + interval + n) ⊎ (interval ≡ c.max_interval))

above_zero : (n : ℕ) → 0 < suc n
above_zero n = omega arith

filled : (t n : ℕ) → t < n * (t / suc n) + t / suc n + suc n
filled t n = omega (arith, div-add-mod t (suc n), mod-lt t (above_zero n))

filled_by : (t n x : ℕ) → x ≡ t / suc n → t < n * x + x + suc n
filled_by t n x same = rw same (filled t n)

-- The pauses fill the target, unless the pause is the minimum.
pub interval_for-Fills :
    (c : PacerConfig) (n : ℕ)
    → 0 < n
    → n ≤ u32_max
    → Fills c n (interval_for c n) ⊎ (interval_for c n ≡ c.min_interval)
interval_for-Fills c zero pos small = absurd (omega (arith, pos))
interval_for-Fills c (suc n) pos small = elim (interval_for_cases c n small) [
  | inr least ↦ inr least
  | inl (below, inl even) ↦ inl (
      rw (less_one n) (
        division_fits c.target n (interval_for c (suc n)) below,
        inl (filled_by c.target n (interval_for c (suc n)) even),
      ))
  | inl (below, inr most) ↦
      inl (rw (less_one n) (division_fits c.target n (interval_for c (suc n)) below, inr most))
]

-- The pacer is off exactly where the target is zero: then no pause is made, whatever the bounds.
pub interval_for-disabled :
    (c : PacerConfig) (n : ℕ) → is_enabled c ≡ false → (c.target ≡ 0) × (interval_for c n ≡ 0)
unfolding interval_for
interval_for-disabled c n off = ground arith
