-- ===== src/Base/Counts.antt =====
-- How often a text stands in a list, and what counts say of lengths.
use Prim.Native.Nat.{ℕ, suc, ◌+◌, ◌≤◌, ◌<◌}
use mathlib.Core.Path.{◌≡◌, refl}
use mathlib.Core.Logic.{inl, inr}
use mathlib.Core.Bool.{Bool, true, false, ◌||◌}
use mathlib.Core.List.{List, [], ◌∷◌, ◌++◌}
use native.Mathlib.Omega.{arith}
use bonsun.Base.Tests.{Bool-cases, if◌then◌else◌}
use bonsun.Base.Lists.{length}
use bonsun.Base.Texts.{Text, text_eq, text_eq_refl, text_eq_iff}

-- `contains` of a set or a vector.
unfoldable pub contains : List Text → Text → Bool
contains [] v = false
contains (x ∷ xs) v = text_eq x v || contains xs v

-- 1 if the texts are equal.
abbrev pub hit : Text → Text → ℕ
hit x v = if text_eq x v then 1 else 0

abbrev pub count : Text → List Text → ℕ
count v [] = 0
count v (x ∷ xs) = hit x v + count v xs

pub hit_self : (v : Text) → hit v v ≡ 1
hit_self v = rw (text_eq_refl v)

pub count-append : (v : Text) (xs ys : List Text) → count v (xs ++ ys) ≡ count v xs + count v ys
count-append v [] ys = omega arith
count-append v (x ∷ xs) ys = omega (arith, count-append v xs ys)

pub contains→count : (xs : List Text) (v : Text) → contains xs v ≡ true → 0 < count v xs
unfolding contains
contains→count [] v h = cc
contains→count (x ∷ xs) v h = ground (arith, contains→count xs v)

pub count→contains : (xs : List Text) (v : Text) → 0 < count v xs → contains xs v ≡ true
unfolding contains
count→contains [] v h = elim h [ ]
count→contains (x ∷ xs) v h = ground (arith, count→contains xs v)

-- Removes the first occurrence.
erase : Text → List Text → List Text
erase v [] = []
erase v (x ∷ xs) = let rest = x ∷ erase v xs in if text_eq x v then xs else rest

length-erase : (v : Text) (xs : List Text) → 0 < count v xs → length xs ≡ suc (length (erase v xs))
unfolding erase
length-erase v [] h = elim h [ ]
length-erase v (x ∷ xs) h = ground (arith, length-erase v xs)

hit_trans : (x v w : Text) → text_eq x v ≡ true → hit x w ≡ hit v w
hit_trans x v w h = rw ((text_eq_iff x v).0 h)

count-erase :
    (v w : Text) (xs : List Text) → 0 < count v xs → count w xs ≡ hit v w + count w (erase v xs)
unfolding erase
count-erase v w [] h = elim h [ ]
count-erase v w (x ∷ xs) h = elim (Bool-cases (text_eq x v)) [
  | inl same ↦ rw (same, (text_eq_iff x v).0 same)
  | inr other ↦ rw other (omega (arith, count-erase v w xs (ground arith)))
]

-- Where one list holds no text more often than another, it is no longer than it.
pub length_le_of_count :
    (xs ys : List Text) → ((v : Text) → count v xs ≤ count v ys) → length xs ≤ length ys
length_le_of_count [] ys h = omega arith
length_le_of_count (x ∷ xs) ys h =
    let there : 0 < count x ys = omega (arith, h x, hit_self x) in
    omega (
      arith,
      length-erase x ys there,
      length_le_of_count xs (erase x ys) (λ v. omega (arith, h v, count-erase x v ys there)),
    )

-- If it is also as long, the counts agree: each list is a permutation of the other.
pub count_eq_of_length :
    (xs ys : List Text)
    → ((v : Text) → count v xs ≤ count v ys)
    → length xs ≡ length ys
    → (v : Text) → count v xs ≡ count v ys
count_eq_of_length [] [] h e v = refl
count_eq_of_length [] (y ∷ ys) h e v = absurd (omega arith)
count_eq_of_length (x ∷ xs) ys h e v =
    let there : 0 < count x ys = omega (arith, h x, hit_self x) in
    omega (
      arith,
      count-erase x v ys there,
      count_eq_of_length xs (erase x ys) (λ w. omega (arith, h w, count-erase x w ys there))
          (omega (arith, length-erase x ys there)) v,
    )
