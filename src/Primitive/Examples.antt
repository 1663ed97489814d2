-- ===== src/Primitive/Examples.antt =====
-- Tests for the contract of a primitive.
use bonsun.Base.{◌≡◌, refl, true, false, [], some, codes, text_eq, contains}
use bonsun.Primitive.{ℤ, is_deferrable, dpkg_locked, cancelled, record_changed, is_changed}

deferrable_errors :
    (is_deferrable (dpkg_locked (some (ℤ.pos 42))) ≡ true) × (is_deferrable cancelled ≡ false)
unfolding is_deferrable
deferrable_errors = (refl, refl)

recorded :
    is_changed
      (record_changed (record { changed_resources = []; world = tt }) (codes "a"))
      (codes "a")
    ≡ true
unfolding is_changed record_changed contains text_eq
recorded = refl
