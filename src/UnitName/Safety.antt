-- ===== src/UnitName/Safety.antt =====
-- What a name that passed its validation holds (bosun-core/src/unit_name.rs).
use bonsun.Base.{ℕ, suc, ◌≤◌, ◌≡◌, ◌≢◌, ◌↔◌, ◌<◌, refl, true, [], ◌∷◌, Text, All, length, arith}
use bonsun.UnitName.{
  ok, is_allowed_byte, is_alphanumeric_ascii, first_char, check_bytes, validate,
  unit_name_max_bytes,
}

abbrev pub IsAllowed : ℕ → Type 0
IsAllowed b = is_allowed_byte b ≡ true

check_bytes-ok :
    (input s : Text) (offset : ℕ) → check_bytes input s offset ≡ ok tt → All IsAllowed s
unfolding check_bytes
check_bytes-ok input [] offset h = tt
check_bytes-ok input (b ∷ s) offset h =
    (ground (arith, h), check_bytes-ok input s (suc offset) (ground (arith, h)))

check_bytes_of_allowed :
    (input s : Text) (offset : ℕ) → All IsAllowed s → check_bytes input s offset ≡ ok tt
unfolding check_bytes
check_bytes_of_allowed input [] offset h = refl
check_bytes_of_allowed input (b ∷ s) offset h =
    ground (arith, h.0, check_bytes_of_allowed input s (suc offset) h.1)

-- A name is accepted exactly if it is not empty, has at most 255 bytes, starts with an ASCII letter or
-- digit, and consists of allowed bytes.
pub validate_iff :
    (s : Text)
    → (validate s ≡ ok tt) ↔ (
        (s ≢ [])
        × (length s ≤ unit_name_max_bytes)
        × (is_alphanumeric_ascii (first_char s) ≡ true)
        × All IsAllowed s)
unfolding validate
validate_iff [] = (λ h. absurd (ground (arith, h)), λ h. absurd (h.0 refl))
validate_iff (b ∷ s) = (
  λ h. (
    λ e. ground (arith, e),
    ground arith,
    ground arith,
    check_bytes-ok (b ∷ s) (b ∷ s) 0 (ground arith),
  ),
  λ h. ground (arith, h.1, h.2, check_bytes_of_allowed (b ∷ s) (b ∷ s) 0 h.3),
)

-- Free of separators, blanks, controls and what has a meaning in a URL.
abbrev pub IsHarmless : ℕ → Type 0
IsHarmless b = (32 < b) × (b < 127) × (b ≢ b'/') × (b ≢ b'?') × (b ≢ b'#') × (b ≢ b'%')
