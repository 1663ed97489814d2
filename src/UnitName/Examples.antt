-- ===== src/UnitName/Examples.antt =====
-- Names of units that are accepted, and one that is not.
use bonsun.Base.{◌≡◌, ◌≢◌, ◌↔◌, ◌≤◌, refl, true, [], ◌∷◌, Text, All, length, codes}
use bonsun.UnitName.{
  invalid_char, ok, err, validate, check_bytes, is_allowed_byte, is_alphanumeric_ascii, first_char,
  unit_name_max_bytes,
}
use bonsun.UnitName.Safety.{IsAllowed, validate_iff}

abbrev nginx : Text
nginx = codes "nginx@1.service"

-- `é` is reported as a character, at the offset of its first byte.
accent_run : validate (b'a' ∷ 195 ∷ 169 ∷ []) ≡ err (invalid_char (b'a' ∷ 195 ∷ 169 ∷ []) 1 233)
unfolding validate check_bytes is_allowed_byte is_alphanumeric_ascii first_char
accent_run = refl

validate_iff_example : (validate nginx ≡ ok tt) ↔ (
    (nginx ≢ [])
    × (length nginx ≤ unit_name_max_bytes)
    × (is_alphanumeric_ascii (first_char nginx) ≡ true)
    × All IsAllowed nginx)
validate_iff_example = validate_iff nginx
