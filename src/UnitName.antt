-- ===== src/UnitName.antt =====
-- bosun-core/src/unit_name.rs: names of units that are safe in paths and URLs.
mod Safety
mod Examples
use bonsun.Base.{
  ℕ, suc, ◌+◌, ◌-◌, ◌*◌, Bool, ◌&&◌, ◌||◌, not, List, [], ◌∷◌, Text, length, ltb, leb, ◌==◌,
  if◌then◌else◌,
}

pub data UnitNameError : Type 0 where
  empty : UnitNameError
  too_long : (len : ℕ) → UnitNameError
  invalid_char : (input : Text) (offset ch : ℕ) → UnitNameError
  bad_first_char : (input : Text) (ch : ℕ) → UnitNameError

pub data Result (A : Type 0) : Type 0 where
  ok : A → Result A
  err : UnitNameError → Result A

abbrev pub unit_name_max_bytes : ℕ
unit_name_max_bytes = 255

abbrev between : ℕ → ℕ → ℕ → Bool
between low high b = leb low b && leb b high

-- `is_alphanumeric_ascii`
unfoldable pub is_alphanumeric_ascii : ℕ → Bool
is_alphanumeric_ascii c = between b'a' b'z' c || (between b'A' b'Z' c || between b'0' b'9' c)

-- `is_allowed_byte`
unfoldable pub is_allowed_byte : ℕ → Bool
is_allowed_byte b =
    between b'a' b'z' b
    || (between b'A' b'Z' b
        || (between b'0' b'9' b || (b == b'.' || (b == b'_' || (b == b'@' || b == b'-')))))

-- The value of a byte that continues a character of UTF-8.
abbrev continued : ℕ → Text → ℕ
continued acc [] = acc
continued acc (b ∷ bs) = acc * 64 + (b - 128)

abbrev behind : Text → Text
behind [] = []
behind (b ∷ bs) = bs

-- `str::chars` up to the first character, or `unwrap_or('?')`: UTF-8 with one to four bytes.
unfoldable pub first_char : Text → ℕ
first_char [] = b'?'
first_char (b ∷ bs) =
    if ltb b 128
    then b
    else if ltb b 224
    then continued (b - 192) bs
    else if ltb b 240
    then continued (continued (b - 224) bs) (behind bs)
    else continued (continued (continued (b - 240) bs) (behind bs)) (behind (behind bs))

-- The loop over the bytes: `rest` is `s[offset..]`.
unfoldable pub check_bytes : (input rest : Text) (offset : ℕ) → Result Unit
check_bytes input [] offset = ok tt
check_bytes input (b ∷ rest) offset =
    if not (is_allowed_byte b)
    then err (invalid_char input offset (first_char (b ∷ rest)))
    else check_bytes input rest (suc offset)

-- `validate`
unfoldable pub validate : Text → Result Unit
validate [] = err empty
validate (b ∷ bs) =
    if ltb unit_name_max_bytes (length (b ∷ bs))
    then err (too_long (length (b ∷ bs)))
    else if not (is_alphanumeric_ascii (first_char (b ∷ bs)))
    then err (bad_first_char (b ∷ bs) (first_char (b ∷ bs)))
    else check_bytes (b ∷ bs) (b ∷ bs) 0

abbrev named : Text → Result Unit → Result Text
named raw (ok _) = ok raw
named raw (err e) = err e

-- `UnitName::new`; a name is its text.
unfoldable pub new : Text → Result Text
new raw = named raw (validate raw)
