-- ===== src/AptPackage/Texts.antt =====
-- What bosun-primitives/src/apt_package calls of `str`, and the excerpt of a long text (recovery.rs).
use bonsun.Base.{
  ℕ, zero, suc, ◌-◌, Bool, true, false, ◌&&◌, ◌||◌, List, [], ◌∷◌, ◌++◌, Text, codes, length, join,
  leb, ◌==◌, if◌then◌else◌,
}
use bonsun.Defers.Journal.{decimal}

-- `str::starts_with` and `str::contains`
abbrev pub starts_with : Text → Text → Bool
starts_with [] s = true
starts_with (p ∷ ps) [] = false
starts_with (p ∷ ps) (c ∷ cs) = p == c && starts_with ps cs

unfoldable pub has_text : Text → Text → Bool
has_text p [] = starts_with p []
has_text p (c ∷ cs) = starts_with p (c ∷ cs) || has_text p cs

abbrev first_line : ℕ → List Text → List Text
first_line c [] = (c ∷ []) ∷ []
first_line c (l ∷ ls) = (c ∷ l) ∷ ls

-- `str::lines`: a line ends with LF or CR LF, the last one also without.
unfoldable pub lines : Text → List Text
lines [] = []
lines (c ∷ cs) =
    let rest = lines cs in
    if c == 10
    then [] ∷ rest
    else if c == 13 && starts_with (10 ∷ []) cs
    then rest
    else first_line c rest

abbrev take : ℕ → List Text → List Text
take zero xs = []
take (suc n) [] = []
take (suc n) (x ∷ xs) = x ∷ take n xs

abbrev skip : ℕ → List Text → List Text
skip zero xs = xs
skip (suc n) [] = []
skip (suc n) (x ∷ xs) = skip n xs

abbrev elided : List Text → Text
elided ls =
    join (10 ∷ []) (take 10 ls)
    ++ codes "\n... ["
    ++ decimal (length ls - 20)
    ++ codes " lines elided] ...\n"
    ++ join (10 ∷ []) (skip (length ls - 10) ls)

-- `stderr_excerpt`
unfoldable pub stderr_excerpt : Text → Text
stderr_excerpt stderr = if leb (length (lines stderr)) 20 then stderr else elided (lines stderr)
