-- ===== src/Paths/Components.antt =====
-- `std::path` on Unix: the components of a path.
use bonsun.Base.{
  ℕ, ◌≡◌, Bool, true, false, ◌&&◌, List, [], ◌∷◌, ◌++◌, Text, text_eq, text_eq_refl, text_eq_iff,
  codes, any, ◌==◌, if◌then◌else◌, refl, arith,
}

-- `Component`, less the prefix, which Windows has.
pub data Component : Type 0 where
  root_dir cur_dir parent_dir : Component
  normal : Text → Component

abbrev first_segment : ℕ → List Text → List Text
first_segment c [] = (c ∷ []) ∷ []
first_segment c (s ∷ ss) = (c ∷ s) ∷ ss

-- What stands between the separators.
unfoldable pub segments : Text → List Text
segments [] = [] ∷ []
segments (c ∷ cs) = let rest = segments cs in if c == b'/' then [] ∷ rest else first_segment c rest

abbrev component_of : Text → List Component
component_of s =
    if text_eq s []
    then []
    else if text_eq s (codes ".")
    then []
    else if text_eq s (codes "..")
    then parent_dir ∷ []
    else normal s ∷ []

unfoldable pub of_segments : List Text → List Component
of_segments [] = []
of_segments (s ∷ ss) = component_of s ++ of_segments ss

abbrev leading : List Text → List Component
leading [] = []
leading (s ∷ ss) = if text_eq s (codes ".") then cur_dir ∷ of_segments ss else of_segments (s ∷ ss)

-- `is_absolute`
abbrev pub is_absolute : Text → Bool
is_absolute [] = false
is_absolute (c ∷ cs) = c == b'/'

-- `Path::components`
unfoldable pub components : Text → List Component
components p = if is_absolute p then root_dir ∷ of_segments (segments p) else leading (segments p)

abbrev is_parent_dir : Component → Bool
is_parent_dir parent_dir = true
is_parent_dir _ = false

-- `has_parent_dir_segment`
abbrev pub has_parent_dir_segment : Text → Bool
has_parent_dir_segment p = any is_parent_dir (components p)

abbrev component_eq : Component → Component → Bool
component_eq root_dir root_dir = true
component_eq cur_dir cur_dir = true
component_eq parent_dir parent_dir = true
component_eq (normal s) (normal t) = text_eq s t
component_eq _ _ = false

unfoldable pub is_prefix : List Component → List Component → Bool
is_prefix [] cs = true
is_prefix (b ∷ bs) [] = false
is_prefix (b ∷ bs) (c ∷ cs) = component_eq b c && is_prefix bs cs

-- `Path::starts_with`, and `==` of paths.
abbrev pub path_starts_with : (path base : Text) → Bool
path_starts_with path base = is_prefix (components base) (components path)

abbrev pub path_eq : Text → Text → Bool
path_eq p q = is_prefix (components p) (components q) && is_prefix (components q) (components p)

abbrev ends_with_slash : Text → Bool
ends_with_slash [] = true
ends_with_slash (c ∷ []) = c == b'/'
ends_with_slash (c ∷ d ∷ cs) = ends_with_slash (d ∷ cs)

-- `Path::join`
abbrev pub path_join : Text → Text → Text
path_join root rel =
    if is_absolute rel
    then rel
    else if ends_with_slash root
    then root ++ rel
    else root ++ (b'/' ∷ rel)

component_eq_sound : (b c : Component) → component_eq b c ≡ true → b ≡ c
component_eq_sound root_dir root_dir h = refl
component_eq_sound cur_dir cur_dir h = refl
component_eq_sound parent_dir parent_dir h = refl
component_eq_sound (normal s) (normal t) h = rw ((text_eq_iff s t).0 h) refl
component_eq_sound b c h = absurd cc

pub is_prefix-append :
    (bs cs : List Component) → is_prefix bs cs ≡ true → (rest : List Component) × (cs ≡ bs ++ rest)
unfolding is_prefix
is_prefix-append [] cs h = (cs, refl)
is_prefix-append (b ∷ bs) [] h = absurd cc
is_prefix-append (b ∷ bs) (c ∷ cs) h =
    let first : component_eq b c ≡ true = ground (arith, h) in
    let head : b ≡ c = component_eq_sound b c first in
    let (rest, same) = is_prefix-append bs cs (ground (arith, h)) in (rest, cc)

component_eq_refl : (c : Component) → component_eq c c ≡ true
component_eq_refl root_dir = refl
component_eq_refl cur_dir = refl
component_eq_refl parent_dir = refl
component_eq_refl (normal s) = text_eq_refl s

is_prefix_refl : (cs : List Component) → is_prefix cs cs ≡ true
unfolding is_prefix
is_prefix_refl [] = refl
is_prefix_refl (c ∷ cs) = rw (component_eq_refl c, is_prefix_refl cs) refl

pub path_eq_refl : (p : Text) → path_eq p p ≡ true
path_eq_refl p = rw (is_prefix_refl (components p)) refl
