-- ===== src/Inventory/Lookup/Paths.antt =====
-- What a dotted path of an inventory leads to (bosun-core/src/inventory.rs).
use bonsun.Base.{
  ◌≡◌, refl, ap, append_assoc, ◌∙◌, false, List, [], ◌∷◌, ◌++◌, Text, All, join, codes, ◌==◌, some,
}
use bonsun.Inventory.{Value, Fields, object, ok, get_field}
use bonsun.Inventory.Lookup.{split, follow, get_path}

-- A segment without dots.
abbrev pub IsSegment : Text → Type 0
IsSegment s = All (λ c. (c == b'.') ≡ false) s

split-segment : (s : Text) → IsSegment s → split s ≡ s ∷ []
unfolding split
split-segment [] h = refl
split-segment (c ∷ s) h = rw (h.0, split-segment s h.1)

split-append : (s rest : Text) → IsSegment s → split (s ++ (b'.' ∷ rest)) ≡ s ∷ split rest
unfolding split
split-append [] rest h = refl
split-append (c ∷ s) rest h = rw (h.0, split-append s rest h.1)

-- Segments without dots are what `split` gives of the path that joins them.
split-join :
    (s : Text) (ss : List Text)
    → All IsSegment (s ∷ ss)
    → split (join (codes ".") (s ∷ ss)) ≡ s ∷ ss
unfolding join
split-join s [] h = split-segment s h.0
split-join s (t ∷ ss) h =
    ap split (append_assoc s (codes ".") (join (codes ".") (t ∷ ss)))
    ∙ split-append s (join (codes ".") (t ∷ ss)) h.0
    ∙ ap (λ x. s ∷ x) (split-join t ss h.1)

-- The value at the end of a way from map to map.
pub data IsAt : List Text → Value → Value → Type 0 where
  here : (v : Value) → IsAt [] v v
  below :
      (s : Text) (ss : List Text) (fs : Fields) (v w : Value)
      → get_field s fs ≡ some v
      → IsAt ss v w
      → IsAt (s ∷ ss) (object fs) w

follow-IsAt : (path : Text) (ss : List Text) (v w : Value) → IsAt ss v w → follow path ss v ≡ ok w
unfolding follow
follow-IsAt path [] v w (here _) = refl
follow-IsAt path (s ∷ ss) v w (below _ _ fs u _ found rest) =
    rw (found, follow) (follow-IsAt path ss u w rest)

-- A dotted path leads to the value at the end of its segments, if they have no dots.
pub get_path-join :
    (s : Text) (ss : List Text) (root w : Value)
    → All IsSegment (s ∷ ss)
    → IsAt (s ∷ ss) root w
    → get_path root (join (codes ".") (s ∷ ss)) ≡ ok w
unfolding get_path
get_path-join s ss root w segments at =
    rw (split-join s ss segments) (follow-IsAt _ (s ∷ ss) root w at)
