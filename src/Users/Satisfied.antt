-- ===== src/Users/Satisfied.antt =====
-- What it means for a user that no change is left to make (bosun-primitives/src/users_user/plan.rs).
use bonsun.Base.{
  ℕ, ◌≡◌, refl, sym, ◌∙◌, true, false, List, [], ◌∷◌, Option, none, some, Text, text_eq,
  text_eq_iff, text_eq_refl, ap, not, Bool-cases, inl, inr, arith,
}
use bonsun.Paths.Components.{path_eq}
use bonsun.Users.{
  UserState, present, absent, UserSpec, UserInfo, FieldDiff, no_change, number_differs,
  text_differs, path_differs, collect_diffs, update_unless_empty, decide_in,
}
use bonsun.Users.Diffs.{differs, collect_diffs-listed}

-- A field has the value that is asked for, if one is.
abbrev pub Has : {A : Type 0} → Option A → A → Type 0
Has none a = Unit
Has (some b) a = a ≡ b

-- The same for a path, by its components.
abbrev pub HasPath : Option Text → Text → Type 0
HasPath none p = Unit
HasPath (some q) p = path_eq q p ≡ true

abbrev pub Satisfies : UserSpec → UserInfo → Type 0
Satisfies spec info =
    Has spec.uid info.uid
    × Has spec.group info.primary_group_name
    × Has spec.shell info.shell
    × HasPath spec.home info.home
    × Has spec.comment info.comment

-- What the states ask of the user that is found.
abbrev pub Reached : UserSpec → UserState → Option UserInfo → Type 0
Reached spec present found = (info : UserInfo) × (found ≡ some info) × Satisfies spec info
Reached spec absent found = found ≡ none

number_Has : (o : Option ℕ) (n : ℕ) → number_differs o n ≡ false → Has o n
number_Has none n h = tt
number_Has (some m) n h = ground (arith, h)

text_Has : (o : Option Text) (t : Text) → text_differs o t ≡ false → Has o t
text_Has none t h = tt
text_Has (some s) t h = elim (Bool-cases (text_eq s t)) [
  | inl same ↦ sym ((text_eq_iff s t).0 same)
  | inr other ↦ absurd (ground (arith, h, other))
]

path_HasPath : (o : Option Text) (p : Text) → path_differs o p ≡ false → HasPath o p
path_HasPath none p h = tt
path_HasPath (some q) p h = elim (Bool-cases (path_eq q p)) [
  | inl same ↦ same
  | inr other ↦ absurd (ground (arith, h, other))
]

-- A field that has the value does not differ.
pub number_differs-Has : (o : Option ℕ) (n : ℕ) → Has o n → number_differs o n ≡ false
number_differs-Has none n h = refl
number_differs-Has (some m) n h = ground (arith, h)

pub text_differs-Has : (o : Option Text) (t : Text) → Has o t → text_differs o t ≡ false
text_differs-Has none t h = refl
text_differs-Has (some s) t h = rw (h, text_eq_refl s) refl

pub path_differs-HasPath : (o : Option Text) (p : Text) → HasPath o p → path_differs o p ≡ false
path_differs-HasPath none p h = refl
path_differs-HasPath (some q) p h = ap not h

no_diff :
    (spec : UserSpec) (info : UserInfo)
    → collect_diffs spec info ≡ []
    → (d : FieldDiff) → differs spec info d ≡ false
no_diff spec info same d = sym (collect_diffs-listed spec info d) ∙ rw same refl

collect_diffs-Satisfies :
    (spec : UserSpec) (info : UserInfo) → collect_diffs spec info ≡ [] → Satisfies spec info
collect_diffs-Satisfies spec info same = (
  number_Has spec.uid info.uid (no_diff spec info same FieldDiff.uid),
  text_Has spec.group info.primary_group_name (no_diff spec info same FieldDiff.group),
  text_Has spec.shell info.shell (no_diff spec info same FieldDiff.shell),
  path_HasPath spec.home info.home (no_diff spec info same FieldDiff.home),
  text_Has spec.comment info.comment (no_diff spec info same FieldDiff.comment),
)

empty_of_no_change : (ds : List FieldDiff) → update_unless_empty ds ≡ no_change → ds ≡ []
empty_of_no_change [] h = refl
empty_of_no_change (d ∷ ds) h = absurd cc

-- Where the plan is to change nothing, the user is as the specification asks.
pub decide_in-Reached :
    (spec : UserSpec) (state : UserState) (found : Option UserInfo)
    → decide_in spec state found ≡ no_change
    → Reached spec state found
decide_in-Reached spec present none h = absurd cc
decide_in-Reached spec present (some info) h =
    (info, refl, collect_diffs-Satisfies spec info (empty_of_no_change (collect_diffs spec info) h))
decide_in-Reached spec absent none h = refl
decide_in-Reached spec absent (some info) h = absurd cc
