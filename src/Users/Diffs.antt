-- ===== src/Users/Diffs.antt =====
-- What the differences of a user and the options of usermod have to do with each other
-- (bosun-primitives/src/users_user).
use bonsun.Base.{
  ℕ, ◌≡◌, refl, ◌∙◌, Bool, true, false, ◌||◌, List, [], ◌∷◌, ◌++◌, Option, none, some, Text,
  text_eq_refl, if◌then◌else◌, arith, ap, not, Bool-cases, inl, inr,
}
use bonsun.Paths.Components.{path_eq, path_eq_refl}
use bonsun.Users.{
  UserSpec, UserInfo, FieldDiff, number_differs, text_differs, path_differs, diff_if, collect_diffs,
  UserModOpts, apply_diffs, build_usermod_opts,
}

-- `usermod` changes what its options set.
abbrev pub or_kept : {A : Type 0} → Option A → A → A
or_kept none a = a
or_kept (some b) a = b

abbrev pub modified : UserModOpts → UserInfo → UserInfo
modified opts info = record info {
  uid = or_kept opts.uid info.uid;
  primary_group_name = or_kept opts.group info.primary_group_name;
  shell = or_kept opts.shell info.shell;
  home = or_kept opts.home info.home;
  comment = or_kept opts.comment info.comment;
}

-- The tests of `collect_diffs`, by field.
abbrev pub differs : UserSpec → UserInfo → FieldDiff → Bool
differs spec info FieldDiff.uid = number_differs spec.uid info.uid
differs spec info FieldDiff.group = text_differs spec.group info.primary_group_name
differs spec info FieldDiff.shell = text_differs spec.shell info.shell
differs spec info FieldDiff.home = path_differs spec.home info.home
differs spec info FieldDiff.comment = text_differs spec.comment info.comment

abbrev pub same_field : FieldDiff → FieldDiff → Bool
same_field FieldDiff.uid FieldDiff.uid = true
same_field FieldDiff.group FieldDiff.group = true
same_field FieldDiff.shell FieldDiff.shell = true
same_field FieldDiff.home FieldDiff.home = true
same_field FieldDiff.comment FieldDiff.comment = true
same_field _ _ = false

abbrev pub listed : FieldDiff → List FieldDiff → Bool
listed d [] = false
listed d (e ∷ es) = same_field d e || listed d es

-- What the options that `build_usermod_opts` collects set.
abbrev chosen : {A : Type 0} → Bool → Option A → Option A → Option A
chosen b x y = if b then x else y

chosen_same : {A : Type 0} (b : Bool) (x : Option A) → chosen b x x ≡ x
chosen_same true x = refl
chosen_same false x = refl

abbrev set_by : UserSpec → List FieldDiff → UserModOpts → UserModOpts
set_by spec ds opts = record opts {
  uid = chosen (listed FieldDiff.uid ds) spec.uid opts.uid;
  group = chosen (listed FieldDiff.group ds) spec.group opts.group;
  shell = chosen (listed FieldDiff.shell ds) spec.shell opts.shell;
  home = chosen (listed FieldDiff.home ds) spec.home opts.home;
  comment = chosen (listed FieldDiff.comment ds) spec.comment opts.comment;
}

pub apply_diffs-set_by :
    (spec : UserSpec) (ds : List FieldDiff) (opts : UserModOpts)
    → apply_diffs spec ds opts ≡ set_by spec ds opts
unfolding apply_diffs
apply_diffs-set_by spec [] opts = refl
apply_diffs-set_by spec (FieldDiff.uid ∷ ds) opts =
    apply_diffs-set_by spec ds _ ∙ rw (chosen_same (listed FieldDiff.uid ds) spec.uid)
apply_diffs-set_by spec (FieldDiff.group ∷ ds) opts =
    apply_diffs-set_by spec ds _ ∙ rw (chosen_same (listed FieldDiff.group ds) spec.group)
apply_diffs-set_by spec (FieldDiff.shell ∷ ds) opts =
    apply_diffs-set_by spec ds _ ∙ rw (chosen_same (listed FieldDiff.shell ds) spec.shell)
apply_diffs-set_by spec (FieldDiff.home ∷ ds) opts =
    apply_diffs-set_by spec ds _ ∙ rw (chosen_same (listed FieldDiff.home ds) spec.home)
apply_diffs-set_by spec (FieldDiff.comment ∷ ds) opts =
    apply_diffs-set_by spec ds _ ∙ rw (chosen_same (listed FieldDiff.comment ds) spec.comment)

abbrev pick : (u g s h c : Bool) → FieldDiff → Bool
pick u g s h c FieldDiff.uid = u
pick u g s h c FieldDiff.group = g
pick u g s h c FieldDiff.shell = s
pick u g s h c FieldDiff.home = h
pick u g s h c FieldDiff.comment = c

abbrev five : (u g s h c : Bool) → List FieldDiff
five u g s h c =
    diff_if u FieldDiff.uid
    ++ (diff_if g FieldDiff.group
        ++ (diff_if s FieldDiff.shell ++ (diff_if h FieldDiff.home ++ diff_if c FieldDiff.comment)))

listed-five : (u g s h c : Bool) (d : FieldDiff) → listed d (five u g s h c) ≡ pick u g s h c d
listed-five u g s h c d = ground arith

pub collect_diffs-listed :
    (spec : UserSpec) (info : UserInfo) (d : FieldDiff)
    → listed d (collect_diffs spec info) ≡ differs spec info d
unfolding collect_diffs
collect_diffs-listed spec info d = listed-five _ _ _ _ _ d ∙ ground arith

number_settled :
    (o : Option ℕ) (n : ℕ)
    → number_differs o (or_kept (chosen (number_differs o n) o none) n) ≡ false
number_settled none n = refl
number_settled (some m) n = ground arith

text_settled :
    (o : Option Text) (t : Text)
    → text_differs o (or_kept (chosen (text_differs o t) o none) t) ≡ false
text_settled none t = refl
text_settled (some s) t = ground (arith, text_eq_refl s)

path_settled :
    (o : Option Text) (p : Text)
    → path_differs o (or_kept (chosen (path_differs o p) o none) p) ≡ false
path_settled none p = refl
path_settled (some q) p = elim (Bool-cases (path_eq q p)) [
  | inl same ↦ rw same (ap not same)
  | inr other ↦ rw (other, path_eq_refl q) refl
]

-- The options of `usermod`, by the tests.
usermod_opts-set_by :
    (spec : UserSpec) (info : UserInfo)
    → build_usermod_opts spec (collect_diffs spec info) ≡ record {
      name = spec.name;
      uid = chosen (number_differs spec.uid info.uid) spec.uid none;
      group = chosen (text_differs spec.group info.primary_group_name) spec.group none;
      shell = chosen (text_differs spec.shell info.shell) spec.shell none;
      home = chosen (path_differs spec.home info.home) spec.home none;
      comment = chosen (text_differs spec.comment info.comment) spec.comment none;
    }
usermod_opts-set_by spec info =
    apply_diffs-set_by spec (collect_diffs spec info) _
    ∙ rw (
      collect_diffs-listed spec info FieldDiff.uid,
      collect_diffs-listed spec info FieldDiff.group,
      collect_diffs-listed spec info FieldDiff.shell,
      collect_diffs-listed spec info FieldDiff.home,
      collect_diffs-listed spec info FieldDiff.comment,
    )

-- Behind `usermod` with the options built for the differences, no difference is left.
pub collect_diffs-modified :
    (spec : UserSpec) (info : UserInfo)
    → collect_diffs spec (modified (build_usermod_opts spec (collect_diffs spec info)) info) ≡ []
unfolding collect_diffs
collect_diffs-modified spec info = rw (
  usermod_opts-set_by spec info,
  number_settled spec.uid info.uid,
  text_settled spec.group info.primary_group_name,
  text_settled spec.shell info.shell,
  path_settled spec.home info.home,
  text_settled spec.comment info.comment,
)
