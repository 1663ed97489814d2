-- ===== src/Users.antt =====
-- bosun-primitives/src/users_user: the plan of a user and the options of its changes.
pub mod Apply
pub mod Backend
pub mod Group
pub mod Diffs
pub mod Satisfied
pub mod Converge
mod Examples
use bonsun.Base.{
  ℕ, Bool, true, false, not, ◌&&◌, ◌||◌, List, [], ◌∷◌, ◌++◌, Option, none, some, map, Text,
  text_eq, codes, length, join, ltb, leb, ◌==◌, if◌then◌else◌,
}
use bonsun.Paths.Components.{path_eq}
use bonsun.Resource.{Resource}
use bonsun.Primitive.{
  PrimitiveError, invalid_payload, apply_failed, Diff, is_no_change, ChangeReport, unchanged,
  changed_with,
}
use bonsun.Defers.Journal.{decimal}
use bonsun.Effects.{Result, ok, err, Act, pure, throw, ◌>>=◌, from_result, map_err}

pub data UserState : Type 0 where
  present absent : UserState

pub record UserSpec : Type 0 where
  pub name : Text
  pub state : UserState
  pub uid : Option ℕ
  pub group : Option Text
  pub shell : Option Text
  pub home : Option Text
  pub no_create_home : Bool
  pub system : Bool
  pub comment : Option Text

-- `UserInfo`, less the number of the primary group, which is not read.
pub record UserInfo : Type 0 where
  pub name : Text
  pub uid : ℕ
  pub primary_group_name : Text
  pub shell : Text
  pub home : Text
  pub comment : Text

pub data FieldDiff : Type 0 where
  uid group shell home comment : FieldDiff

pub data Action : Type 0 where
  no_change create : Action
  update : (diffs : List FieldDiff) → Action
  delete : Action

-- An option that is set, to another value.
abbrev pub number_differs : Option ℕ → ℕ → Bool
number_differs none n = false
number_differs (some m) n = not (m == n)

abbrev pub text_differs : Option Text → Text → Bool
text_differs none s = false
text_differs (some t) s = not (text_eq t s)

-- Paths differ by their components.
abbrev pub path_differs : Option Text → Text → Bool
path_differs none p = false
path_differs (some q) p = not (path_eq q p)

abbrev pub diff_if : Bool → FieldDiff → List FieldDiff
diff_if b d = if b then d ∷ [] else []

-- `collect_diffs`
unfoldable pub collect_diffs : UserSpec → UserInfo → List FieldDiff
collect_diffs spec info =
    diff_if (number_differs spec.uid info.uid) FieldDiff.uid
    ++ (diff_if (text_differs spec.group info.primary_group_name) FieldDiff.group
        ++ (diff_if (text_differs spec.shell info.shell) FieldDiff.shell
            ++ (diff_if (path_differs spec.home info.home) FieldDiff.home
                ++ diff_if (text_differs spec.comment info.comment) FieldDiff.comment)))

abbrev pub update_unless_empty : List FieldDiff → Action
update_unless_empty [] = no_change
update_unless_empty (d ∷ ds) = update (d ∷ ds)

abbrev pub decide_in : UserSpec → UserState → Option UserInfo → Action
decide_in spec present none = create
decide_in spec present (some info) = update_unless_empty (collect_diffs spec info)
decide_in spec absent none = no_change
decide_in spec absent (some info) = delete

-- `decide_action_user`
unfoldable pub decide_action_user : UserSpec → Option UserInfo → Action
decide_action_user spec current = decide_in spec spec.state current

pub record UserAddOpts : Type 0 where
  pub name : Text
  pub uid : Option ℕ
  pub group : Option Text
  pub shell : Option Text
  pub home : Option Text
  pub no_create_home : Bool
  pub system : Bool
  pub comment : Option Text

pub record UserModOpts : Type 0 where
  pub name : Text
  pub uid : Option ℕ
  pub group : Option Text
  pub shell : Option Text
  pub home : Option Text
  pub comment : Option Text

pub data UsersError : Type 0 where
  lookup : (target reason : Text) → UsersError
  tool_not_found : (tool : Text) → UsersError
  exec : (tool status stderr_excerpt : Text) → UsersError
  not_root : UsersError
  invalid_name : (name reason : Text) → UsersError

abbrev apply_diff : UserSpec → FieldDiff → UserModOpts → UserModOpts
apply_diff spec FieldDiff.uid opts = record opts { uid = spec.uid }
apply_diff spec FieldDiff.group opts = record opts { group = spec.group }
apply_diff spec FieldDiff.shell opts = record opts { shell = spec.shell }
apply_diff spec FieldDiff.home opts = record opts { home = spec.home }
apply_diff spec FieldDiff.comment opts = record opts { comment = spec.comment }

-- The loop of `build_usermod_opts`
unfoldable pub apply_diffs : UserSpec → List FieldDiff → UserModOpts → UserModOpts
apply_diffs spec [] opts = opts
apply_diffs spec (d ∷ ds) opts = apply_diffs spec ds (apply_diff spec d opts)

-- `build_usermod_opts`
abbrev pub build_usermod_opts : UserSpec → List FieldDiff → UserModOpts
build_usermod_opts spec diffs = apply_diffs spec diffs (record {
  name = spec.name;
  uid = none;
  group = none;
  shell = none;
  home = none;
  comment = none;
})

abbrev pub add_opts : UserSpec → UserAddOpts
add_opts spec = record {
  name = spec.name;
  uid = spec.uid;
  group = spec.group;
  shell = spec.shell;
  home = spec.home;
  no_create_home = spec.no_create_home;
  system = spec.system;
  comment = spec.comment;
}

abbrev field_name : FieldDiff → Text
field_name FieldDiff.uid = codes "uid"
field_name FieldDiff.group = codes "group"
field_name FieldDiff.shell = codes "shell"
field_name FieldDiff.home = codes "home"
field_name FieldDiff.comment = codes "comment"

-- `describe_diffs`
abbrev pub describe_diffs : List FieldDiff → Text
describe_diffs diffs = join (codes ",") (map field_name diffs)
