-- ===== src/Users/Examples.antt =====
-- A database of users and groups that does what it is asked to do, and a user whose shell changes.
use bonsun.Base.{
  ◌≡◌, refl, ◌∙◌, ap, Bool, true, false, List, [], ◌∷◌, Option, none, some, Text, text_eq,
  text_eq_refl, codes, join, if◌then◌else◌,
}
use bonsun.Paths.Components.{components, segments, of_segments, is_prefix, path_eq_refl}
use bonsun.Resource.{Resource}
use bonsun.Primitive.{Diff, add, changed_with}
use bonsun.Users.{
  present, UserSpec, UserInfo, no_change, path_differs, collect_diffs, decide_action_user,
  UserAddOpts, UserModOpts, add_opts, apply_diffs,
}
use bonsun.Users.Apply.{Debug, check_chars, validate_name, UsersBackend, perform, converge, run}
use bonsun.Users.Group.{GroupAddOpts, GroupModOpts, GroupsBackend}
use bonsun.Users.Diffs.{or_kept, modified}
use bonsun.Users.Converge.{IsDatabase, users_run-settles}
use bonsun.Users.Satisfied.{Has, HasPath, Reached}
use bonsun.Users.Backend.{
  exited, Host, require_root, run_command, real_users_backend, real_groups_backend, Refuses,
  backend-Refuses,
}
use bonsun.Effects.{Result, ok, ◌>>=◌, map_err}

abbrev Database : Type 0
Database = Text → Option UserInfo

abbrev created : UserAddOpts → UserInfo
created opts = record {
  name = opts.name;
  uid = or_kept opts.uid 1000;
  primary_group_name = or_kept opts.group opts.name;
  shell = or_kept opts.shell (codes "/bin/sh");
  home = or_kept opts.home (codes "/home");
  comment = or_kept opts.comment [];
}

abbrev modified_in : UserModOpts → Option UserInfo → Option UserInfo
modified_in opts none = none
modified_in opts (some info) = some (modified opts info)

abbrev put : Text → Option UserInfo → Database → Database
put name entry db n = if text_eq name n then entry else db n

abbrev backend : UsersBackend Database
backend = record {
  lookup_user = λ n db. (ok (db n), db);
  useradd = λ opts db. (ok tt, put opts.name (some (created opts)) db);
  usermod = λ opts db. (ok tt, put opts.name (modified_in opts (db opts.name)) db);
  userdel = λ n db. (ok tt, put n none db);
}

abbrev user : Text → Database → Option UserInfo
user n db = db n

put_here : (name : Text) (entry : Option UserInfo) (db : Database) → put name entry db name ≡ entry
put_here name entry db = rw (text_eq_refl name)

kept : {A : Type 0} (o : Option A) (a : A) → Has o (or_kept o a)
kept none a = tt
kept (some b) a = refl

path_kept : (o : Option Text) (p : Text) → HasPath o (or_kept o p)
path_kept none p = tt
path_kept (some q) p = path_eq_refl q

-- A slash at the end makes no other path.
same_home_run : path_differs (some (codes "/srv/")) (codes "/srv") ≡ false
unfolding components segments of_segments is_prefix text_eq
same_home_run = refl

backend-IsDatabase : IsDatabase backend user
backend-IsDatabase = record {
  looks_up = λ n db. record { holds = (refl, refl) };
  adds = λ opts db. record {
    holds = (
      created opts,
      put_here opts.name (some (created opts)) db,
      kept opts.uid 1000,
      kept opts.group opts.name,
      kept opts.shell (codes "/bin/sh"),
      path_kept opts.home (codes "/home"),
      kept opts.comment [],
    );
  };
  modifies = λ opts info db there. record {
    holds = put_here opts.name (modified_in opts (db opts.name)) db ∙ ap (modified_in opts) there;
  };
  deletes = λ n db. record { holds = put_here n none db };
}

abbrev debug : Debug
debug = record { of_text = λ s. s; of_char = λ s. s }

abbrev web : UserSpec
web = record {
  name = codes "web";
  state = present;
  uid = some 900;
  group = none;
  shell = some (codes "/bin/false");
  home = none;
  no_create_home = false;
  system = true;
  comment = none;
}

abbrev before : UserInfo
before = record {
  name = codes "web";
  uid = 900;
  primary_group_name = codes "web";
  shell = codes "/bin/sh";
  home = codes "/srv";
  comment = codes "kept";
}

abbrev account : Resource Text
account = record {
  id = codes "users.user:web";
  kind = codes "users.user";
  spec_version = 1;
  payload = [];
  reload_on = [];
  restart_on = [];
  depends_on = [];
}

abbrev from_value : Text → Result Text UserSpec
from_value payload = ok web

abbrev any_diff : Diff Text
any_diff = add [] []

abbrev database : Database
database = put (codes "web") (some before) (λ n. none)

abbrev shell_only : UserModOpts
shell_only = record {
  name = codes "web";
  uid = none;
  group = none;
  shell = some (codes "/bin/false");
  home = none;
  comment = none;
}

updated_run : run debug backend from_value account any_diff database ≡ (
  ok (changed_with (codes "updated user web: shell")),
  put (codes "web") (some (modified shell_only before)) database,
)
unfolding run converge perform validate_name check_chars decide_action_user collect_diffs
    apply_diffs text_eq join ◌>>=◌ map_err
updated_run = refl

users_run-settles_example :
    Reached web present
      (put (codes "web") (some (modified shell_only before)) database (codes "web"))
    × (decide_action_user web
          (put (codes "web") (some (modified shell_only before)) database (codes "web"))
        ≡ no_change)
users_run-settles_example =
    users_run-settles debug backend-IsDatabase from_value account any_diff database _ web _ refl
      refl updated_run

-- The world is the list of the commands that were started.
abbrev host : Bool → Host (List (List Text))
host root = record {
  is_root = λ w. (root, w);
  user_from_name = λ n w. (ok none, w);
  group_from_gid = λ gid w. (ok none, w);
  group_from_name = λ n w. (ok none, w);
  spawn = λ argv w. (exited true [] [], argv ∷ w);
  take_512 = λ s. s;
}

usermod_run :
    (real_users_backend (host true)).usermod shell_only []
    ≡ (ok tt, (codes "usermod" ∷ codes "--shell" ∷ codes "/bin/false" ∷ codes "web" ∷ []) ∷ [])
unfolding require_root run_command ◌>>=◌
usermod_run = refl

abbrev to_add : UserAddOpts
to_add = add_opts web

abbrev group_to_add : GroupAddOpts
group_to_add = record { name = codes "web"; gid = none; system = false }

abbrev group_to_change : GroupModOpts
group_to_change = record { name = codes "web"; gid = none }

abbrev backend_of : UsersBackend (List (List Text))
backend_of = real_users_backend (host false)

abbrev groups_of : GroupsBackend (List (List Text))
groups_of = real_groups_backend (host false)

nothing_started :
    Refuses (host false) (backend_of.useradd to_add) []
    × Refuses (host false) (backend_of.usermod shell_only) []
    × Refuses (host false) (backend_of.userdel (codes "web")) []
    × Refuses (host false) (groups_of.groupadd group_to_add) []
    × Refuses (host false) (groups_of.groupmod group_to_change) []
    × Refuses (host false) (groups_of.groupdel (codes "web")) []
nothing_started =
    backend-Refuses (host false) [] to_add shell_only group_to_add group_to_change (codes "web")
      refl
