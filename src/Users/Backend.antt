-- ===== src/Users/Backend.antt =====
-- bosun-primitives/src/users_user/backend.rs: the backend that calls the tools of shadow-utils. The C library
-- and the process are the parameter `Host`.
use bonsun.Base.{
  ℕ, ◌≡◌, Bool, true, false, ◌&&◌, List, [], ◌∷◌, ◌++◌, Option, none, some, Text, codes,
  if◌then◌else◌,
}
use bonsun.Defers.Journal.{decimal}
use bonsun.Users.{UserInfo, UserAddOpts, UserModOpts, UsersError, lookup, tool_not_found, not_root}
use bonsun.Users.Apply.{UsersBackend}
use bonsun.Users.Group.{GroupInfo, GroupAddOpts, GroupModOpts, GroupsBackend}
use bonsun.Effects.{Result, ok, err, Act, pure, ◌>>=◌, match_result, map_err}

-- How a process ends: it was not started, or it did with a status and its standard error.
pub data Spawn : Type 0 where
  missing : Spawn
  unspawned : (error : Text) → Spawn
  exited : (succeeded : Bool) (status stderr : Text) → Spawn

-- An entry of the password database, less what is not read.
pub record Passwd : Type 0 where
  pub name : Text
  pub uid : ℕ
  pub gid : ℕ
  pub shell : Text
  pub dir : Text
  pub gecos : Text

-- The crate nix and `Command`; `take_512` are the first 512 characters of the text that the bytes stand for.
pub record Host (W : Type 0) : Type 0 where
  pub is_root : W → Bool × W
  pub user_from_name : Text → Act W Text (Option Passwd)
  pub group_from_gid : ℕ → Act W Text (Option GroupInfo)
  pub group_from_name : Text → Act W Text (Option GroupInfo)
  pub spawn : List Text → W → Spawn × W
  pub take_512 : Text → Text

-- `argv.push` of an option with its value, if there is one.
abbrev option : Text → Option Text → List Text
option flag none = []
option flag (some v) = flag ∷ v ∷ []

abbrev flag_if : Bool → Text → List Text
flag_if b flag = if b then flag ∷ [] else []

abbrev digits_of : Option ℕ → Option Text
digits_of none = none
digits_of (some n) = some (decimal n)

-- `build_useradd_argv`
abbrev pub build_useradd_argv : UserAddOpts → List Text
build_useradd_argv opts =
    codes "useradd"
    ∷ (flag_if opts.system (codes "--system")
        ++ (option (codes "--uid") (digits_of opts.uid)
            ++ (option (codes "--gid") opts.group
                ++ (option (codes "--shell") opts.shell
                    ++ (option (codes "--home-dir") opts.home
                        ++ (flag_if opts.no_create_home (codes "--no-create-home")
                            ++ (option (codes "--comment") opts.comment ++ opts.name ∷ [])))))))

-- `build_usermod_argv`
abbrev pub build_usermod_argv : UserModOpts → List Text
build_usermod_argv opts =
    codes "usermod"
    ∷ (option (codes "--uid") (digits_of opts.uid)
        ++ (option (codes "--gid") opts.group
            ++ (option (codes "--shell") opts.shell
                ++ (option (codes "--home") opts.home
                    ++ (option (codes "--comment") opts.comment ++ opts.name ∷ [])))))

-- `build_userdel_argv`
abbrev pub build_userdel_argv : Text → List Text
build_userdel_argv name = codes "userdel" ∷ name ∷ []

-- `build_groupadd_argv`
abbrev pub build_groupadd_argv : GroupAddOpts → List Text
build_groupadd_argv opts =
    codes "groupadd"
    ∷ (flag_if opts.system (codes "--system")
        ++ (option (codes "--gid") (digits_of opts.gid) ++ opts.name ∷ []))

-- `build_groupmod_argv`
abbrev pub build_groupmod_argv : GroupModOpts → List Text
build_groupmod_argv opts =
    codes "groupmod" ∷ (option (codes "--gid") (digits_of opts.gid) ++ opts.name ∷ [])

-- `build_groupdel_argv`
abbrev pub build_groupdel_argv : Text → List Text
build_groupdel_argv name = codes "groupdel" ∷ name ∷ []

abbrev is_none : {A : Type 0} → Option A → Bool
is_none none = true
is_none (some _) = false

-- `UserModOpts::is_empty`
abbrev pub is_empty : UserModOpts → Bool
is_empty opts =
    is_none opts.uid
    && (is_none opts.group && (is_none opts.shell && (is_none opts.home && is_none opts.comment)))

module _ {W : Type 0} (host : Host W) where
  abbrev after_root : Bool × W → Result UsersError Unit × W
  after_root (true, w) = (ok tt, w)
  after_root (false, w) = (err not_root, w)

  -- `require_root`
  unfoldable pub require_root : Act W UsersError Unit
  require_root w = after_root (host.is_root w)

  abbrev ended : (tool : Text) → Spawn × W → Result UsersError Unit × W
  ended tool (missing, w) = (err (tool_not_found tool), w)
  ended tool (unspawned e, w) = (err (UsersError.exec tool (codes "spawn: " ++ e) []), w)
  ended tool (exited true status stderr, w) = (ok tt, w)
  ended tool (exited false status stderr, w) =
      (err (UsersError.exec tool status (host.take_512 stderr)), w)

  -- `run_command`
  unfoldable pub run_command : List Text → Act W UsersError Unit
  run_command [] w = (err (UsersError.exec (codes "<empty>") (codes "argv is empty") []), w)
  run_command (tool ∷ rest) w = ended tool (host.spawn (tool ∷ rest) w)

  -- The name of a primary group, by what the group database says of its number.
  abbrev group_name : ℕ → Result Text (Option GroupInfo) → Text
  group_name gid (ok (some g)) = g.name
  group_name gid (ok none) = codes "gid=" ++ decimal gid
  group_name gid (err _) = codes "gid=" ++ decimal gid

  abbrev info_of : Passwd → Text → UserInfo
  info_of user group = record {
    name = user.name;
    uid = user.uid;
    primary_group_name = group;
    shell = user.shell;
    home = user.dir;
    comment = user.gecos;
  }

  abbrev with_group : Option Passwd → Act W UsersError (Option UserInfo)
  with_group none = pure none
  with_group (some user) =
      match_result (host.group_from_gid user.gid)
        (λ g. pure (some (info_of user (group_name user.gid g))))

  unfoldable pub real_lookup_user : Text → Act W UsersError (Option UserInfo)
  real_lookup_user name =
      map_err (λ e. lookup name (codes "getpwnam: " ++ e)) (host.user_from_name name) >>= with_group

  abbrev pub as_root : List Text → Act W UsersError Unit
  as_root argv = require_root >>= λ _. run_command argv

  -- `impl UsersBackend for RealUsersBackend`
  abbrev pub real_users_backend : UsersBackend W
  real_users_backend = record {
    lookup_user = real_lookup_user;
    useradd = λ opts. as_root (build_useradd_argv opts);
    usermod = λ opts. require_root >>= λ _.
        if is_empty opts then pure tt else run_command (build_usermod_argv opts);
    userdel = λ name. as_root (build_userdel_argv name);
  }

  abbrev pub real_groups_backend : GroupsBackend W
  real_groups_backend = record {
    lookup_group =
        λ name. map_err (λ e. lookup name (codes "getgrnam: " ++ e)) (host.group_from_name name);
    groupadd = λ opts. as_root (build_groupadd_argv opts);
    groupmod = λ opts. require_root >>= λ _.
        if is_none opts.gid then pure tt else run_command (build_groupmod_argv opts);
    groupdel = λ name. as_root (build_groupdel_argv name);
  }

  abbrev pub Refuses : {A : Type 0} → Act W UsersError A → W → Type 0
  Refuses m w = m w ≡ (err not_root, (host.is_root w).1)

  -- Without the rights of root no operation of the backend that changes a user or a group starts a process: each
  -- fails with `not_root`, behind the question who runs it.
  pub backend-Refuses :
      (w : W) (add : UserAddOpts) (change : UserModOpts) (group_add : GroupAddOpts)
      (group_mod : GroupModOpts)
      → (name : Text) → (host.is_root w).0 ≡ false
      → Refuses (real_users_backend.useradd add) w
        × Refuses (real_users_backend.usermod change) w
        × Refuses (real_users_backend.userdel name) w
        × Refuses (real_groups_backend.groupadd group_add) w
        × Refuses (real_groups_backend.groupmod group_mod) w
        × Refuses (real_groups_backend.groupdel name) w
  unfolding require_root ◌>>=◌
  backend-Refuses w add change group_add group_mod name no_root =
      (rw no_root, rw no_root, rw no_root, rw no_root, rw no_root, rw no_root)
