-- ===== src/Users/Group.antt =====
-- bosun-primitives/src/users_group: the plan and the apply of a group, and what it reaches.
use bonsun.Base.{
  ℕ, ◌≡◌, sym, ◌∙◌, Bool, false, [], ◌++◌, Option, none, some, Text, codes, if◌then◌else◌, inl, inr,
  Bool-cases,
}
use bonsun.Resource.{Resource}
use bonsun.Primitive.{
  PrimitiveError, invalid_payload, Diff, is_no_change, ChangeReport, unchanged, changed_with,
}
use bonsun.Defers.Journal.{decimal}
use bonsun.Users.{number_differs, UsersError}
use bonsun.Users.Apply.{Debug, validate_name, users_error_to_primitive}
use bonsun.Effects.{
  Result, ok, err, Act, pure, throw, ◌>>=◌, from_result, map_err, Ends, bind-Ends, map_err-Ends,
  Ends-ok, anyhow,
}

pub data GroupState : Type 0 where
  present absent : GroupState

pub record GroupSpec : Type 0 where
  pub name : Text
  pub state : GroupState
  pub gid : Option ℕ
  pub system : Bool

pub record GroupInfo : Type 0 where
  pub name : Text
  pub gid : ℕ

pub record GroupAddOpts : Type 0 where
  pub name : Text
  pub gid : Option ℕ
  pub system : Bool

pub record GroupModOpts : Type 0 where
  pub name : Text
  pub gid : Option ℕ

pub data GroupAction : Type 0 where
  no_change create update delete : GroupAction

abbrev pub decide_in : GroupSpec → GroupState → Option GroupInfo → GroupAction
decide_in spec present none = create
decide_in spec present (some info) = if number_differs spec.gid info.gid then update else no_change
decide_in spec absent none = no_change
decide_in spec absent (some info) = delete

-- `decide_action_group`
unfoldable pub decide_action_group : GroupSpec → Option GroupInfo → GroupAction
decide_action_group spec current = decide_in spec spec.state current

-- `trait UsersBackend`, its operations on groups.
pub record GroupsBackend (W : Type 0) : Type 0 where
  pub lookup_group : Text → Act W UsersError (Option GroupInfo)
  pub groupadd : GroupAddOpts → Act W UsersError Unit
  pub groupmod : GroupModOpts → Act W UsersError Unit
  pub groupdel : Text → Act W UsersError Unit

abbrev decimal_or : Option ℕ → Text → Text
decimal_or none d = d
decimal_or (some n) d = decimal n

abbrev validate_group_name : Debug → Text → Result PrimitiveError Unit
validate_group_name debug name = validate_name debug (codes "users.group") name (λ s. [])

abbrev group_add_opts : GroupSpec → GroupAddOpts
group_add_opts spec = record { name = spec.name; gid = spec.gid; system = spec.system }

abbrev group_mod_opts : GroupSpec → GroupModOpts
group_mod_opts spec = record { name = spec.name; gid = spec.gid }

module _ {W : Type 0} (debug : Debug) (backend : GroupsBackend W) where
  abbrev Job : Type 0
  Job = Act W PrimitiveError ChangeReport

  abbrev call : {A : Type 0} → Act W UsersError A → Act W PrimitiveError A
  call = map_err (users_error_to_primitive debug)

  -- `match decide_action_group(..)`
  unfoldable pub perform : GroupSpec → GroupAction → Job
  perform spec no_change = pure unchanged
  perform spec create = call (backend.groupadd (group_add_opts spec)) >>= λ _.
      pure (changed_with (codes "created group " ++ spec.name))
  perform spec update = call (backend.groupmod (group_mod_opts spec)) >>= λ _. pure (
      changed_with (
        codes "updated group "
        ++ spec.name
        ++ codes ": gid -> "
        ++ decimal_or spec.gid (codes "<unset>")))
  perform spec delete = call (backend.groupdel spec.name) >>= λ _.
      pure (changed_with (codes "deleted group " ++ spec.name))

  -- `run` behind the payload.
  unfoldable pub converge : GroupSpec → Job
  converge spec = from_result (validate_group_name debug spec.name) >>= λ _.
      call (backend.lookup_group spec.name) >>= λ current.
      perform spec (decide_action_group spec current)

  abbrev with_payload : Result Text GroupSpec → Job
  with_payload (err e) = throw (invalid_payload (codes "users.group payload: " ++ e))
  with_payload (ok spec) = converge spec

  -- `run`; `from_value` is serde.
  unfoldable pub run :
      {P J : Type 0} → (from_value : P → Result Text GroupSpec) → Resource P → Diff J → Job
  run from_value r diff =
      if is_no_change diff then pure unchanged else with_payload (from_value r.payload)

-- `lookup_group` tells what `group` says, and changes no group. Behind a `groupadd` or a `groupmod` that succeeds
-- the group has the number that its options set; `groupdel` removes it.
pub record IsGroupDatabase {W : Type 0} (backend : GroupsBackend W)
    (group : Text → W → Option GroupInfo) : Type 0 where
  pub looks_up :
      (n : Text) (w : W)
      → Ends
          (λ found w'. (found ≡ group n w) × (group n w' ≡ group n w))
          (λ e w'. Unit)
          (backend.lookup_group n w)
  pub adds :
      (opts : GroupAddOpts) (w : W)
      → Ends
          (λ _ w'.
            (info : GroupInfo) × (group opts.name w' ≡ some info)
            × (number_differs opts.gid info.gid ≡ false))
          (λ e w'. Unit)
          (backend.groupadd opts w)
  pub modifies :
      (opts : GroupModOpts) (w : W)
      → Ends
          (λ _ w'.
            (info : GroupInfo) × (group opts.name w' ≡ some info)
            × (number_differs opts.gid info.gid ≡ false))
          (λ e w'. Unit)
          (backend.groupmod opts w)
  pub deletes :
      (n : Text) (w : W) → Ends (λ _ w'. group n w' ≡ none) (λ e w'. Unit) (backend.groupdel n w)

module _ {W : Type 0} {backend : GroupsBackend W} {group : Text → W → Option GroupInfo}
    (debug : Debug) (database : IsGroupDatabase backend group) where
  perform-Settles :
      (spec : GroupSpec) (state : GroupState) (current : Option GroupInfo) (w : W)
      → group spec.name w ≡ current
      → Ends
          (λ report w'. decide_in spec state (group spec.name w') ≡ no_change)
          (λ e w'. Unit)
          (perform debug backend spec (decide_in spec state current) w)
  unfolding perform
  perform-Settles spec present none w same =
      bind-Ends _ (map_err-Ends _ _ (database.adds (group_add_opts spec) w))
        (λ _ w1 (info, there, g). record { holds = rw (there, g) })
  perform-Settles spec present (some info) w same =
      elim (Bool-cases (number_differs spec.gid info.gid)) [
        | inr settled ↦ rw settled (record { holds = rw (same, settled) })
        | inl differs ↦ rw differs (
            bind-Ends _ (map_err-Ends _ _ (database.modifies (group_mod_opts spec) w))
              (λ _ w1 (info, there, g). record { holds = rw (there, g) }))
      ]
  perform-Settles spec absent none w same = record { holds = rw same }
  perform-Settles spec absent (some info) w same =
      bind-Ends _ (map_err-Ends _ _ (database.deletes spec.name w))
        (λ _ w1 gone. record { holds = rw gone })

  -- If the backend keeps a database of groups as its operations say, then behind an apply of a group that
  -- succeeds with a difference to apply, the plan for the group that is found then is to change nothing.
  pub groups_run-settles :
      {P J : Type 0} (from_value : P → Result Text GroupSpec) (r : Resource P) (diff : Diff J)
      → (w w' : W) (spec : GroupSpec) (report : ChangeReport) → is_no_change diff ≡ false
      → from_value r.payload ≡ ok spec
      → run debug backend from_value r diff w ≡ (ok report, w')
      → decide_action_group spec (group spec.name w') ≡ no_change
  unfolding run converge decide_action_group
  groups_run-settles from_value r diff w w' spec report some_diff read h =
      Ends-ok report w' (rw (some_diff, read) at h) (
        bind-Ends _ (anyhow _) (λ _ w1 _.
          bind-Ends _ (map_err-Ends _ _ (database.looks_up spec.name w1))
            (λ current w2 told. perform-Settles spec spec.state current w2 (told.1 ∙ sym told.0))))
