-- ===== src/Users/Apply.antt =====
-- bosun-primitives/src/users_user/apply.rs: the name of a user and its apply, over the trait UsersBackend.
use bonsun.Base.{
  ℕ, Bool, ◌&&◌, ◌||◌, [], ◌∷◌, ◌++◌, Option, none, Text, codes, length, ltb, leb, ◌==◌,
  if◌then◌else◌,
}
use bonsun.Resource.{Resource}
use bonsun.Primitive.{
  PrimitiveError, invalid_payload, apply_failed, Diff, is_no_change, ChangeReport, unchanged,
  changed_with,
}
use bonsun.Defers.Journal.{decimal}
use bonsun.Effects.{Result, ok, err, Act, pure, throw, ◌>>=◌, from_result, map_err}
use bonsun.Users.{
  UserSpec, UserInfo, Action, no_change, create, update, delete, decide_action_user, UserAddOpts,
  UserModOpts, UsersError, lookup, tool_not_found, not_root, invalid_name, build_usermod_opts,
  add_opts, describe_diffs,
}

abbrev pub max_name_len : ℕ
max_name_len = 32

abbrev pub is_first_char : ℕ → Bool
is_first_char c = (leb b'a' c && leb c b'z') || c == b'_'

abbrev pub is_name_char : ℕ → Bool
is_name_char c =
    (leb b'a' c && leb c b'z') || ((leb b'0' c && leb c b'9') || (c == b'_' || c == b'-'))

-- The `Debug` of a text, and of the first character of a text.
pub record Debug : Type 0 where
  pub of_text : Text → Text
  pub of_char : Text → Text

module _ (debug : Debug) where
  abbrev invalid : (kind : Text) → Text → PrimitiveError
  invalid kind message = invalid_payload (kind ++ codes ": " ++ message)

  -- The loop over the characters behind the first.
  unfoldable pub check_chars : (kind name : Text) → Text → Result PrimitiveError Unit
  check_chars kind name [] = ok tt
  check_chars kind name (c ∷ cs) =
      if is_name_char c
      then check_chars kind name cs
      else err (
          invalid kind (
            codes "name "
            ++ debug.of_text name
            ++ codes " contains invalid character "
            ++ debug.of_char (c ∷ cs)))

  abbrev check_first : (kind name : Text) → (got : Text → Text) → Result PrimitiveError Unit
  check_first kind [] got = err (invalid kind (codes "name is empty"))
  check_first kind (c ∷ cs) got =
      if is_first_char c
      then check_chars kind (c ∷ cs) cs
      else err (
          invalid kind (
            codes "name "
            ++ debug.of_text (c ∷ cs)
            ++ codes " must start with [a-z_]"
            ++ got (c ∷ cs)))

  -- `validate_user_name` and `validate_group_name`, which differ in the kind and in what they tell of the
  -- first character.
  unfoldable pub validate_name :
      (kind name : Text) → (got : Text → Text) → Result PrimitiveError Unit
  validate_name kind name got =
      if length name == 0
      then err (invalid kind (codes "name is empty"))
      else if ltb max_name_len (length name)
      then err (
          invalid kind (
            codes "name "
            ++ debug.of_text name
            ++ codes " length "
            ++ decimal (length name)
            ++ codes " > "
            ++ decimal max_name_len))
      else check_first kind name got

  abbrev pub validate_user_name : Text → Result PrimitiveError Unit
  validate_user_name name =
      validate_name (codes "users.user") name (λ s. codes ", got " ++ debug.of_char s)

  -- `users_error_to_primitive`
  unfoldable pub users_error_to_primitive : UsersError → PrimitiveError
  users_error_to_primitive not_root =
      apply_failed (codes "users primitives require root (euid != 0)")
  users_error_to_primitive (tool_not_found tool) = apply_failed (tool ++ codes " not found in PATH")
  users_error_to_primitive (UsersError.exec tool status stderr_excerpt) =
      PrimitiveError.exec (tool ++ codes ": " ++ status) none stderr_excerpt
  users_error_to_primitive (lookup target reason) =
      apply_failed (codes "lookup " ++ target ++ codes ": " ++ reason)
  users_error_to_primitive (invalid_name name reason) =
      invalid_payload (codes "invalid name " ++ debug.of_text name ++ codes ": " ++ reason)

module _ (debug : Debug) {P : Type 0} (pending payload : P) where
  abbrev pub named_diff : UserSpec → Result PrimitiveError Unit → Result PrimitiveError (Diff P)
  named_diff spec (err e) = err e
  named_diff spec (ok _) =
      ok (Diff.update pending payload (codes "converge users.user:" ++ spec.name))

  abbrev pub user_diff : Result Text UserSpec → Result PrimitiveError (Diff P)
  user_diff (err e) = err (invalid_payload (codes "users.user payload: " ++ e))
  user_diff (ok spec) = named_diff spec (validate_user_name debug spec.name)

-- `compute_diff`; `pending` is the value written into every difference, and `from_value` serde.
unfoldable pub compute_diff_user :
    {P : Type 0}
    → Debug
    → (pending : P) → (from_value : P → Result Text UserSpec) → Resource P
    → Result PrimitiveError (Diff P)
compute_diff_user debug pending from_value r =
    user_diff debug pending r.payload (from_value r.payload)

-- `trait UsersBackend`, its operations on users.
pub record UsersBackend (W : Type 0) : Type 0 where
  pub lookup_user : Text → Act W UsersError (Option UserInfo)
  pub useradd : UserAddOpts → Act W UsersError Unit
  pub usermod : UserModOpts → Act W UsersError Unit
  pub userdel : Text → Act W UsersError Unit

module _ {W : Type 0} (debug : Debug) (backend : UsersBackend W) where
  abbrev Job : Type 0
  Job = Act W PrimitiveError ChangeReport

  abbrev pub call : {A : Type 0} → Act W UsersError A → Act W PrimitiveError A
  call = map_err (users_error_to_primitive debug)

  -- `match decide_action_user(..)`
  unfoldable pub perform : UserSpec → Action → Job
  perform spec no_change = pure unchanged
  perform spec create = call (backend.useradd (add_opts spec)) >>= λ _.
      pure (changed_with (codes "created user " ++ spec.name))
  perform spec (update diffs) = call (backend.usermod (build_usermod_opts spec diffs)) >>= λ _.
      pure (changed_with (codes "updated user " ++ spec.name ++ codes ": " ++ describe_diffs diffs))
  perform spec delete = call (backend.userdel spec.name) >>= λ _.
      pure (changed_with (codes "deleted user " ++ spec.name))

  -- `run` behind the payload.
  unfoldable pub converge : UserSpec → Job
  converge spec = from_result (validate_user_name debug spec.name) >>= λ _.
      call (backend.lookup_user spec.name) >>= λ current.
      perform spec (decide_action_user spec current)

  abbrev pub with_payload : Result Text UserSpec → Job
  with_payload (err e) = throw (invalid_payload (codes "users.user payload: " ++ e))
  with_payload (ok spec) = converge spec

  -- `run`; `from_value` is serde.
  unfoldable pub run :
      {P J : Type 0} → (from_value : P → Result Text UserSpec) → Resource P → Diff J → Job
  run from_value r diff =
      if is_no_change diff then pure unchanged else with_payload (from_value r.payload)
