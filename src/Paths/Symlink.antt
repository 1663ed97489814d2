-- ===== src/Paths/Symlink.antt =====
-- bosun-primitives/src/file_symlink: the decision and the apply of a symlink.
use bonsun.Base.{Bool, not, ◌++◌, Option, none, some, Text, codes, length, ◌==◌, if◌then◌else◌}
use bonsun.Resource.{Resource}
use bonsun.Primitive.{
  PrimitiveError, io, invalid_payload, apply_failed, Diff, is_no_change, ChangeReport, unchanged,
  changed_with,
}
use bonsun.Defers.Files.{IoError, not_found}
use bonsun.Paths.Components.{path_eq}
use bonsun.Paths.{Metadata, FileSystem, has_nul, validate_path, in_context}
use bonsun.Effects.{Result, ok, err, Act, pure, throw, ◌>>=◌, from_result, match_result}

pub data SymlinkState : Type 0 where
  present absent : SymlinkState

pub record FileSymlinkSpec : Type 0 where
  pub path : Text
  pub target : Text
  pub state : SymlinkState
  pub force : Bool

pub data Action : Type 0 where
  no_change create update delete : Action

-- `FileSymlinkSpec::validate`
unfoldable pub validate_symlink : FileSymlinkSpec → Result PrimitiveError Unit
validate_symlink spec =
    if has_nul spec.target
    then err (invalid_payload (codes "file.symlink.target contains NUL byte"))
    else validate_path (codes "file.symlink") spec.path

abbrev pub if_missing : SymlinkState → Action
if_missing present = create
if_missing absent = no_change

abbrev refusal : (path advice : Text) → PrimitiveError
refusal path advice =
    apply_failed
      (codes "file.symlink: path " ++ path ++ codes " exists but is not a symlink; " ++ advice)

abbrev pub created_message : FileSymlinkSpec → Text
created_message spec = codes "created symlink " ++ spec.path ++ codes " -> " ++ spec.target

abbrev pub updated_message : FileSymlinkSpec → Text
updated_message spec = codes "updated symlink " ++ spec.path ++ codes " -> " ++ spec.target

module _ {W : Type 0} (fs : FileSystem W) where
  abbrev pub Job : (A : Type 0) → Type 0
  Job A = Act W PrimitiveError A

  abbrev pub compared : FileSymlinkSpec → (current : Text) → Job Action
  compared spec current = pure (if path_eq current spec.target then no_change else update)

  -- `match spec.state` behind the metadata.
  abbrev pub decide_in : FileSymlinkSpec → SymlinkState → Metadata → Job Action
  decide_in spec absent meta =
      if meta.is_symlink
      then pure delete
      else throw (refusal spec.path (codes "refusing to delete"))
  decide_in spec present meta =
      if meta.is_symlink
      then (in_context fs (codes "read_link " ++ spec.path) (fs.read_link spec.path)
          >>= compared spec)
      else if spec.force
      then pure update
      else throw (refusal spec.path (codes "use force=true to replace"))

  abbrev pub decide_on : FileSymlinkSpec → Result IoError Metadata → Job Action
  decide_on spec (err not_found) = pure (if_missing spec.state)
  decide_on spec (err e) = throw (io (codes "symlink_metadata " ++ spec.path) (fs.display e))
  decide_on spec (ok meta) = decide_in spec spec.state meta

  -- `decide_action_symlink`, at the path of the specification.
  unfoldable pub decide_action_symlink : FileSymlinkSpec → Job Action
  decide_action_symlink spec = match_result (fs.symlink_metadata spec.path) (decide_on spec)

  abbrev made_unless : (parent : Text) → Bool → Job Unit
  made_unless parent there =
      if there
      then pure tt
      else in_context fs (codes "create_dir_all " ++ parent) (fs.create_dir_all parent)

  abbrev with_parent : Option Text → Job Unit
  with_parent none = pure tt
  with_parent (some parent) =
      if length parent == 0
      then pure tt
      else ((λ w. let (there, w') = fs.exists parent w in (ok there, w')) >>= made_unless parent)

  -- `ensure_parent_dir`
  unfoldable pub ensure_parent_dir : (path : Text) → Job Unit
  ensure_parent_dir path = with_parent (fs.parent path)

  -- `create_symlink`
  unfoldable pub create_symlink : FileSymlinkSpec → Job ChangeReport
  create_symlink spec = ensure_parent_dir spec.path >>= λ _.
      in_context fs (codes "symlink " ++ spec.path ++ codes " -> " ++ spec.target)
        (fs.symlink spec.target spec.path)
      >>= λ _. pure (changed_with (created_message spec))

  abbrev pub clear : FileSymlinkSpec → Metadata → Job Unit
  clear spec meta =
      if meta.is_dir
      then if not spec.force
        then throw (
            apply_failed (
              codes "file.symlink: path "
              ++ spec.path
              ++ codes " is a directory; use force=true to replace"))
        else in_context fs (codes "remove_dir_all " ++ spec.path ++ codes " for symlink replace")
            (fs.remove_dir_all spec.path)
      else in_context fs (codes "remove_file " ++ spec.path ++ codes " for symlink replace")
          (fs.remove_file spec.path)

  -- `replace_symlink`
  unfoldable pub replace_symlink : FileSymlinkSpec → Job ChangeReport
  replace_symlink spec =
      in_context fs (codes "symlink_metadata " ++ spec.path ++ codes " for update")
        (fs.symlink_metadata spec.path)
      >>= λ meta. clear spec meta >>= λ _.
          in_context fs
            (codes "symlink " ++ spec.path ++ codes " -> " ++ spec.target ++ codes " after remove")
            (fs.symlink spec.target spec.path)
          >>= λ _. pure (changed_with (updated_message spec))

  abbrev pub after_unlink : FileSymlinkSpec → Result IoError Unit → Job ChangeReport
  after_unlink spec (ok _) = pure (changed_with (codes "deleted symlink " ++ spec.path))
  after_unlink spec (err not_found) = pure unchanged
  after_unlink spec (err e) =
      throw (io (codes "remove_file " ++ spec.path ++ codes " (symlink)") (fs.display e))

  -- `delete_symlink`
  unfoldable pub delete_symlink : FileSymlinkSpec → Job ChangeReport
  delete_symlink spec = match_result (fs.remove_file spec.path) (after_unlink spec)

  abbrev pub perform : FileSymlinkSpec → Action → Job ChangeReport
  perform spec no_change = pure unchanged
  perform spec create = create_symlink spec
  perform spec update = replace_symlink spec
  perform spec delete = delete_symlink spec

  -- `apply` behind the payload.
  unfoldable pub converge : FileSymlinkSpec → Job ChangeReport
  converge spec =
      from_result (validate_symlink spec) >>= λ _. decide_action_symlink spec >>= perform spec

  abbrev pub with_payload : Result Text FileSymlinkSpec → Job ChangeReport
  with_payload (err e) = throw (invalid_payload (codes "file.symlink payload: " ++ e))
  with_payload (ok spec) = converge spec

  -- `apply`; `from_value` is serde.
  unfoldable pub symlink_apply :
      {P J : Type 0}
      → (from_value : P → Result Text FileSymlinkSpec) → Resource P
      → Diff J
      → Job ChangeReport
  symlink_apply from_value r diff =
      if is_no_change diff then pure unchanged else with_payload (from_value r.payload)
