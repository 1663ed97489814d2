-- ===== src/Paths/Resolve.antt =====
-- bosun-core/src/path_safety.rs: a relative path below a root.
use bonsun.Base.{not, List, [], ◌∷◌, Text, if◌then◌else◌}
use bonsun.Defers.Files.{IoError, not_found}
use bonsun.Effects.{Result, ok, err, Act, pure, throw, ◌>>=◌, from_result, match_result, map_err}
use bonsun.Paths.Components.{
  Component, root_dir, cur_dir, parent_dir, normal, components, path_starts_with, path_join,
}
use bonsun.Paths.{Metadata, FileSystem, has_nul}

pub data PathSafetyError : Type 0 where
  absolute : Text → PathSafetyError
  parent_dir_segment : Text → PathSafetyError
  nul_byte : PathSafetyError
  path_not_found : Text → PathSafetyError
  not_in_root : (root attempted : Text) → PathSafetyError
  symlink_leaf : Text → PathSafetyError
  io_error : (path : Text) (source : IoError) → PathSafetyError

-- The loop over the components.
unfoldable pub check_components : (relative : Text) → List Component → Result PathSafetyError Unit
check_components relative [] = ok tt
check_components relative (root_dir ∷ cs) = err (absolute relative)
check_components relative (parent_dir ∷ cs) = err (parent_dir_segment relative)
check_components relative (cur_dir ∷ cs) = check_components relative cs
check_components relative (normal s ∷ cs) = check_components relative cs

-- The checks of the text.
unfoldable pub check_relative : Text → Result PathSafetyError Unit
check_relative relative =
    if has_nul relative then err nul_byte else check_components relative (components relative)

module _ {W : Type 0} (fs : FileSystem W) where
  abbrev pub Job : (A : Type 0) → Type 0
  Job A = Act W PathSafetyError A

  abbrev pub found_at : (candidate : Text) → Result IoError Text → Job Text
  found_at candidate (ok p) = pure p
  found_at candidate (err not_found) = throw (path_not_found candidate)
  found_at candidate (err e) = throw (io_error candidate e)

  abbrev pub unless_symlink : (candidate canonical : Text) → Metadata → Job Text
  unless_symlink candidate canonical meta =
      if meta.is_symlink then throw (symlink_leaf candidate) else pure canonical

  abbrev pub within : (root candidate canonical : Text) → Job Text
  within root candidate canonical =
      if not (path_starts_with canonical root)
      then throw (not_in_root root canonical)
      else map_err (io_error candidate) (fs.symlink_metadata candidate)
        >>= unless_symlink candidate canonical

  abbrev pub below : (relative root : Text) → Job Text
  below relative root =
      match_result (fs.canonicalize (path_join root relative)) (found_at (path_join root relative))
      >>= within root (path_join root relative)

  -- `resolve_within_root`
  unfoldable pub resolve_within_root : (root relative : Text) → Job Text
  resolve_within_root root relative = from_result (check_relative relative) >>= λ _.
      map_err (io_error root) (fs.canonicalize root) >>= below relative
