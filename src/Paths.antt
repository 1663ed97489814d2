-- ===== src/Paths.antt =====
-- bosun-core/src/path_safety.rs, and bosun-primitives/src/file_symlink and file_delete: paths, and what std::fs
-- does with them.
pub mod Components
pub mod Resolve
pub mod Symlink
pub mod Delete
pub mod Inside
pub mod Settled
mod Examples
use bonsun.Base.{
  ℕ, Bool, true, false, ◌&&◌, ◌||◌, not, List, ◌++◌, Option, Text, codes, any, ◌==◌, if◌then◌else◌,
}
use bonsun.Primitive.{PrimitiveError, io, invalid_payload}
use bonsun.Defers.Files.{IoError}
use bonsun.Effects.{Result, ok, err, Act, map_err}
use bonsun.Paths.Components.{is_absolute, has_parent_dir_segment}

-- The type of a file, as `symlink_metadata` tells it.
pub record Metadata : Type 0 where
  pub is_dir : Bool
  pub is_symlink : Bool

-- The functions of std::fs that are called, `Path::parent`, and the `Display` of an error. `is_empty_dir` is
-- whether `read_dir` has no entry.
pub record FileSystem (W : Type 0) : Type 0 where
  pub canonicalize : Text → Act W IoError Text
  pub symlink_metadata : Text → Act W IoError Metadata
  pub read_link : Text → Act W IoError Text
  pub symlink : (target path : Text) → Act W IoError Unit
  pub remove_file : Text → Act W IoError Unit
  pub remove_dir_all : Text → Act W IoError Unit
  pub is_empty_dir : Text → Act W IoError Bool
  pub exists : Text → W → Bool × W
  pub create_dir_all : Text → Act W IoError Unit
  pub parent : Text → Option Text
  pub display : IoError → Text

-- `contains('\0')`
abbrev pub has_nul : Text → Bool
has_nul s = any (λ c. c == 0) s

-- `validate` of the specifications, for a path.
unfoldable pub validate_path : (kind path : Text) → Result PrimitiveError Unit
validate_path kind path =
    if has_nul path
    then err (invalid_payload (kind ++ codes ".path contains NUL byte"))
    else if not (is_absolute path)
    then err (invalid_payload (kind ++ codes ".path must be absolute, got: " ++ path))
    else if has_parent_dir_segment path
    then err (invalid_payload (kind ++ codes ".path contains '..' segment: " ++ path))
    else ok tt

module _ {W : Type 0} (fs : FileSystem W) where
  -- `map_err` to an error with a context.
  abbrev pub in_context : {A : Type 0} → (context : Text) → Act W IoError A → Act W PrimitiveError A
  in_context context = map_err (λ e. io context (fs.display e))
