-- ===== src/Defers/Journal/Root.antt =====
-- bosun-core/src/defers/journal.rs: `Journal::open`, the checks of the directory of the journal.
mod Safety
mod Examples
use bonsun.Base.{ℕ, ◌+◌, ◌*◌, ◌/◌, ◌%◌, Bool, not, ◌&&◌, none, Text, codes, ◌==◌, if◌then◌else◌}
use bonsun.Defers.Files.{IoError, not_found, Result, ok, err}
use bonsun.Defers.Journal.{DeferError, io, unsafe_root}

pub data FileType : Type 0 where
  symlink dir regular : FileType

-- The directory that was opened, whatever its path comes to name later.
pub record Inode : Type 0 where
  pub st_uid : ℕ
  pub st_mode : ℕ

-- What the system calls return, in the order in which they are made. Between two calls another process
-- may put something else at the path, so that the results need not agree. `dir_entry` is what `open`
-- with O_NOFOLLOW and O_DIRECTORY gives.
pub record RootCalls : Type 0 where
  pub symlink_metadata : Result IoError FileType
  pub mkdir : Result IoError Unit
  pub symlink_metadata_after : Result IoError FileType
  pub dir_entry : Result IoError Inode
  pub fstat : Result IoError Unit
  pub geteuid : ℕ
  pub fchmod : Result IoError Unit

abbrev chain :
    {A B : Type 0} → Result DeferError A → (A → Result DeferError B) → Result DeferError B
chain (ok a) f = f a
chain (err e) f = err e

abbrev io_of : {A : Type 0} → Result IoError A → Result DeferError A
io_of (ok a) = ok a
io_of (err e) = err (io none e)

-- The check behind `mkdir`.
unfoldable pub after_mkdir : FileType → Result DeferError Unit
after_mkdir symlink = err (unsafe_root (codes "path became a symlink after mkdir"))
after_mkdir _ = ok tt

-- `ensure_root_directory`, by the first call
unfoldable pub ensure_found : RootCalls → Result IoError FileType → Result DeferError Unit
ensure_found calls (ok symlink) = err (unsafe_root (codes "path is a symlink"))
ensure_found calls (ok regular) = err (unsafe_root (codes "path exists but is not a directory"))
ensure_found calls (ok dir) = ok tt
ensure_found calls (err not_found) =
    chain (io_of calls.mkdir) λ _. chain (io_of calls.symlink_metadata_after) after_mkdir
ensure_found calls (err e) = err (io none e)

abbrev pub ensure_root_directory : RootCalls → Result DeferError Unit
ensure_root_directory calls = ensure_found calls calls.symlink_metadata

-- `open_root_nofollow`
abbrev pub open_root_nofollow : RootCalls → Result DeferError Inode
open_root_nofollow calls = io_of calls.dir_entry

-- A mode whose permission bits are 0o700; the kind of the file, above bit 12, stays.
abbrev pub with_mode_0700 : ℕ → ℕ
with_mode_0700 mode = mode / 4096 * 4096 + 448

abbrev after_fchmod : Inode → Result IoError Unit → Result DeferError Unit × Inode
after_fchmod inode (ok _) = (ok tt, record inode { st_mode = with_mode_0700 inode.st_mode })
after_fchmod inode (err e) = (err (io none e), inode)

-- `harden_root`, with the directory behind it.
unfoldable pub harden_stat :
    RootCalls → Inode → Result IoError Unit → Result DeferError Unit × Inode
harden_stat calls inode (err e) = (err (io none e), inode)
harden_stat calls inode (ok _) =
    if not (inode.st_uid == calls.geteuid) && not (inode.st_uid == 0)
    then (err (unsafe_root (codes "owner differs from euid (and is not root)")), inode)
    else if not (inode.st_mode % 512 == 448)
    then after_fchmod inode calls.fchmod
    else (ok tt, inode)

abbrev pub harden_root : RootCalls → Inode → Result DeferError Unit × Inode
harden_root calls inode = harden_stat calls inode calls.fstat

abbrev hardened : Result DeferError Unit × Inode → Result DeferError Inode
hardened (ok _, inode) = ok inode
hardened (err e, inode) = err e

-- `Journal::open`; the result is the directory of the journal.
unfoldable pub open_journal : RootCalls → Result DeferError Inode
open_journal calls =
    chain (ensure_root_directory calls)
      λ _. chain (open_root_nofollow calls) λ inode. hardened (harden_root calls inode)
