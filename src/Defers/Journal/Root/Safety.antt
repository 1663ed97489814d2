-- ===== src/Defers/Journal/Root/Safety.antt =====
-- What opening the journal guarantees (bosun-core/src/defers/journal.rs).
use bonsun.Base.{◌%◌, ◌≡◌, ◌≢◌, refl, ◌⊎◌, inl, inr, none, codes, arith}
use bonsun.Defers.Files.{not_found, Result, ok, err}
use bonsun.Defers.Journal.{DeferError, io, unsafe_root}
use bonsun.Defers.Journal.Root.{
  dir, Inode, RootCalls, harden_stat, harden_root, ensure_found, after_mkdir, open_journal,
}

-- Where opening succeeds, the directory opened belongs to the process or to root, its permission bits
-- are 0o700, and what stood at the path at first was a directory or nothing.
pub open_journal-ok :
    (calls : RootCalls) (inode : Inode)
    → open_journal calls ≡ ok inode
    → ((inode.st_uid ≡ calls.geteuid) ⊎ (inode.st_uid ≡ 0))
      × (inode.st_mode % 512 ≡ 448)
      × ((calls.symlink_metadata ≡ ok dir) ⊎ (calls.symlink_metadata ≡ err not_found))
unfolding open_journal ensure_found after_mkdir harden_stat
open_journal-ok calls inode h = ground arith

Result-cases : {E A : Type 0} (r : Result E A) → ((a : A) × (r ≡ ok a)) ⊎ ((e : E) × (r ≡ err e))
Result-cases (ok a) = inl (a, refl)
Result-cases (err e) = inr (e, refl)

-- The directory of another user is refused, and its mode is left as it is.
pub harden_root-foreign :
    (calls : RootCalls) (inode : Inode)
    → inode.st_uid ≢ calls.geteuid
    → inode.st_uid ≢ 0
    → ((e : DeferError) × (harden_root calls inode ≡ (err e, inode)))
unfolding harden_stat
harden_root-foreign calls inode foreign user = elim (Result-cases calls.fstat) [
  | inl (_, known) ↦
      (unsafe_root (codes "owner differs from euid (and is not root)"), ground (arith, known))
  | inr (e, failed) ↦ (io none e, ground (arith, failed))
]
