-- ===== src/Defers/Journal/Root/Examples.antt =====
-- Openings of the journal.
use bonsun.Base.{◌%◌, ◌≡◌, refl, ◌⊎◌, codes}
use bonsun.Defers.Files.{not_found, ok, err}
use bonsun.Defers.Journal.{unsafe_root}
use bonsun.Defers.Journal.Root.{
  symlink, dir, Inode, RootCalls, harden_stat, ensure_found, after_mkdir, open_journal,
}
use bonsun.Defers.Journal.Root.Safety.{open_journal-ok}

-- The directory 0o40755 of user 1000.
abbrev open_dir : Inode
open_dir = record { st_uid = 1000; st_mode = 16877 }

-- It is made by `mkdir`.
abbrev fresh : RootCalls
fresh = record {
  symlink_metadata = err not_found;
  mkdir = ok tt;
  symlink_metadata_after = ok dir;
  dir_entry = ok open_dir;
  fstat = ok tt;
  geteuid = 1000;
  fchmod = ok tt;
}

open_run : open_journal fresh ≡ ok (record open_dir { st_mode = 16832 })
unfolding open_journal ensure_found after_mkdir harden_stat
open_run = refl

swapped_run :
    open_journal (record fresh { symlink_metadata_after = ok symlink })
    ≡ err (unsafe_root (codes "path became a symlink after mkdir"))
unfolding open_journal ensure_found after_mkdir
swapped_run = refl

open_journal-ok_example :
    ((open_dir.st_uid ≡ fresh.geteuid) ⊎ (open_dir.st_uid ≡ 0))
    × ((record open_dir { st_mode = 16832 }).st_mode % 512 ≡ 448)
    × ((fresh.symlink_metadata ≡ ok dir) ⊎ (fresh.symlink_metadata ≡ err not_found))
open_journal-ok_example = open_journal-ok fresh (record open_dir { st_mode = 16832 }) open_run
