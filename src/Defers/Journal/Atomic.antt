-- ===== src/Defers/Journal/Atomic.antt =====
-- What is left of a file whichever system call of its replacement fails
-- (bosun-core/src/defers/journal.rs).
use bonsun.Base.{
  ℕ, ◌≡◌, refl, ◌∙◌, ◌⊎◌, inl, inr, false, List, [], ◌∷◌, ◌++◌, Option, none, some, Text, text_eq,
  text_eq_iff, text_eq_refl, arith, Bool-cases, Option-cases,
}
use bonsun.Defers.Format.{DeferEntry, filename}
use bonsun.Defers.Files.{
  Directory, Fs, Result, lookup, unlink, store, unlinked, renamed, read_clock, read_clock_in,
  remove_file, rename, match_result, throw, IoError,
}
use bonsun.Defers.Files.Ends.{
  Ends, Ends-weaken, touch-Ends, write_file-Ends, syscall-Ends, and_then-Ends, with_result-Ends,
}
use bonsun.Defers.Journal.{
  Serde, io, tmp_name, fsync_dir, write_tmp, after_rename, write_as, atomic_write,
}
use bonsun.Defers.Journal.Quiet.{line}

lookup-unlink_other :
    (n m : Text) (d : Directory Text) → text_eq m n ≡ false → lookup n (unlink m d) ≡ lookup n d
unfolding lookup unlink
lookup-unlink_other n m [] h = refl
lookup-unlink_other n m ((k, f) ∷ d) h = elim (Bool-cases (text_eq k m)) [
  | inl same ↦
      let apart : text_eq k n ≡ false = rw ((text_eq_iff k m).0 same) h in
      ground (arith, same, apart, lookup-unlink_other n m d h)
  | inr other ↦ ground (arith, other, lookup-unlink_other n m d h)
]

lookup-store_other :
    (n m f : Text) (d : Directory Text) → text_eq m n ≡ false → lookup n (store m f d) ≡ lookup n d
unfolding lookup
lookup-store_other n m f d h = rw h (lookup-unlink_other n m d h)

lookup-store_self : (n f : Text) (d : Directory Text) → lookup n (store n f d) ≡ some f
unfolding lookup
lookup-store_self n f d = rw (text_eq_refl n)

text_eq_longer : (s : Text) (c : ℕ) (t : Text) → text_eq (s ++ (c ∷ t)) s ≡ false
unfolding text_eq
text_eq_longer [] c t = refl
text_eq_longer (x ∷ s) c t = ground (arith, text_eq_longer s c t)

names_apart : (e : DeferEntry) (nanos : ℕ) → text_eq (tmp_name e nanos) (filename e) ≡ false
names_apart e nanos = text_eq_longer (filename e) b'.' _

-- No temporary file of the entry, and not its own.
abbrev pub IsOther : DeferEntry → Text → Type 0
IsOther e n =
    ((nanos : ℕ) → text_eq (tmp_name e nanos) n ≡ false) × (text_eq (filename e) n ≡ false)

module _ (json : Serde) (e : DeferEntry) (old : Directory Text) where
  -- The files of the directory `old` are there, but for temporary ones of the entry.
  abbrev pub IsKept : Directory Text → Type 0
  IsKept d =
      (lookup (filename e) d ≡ lookup (filename e) old)
      × ((n : Text) → IsOther e n → lookup n d ≡ lookup n old)

  -- The file of the entry holds it, and the others are as in `old`, but for temporary ones.
  abbrev pub IsReplaced : Directory Text → Type 0
  IsReplaced d =
      (lookup (filename e) d ≡ some (line json e))
      × ((n : Text) → IsOther e n → lookup n d ≡ lookup n old)

  module _ (nanos : ℕ) where
    abbrev tmp : Text
    tmp = tmp_name e nanos

    store-IsKept : (f : Text) (d : Directory Text) → IsKept d → IsKept (store tmp f d)
    store-IsKept f d kept = (
      lookup-store_other (filename e) tmp f d (names_apart e nanos) ∙ kept.0,
      λ n apart. lookup-store_other n tmp f d (apart.0 nanos) ∙ kept.1 n apart,
    )

    unlink-IsKept : (d : Directory Text) → IsKept d → IsKept (unlink tmp d)
    unlink-IsKept d kept = (
      lookup-unlink_other (filename e) tmp d (names_apart e nanos) ∙ kept.0,
      λ n apart. lookup-unlink_other n tmp d (apart.0 nanos) ∙ kept.1 n apart,
    )

    abbrev IsWritten : Directory Text → Type 0
    IsWritten d = IsKept d × (lookup tmp d ≡ some (line json e))

    write_tmp-Ends :
        (fs : Fs Text) → IsKept fs.files → Ends IsWritten IsKept (write_tmp json tmp e fs)
    unfolding write_tmp
    write_tmp-Ends fs kept =
        and_then-Ends IsWritten IsKept IsKept _ _
          (write_file-Ends IsKept IsKept _ tmp [] fs kept (store-IsKept [] _ kept))
          λ _ fs1 kept1.
            and_then-Ends IsWritten IsKept IsKept _ _ (touch-Ends IsKept IsKept _ fs1 kept1 kept1)
              λ _ fs2 kept2.
                and_then-Ends IsWritten IsKept IsKept _ _
                  (touch-Ends IsKept IsKept _ fs2 kept2 kept2)
                  λ _ fs3 kept3.
                    and_then-Ends IsWritten IsKept IsWritten _ _
                      (write_file-Ends IsWritten IsKept _ tmp (line json e) fs3 kept3
                        (store-IsKept (line json e) _ kept3, lookup-store_self tmp (line json e) _))
                      λ _ fs4 written. touch-Ends IsWritten IsKept _ fs4 written.0 written

    -- In the success case of a rename the entry's file is replaced.
    rename-IsReplaced :
        (d : Directory Text)
        → IsWritten d
        → IsReplaced (store (filename e) (line json e) (unlink tmp d))
    rename-IsReplaced d written = (
      lookup-store_self (filename e) (line json e) _,
      λ n apart.
          lookup-store_other n (filename e) (line json e) _ apart.1
          ∙ (unlink-IsKept d written.0).1 n apart,
    )

    remove_tmp-Ends : (fs : Fs Text) → IsKept fs.files → Ends IsKept IsKept (remove_file tmp fs)
    remove_tmp-Ends fs kept =
        syscall-Ends IsKept IsKept (λ d. unlinked tmp (lookup tmp d) d) fs kept
          (elim (Option-cases (lookup tmp fs.files)) [
            | inl missing ↦ rw missing kept
            | inr (f, there) ↦ rw there (unlink-IsKept fs.files kept)
          ])

    -- Kept or replaced.
    abbrev IsWhole : Directory Text → Type 0
    IsWhole d = IsKept d ⊎ IsReplaced d

    fsync_dir-Ends : (fs : Fs Text) → IsReplaced fs.files → Ends IsReplaced IsWhole (fsync_dir fs)
    unfolding fsync_dir
    fsync_dir-Ends fs done =
        and_then-Ends IsReplaced IsWhole IsReplaced _ _
          (touch-Ends IsReplaced IsWhole _ fs (inr done) done)
          λ _ fs1 done1. touch-Ends IsReplaced IsWhole _ fs1 (inr done1) done1

    publish_tmp-Ends :
        (fs : Fs Text)
        → IsWritten fs.files
        → Ends IsReplaced IsWhole
            (match_result (rename tmp (filename e)) (after_rename json tmp e) fs)
    publish_tmp-Ends fs written =
        with_result-Ends IsReplaced IsWhole IsReplaced IsKept (after_rename json tmp e)
          (rename tmp (filename e) fs)
          (syscall-Ends IsReplaced IsKept (λ d. renamed tmp (filename e) (lookup tmp d) d) fs
            written.0 (rw (written.1) (rename-IsReplaced fs.files written)))
          (λ _ fs1 done. fsync_dir-Ends fs1 done)
          (λ x fs1 kept.
            with_result-Ends IsReplaced IsWhole IsKept IsKept
              (λ (_ : Result IoError Unit). throw {A = Unit} (io (some (filename e)) x))
              (remove_file tmp fs1) (remove_tmp-Ends fs1 kept) (λ _ fs2 kept2. inl kept2)
              (λ _ fs2 kept2. inl kept2))

    write_as-Ends :
        (fs : Fs Text) → IsKept fs.files → Ends IsReplaced IsWhole (write_as json e (some nanos) fs)
    write_as-Ends fs kept =
        and_then-Ends IsReplaced IsWhole IsWritten (write_tmp json tmp e fs) _
          (Ends-weaken IsWritten IsKept IsWhole _ (λ d. inl) (write_tmp-Ends fs kept))
          (λ _ fs1 written. publish_tmp-Ends fs1 written)

module _ (json : Serde) (e : DeferEntry) where
  write_at-Ends :
      (readings : List (Option ℕ)) (fs : Fs Text)
      → Ends
          (IsReplaced json e fs.files)
          (λ d. IsKept json e fs.files d ⊎ IsReplaced json e fs.files d)
          (write_as json e (read_clock_in readings fs).0 (read_clock_in readings fs).1)
  write_at-Ends [] fs = write_as-Ends json e fs.files 0 fs (refl, λ n apart. refl)
  write_at-Ends (none ∷ rest) fs = inl (refl, λ n apart. refl)
  write_at-Ends (some nanos ∷ rest) fs =
      write_as-Ends json e fs.files nanos (record fs { clock = rest }) (refl, λ n apart. refl)

  -- Whichever of its calls fail, `atomic_write` leaves each file other than the entry's and its
  -- temporary ones as it is, and the entry's file holds what it held before or the whole new entry;
  -- if it succeeds, it holds the new entry.
  pub atomic_write-Ends :
      (fs : Fs Text)
      → Ends
          (IsReplaced json e fs.files)
          (λ d. IsKept json e fs.files d ⊎ IsReplaced json e fs.files d)
          (atomic_write json e fs)
  unfolding atomic_write read_clock
  atomic_write-Ends fs = write_at-Ends fs.clock fs
