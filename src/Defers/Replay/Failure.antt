-- ===== src/Defers/Replay/Failure.antt =====
-- What becomes of an entry whose action or health check fails (bosun-core/src/defers/replay.rs).
use bonsun.Base.{
  ℕ, ◌+◌, ◌^◌, ◌≤◌, ◌<◌, ◌≡◌, refl, true, false, List, [], ◌∷◌, ◌++◌, none, some, Text, text_eq,
  text_eq_refl, leb, arith,
}
use bonsun.Defers.Format.{DeferEntry, filename, manual_clear_filename, sortkey}
use bonsun.Defers.Files.{Directory, Fs, ok, lookup, unlink, store, quiet, syscall}
use bonsun.Defers.Journal.{
  Serde, bumped, saturating_succ, bump_attempt, move_to_manual_clear, fsync_dir,
}
use bonsun.Defers.Journal.Quiet.{line, publish, reading, later, atomic_write-quiet}
use bonsun.Defers.Journal.Removal.{lookup-unlink, lookup-unlink-none}
use bonsun.Defers.Replay.{ReplayReport, count_promoted, after_failure, after_bump}

text_eq-append : (s t u : Text) → text_eq (s ++ t) (s ++ u) ≡ text_eq t u
unfolding text_eq
text_eq-append [] t u = refl
text_eq-append (x ∷ s) t u = ground (arith, text_eq-append s t u)

-- The two names of an entry differ.
names_differ : (e : DeferEntry) → text_eq (manual_clear_filename e) (filename e) ≡ false
unfolding filename manual_clear_filename text_eq
names_differ e = rw (text_eq-append (sortkey e.priority)) (rw (text_eq-append e.id))

bump_attempt-quiet :
    (json : Serde) (e : DeferEntry) (d : Directory Text) (ns : List ℕ)
    → bump_attempt json e (quiet d ns)
      ≡ (ok (bumped e), quiet (publish json (bumped e) (reading ns) d) (later ns))
unfolding bump_attempt
bump_attempt-quiet json e d ns = rw (atomic_write-quiet json (bumped e) d ns)

move_to_manual_clear-quiet :
    (e : DeferEntry) (d : Directory Text) (ns : List ℕ) (f : Text)
    → lookup (filename e) d ≡ some f
    → move_to_manual_clear e (quiet d ns)
      ≡ (ok tt, quiet (store (manual_clear_filename e) f (unlink (filename e) d)) ns)
unfolding move_to_manual_clear fsync_dir syscall
move_to_manual_clear-quiet e d ns f there = rw there

pub saturating_succ_lem : (n : ℕ) → n + 1 < 2 ^ 32 → saturating_succ n ≡ n + 1
unfolding saturating_succ
saturating_succ_lem n h = ground arith

-- The entry with one attempt more.
abbrev pub next : DeferEntry → DeferEntry
next e = record e { attempt_count = e.attempt_count + 1 }

bump_attempt-next :
    (json : Serde) (e : DeferEntry) (d : Directory Text) (ns : List ℕ)
    → e.attempt_count + 1 < 2 ^ 32
    → bump_attempt json e (quiet d ns)
      ≡ (ok (next e), quiet (publish json (next e) (reading ns) d) (later ns))
bump_attempt-next json e d ns fits =
    rw (saturating_succ_lem e.attempt_count fits) at (bump_attempt-quiet json e d ns)

lookup-published :
    (json : Serde) (e : DeferEntry) (nanos : ℕ) (d : Directory Text)
    → lookup (filename e) (publish json e nanos d) ≡ some (line json e)
unfolding lookup
lookup-published json e nanos d = rw (text_eq_refl (filename e))

left_behind :
    (e : DeferEntry) (f : Text) (d : Directory Text)
    → lookup (filename e) (store (manual_clear_filename e) f (unlink (filename e) d)) ≡ none
unfolding lookup
left_behind e f d =
    rw (names_differ e)
      (lookup-unlink-none (filename e) (manual_clear_filename e) _ (lookup-unlink (filename e) d))

moved_to :
    (e : DeferEntry) (f : Text) (d : Directory Text)
    → lookup (manual_clear_filename e) (store (manual_clear_filename e) f (unlink (filename e) d))
      ≡ some f
unfolding lookup
moved_to e f d = rw (text_eq_refl (manual_clear_filename e))

module _ (json : Serde) where
  -- If no call fails, an entry that fails with attempts left stays in its file, with one attempt
  -- more, and is counted by the counter given; the limit of attempts is below 2 ^ 32.
  pub after_failure-kept :
      (e : DeferEntry) (count : ReplayReport → ReplayReport) (report : ReplayReport)
      → (d : Directory Text) (ns : List ℕ) → e.attempt_count + 1 < e.max_attempts
      → e.max_attempts < 2 ^ 32
      → (fs : Fs Text) × (after_failure json e count report (quiet d ns) ≡ (ok (count report), fs))
        × (lookup (filename e) fs.files ≡ some (line json (next e)))
  unfolding after_failure after_bump filename
  after_failure-kept e count report d ns h bound =
      let left : leb e.max_attempts (e.attempt_count + 1) ≡ false = ground arith in
      (
        quiet (publish json (next e) (reading ns) d) (later ns),
        rw (bump_attempt-next json e d ns (omega arith), left),
        lookup-published json (next e) (reading ns) d,
      )

  -- If no call fails, an entry that fails with its last attempt leaves its file for the one of the
  -- manual kind, which holds it with one attempt more, and is counted as promoted; the number of
  -- attempts stays below 2 ^ 32.
  pub after_failure-promoted :
      (e : DeferEntry) (count : ReplayReport → ReplayReport) (report : ReplayReport)
      → (d : Directory Text) (ns : List ℕ) → e.max_attempts ≤ e.attempt_count + 1
      → e.attempt_count + 1 < 2 ^ 32
      → (fs : Fs Text) × (after_failure json e count report (quiet d ns)
          ≡ (ok (count_promoted report), fs))
        × (lookup (filename e) fs.files ≡ none)
        × (lookup (manual_clear_filename e) fs.files ≡ some (line json (next e)))
  unfolding after_failure after_bump filename manual_clear_filename
  after_failure-promoted e count report d ns h fits =
      let out : leb e.max_attempts (e.attempt_count + 1) ≡ true = ground arith in
      let written = publish json (next e) (reading ns) d in
      (
        quiet
            (store (manual_clear_filename (next e)) (line json (next e))
              (unlink (filename (next e)) written))
            (later ns),
        rw (
          bump_attempt-next json e d ns fits,
          out,
          move_to_manual_clear-quiet (next e) written (later ns) _
              (lookup-published json (next e) (reading ns) d),
        ),
        left_behind (next e) _ written,
        moved_to (next e) _ written,
      )
