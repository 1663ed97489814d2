-- ===== src/Defers/Journal/Examples.antt =====
-- A journal with one entry, and what the code does with it.
use bonsun.Base.{
  none, some, ◌≡◌, ◌⊎◌, refl, sym, inl, inr, [], ◌∷◌, ◌++◌, Text, text_eq, text_eq_iff,
  text_eq_refl, codes, if◌then◌else◌, arith, Bool-cases, text_le, insert_text, sort_texts, any,
}
use bonsun.Defers.Format.{
  DeferAction, DeferEntry, filename, sortkey, make_id, filename_slug, default_priority,
}
use bonsun.Defers.Format.Examples.{unit_entry}
use bonsun.Defers.Files.{other, Directory, Fs, ok, err, lookup, unlink, quiet, syscall, read_clock}
use bonsun.Defers.Journal.{
  Serde, EnqueueResult, replaced_lower_priority, subsumed, is_deferred, subsumes, enqueue,
  list_sorted, read_all, read_entry, walk, admit, drop_subsumed, write_entry, atomic_write,
  write_tmp, fsync_dir,
}
use bonsun.Defers.Journal.Quiet.{entry_at, line, enqueued, enqueue-quiet}
use bonsun.Defers.Files.Ends.{Ends}
use bonsun.Defers.Journal.Atomic.{IsKept, IsReplaced, atomic_write-Ends}
use bonsun.Defers.Journal.Untouched.{enqueue-untouched}
use bonsun.Defers.Journal.Repeat.{again, enqueue_twice}
use bonsun.Defers.Journal.Reduced.{IsReduced, subsumes_irreflexive, enqueue-IsReduced}

abbrev pub restart_entry : DeferEntry
restart_entry = unit_entry DeferAction.restart

abbrev pub reload_entry : DeferEntry
reload_entry = unit_entry DeferAction.reload

-- Entries written as their identifiers.
abbrev pub by_id : Serde
by_id = record {
  to_json = λ e. e.id;
  from_json = λ bytes.
      if text_eq bytes (restart_entry.id ++ codes "\n")
      then ok restart_entry
      else if text_eq bytes (reload_entry.id ++ codes "\n")
      then ok reload_entry
      else err (codes "expected an identifier");
}

pub restart_survives : by_id.from_json (line by_id restart_entry) ≡ ok restart_entry
restart_survives = rw (text_eq_refl (restart_entry.id ++ codes "\n"))

pub reload_survives : by_id.from_json (line by_id reload_entry) ≡ ok reload_entry
unfolding text_eq make_id filename_slug
reload_survives = refl

abbrev pub one_reload : Directory Text
one_reload = (filename reload_entry, line by_id reload_entry) ∷ []

-- The restart takes the place of the reload.
enqueue_run : enqueue by_id restart_entry (quiet one_reload (7 ∷ [])) ≡ (
  ok replaced_lower_priority,
  quiet ((filename restart_entry, line by_id restart_entry) ∷ []) [],
)
unfolding enqueue list_sorted read_all read_entry walk admit drop_subsumed write_entry atomic_write
    write_tmp fsync_dir syscall read_clock lookup unlink is_deferred subsumes text_eq text_le
    insert_text sort_texts any filename sortkey make_id filename_slug default_priority
enqueue_run = refl

pub only_reload :
    (n : Text) (a : DeferEntry)
    → entry_at by_id n one_reload ≡ some a
    → (n ≡ filename reload_entry) × (a ≡ reload_entry)
unfolding lookup
only_reload n a ha = elim (Bool-cases (text_eq (filename reload_entry) n)) [
  | inl same ↦ (
    sym ((text_eq_iff (filename reload_entry) n).0 same),
    ground (arith, same, ha, reload_survives),
  )
  | inr different ↦ absurd (ground (arith, different, ha))
]

one_reload-IsReduced : IsReduced by_id one_reload
one_reload-IsReduced = record {
  named = λ n a hn ha. let (here, it) = only_reload n a ha in rw (it, here);
  apart = λ n m a b hn ha hm hb same.
      rw ((only_reload n a ha).1, (only_reload m b hb).1) (subsumes_irreflexive DeferAction.reload);
}

enqueue-quiet_example : enqueue by_id restart_entry (quiet one_reload (7 ∷ [])) ≡ (
  ok (enqueued by_id restart_entry one_reload (7 ∷ [])).0,
  quiet
      (enqueued by_id restart_entry one_reload (7 ∷ [])).1.0
      (enqueued by_id restart_entry one_reload (7 ∷ [])).1.1,
)
enqueue-quiet_example = enqueue-quiet by_id restart_entry one_reload (7 ∷ [])

enqueue_twice_example :
    (r : EnqueueResult) × (fs : Fs Text) × (enqueue by_id restart_entry (quiet one_reload (7 ∷ []))
      ≡ (ok r, fs))
    × (enqueue by_id restart_entry fs ≡ (ok (again r), fs))
enqueue_twice_example = enqueue_twice by_id restart_entry one_reload (7 ∷ []) restart_survives

enqueue-IsReduced_example :
    (r : EnqueueResult) × (fs : Fs Text) × (enqueue by_id restart_entry (quiet one_reload (7 ∷ []))
      ≡ (ok r, fs))
    × IsReduced by_id fs.files
enqueue-IsReduced_example =
    enqueue-IsReduced by_id restart_entry one_reload (7 ∷ []) restart_survives one_reload-IsReduced

-- A disk that is full when the new content is written.
abbrev faulty : Fs Text
faulty = record {
  files = one_reload;
  faults = none ∷ none ∷ none ∷ some (other (codes "no space left")) ∷ [];
  clock = some 7 ∷ [];
}

atomic_write-Ends_example :
    Ends
      (IsReplaced by_id reload_entry one_reload)
      (λ d. IsKept by_id reload_entry one_reload d ⊎ IsReplaced by_id reload_entry one_reload d)
      (atomic_write by_id reload_entry faulty)
atomic_write-Ends_example = atomic_write-Ends by_id reload_entry faulty

abbrev one_restart : Fs Text
one_restart = quiet ((filename restart_entry, line by_id restart_entry) ∷ []) []

subsumed_run : enqueue by_id reload_entry one_restart ≡ (ok subsumed, one_restart)
unfolding enqueue list_sorted read_all read_entry walk admit drop_subsumed write_entry atomic_write
    write_tmp fsync_dir syscall read_clock lookup unlink is_deferred subsumes text_eq text_le
    insert_text sort_texts any filename sortkey make_id filename_slug default_priority
subsumed_run = refl

enqueue-untouched_example : one_restart.files ≡ one_restart.files
enqueue-untouched_example =
    enqueue-untouched by_id reload_entry subsumed one_restart one_restart refl subsumed_run
