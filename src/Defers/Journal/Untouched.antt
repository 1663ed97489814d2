-- ===== src/Defers/Journal/Untouched.antt =====
-- What `enqueue` leaves as it is, whichever calls fail (bosun-core/src/defers/journal.rs).
use bonsun.Base.{
  ◌≡◌, refl, ◌∙◌, inl, inr, Bool, true, false, List, [], ◌∷◌, Option, none, some, Text, text_eq,
  keep, any, sort_texts, arith, if◌then◌else◌, Bool-cases,
}
use bonsun.Defers.Format.{DeferEntry}
use bonsun.Defers.Files.{
  Directory, Fs, Result, ok, err, lookup, read_file, read_dir, file_names, and_then, found, commit,
  pure, ◌>>=◌,
}
use bonsun.Defers.Files.Ends.{
  Ends, syscall-Ends, map_err-Ends, and_then-Ends, with_result-Ends, touch-Ends,
}
use bonsun.Defers.Journal.{
  DeferError, Op, Serde, EnqueueResult, already_exists, subsumed, created, replaced_lower_priority,
  atomic_write, fsync_dir, is_deferred, read_entry, parsed, walk, read_all, read_on, list_sorted,
  admit, enqueue, same_target, subsumes, drop_subsumed, write_entry,
}

-- An operation that succeeds did so with its first part.
inversion :
    {A B : Type 0} (x : Result DeferError A × Fs Text) (f : A → Op B) (b : B) (fs' : Fs Text)
    → and_then x f ≡ (ok b, fs')
    → (a : A) × (fs : Fs Text) × (x ≡ (ok a, fs)) × (f a fs ≡ (ok b, fs'))
inversion (ok a, fs) f b fs' h = (a, fs, refl, h)
inversion (err e, fs) f b fs' h = absurd (ground (arith, h))

module _ (old : Directory Text) where
  abbrev IsOld : Directory Text → Type 0
  IsOld d = d ≡ old

  walk-Ends : (ns : List Text) (fs : Fs Text) → IsOld fs.files → Ends IsOld IsOld (walk ns fs)
  unfolding walk
  walk-Ends [] fs h = h
  walk-Ends (n ∷ ns) fs h =
      and_then-Ends IsOld IsOld IsOld _ _ (touch-Ends IsOld IsOld _ fs h h) λ _ fs1 h1.
        and_then-Ends IsOld IsOld IsOld (walk ns fs1) _ (walk-Ends ns fs1 h1) λ _ fs2 h2. h2

  parsed-Ends :
      (json : Serde) (n : Text) (r : Result Text DeferEntry) (fs : Fs Text)
      → IsOld fs.files
      → Ends IsOld IsOld (parsed json n r fs)
  parsed-Ends json n (ok e) fs h = h
  parsed-Ends json n (err x) fs h = h

  found-Ends :
      (o : Option Text) (fs : Fs Text)
      → IsOld fs.files
      → Ends IsOld IsOld (commit (found o, fs.files) fs)
  found-Ends none fs h = h
  found-Ends (some f) fs h = h

  read_entry-Ends :
      (json : Serde) (n : Text) (fs : Fs Text)
      → IsOld fs.files
      → Ends IsOld IsOld (read_entry json n fs)
  unfolding read_entry
  read_entry-Ends json n fs h =
      and_then-Ends IsOld IsOld IsOld _ _
        (map_err-Ends IsOld IsOld _ (read_file n fs) (
          syscall-Ends IsOld IsOld (λ d. (found (lookup n d), d)) fs h
            (found-Ends (lookup n fs.files) fs h)))
        λ bytes fs1 h1. parsed-Ends json n (json.from_json bytes) fs1 h1

  read_all-Ends :
      (json : Serde) (ns : List Text) (fs : Fs Text)
      → IsOld fs.files
      → Ends IsOld IsOld (read_all json ns fs)
  unfolding read_all
  read_all-Ends json [] fs h = h
  read_all-Ends json (n ∷ ns) fs h =
      with_result-Ends IsOld IsOld IsOld IsOld (read_on (read_all json ns)) (read_entry json n fs)
        (read_entry-Ends json n fs h)
        (λ e fs1 h1.
          and_then-Ends IsOld IsOld IsOld (read_all json ns fs1)
            (λ (es : List DeferEntry). pure {F = Text} {E = DeferError} (e ∷ es))
            (read_all-Ends json ns fs1 h1) (λ _ fs2 h2. h2))
        (λ x fs1 h1. read_all-Ends json ns fs1 h1)

  list_sorted-Ends :
      (json : Serde) (fs : Fs Text) → IsOld fs.files → Ends IsOld IsOld (list_sorted json fs)
  unfolding list_sorted
  list_sorted-Ends json fs h =
      and_then-Ends IsOld IsOld IsOld _ _
        (and_then-Ends IsOld IsOld IsOld _ walk
          (map_err-Ends IsOld IsOld _ (read_dir fs)
            (syscall-Ends IsOld IsOld (λ d. (ok (file_names d), d)) fs h h))
          (λ ns fs1 h1. walk-Ends ns fs1 h1))
        (λ names fs2 h2. read_all-Ends json (sort_texts (keep is_deferred names)) fs2 h2)

-- The results with which `enqueue` writes nothing.
abbrev pub writes_nothing : EnqueueResult → Bool
writes_nothing already_exists = true
writes_nothing subsumed = true
writes_nothing _ = false

last_writes :
    (replaced : Bool) (r : EnqueueResult) (fs fs' : Fs Text)
    → pure {F = Text} {E = DeferError} (if replaced then replaced_lower_priority else created) fs
      ≡ (ok r, fs')
    → writes_nothing r ≡ false
last_writes replaced r fs fs' h = ground (arith, h)

write_entry-writes :
    (json : Serde) (e : DeferEntry) (replaced : Bool) (r : EnqueueResult) (fs fs' : Fs Text)
    → write_entry json e replaced fs ≡ (ok r, fs')
    → writes_nothing r ≡ false
unfolding write_entry
write_entry-writes json e replaced r fs fs' h =
    let last : Unit → Op EnqueueResult =
      λ _. pure (if replaced then replaced_lower_priority else created) in
    let (_, fs1, _, after_sync) =
      inversion ((if replaced then fsync_dir else pure tt) fs) (λ _. atomic_write json e >>= last) r
        fs' h in
    let (_, fs2, _, written) = inversion (atomic_write json e fs1) last r fs' after_sync in
    last_writes replaced r fs2 fs' written

admit-untouched :
    (json : Serde) (e : DeferEntry) (same : List DeferEntry) (r : EnqueueResult) (fs fs' : Fs Text)
    → writes_nothing r ≡ true
    → admit json e same fs ≡ (ok r, fs')
    → fs'.files ≡ fs.files
unfolding admit
admit-untouched json e same r fs fs' nothing h =
    elim (Bool-cases (any (λ x. text_eq x.id e.id) same)) [
      | inl known ↦ ground (arith, known, h)
      | inr new ↦ elim (Bool-cases (any (λ x. subsumes x.action e.action) same)) [
        | inl under ↦ ground (arith, new, under, h)
        | inr above ↦
            let (replaced, fs1, _, written) =
              inversion (drop_subsumed e same false fs) (write_entry json e) r fs'
                (rw (new, above) at h) in
            absurd (ground (arith, nothing, write_entry-writes json e replaced r fs1 fs' written))
      ]
    ]

-- Whichever calls fail: where `enqueue` returns that the entry exists or is subsumed, the directory is as
-- it was.
pub enqueue-untouched :
    (json : Serde) (e : DeferEntry) (r : EnqueueResult) (fs fs' : Fs Text)
    → writes_nothing r ≡ true
    → enqueue json e fs ≡ (ok r, fs')
    → fs'.files ≡ fs.files
unfolding enqueue
enqueue-untouched json e r fs fs' nothing h =
    let (existing, fs1, listed, admitted) = inversion (list_sorted json fs) _ r fs' h in
    let kept : fs1.files ≡ fs.files = (rw listed at (list_sorted-Ends fs.files json fs refl)) in
    admit-untouched json e (keep (same_target e) existing) r fs1 fs' nothing admitted ∙ kept
