-- ===== src/Defers/Journal/Quiet.antt =====
-- What the operations of bosun-core/src/defers/journal.rs do to the directory if no call fails.
use bonsun.Base.{
  ℕ, ◌≡◌, refl, Bool, true, false, List, [], ◌∷◌, ◌++◌, Option, none, some, Text, text_eq,
  text_eq_refl, codes, keep, sort_texts, any, if◌then◌else◌, arith,
}
use bonsun.Defers.Format.{DeferEntry, filename}
use bonsun.Defers.Files.{
  Result, ok, err, Directory, lookup, unlink, store, quiet, file_names, syscall, read_clock,
}
use bonsun.Defers.Journal.{
  Serde, EnqueueResult, created, already_exists, subsumed, replaced_lower_priority, fsync_dir,
  is_deferred, tmp_name, write_as, subsumes, same_target, read_entry, walk, read_all, list_sorted,
  write_tmp, atomic_write, drop_subsumed, write_entry, admit, enqueue,
}

-- The next reading of the clock, and the readings behind it.
abbrev pub reading : List ℕ → ℕ
reading [] = 0
reading (n ∷ ns) = n

abbrev pub later : List ℕ → List ℕ
later [] = []
later (n ∷ ns) = ns

abbrev pub parse : Result Text DeferEntry → Option DeferEntry
parse (ok e) = some e
parse (err x) = none

unfoldable pub drops : DeferEntry → List DeferEntry → Bool → Directory Text → Bool × Directory Text
drops e [] replaced d = (replaced, d)
drops e (old ∷ rest) replaced d =
    if subsumes e.action old.action
    then elim (lookup (filename old) d) [
      | none ↦ drops e rest replaced d
      | some _ ↦ drops e rest true (unlink (filename old) d)
    ]
    else drops e rest replaced d

walk-quiet :
    (names : List Text) (d : Directory Text) (ns : List ℕ)
    → walk names (quiet d ns) ≡ (ok names, quiet d ns)
unfolding walk syscall
walk-quiet [] d ns = refl
walk-quiet (n ∷ names) d ns = rw (walk-quiet names d ns)

module _ (json : Serde) where
  -- The entry in the file of a name.
  abbrev pub entry_at : Text → Directory Text → Option DeferEntry
  entry_at name d = elim (lookup name d) [ none ↦ none | some bytes ↦ parse (json.from_json bytes) ]

  unfoldable pub entries_of : List Text → Directory Text → List DeferEntry
  entries_of [] d = []
  entries_of (n ∷ ns) d = elim (entry_at n d) [
    | none ↦ entries_of ns d
    | some e ↦ e ∷ entries_of ns d
  ]

  -- The entries of a journal, in the order of their names.
  abbrev pub entries : Directory Text → List DeferEntry
  entries d = entries_of (sort_texts (keep is_deferred (file_names d))) d

  abbrev pub line : DeferEntry → Text
  line e = json.to_json e ++ codes "\n"

  -- The directory behind `atomic_write`.
  abbrev pub publish : DeferEntry → ℕ → Directory Text → Directory Text
  publish e nanos d = store (filename e) (line e) (unlink (tmp_name e nanos) d)

  read_all-quiet :
      (names : List Text) (d : Directory Text) (ns : List ℕ)
      → read_all json names (quiet d ns) ≡ (ok (entries_of names d), quiet d ns)
  unfolding read_all read_entry syscall entries_of
  read_all-quiet [] d ns = refl
  read_all-quiet (n ∷ names) d ns = ground (arith, read_all-quiet names d ns)

  pub list_sorted-quiet :
      (d : Directory Text) (ns : List ℕ)
      → list_sorted json (quiet d ns) ≡ (ok (entries d), quiet d ns)
  unfolding list_sorted syscall
  list_sorted-quiet d ns = rw (walk-quiet (file_names d) d ns) (read_all-quiet _ d ns)

fsync_dir-quiet : (d : Directory Text) (ns : List ℕ) → fsync_dir (quiet d ns) ≡ (ok tt, quiet d ns)
unfolding fsync_dir syscall
fsync_dir-quiet d ns = refl

unlink_self : (name : Text) (d : Directory Text) → unlink name (unlink name d) ≡ unlink name d
unfolding unlink
unlink_self name [] = refl
unlink_self name ((n, f) ∷ d) = ground (arith, unlink_self name d)

drop_subsumed-quiet :
    (e : DeferEntry) (es : List DeferEntry) (r : Bool) (d : Directory Text) (ns : List ℕ)
    → drop_subsumed e es r (quiet d ns) ≡ (ok (drops e es r d).0, quiet (drops e es r d).1 ns)
unfolding drop_subsumed drops syscall
drop_subsumed-quiet e [] r d ns = refl
drop_subsumed-quiet e (old ∷ es) r d ns = ground (
  arith,
  drop_subsumed-quiet e es r d ns,
  drop_subsumed-quiet e es true (unlink (filename old) d) ns,
)

module _ (json : Serde) where
  -- What is stored under a name is found and removed there.
  rewritten :
      (tmp : Text) (a b : Text) (d : Directory Text)
      → (lookup tmp (store tmp a (store tmp b d)) ≡ some a)
        × (unlink tmp (store tmp a (store tmp b d)) ≡ unlink tmp d)
  unfolding lookup unlink
  rewritten tmp a b d = rw (text_eq_refl tmp, unlink_self tmp d) (refl, unlink_self tmp d)

  write_as-quiet :
      (e : DeferEntry) (nanos : ℕ) (d : Directory Text) (ns : List ℕ)
      → write_as json e (some nanos) (quiet d ns) ≡ (ok tt, quiet (publish json e nanos d) ns)
  unfolding write_tmp fsync_dir syscall
  write_as-quiet e nanos d ns =
      let (there, gone) = rewritten (tmp_name e nanos) (line json e) [] d in rw (there, gone)

  pub atomic_write-quiet :
      (e : DeferEntry) (d : Directory Text) (ns : List ℕ)
      → atomic_write json e (quiet d ns) ≡ (ok tt, quiet (publish json e (reading ns) d) (later ns))
  unfolding atomic_write read_clock
  atomic_write-quiet e d [] = write_as-quiet e 0 d []
  atomic_write-quiet e d (n ∷ ns) = write_as-quiet e n d ns

  -- The result of `enqueue`, the directory behind it, and the readings of the clock that are left.
  abbrev after_drops :
      DeferEntry → List ℕ → Bool × Directory Text → EnqueueResult × (Directory Text × List ℕ)
  after_drops e ns (replaced, d) = (
    if replaced then replaced_lower_priority else created,
    (publish json e (reading ns) d, later ns),
  )

  unfoldable pub enqueued_among :
      DeferEntry
      → List DeferEntry
      → Directory Text
      → List ℕ
      → EnqueueResult × (Directory Text × List ℕ)
  enqueued_among e same d ns =
      if any (λ x. text_eq x.id e.id) same
      then (already_exists, (d, ns))
      else if any (λ x. subsumes x.action e.action) same
      then (subsumed, (d, ns))
      else after_drops e ns (drops e same false d)

  abbrev pub enqueued :
      DeferEntry → Directory Text → List ℕ → EnqueueResult × (Directory Text × List ℕ)
  enqueued e d ns = enqueued_among e (keep (same_target e) (entries json d)) d ns

  write_entry-quiet :
      (e : DeferEntry) (r : Bool) (d : Directory Text) (ns : List ℕ)
      → write_entry json e r (quiet d ns) ≡ (
        ok (if r then replaced_lower_priority else created),
        quiet (publish json e (reading ns) d) (later ns),
      )
  unfolding write_entry
  write_entry-quiet e false d ns = rw (atomic_write-quiet e d ns)
  write_entry-quiet e true d ns = rw (fsync_dir-quiet d ns, atomic_write-quiet e d ns)

  admit-quiet :
      (e : DeferEntry) (es : List DeferEntry) (d : Directory Text) (ns : List ℕ)
      → admit json e es (quiet d ns) ≡ (
        ok (enqueued_among e es d ns).0,
        quiet (enqueued_among e es d ns).1.0 (enqueued_among e es d ns).1.1,
      )
  unfolding admit enqueued_among
  admit-quiet e es d ns = ground (
    arith,
    drop_subsumed-quiet e es false d ns,
    write_entry-quiet e (drops e es false d).0 (drops e es false d).1 ns,
  )

  -- If no call fails, `enqueue` returns the result that `enqueued` gives, and leaves the directory and
  -- the readings of the clock that it gives.
  pub enqueue-quiet :
      (e : DeferEntry) (d : Directory Text) (ns : List ℕ)
      → enqueue json e (quiet d ns)
        ≡ (ok (enqueued e d ns).0, quiet (enqueued e d ns).1.0 (enqueued e d ns).1.1)
  unfolding enqueue
  enqueue-quiet e d ns = rw (list_sorted-quiet json d ns) (admit-quiet e _ d ns)
