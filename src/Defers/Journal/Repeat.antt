-- ===== src/Defers/Journal/Repeat.antt =====
-- What a second `enqueue` of an entry does (bosun-core/src/defers/journal.rs).
use bonsun.Base.{
  ℕ, ◌≡◌, refl, Bool, true, false, ◌&&◌, List, some, Text, text_eq, text_eq_refl, keep, any,
  if◌then◌else◌, arith, ◌∙◌, Bool-cases, inl, inr,
}
use bonsun.Defers.Format.{DeferEntry, filename}
use bonsun.Defers.Files.{Directory, Fs, ok, lookup, store, quiet}
use bonsun.Defers.Journal.{
  Serde, EnqueueResult, created, already_exists, subsumed, replaced_lower_priority, subsumes,
  same_target, enqueue,
}
use bonsun.Defers.Journal.Quiet.{
  entry_at, entries, line, publish, drops, enqueued, enqueued_among, enqueue-quiet, reading, later,
}
use bonsun.Defers.Journal.Listing.{any-keep, any-entries, is_deferred-filename}

-- The result of a second `enqueue`, by that of the first.
abbrev pub again : EnqueueResult → EnqueueResult
again subsumed = subsumed
again _ = already_exists

again_written :
    (replaced : Bool)
    → again (if replaced then replaced_lower_priority else created) ≡ already_exists
again_written false = refl
again_written true = refl

lookup-store : (n : Text) (f : Text) (d : Directory Text) → lookup n (store n f d) ≡ some f
unfolding lookup
lookup-store n f d = rw (text_eq_refl n)

module _ (json : Serde) where
  entry_at-lookup :
      (n : Text) (d : Directory Text) (bytes : Text) (e : DeferEntry)
      → lookup n d ≡ some bytes
      → json.from_json bytes ≡ ok e
      → entry_at json n d ≡ some e
  entry_at-lookup n d bytes e h back = ground (arith, h, back)

  pub entry_at-publish :
      (e : DeferEntry) (nanos : ℕ) (d : Directory Text)
      → json.from_json (line json e) ≡ ok e
      → entry_at json (filename e) (publish json e nanos d) ≡ some e
  entry_at-publish e nanos d back =
      entry_at-lookup (filename e) _ _ e (lookup-store (filename e) (line json e) _) back

  pub published :
      (e : DeferEntry) (nanos : ℕ) (d : Directory Text)
      → json.from_json (line json e) ≡ ok e
      → any (λ x. text_eq x.id e.id) (keep (same_target e) (entries json (publish json e nanos d)))
        ≡ true
  published e nanos d back =
      any-keep (λ x. text_eq x.id e.id) (same_target e) _
      ∙ any-entries json (λ x. same_target e x && text_eq x.id e.id) _ (filename e) e
          (is_deferred-filename e) (entry_at-publish e nanos d back)
          (rw (text_eq_refl e.init_system, text_eq_refl e.target, text_eq_refl e.id))

  enqueued_known :
      (e : DeferEntry) (d : Directory Text) (ns : List ℕ)
      → any (λ x. text_eq x.id e.id) (keep (same_target e) (entries json d)) ≡ true
      → enqueued json e d ns ≡ (already_exists, (d, ns))
  unfolding enqueued_among
  enqueued_known e d ns known = rw known

  enqueued_twice :
      (e : DeferEntry) (d : Directory Text) (ns : List ℕ)
      → json.from_json (line json e) ≡ ok e
      → let (r, (d', ns')) = enqueued json e d ns in enqueued json e d' ns' ≡ (again r, (d', ns'))
  unfolding enqueued_among
  enqueued_twice e d ns back =
      let same = keep (same_target e) (entries json d) in
      let dropped = (drops e same false d).1 in
      elim (Bool-cases (any (λ x. text_eq x.id e.id) same)) [
        | inl known ↦ rw known (rw known)
        | inr new ↦ elim (Bool-cases (any (λ x. subsumes x.action e.action) same)) [
          | inl below ↦ rw (new, below) (rw (new, below))
          | inr above ↦
              rw (new, above)
                (enqueued_known e (publish json e (reading ns) dropped) (later ns)
                    (published e (reading ns) dropped back)
                  ∙ rw (again_written (drops e same false d).0))
        ]
      ]

  -- If no call fails and the entry survives its encoding, `enqueue` returns a result, and a second
  -- `enqueue` of the same entry changes nothing: it finds the entry to exist, or to be subsumed if
  -- the first found that.
  pub enqueue_twice :
      (e : DeferEntry) (d : Directory Text) (ns : List ℕ)
      → json.from_json (line json e) ≡ ok e
      → (r : EnqueueResult) × (fs : Fs Text) × (enqueue json e (quiet d ns) ≡ (ok r, fs))
        × (enqueue json e fs ≡ (ok (again r), fs))
  enqueue_twice e d ns back =
      let (r, (d', ns')) = enqueued json e d ns in
      (
        r,
        quiet d' ns',
        enqueue-quiet json e d ns,
        enqueue-quiet json e d' ns' ∙ rw (enqueued_twice e d ns back),
      )
