-- ===== src/Defers/Journal/Covered.antt =====
-- What the journal holds behind an `enqueue` (bosun-core/src/defers/journal.rs).
use bonsun.Base.{
  ℕ, ◌≡◌, refl, ◌⊎◌, true, false, List, some, Text, text_eq, keep, any, Bool-cases, inl, inr,
}
use bonsun.Defers.Format.{DeferEntry, filename}
use bonsun.Defers.Files.{Directory, Fs, ok, quiet}
use bonsun.Defers.Journal.{Serde, EnqueueResult, subsumes, same_target, enqueue}
use bonsun.Defers.Journal.Quiet.{
  entry_at, entries, line, drops, enqueued, enqueued_among, enqueue-quiet, reading,
}
use bonsun.Defers.Journal.Repeat.{entry_at-publish}

-- Of the entries of the same target in `d`: one has the identifier, or the action of one subsumes that of
-- the entry, and the directory is as it was; or there is none, and now the entry itself, its action and all
-- its fields, is what the file with its name holds.
abbrev pub Filed : Serde → DeferEntry → (d d' : Directory Text) → Type 0
Filed json e d d' =
    let same = keep (same_target e) (entries json d) in
    let known = any (λ x. text_eq x.id e.id) same in
    let below = any (λ x. subsumes x.action e.action) same in
    ((known ≡ true) × (d' ≡ d))
    ⊎ (((below ≡ true) × (d' ≡ d))
        ⊎ ((known ≡ false) × (below ≡ false) × (entry_at json (filename e) d' ≡ some e)))

module _ (json : Serde) where
  enqueued-Filed :
      (e : DeferEntry) (d : Directory Text) (ns : List ℕ)
      → json.from_json (line json e) ≡ ok e
      → Filed json e d (enqueued json e d ns).1.0
  unfolding enqueued_among
  enqueued-Filed e d ns back =
      let same = keep (same_target e) (entries json d) in
      let dropped = (drops e same false d).1 in
      elim (Bool-cases (any (λ x. text_eq x.id e.id) same)) [
        | inl known ↦ rw known (inl (refl, refl))
        | inr new ↦ elim (Bool-cases (any (λ x. subsumes x.action e.action) same)) [
          | inl below ↦ rw (new, below) (inr (inl (refl, refl)))
          | inr above ↦
              rw (new, above)
                (inr (inr (refl, refl, entry_at-publish json e (reading ns) dropped back)))
        ]
      ]

  -- If no call fails and the entry survives its encoding, `enqueue` returns a result, behind which the entry
  -- is filed, unless the journal had its identifier or an action that subsumes its own.
  pub enqueue-Filed :
      (e : DeferEntry) (d : Directory Text) (ns : List ℕ)
      → json.from_json (line json e) ≡ ok e
      → (r : EnqueueResult) × (fs : Fs Text) × (enqueue json e (quiet d ns) ≡ (ok r, fs))
        × Filed json e d fs.files
  enqueue-Filed e d ns back =
      let (r, (d', ns')) = enqueued json e d ns in
      (r, quiet d' ns', enqueue-quiet json e d ns, enqueued-Filed e d ns back)
