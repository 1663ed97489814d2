-- ===== src/Defers/Journal/Reduced.antt =====
-- Journals in which no entry makes another of the same target superfluous
-- (bosun-core/src/defers/journal.rs).
use bonsun.Base.{
  ℕ, ◌≡◌, refl, sym, ◌∙◌, inl, inr, none, true, false, ◌&&◌, List, some, Text, text_eq, text_eq_iff,
  text_eq_comm, ap, keep, any, arith, Bool-cases,
}
use bonsun.Defers.Format.{DeferAction, DeferEntry, filename}
use bonsun.Defers.Files.{Directory, Fs, ok, lookup, quiet}
use bonsun.Defers.Journal.{Serde, EnqueueResult, is_deferred, subsumes, same_target, enqueue}
use bonsun.Defers.Journal.Quiet.{
  entry_at, entries, line, publish, drops, enqueued, enqueued_among, enqueue-quiet, reading,
}
use bonsun.Defers.Journal.Listing.{any-keep, any-entries}
use bonsun.Defers.Journal.Removal.{lookup-drops, entry_at_of_drops, entry_at_of_publish}

pub subsumes_irreflexive : (a : DeferAction) → subsumes a a ≡ false
unfolding subsumes
subsumes_irreflexive DeferAction.restart = refl
subsumes_irreflexive DeferAction.reload_or_restart = refl
subsumes_irreflexive a = refl

same_target_symmetric : (a b : DeferEntry) → same_target a b ≡ true → same_target b a ≡ true
same_target_symmetric a b h =
    rw (text_eq_comm a.init_system b.init_system, text_eq_comm a.target b.target) h

module _ (json : Serde) where
  -- Each file bears the name of its entry, and no entry subsumes another of the same target.
  pub record IsReduced (d : Directory Text) : Type 0 where
    pub named :
        (n : Text) (a : DeferEntry)
        → is_deferred n ≡ true
        → entry_at json n d ≡ some a
        → n ≡ filename a
    pub apart :
        (n m : Text) (a b : DeferEntry)
        → is_deferred n ≡ true
        → entry_at json n d ≡ some a
        → is_deferred m ≡ true
        → entry_at json m d ≡ some b
        → same_target a b ≡ true
        → subsumes a.action b.action ≡ false

  not_above :
      (e a : DeferEntry) (d : Directory Text) (n : Text)
      → any (λ x. subsumes x.action e.action) (keep (same_target e) (entries json d)) ≡ false
      → is_deferred n ≡ true
      → entry_at json n d ≡ some a
      → same_target e a ≡ true
      → subsumes a.action e.action ≡ false
  not_above e a d n least hn ha same = elim (Bool-cases (subsumes a.action e.action)) [
    | inr fine ↦ fine
    | inl above ↦ absurd (
        ground (
          arith,
          least,
          any-keep (λ x. subsumes x.action e.action) (same_target e) (entries json d),
          any-entries json (λ x. same_target e x && subsumes x.action e.action) d n a hn ha
              (rw (same, above)),
        ))
  ]

  not_below :
      (e a : DeferEntry) (d : Directory Text) (n : Text)
      → IsReduced d
      → is_deferred n ≡ true
      → entry_at json n (drops e (keep (same_target e) (entries json d)) false d).1 ≡ some a
      → same_target e a ≡ true
      → subsumes e.action a.action ≡ false
  not_below e a d n reduced hn ha same = elim (Bool-cases (subsumes e.action a.action)) [
    | inr fine ↦ fine
    | inl below ↦
        let among = keep (same_target e) (entries json d) in
        let before : entry_at json n d ≡ some a = entry_at_of_drops json n a e among false d ha in
        let bears : text_eq (filename a) n ≡ true =
          (text_eq_iff (filename a) n).1 (sym (reduced.named n a hn before)) in
        let gone : lookup n (drops e among false d).1 ≡ none = lookup-drops n e among false d (
          any-keep (λ x. text_eq (filename x) n && subsumes e.action x.action) (same_target e)
            (entries json d)
          ∙ any-entries json
              (λ x. same_target e x && (text_eq (filename x) n && subsumes e.action x.action)) d n a
              hn before (rw (same, bears, below))) in
        absurd (ground (arith, gone, ha))
  ]

  publish-IsReduced :
      (e : DeferEntry) (nanos : ℕ) (d : Directory Text)
      → json.from_json (line json e) ≡ ok e
      → IsReduced d
      → any (λ x. subsumes x.action e.action) (keep (same_target e) (entries json d)) ≡ false
      → IsReduced (publish json e nanos (drops e (keep (same_target e) (entries json d)) false d).1)
  publish-IsReduced e nanos d back reduced least =
      let among = keep (same_target e) (entries json d) in
      let dropped = (drops e among false d).1 in
      record {
        named = λ n a hn ha. elim (entry_at_of_publish json n a e nanos dropped back ha) [
          | inl (here, new) ↦ here ∙ ap filename (sym new)
          | inr old ↦ reduced.named n a hn (entry_at_of_drops json n a e among false d old)
        ];
        apart = λ n m a b hn ha hm hb same.
            elim (entry_at_of_publish json n a e nanos dropped back ha) [
              | inl (_, ae) ↦ elim (entry_at_of_publish json m b e nanos dropped back hb) [
                | inl (_, be) ↦ rw (ae, be) (subsumes_irreflexive e.action)
                | inr old ↦ rw ae (not_below e b d m reduced hm old (rw ae at same))
              ]
              | inr olda ↦
                  let before = entry_at_of_drops json n a e among false d olda in
                  elim (entry_at_of_publish json m b e nanos dropped back hb) [
                    | inl (_, be) ↦ rw be (
                        not_above e a d n least hn before
                          (same_target_symmetric a e (rw be at same)))
                    | inr oldb ↦
                        reduced.apart n m a b hn before hm
                          (entry_at_of_drops json m b e among false d oldb) same
                  ]
            ];
      }

  enqueued-IsReduced :
      (e : DeferEntry) (d : Directory Text) (ns : List ℕ)
      → json.from_json (line json e) ≡ ok e
      → IsReduced d
      → IsReduced (enqueued json e d ns).1.0
  unfolding enqueued_among
  enqueued-IsReduced e d ns back reduced =
      let among = keep (same_target e) (entries json d) in
      elim (Bool-cases (any (λ x. text_eq x.id e.id) among)) [
        | inl known ↦ rw known reduced
        | inr new ↦ elim (Bool-cases (any (λ x. subsumes x.action e.action) among)) [
          | inl below ↦ rw (new, below) reduced
          | inr least ↦ rw (new, least) (publish-IsReduced e (reading ns) d back reduced least)
        ]
      ]

  -- If no call fails and the entry survives its encoding, `enqueue` returns a result and keeps the
  -- journal reduced: each file bears the name of its entry, and no entry subsumes another of the
  -- same target.
  pub enqueue-IsReduced :
      (e : DeferEntry) (d : Directory Text) (ns : List ℕ)
      → json.from_json (line json e) ≡ ok e
      → IsReduced d
      → (r : EnqueueResult) × (fs : Fs Text) × (enqueue json e (quiet d ns) ≡ (ok r, fs))
        × IsReduced fs.files
  enqueue-IsReduced e d ns back reduced =
      let (r, (d', ns')) = enqueued json e d ns in
      (r, quiet d' ns', enqueue-quiet json e d ns, enqueued-IsReduced e d ns back reduced)
