-- ===== src/Defers/Journal/Listing.antt =====
-- What stands in the listing of the journal (`list_sorted` of bosun-core/src/defers/journal.rs).
use bonsun.Base.{
  ◌≡◌, refl, Bool, true, ◌&&◌, List, [], ◌∷◌, ◌++◌, some, Text, text_eq, text_eq_refl, text_eq_iff,
  codes, keep, insert_text, sort_texts, any, contains, arith, ◌∙◌, Bool-cases, Option-cases, inl,
  inr,
}
use bonsun.Defers.Format.{DeferEntry, DeferPriority, filename, sortkey}
use bonsun.Defers.Files.{Directory, lookup, file_names}
use bonsun.Defers.Journal.{Serde, is_deferred, rsplit_dot}
use bonsun.Defers.Journal.Quiet.{entry_at, entries_of, entries}

rsplit_dot-append : (s : Text) → rsplit_dot (s ++ codes ".deferred") ≡ some (s, codes "deferred")
rsplit_dot-append [] = refl
rsplit_dot-append (c ∷ s) = rw (rsplit_dot-append s)

is_deferred-sortkey :
    (p : DeferPriority) (s : Text) → is_deferred (sortkey p ++ (s ++ codes ".deferred")) ≡ true
unfolding is_deferred sortkey text_eq
is_deferred-sortkey DeferPriority.restart s = rw (rsplit_dot-append s, is_deferred)
is_deferred-sortkey DeferPriority.reload_or_restart s = rw (rsplit_dot-append s, is_deferred)
is_deferred-sortkey DeferPriority.reload s = rw (rsplit_dot-append s, is_deferred)
is_deferred-sortkey DeferPriority.command s = rw (rsplit_dot-append s, is_deferred)
is_deferred-sortkey DeferPriority.daemon_reload s = rw (rsplit_dot-append s, is_deferred)

pub is_deferred-filename : (e : DeferEntry) → is_deferred (filename e) ≡ true
unfolding filename
is_deferred-filename e = is_deferred-sortkey e.priority (b'-' ∷ e.id)

contains_of_lookup :
    {F : Type 0} (n : Text) (d : Directory F) (f : F)
    → lookup n d ≡ some f
    → contains (file_names d) n ≡ true
unfolding lookup contains
contains_of_lookup n [] f h = cc
contains_of_lookup n ((m, g) ∷ d) f h = ground (arith, contains_of_lookup n d f)

contains-keep :
    (p : Text → Bool) (xs : List Text) (n : Text)
    → p n ≡ true
    → contains xs n ≡ true
    → contains (keep p xs) n ≡ true
unfolding contains
contains-keep p [] n hp h = h
contains-keep p (x ∷ xs) n hp h = elim (Bool-cases (text_eq x n)) [
  | inl same ↦ rw ((text_eq_iff x n).0 same, hp) (rw (text_eq_refl n))
  | inr other ↦ ground (arith, contains-keep p xs n hp)
]

contains-insert_text :
    (s : Text) (ts : List Text) (n : Text) → contains (insert_text s ts) n ≡ contains (s ∷ ts) n
unfolding contains insert_text
contains-insert_text s [] n = refl
contains-insert_text s (t ∷ ts) n = ground (arith, contains-insert_text s ts n)

contains-sort_texts : (ts : List Text) (n : Text) → contains (sort_texts ts) n ≡ contains ts n
unfolding contains sort_texts
contains-sort_texts [] n = refl
contains-sort_texts (t ∷ ts) n =
    ground (arith, contains-sort_texts ts n, contains-insert_text t (sort_texts ts) n)

pub any-keep :
    (p q : DeferEntry → Bool) (xs : List DeferEntry) → any p (keep q xs) ≡ any (λ x. q x && p x) xs
unfolding any
any-keep p q [] = refl
any-keep p q (x ∷ xs) = ground (arith, any-keep p q xs)

module _ (json : Serde) where
  any-entries_of :
      (p : DeferEntry → Bool) (ns : List Text) (d : Directory Text) (n : Text) (e : DeferEntry)
      → contains ns n ≡ true
      → entry_at json n d ≡ some e
      → p e ≡ true
      → any p (entries_of json ns d) ≡ true
  unfolding any entries_of contains
  any-entries_of p [] d n e h he hp = cc
  any-entries_of p (m ∷ ns) d n e h he hp = elim (Bool-cases (text_eq m n)) [
    | inl same ↦ rw ((text_eq_iff m n).0 same) (ground (arith, he, hp))
    | inr other ↦ ground (arith, any-entries_of p ns d n e)
  ]

  contains_of_entry :
      (n : Text) (d : Directory Text) (e : DeferEntry)
      → entry_at json n d ≡ some e
      → contains (file_names d) n ≡ true
  contains_of_entry n d e he = elim (Option-cases (lookup n d)) [
    | inl missing ↦ ground (arith, missing, he)
    | inr (bytes, there) ↦ contains_of_lookup n d bytes there
  ]

  -- An entry that a file of the journal holds stands in the listing.
  pub any-entries :
      (p : DeferEntry → Bool) (d : Directory Text) (n : Text) (e : DeferEntry)
      → is_deferred n ≡ true
      → entry_at json n d ≡ some e
      → p e ≡ true
      → any p (entries json d) ≡ true
  any-entries p d n e hn he hp =
      any-entries_of p _ d n e
        (contains-sort_texts _ n
          ∙ contains-keep is_deferred (file_names d) n hn (contains_of_entry n d e he))
        he hp
