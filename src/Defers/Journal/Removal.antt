-- ===== src/Defers/Journal/Removal.antt =====
-- Which entries are left where files are removed and stored (bosun-core/src/defers/journal.rs).
use bonsun.Base.{
  ℕ, ◌≡◌, refl, sym, ◌∙◌, ◌⊎◌, inl, inr, Bool, true, ◌&&◌, List, [], ◌∷◌, none, some, Text, text_eq,
  text_eq_iff, any, arith, Bool-cases, Option-cases,
}
use bonsun.Defers.Format.{DeferEntry, filename}
use bonsun.Defers.Files.{Directory, ok, lookup, unlink}
use bonsun.Defers.Journal.{Serde, subsumes, tmp_name}
use bonsun.Defers.Journal.Quiet.{entry_at, line, publish, drops}

pub lookup-unlink : (n : Text) (d : Directory Text) → lookup n (unlink n d) ≡ none
unfolding lookup unlink
lookup-unlink n [] = refl
lookup-unlink n ((k, g) ∷ d) = ground (arith, lookup-unlink n d)

pub lookup-unlink_same : (n m : Text) (d : Directory Text) → m ≡ n → lookup n (unlink m d) ≡ none
lookup-unlink_same n m d e = rw e (lookup-unlink n d)

pub lookup_of_unlink :
    (n m : Text) (d : Directory Text) (f : Text)
    → lookup n (unlink m d) ≡ some f
    → lookup n d ≡ some f
unfolding lookup unlink
lookup_of_unlink n m [] f h = h
lookup_of_unlink n m ((k, g) ∷ d) f h = elim (Bool-cases (text_eq k m)) [
  | inl same ↦ elim (Bool-cases (text_eq k n)) [
    | inl here ↦ ground (
      arith,
      lookup-unlink_same n m d (sym ((text_eq_iff k m).0 same) ∙ (text_eq_iff k n).0 here),
      same,
      h,
    )
    | inr elsewhere ↦ ground (arith, same, elsewhere, lookup_of_unlink n m d f)
  ]
  | inr other ↦ ground (arith, other, lookup_of_unlink n m d f)
]

pub lookup-unlink-none :
    (n m : Text) (d : Directory Text) → lookup n d ≡ none → lookup n (unlink m d) ≡ none
unfolding lookup unlink
lookup-unlink-none n m [] h = h
lookup-unlink-none n m ((k, g) ∷ d) h = ground (arith, lookup-unlink-none n m d)

lookup-drops-none :
    (n : Text) (e : DeferEntry) (es : List DeferEntry) (r : Bool) (d : Directory Text)
    → lookup n d ≡ none
    → lookup n (drops e es r d).1 ≡ none
unfolding drops
lookup-drops-none n e [] r d h = h
lookup-drops-none n e (old ∷ es) r d h = ground (
  arith,
  lookup-drops-none n e es r d h,
  lookup-drops-none n e es true (unlink (filename old) d) (lookup-unlink-none n (filename old) d h),
)

lookup-drops_head :
    (n : Text) (e old : DeferEntry) (es : List DeferEntry) (r : Bool) (d : Directory Text)
    → filename old ≡ n
    → subsumes e.action old.action ≡ true
    → lookup n (drops e (old ∷ es) r d).1 ≡ none
unfolding drops
lookup-drops_head n e old es r d named below =
    rw (below, named)
      (elim (Option-cases (lookup n d)) [
        | inl missing ↦ rw missing (lookup-drops-none n e es r d missing)
        | inr (f, there) ↦ rw there (
            lookup-drops-none n e es true (unlink (filename old) d)
              (lookup-unlink_same n (filename old) d named))
      ])

lookup_of_drops :
    (n f : Text) (e : DeferEntry) (es : List DeferEntry) (r : Bool) (d : Directory Text)
    → lookup n (drops e es r d).1 ≡ some f
    → lookup n d ≡ some f
unfolding drops
lookup_of_drops n f e [] r d h = h
lookup_of_drops n f e (old ∷ es) r d h = ground (
  arith,
  lookup_of_drops n f e es r d,
  lookup_of_drops n f e es true (unlink (filename old) d),
  lookup_of_unlink n (filename old) d f,
)

-- The file of an entry that the new one subsumes is gone.
pub lookup-drops :
    (n : Text) (e : DeferEntry) (es : List DeferEntry) (r : Bool) (d : Directory Text)
    → any (λ x. text_eq (filename x) n && subsumes e.action x.action) es ≡ true
    → lookup n (drops e es r d).1 ≡ none
unfolding drops any
lookup-drops n e [] r d h = cc
lookup-drops n e (old ∷ es) r d h =
    elim (Bool-cases (text_eq (filename old) n && subsumes e.action old.action)) [
      | inl both ↦
          lookup-drops_head n e old es r d ((text_eq_iff (filename old) n).0 (ground (arith, both)))
            (ground (arith, both))
      | inr other ↦ ground (
        arith,
        other,
        h,
        lookup-drops n e es r d,
        lookup-drops n e es true (unlink (filename old) d),
      )
    ]

module _ (json : Serde) where
  -- Where files only disappear, so do entries.
  pub entry_at_of_fewer :
      (n : Text) (d d' : Directory Text) (e : DeferEntry)
      → ((f : Text) → lookup n d' ≡ some f → lookup n d ≡ some f)
      → entry_at json n d' ≡ some e
      → entry_at json n d ≡ some e
  entry_at_of_fewer n d d' e fewer h = elim (Option-cases (lookup n d')) [
    | inl missing ↦ ground (arith, missing, h)
    | inr (bytes, there) ↦ ground (arith, there, fewer bytes there, h)
  ]

  pub entry_at_of_drops :
      (n : Text) (a e : DeferEntry) (es : List DeferEntry) (r : Bool) (d : Directory Text)
      → entry_at json n (drops e es r d).1 ≡ some a
      → entry_at json n d ≡ some a
  entry_at_of_drops n a e es r d h =
      entry_at_of_fewer n d (drops e es r d).1 a (λ f. lookup_of_drops n f e es r d) h

  pub entry_at_of_publish :
      (n : Text) (a e : DeferEntry) (nanos : ℕ) (d : Directory Text)
      → json.from_json (line json e) ≡ ok e
      → entry_at json n (publish json e nanos d) ≡ some a
      → ((n ≡ filename e) × (a ≡ e)) ⊎ (entry_at json n d ≡ some a)
  unfolding lookup
  entry_at_of_publish n a e nanos d back h = elim (Bool-cases (text_eq (filename e) n)) [
    | inl same ↦ inl (sym ((text_eq_iff (filename e) n).0 same), ground (arith, same, back, h))
    | inr other ↦ inr (
        entry_at_of_fewer n d (unlink (filename e) (unlink (tmp_name e nanos) d)) a
          (λ f there.
            lookup_of_unlink n (tmp_name e nanos) d f (lookup_of_unlink n (filename e) _ f there))
          (ground (arith, other, h)))
  ]
