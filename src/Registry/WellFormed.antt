-- ===== src/Registry/WellFormed.antt =====
-- The invariant of the registry: `by_id` indexes the resources, whose identifiers are distinct
-- (bosun-core/src/registry.rs).
use bonsun.Base.{
  ℕ, suc, ◌+◌, ◌≤◌, ◌≡◌, refl, ◌⊎◌, true, false, List, [], ◌∷◌, ◌++◌, Option, none, some, inl, inr,
  arith, Text, text_eq, text_eq_iff, contains, count, count-append, count→contains, length,
  get_elem?, Bool-cases, if◌then◌else◌,
}
use bonsun.Resource.{Resource}
use bonsun.Registry.{has_key, is_some, Registry, empty_registry, add, get, ids}

module _ {P : Type 0} where
  -- The place of an identifier, counted from `n`.
  abbrev pub index_from : ℕ → List (Resource P) → Text → Option ℕ
  index_from n [] v = none
  index_from n (r ∷ rs) v = if text_eq r.id v then some n else index_from (suc n) rs v

  pub record IsWellFormed (reg : Registry P) : Type 0 where
    pub indexed : (v : Text) → reg.by_id v ≡ index_from 0 reg.resources v
    pub distinct : (v : Text) → count v (ids reg.resources) ≤ 1

  pub empty_registry-IsWellFormed : IsWellFormed empty_registry
  empty_registry-IsWellFormed = record { indexed = λ v. refl; distinct = λ v. omega arith }

  ids-append : (rs ss : List (Resource P)) → ids (rs ++ ss) ≡ ids rs ++ ids ss
  ids-append [] ss = refl
  ids-append (r ∷ rs) ss = rw (ids-append rs ss)

  index_from-append :
      (n : ℕ) (rs : List (Resource P)) (r : Resource P) (v : Text)
      → index_from n (rs ++ r ∷ []) v ≡ (
          if is_some (index_from n rs v)
          then index_from n rs v
          else if text_eq r.id v
          then some (n + length rs)
          else none)
  index_from-append n [] r v = ground arith
  index_from-append n (s ∷ rs) r v = ground (arith, index_from-append (suc n) rs r v)

  pub index_from-contains :
      (n : ℕ) (rs : List (Resource P)) (v : Text)
      → is_some (index_from n rs v) ≡ contains (ids rs) v
  unfolding contains
  index_from-contains n [] v = refl
  index_from-contains n (r ∷ rs) v = ground (arith, index_from-contains (suc n) rs v)

  index_from-get_elem? :
      (n : ℕ) (rs : List (Resource P)) (v : Text)
      → contains (ids rs) v ≡ true
      → (i : ℕ) × (r : Resource P) × (index_from n rs v ≡ some (n + i))
        × (get_elem? rs i ≡ some r)
        × (r.id ≡ v)
  unfolding contains
  index_from-get_elem? n [] v h = cc
  index_from-get_elem? n (r ∷ rs) v h = elim (Bool-cases (text_eq r.id v)) [
    | inl same ↦ (0, r, ground (arith, same), refl, (text_eq_iff r.id v).0 same)
    | inr other ↦
        let (i, s, at, found, named) = index_from-get_elem? (suc n) rs v (ground (arith, other)) in
        (suc i, s, ground (arith, other), found, named)
  ]

  -- Whether a resource is accepted or refused, the registry stays well-formed.
  pub add-IsWellFormed :
      (reg : Registry P) (r : Resource P) → IsWellFormed reg → IsWellFormed (add reg r).1
  unfolding add
  add-IsWellFormed reg r wf = elim (Bool-cases (has_key reg.by_id r.id)) [
    | inl old ↦ rw old wf
    | inr new ↦ rw new (record {
      indexed = λ v. ground (
        arith,
        new,
        wf.indexed v,
        wf.indexed r.id,
        text_eq_iff r.id v,
        index_from-append 0 reg.resources r v,
      );
      distinct = λ v. rw (ids-append reg.resources (r ∷ [])) (
          ground (
            arith,
            new,
            wf.indexed r.id,
            wf.distinct v,
            count-append v (ids reg.resources) (r.id ∷ []),
            text_eq_iff r.id v,
            index_from-contains 0 reg.resources r.id,
            count→contains (ids reg.resources) r.id,
          ));
    })
  ]

  -- `get` finds exactly the identifiers of the registered resources, and what it returns has the
  -- identifier that was asked for.
  pub get_lem :
      (reg : Registry P) (v : Text)
      → IsWellFormed reg
      → ((contains (ids reg.resources) v ≡ true)
          × (r : Resource P) × (get reg v ≡ some r)
          × (r.id ≡ v))
        ⊎ ((contains (ids reg.resources) v ≡ false) × (get reg v ≡ none))
  unfolding get
  get_lem reg v wf = elim (Bool-cases (contains (ids reg.resources) v)) [
    | inl there ↦
        let (i, r, at, found, named) = index_from-get_elem? 0 reg.resources v there in
        inl (there, r, ground (arith, at, found, wf.indexed v), named)
    | inr absent ↦
        inr (absent, ground (arith, absent, wf.indexed v, index_from-contains 0 reg.resources v))
  ]
