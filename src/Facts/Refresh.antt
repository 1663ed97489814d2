-- ===== src/Facts/Refresh.antt =====
-- When the cache of bosun-facts/src/collector.rs collects a fact again, and what it keeps of the old value.
use bonsun.Base.{
  ℕ, ◌≡◌, refl, ◌∙◌, Bool, true, false, List, [], ◌∷◌, Option, none, some, Text, text_eq,
  text_eq_refl, text_eq_iff, contains, inl, inr, Bool-cases, Option-cases, arith,
}
use bonsun.Facts.{
  FactValue, value_of, Fact, CachedFact, State, collect_with_panic_guard, is_triggered_by,
  fact_by_name, snapshot_get, to_dirty, upgrade_or_replace, mark_entry, mark_all,
  mark_dirty_after_apply, pending, is_stale, store, refresh, get,
}

module _ {J W : Type 0} (now : W → ℕ × W) (facts : List (Fact J W)) where
  abbrev is_dirty : Option (CachedFact J) → Bool
  is_dirty none = false
  is_dirty (some c) = c.dirty

  -- Where no entry of the name is dirty, the view and the snapshot give the same value, and the view
  -- collects nothing.
  pub get-snapshot :
      (name : Text) (s : State J W)
      → is_dirty (s.cache name) ≡ false
      → get now facts name s ≡ (snapshot_get s name, s)
  unfolding get
  get-snapshot name s clean = elim (Option-cases (s.cache name)) [
    | inl absent ↦ rw absent
    | inr (entry, there) ↦ rw (there, (rw there at clean))
  ]

  -- An entry that was stored is clean, and holds the value returned.
  store-clean :
      (name : Text) (entry : CachedFact J) (s : State J W) (x : FactValue J × W)
      → get now facts name (store now name entry s x).1 ≡ store now name entry s x
  unfolding get
  store-clean name entry s (v, w) = elim (Bool-cases (is_stale v)) [
    | inl old ↦ rw (old, text_eq_refl name)
    | inr fresh ↦ rw (fresh, text_eq_refl name)
  ]

  refresh_twice :
      (name : Text) (entry : CachedFact J) (s : State J W) (f : Option (Fact J W))
      → s.cache name ≡ some entry
      → entry.dirty ≡ true
      → fact_by_name name facts ≡ f
      → let (v, s') = refresh now name entry s f in get now facts name s' ≡ (v, s')
  unfolding get
  refresh_twice name entry s none there dirty gone = rw (there, dirty, gone)
  refresh_twice name entry s (some f) there dirty found = store-clean name entry s _

  -- A second `get` of the same fact gives the same value and changes nothing: it collects the fact no second
  -- time.
  pub get_twice :
      (name : Text) (s : State J W)
      → let (v, s') = get now facts name s in get now facts name s' ≡ (v, s')
  unfolding get
  get_twice name s = elim (Option-cases (s.cache name)) [
    | inl absent ↦ rw absent (rw absent)
    | inr (entry, there) ↦ elim (Bool-cases entry.dirty) [
      | inr clean ↦ rw (there, clean) (rw (there, clean))
      | inl dirty ↦
          rw (there, dirty) (refresh_twice name entry s (fact_by_name name facts) there dirty refl)
    ]
  ]

module _ {J W : Type 0} (now : W → ℕ × W) where
  abbrev or_else : Option J → Option J → Option J
  or_else none b = b
  or_else (some a) b = some a

  abbrev entry_value : Option (CachedFact J) → Option J
  entry_value none = none
  entry_value (some c) = value_of c.value

  upgrade_or_replace-value :
      (prev fresh : FactValue J) (since : ℕ) (w : W)
      → value_of (upgrade_or_replace now prev fresh since w).0
        ≡ or_else (value_of fresh) (value_of prev)
  unfolding upgrade_or_replace
  upgrade_or_replace-value prev fresh since w = ground arith

  store-value :
      (name : Text) (entry : CachedFact J) (s : State J W) (x : FactValue J × W)
      → (store now name entry s x).0 ≡ x.0
  store-value name entry s (v, w) = ground arith

  -- A dirty entry is collected by the fact of its name.
  get-dirty :
      (facts : List (Fact J W)) (name : Text) (entry : CachedFact J) (f : Fact J W) (s : State J W)
      → s.cache name ≡ some entry
      → entry.dirty ≡ true
      → fact_by_name name facts ≡ some f
      → value_of (get now facts name s).0
        ≡ or_else (value_of (collect_with_panic_guard f s.world).0) (value_of entry.value)
  unfolding get
  get-dirty facts name entry f s there dirty found =
      let (fresh, w) = collect_with_panic_guard f s.world in
      rw
        (
          there,
          dirty,
          found,
          store-value name entry s (upgrade_or_replace now entry.value fresh entry.collected_at w),
        )
        (upgrade_or_replace-value entry.value fresh entry.collected_at w)

  -- The entry is dirty, and holds the value, if there is one.
  abbrev Waits : Text → Option J → State J W → Type 0
  Waits name v s =
      (c : CachedFact J) × (s.cache name ≡ some c) × (c.dirty ≡ true) × (value_of c.value ≡ v)

  mark_entry-Waits :
      (name : Text) (o : Option (CachedFact J)) (s : State J W)
      → s.cache name ≡ o
      → Waits name (entry_value o) (mark_entry now name o s)
  mark_entry-Waits name none s same =
      let c : CachedFact J = record {
        value = pending;
        collected_at = (now s.world).0;
        dirty = true;
      } in
      (c, rw (text_eq_refl name), refl, refl)
  mark_entry-Waits name (some c) s same =
      (record c { dirty = true }, rw (text_eq_refl name), refl, refl)

  mark_entry-other :
      (n name : Text) (o : Option (CachedFact J)) (s : State J W)
      → text_eq n name ≡ false
      → (mark_entry now n o s).cache name ≡ s.cache name
  mark_entry-other n name none s other = rw other
  mark_entry-other n name (some c) s other = rw other

  -- Another mark leaves what waits, the same one too.
  mark_entry-still :
      (n name : Text) (v : Option J) (s : State J W)
      → Waits name v s
      → Waits name v (mark_entry now n (s.cache n) s)
  mark_entry-still n name v s (c, there, dirty, holds) = elim (Bool-cases (text_eq n name)) [
    | inr other ↦ (c, mark_entry-other n name (s.cache n) s other ∙ there, dirty, holds)
    | inl same ↦
        let here : n ≡ name = (text_eq_iff n name).0 same in
        let (c', there', dirty', holds') = mark_entry-Waits name (s.cache name) s refl in
        rw here (c', there', dirty', holds' ∙ (rw there holds))
  ]

  mark_all-still :
      (names : List Text) (name : Text) (v : Option J) (s : State J W)
      → Waits name v s
      → Waits name v (mark_all now names s)
  unfolding mark_all
  mark_all-still [] name v s h = h
  mark_all-still (n ∷ names) name v s h =
      mark_all-still names name v _ (mark_entry-still n name v s h)

  mark_all-Waits :
      (names : List Text) (name : Text) (s : State J W)
      → contains names name ≡ true
      → Waits name (entry_value (s.cache name)) (mark_all now names s)
  unfolding mark_all contains
  mark_all-Waits [] name s h = absurd cc
  mark_all-Waits (n ∷ names) name s h = elim (Bool-cases (text_eq n name)) [
    | inl same ↦
        let here : n ≡ name = (text_eq_iff n name).0 same in
        rw here (mark_all-still names name _ _ (mark_entry-Waits name (s.cache name) s refl))
    | inr other ↦
        let unmarked = mark_entry-other n name (s.cache n) s other in
        rw unmarked at (mark_all-Waits names name (mark_entry now n (s.cache n) s) (rw other at h))
  ]

  to_dirty-contains :
      (facts : List (Fact J W)) (kind name : Text) (f : Fact J W)
      → fact_by_name name facts ≡ some f
      → is_triggered_by kind f.refresh_policy ≡ true
      → contains (to_dirty kind facts) name ≡ true
  unfolding fact_by_name to_dirty contains
  to_dirty-contains [] kind name f found on = absurd cc
  to_dirty-contains (g ∷ facts) kind name f found on =
      ground (arith, to_dirty-contains facts kind name f)

  -- Behind an apply of a kind that triggers the fact, its next `get` collects it: the value is the one
  -- collected then, and where none is, the value that the cache held before, if it held one.
  pub get-mark_dirty_after_apply :
      (facts : List (Fact J W)) (kind name : Text) (f : Fact J W) (s : State J W)
      → fact_by_name name facts ≡ some f
      → is_triggered_by kind f.refresh_policy ≡ true
      → let s' = mark_dirty_after_apply now facts kind s in
        value_of (get now facts name s').0
        ≡ or_else (value_of (collect_with_panic_guard f s'.world).0) (entry_value (s.cache name))
  get-mark_dirty_after_apply facts kind name f s found on =
      let s' = mark_dirty_after_apply now facts kind s in
      let (c, there, dirty, holds) =
        mark_all-Waits (to_dirty kind facts) name s
          (to_dirty-contains facts kind name f found on) in
      rw holds at (get-dirty facts name c f s' there dirty found)
