-- ===== src/Inventory/Keyed/Accepted.antt =====
-- Which lists the merge by a key accepts (bosun-core/src/inventory.rs).
use bonsun.Base.{◌≡◌, refl, ◌∙◌, sym, inl, inr, ◌⊎◌, Option, none, some, Text, arith, Option-cases}
use bonsun.Inventory.{
  Value, array, object, Values, nil, cons, get_field, push, InventoryError, Result, ok, err,
}
use bonsun.Inventory.Keyed.{
  key_value_of, position, item_at, replace_at, ensure_map_with_key, ensure_all, item_path,
  merge_keyed_at, merge_keyed_fields, merge_keyed_items,
}

-- A map with the key.
abbrev pub IsKeyed : Text → Value → Type 0
IsKeyed key v = (w : Value) × (key_value_of key v ≡ some w)

abbrev pub AllKeyed : Text → Values → Type 0
AllKeyed key nil = Unit
AllKeyed key (cons v vs) = IsKeyed key v × AllKeyed key vs

Result-cases :
    {A : Type 0} (r : Result A) → ((a : A) × (r ≡ ok a)) ⊎ ((e : InventoryError) × (r ≡ err e))
Result-cases (ok a) = inl (a, refl)
Result-cases (err e) = inr (e, refl)

ensure_map_with_key-ok :
    (key path : Text) (v : Value) → ensure_map_with_key key path v ≡ ok tt → IsKeyed key v
unfolding ensure_map_with_key key_value_of
ensure_map_with_key-ok key path (object fs) h = elim (Option-cases (get_field key fs)) [
  | inl missing ↦ absurd (ground (arith, missing, h))
  | inr (w, there) ↦ (w, there)
]
ensure_map_with_key-ok key path v h = cc

ensure_all-ok : (key path : Text) (vs : Values) → ensure_all key path vs ≡ ok tt → AllKeyed key vs
unfolding ensure_all
ensure_all-ok key path nil h = tt
ensure_all-ok key path (cons v vs) h = elim (Result-cases (ensure_map_with_key key path v)) [
  | inl (_, fine) ↦
      (ensure_map_with_key-ok key path v fine, ensure_all-ok key path vs (ground (arith, fine, h)))
  | inr (e, bad) ↦ absurd (ground (arith, bad, h))
]

module _ (debug : Option Value → Text) (key : Text) where
  merge_keyed_items-cons :
      (path : Text) (merged over : Values) (item : Value)
      → merge_keyed_items debug key path merged (cons item over)
        ≡ elim (ensure_map_with_key key path item) [
          | err e ↦ err e
          | ok _ ↦ elim (position key (key_value_of key item) merged) [
            | none ↦ merge_keyed_items debug key path (push merged item) over
            | some idx ↦
                elim (merge_keyed_at debug key
                  (item_path debug key path item)
                  (item_at merged idx)
                  item) [
                    | err e ↦ err e
                    | ok both ↦ merge_keyed_items debug key path (replace_at merged idx both) over
                  ]
          ]
        ]
  unfolding merge_keyed_items merge_keyed_at merge_keyed_fields
  merge_keyed_items-cons path merged over item = refl

  items_accepted :
      (path : Text) (merged over : Values) (z : Value)
      → merge_keyed_items debug key path merged over ≡ ok z
      → AllKeyed key over
  items_accepted path merged nil z h = tt
  items_accepted path merged (cons item over) z h =
      let opened = sym (merge_keyed_items-cons path merged over item) ∙ h in
      elim (Result-cases (ensure_map_with_key key path item)) [
        | inr (e, bad) ↦ absurd (ground (arith, bad, opened))
        | inl (_, fine) ↦ (
          ensure_map_with_key-ok key path item fine,
          elim (Option-cases (position key (key_value_of key item) merged)) [
            | inl new ↦
                items_accepted path (push merged item) over z (ground (arith, fine, new, opened))
            | inr (idx, known) ↦
                elim (Result-cases (
                  merge_keyed_at debug key (item_path debug key path item) (item_at merged idx)
                    item)) [
                      | inr (e, bad) ↦ absurd (ground (arith, fine, known, bad, opened))
                      | inl (both, joined) ↦
                          items_accepted path (replace_at merged idx both) over z
                            (ground (arith, fine, known, joined, opened))
                    ]
          ],
        )
      ]

  merge_keyed_at-array :
      (path : Text) (base over : Values)
      → merge_keyed_at debug key path (array base) (array over) ≡ elim (ensure_all key path base) [
        | err e ↦ err e
        | ok _ ↦ merge_keyed_items debug key path base over
      ]
  unfolding merge_keyed_items merge_keyed_at merge_keyed_fields
  merge_keyed_at-array path base over = refl

  -- Two lists merge by a key only if every item of both is a map with the key.
  pub merge_keyed_at-ok :
      (path : Text) (base over : Values) (z : Value)
      → merge_keyed_at debug key path (array base) (array over) ≡ ok z
      → AllKeyed key base × AllKeyed key over
  merge_keyed_at-ok path base over z h =
      let opened = sym (merge_keyed_at-array path base over) ∙ h in
      elim (Result-cases (ensure_all key path base)) [
        | inr (e, bad) ↦ absurd (ground (arith, bad, opened))
        | inl (_, fine) ↦ (
          ensure_all-ok key path base fine,
          items_accepted path base over z (ground (arith, fine, opened)),
        )
      ]
