-- ===== src/Inventory/Keyed.antt =====
-- bosun-core/src/inventory.rs: the merge of lists of maps by a key.
pub mod Accepted
use bonsun.Base.{
  ℕ, zero, suc, Bool, true, false, Option, none, some, map, Text, codes, ◌++◌, if◌then◌else◌,
}
use bonsun.Inventory.{
  Value, null, array, object, Values, nil, cons, Fields, done, field, is_null, get_field,
  remove_field, insert_field, push, value_eq, InventoryError, keyed_list_missing_key,
  keyed_list_non_map_element, Result, ok, err,
}

-- `key_value_of`
unfoldable pub key_value_of : Text → Value → Option Value
key_value_of key (object fs) = get_field key fs
key_value_of key _ = none

abbrev option_eq : Option Value → Option Value → Bool
option_eq none none = true
option_eq (some v) (some w) = value_eq v w
option_eq _ _ = false

-- `position` of an item with the same key.
unfoldable pub position : Text → Option Value → Values → Option ℕ
position key item_key nil = none
position key item_key (cons existing rest) =
    let later = position key item_key rest in
    if option_eq (key_value_of key existing) item_key
    then some zero
    else elim later [ none ↦ none | some idx ↦ some (suc idx) ]

-- `merged[idx]`, and its replacement.
unfoldable pub item_at : Values → ℕ → Value
item_at nil idx = null
item_at (cons x xs) zero = x
item_at (cons x xs) (suc idx) = item_at xs idx

unfoldable pub replace_at : Values → ℕ → Value → Values
replace_at nil idx v = nil
replace_at (cons x xs) zero v = cons v xs
replace_at (cons x xs) (suc idx) v = cons x (replace_at xs idx v)

-- `ensure_map_with_key`
unfoldable pub ensure_map_with_key : (key path : Text) → Value → Result Unit
ensure_map_with_key key path (object fs) = elim (get_field key fs) [
  | none ↦ err (keyed_list_missing_key path key)
  | some _ ↦ ok tt
]
ensure_map_with_key key path _ = err (keyed_list_non_map_element path)

-- The loop over `base_arr`.
unfoldable pub ensure_all : (key path : Text) → Values → Result Unit
ensure_all key path nil = ok tt
ensure_all key path (cons item rest) = elim (ensure_map_with_key key path item) [
  | err e ↦ err e
  | ok _ ↦ ensure_all key path rest
]

-- `debug` is the `Debug` of an optional value, which serde_json provides and which stands in paths only.
module _ (debug : Option Value → Text) (key : Text) where
  abbrev pub item_path : Text → Value → Text
  item_path path item =
      path ++ (codes "[" ++ (key ++ (codes "=" ++ (debug (key_value_of key item) ++ codes "]"))))

  abbrev field_path : Text → Text → Text
  field_path path k = path ++ (codes "." ++ k)

  unfoldable mutual
    pub merge_keyed_at : (path : Text) → (base over : Value) → Result Value
    merge_keyed_at path base null = ok base
    merge_keyed_at path (object base) (object over) = merge_keyed_fields path base over
    merge_keyed_at path (array base) (array over) = elim (ensure_all key path base) [
      | err e ↦ err e
      | ok _ ↦ merge_keyed_items path base over
    ]
    merge_keyed_at path _ over = ok over

    -- The loop over `over_map`.
    pub merge_keyed_fields : (path : Text) → (base over : Fields) → Result Value
    merge_keyed_fields path base done = ok (object base)
    merge_keyed_fields path base (field k v over) = elim (is_null v) [
      | true ↦ merge_keyed_fields path (remove_field k base) over
      | false ↦ elim (get_field k base) [
        | none ↦ merge_keyed_fields path (insert_field k v base) over
        | some base_v ↦ elim (merge_keyed_at (field_path path k) base_v v) [
          | err e ↦ err e
          | ok merged ↦ merge_keyed_fields path (insert_field k merged (remove_field k base)) over
        ]
      ]
    ]

    -- The loop over `over_arr`.
    pub merge_keyed_items : (path : Text) → (merged over : Values) → Result Value
    merge_keyed_items path merged nil = ok (array merged)
    merge_keyed_items path merged (cons item over) = elim (ensure_map_with_key key path item) [
      | err e ↦ err e
      | ok _ ↦ elim (position key (key_value_of key item) merged) [
        | none ↦ merge_keyed_items path (push merged item) over
        | some idx ↦ elim (merge_keyed_at (item_path path item) (item_at merged idx) item) [
          | err e ↦ err e
          | ok both ↦ merge_keyed_items path (replace_at merged idx both) over
        ]
      ]
    ]

  -- `merge_inventory_keyed`
  unfoldable pub merge_inventory_keyed : (base over : Value) → Result Value
  merge_inventory_keyed base over = merge_keyed_at (codes "$") base over
