-- ===== src/Inventory/Lookup.antt =====
-- bosun-core/src/inventory.rs: values by dotted paths, and the names of merge strategies.
pub mod Paths
use bonsun.Base.{
  ℕ, Bool, List, [], ◌∷◌, Option, none, some, Text, text_eq, codes, ◌==◌, if◌then◌else◌,
}
use bonsun.Inventory.{
  Value, null, boolean, number, string, array, object, get_field, InventoryError, key_not_found,
  type_mismatch, unknown_merge_strategy, Result, ok, err, MergeStrategy, deep_map_replace_list,
  deep_map_append_list, replace,
}

-- `variant_name`
unfoldable pub variant_name : Value → Text
variant_name null = codes "null"
variant_name (boolean _) = codes "bool"
variant_name (number _) = codes "number"
variant_name (string _) = codes "string"
variant_name (array _) = codes "array"
variant_name (object _) = codes "object"

abbrev pub extend : ℕ → List Text → List Text
extend c [] = (c ∷ []) ∷ []
extend c (s ∷ ss) = (c ∷ s) ∷ ss

-- `str::split('.')`
unfoldable pub split : Text → List Text
split [] = [] ∷ []
split (c ∷ cs) = let rest = split cs in if c == b'.' then [] ∷ rest else extend c rest

-- The loop over the segments.
unfoldable pub follow : (dotted_path : Text) → List Text → Value → Result Value
follow dotted_path [] node = ok node
follow dotted_path (segment ∷ rest) (object map) = elim (get_field segment map) [
  | none ↦ err (key_not_found dotted_path)
  | some child ↦ follow dotted_path rest child
]
follow dotted_path (segment ∷ rest) node =
    err (type_mismatch dotted_path (codes "object") (variant_name node))

-- `JsonInventory::get`
unfoldable pub get_path : (root : Value) (dotted_path : Text) → Result Value
get_path root dotted_path = follow dotted_path (split dotted_path) root

-- `MergeStrategy::parse`
unfoldable pub parse_strategy : Text → Result MergeStrategy
parse_strategy s =
    if text_eq s (codes "deep_map_replace_list")
    then ok deep_map_replace_list
    else if text_eq s (codes "deep_map_append_list")
    then ok deep_map_append_list
    else if text_eq s (codes "replace")
    then ok replace
    else err (unknown_merge_strategy s)
