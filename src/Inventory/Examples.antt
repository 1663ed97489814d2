-- ===== src/Inventory/Examples.antt =====
-- Merges and lookups of small inventories.
use bonsun.Base.{◌≡◌, refl, true, Option, [], ◌∷◌, Text, text_eq, text_le, codes, join}
use bonsun.Inventory.{
  Value, null, number, array, object, Values, nil, cons, Fields, done, field, get_field,
  remove_field, insert_field, merge_deep, merge_fields, merge_inventory, deep_map_append_list,
  value_eq, values_eq, fields_eq, has, push, append_new, type_mismatch, unknown_merge_strategy, ok,
  err,
}
use bonsun.Inventory.Merge.{merged, get_field-merge_fields}
use bonsun.Inventory.Lookup.{get_path, split, follow, variant_name, parse_strategy}
use bonsun.Inventory.Lookup.Paths.{here, below, get_path-join}
use bonsun.Inventory.Keyed.{
  key_value_of, position, item_at, replace_at, ensure_map_with_key, ensure_all, merge_keyed_at,
  merge_keyed_fields, merge_keyed_items, merge_inventory_keyed,
}

abbrev one : Value
one = number (codes "1")

abbrev two : Value
two = number (codes "2")

abbrev base_map : Fields
base_map = field (codes "a") one (field (codes "b") (array (cons one nil)) done)

abbrev over_map : Fields
over_map =
    field (codes "a") null
      (field (codes "b") (array (cons one (cons two nil))) (field (codes "c") two done))

merge_run :
    merge_inventory (object base_map) (object over_map) deep_map_append_list
    ≡ object (field (codes "b") (array (cons one (cons two nil))) (field (codes "c") two done))
unfolding merge_inventory merge_deep merge_fields get_field remove_field insert_field append_new has
    push value_eq values_eq fields_eq text_eq text_le
merge_run = refl

strategy_run : parse_strategy (codes "deep") ≡ err (unknown_merge_strategy (codes "deep"))
unfolding parse_strategy text_eq
strategy_run = refl

path_run :
    get_path (object base_map) (codes "a.b")
    ≡ err (type_mismatch (codes "a.b") (codes "object") (codes "number"))
unfolding get_path split follow get_field variant_name text_eq
path_run = refl

abbrev shown : Option Value → Text
shown _ = codes "_"

abbrev with_id : Value → Value → Values
with_id id v = cons (object (field (codes "id") id (field (codes "v") v done))) nil

keyed_run :
    merge_inventory_keyed shown (codes "id") (array (with_id one one)) (array (with_id one two))
    ≡ ok (array (with_id one two))
unfolding merge_inventory_keyed merge_keyed_at merge_keyed_items merge_keyed_fields ensure_all
    ensure_map_with_key get_field remove_field insert_field key_value_of position item_at replace_at
    value_eq values_eq fields_eq text_eq text_le
keyed_run = refl

-- Items whose key is null lose it when they are merged.
null_key_run :
    merge_inventory_keyed shown (codes "id") (array (with_id null one)) (array (with_id null two))
    ≡ ok (array (cons (object (field (codes "v") two done)) nil))
unfolding merge_inventory_keyed merge_keyed_at merge_keyed_items merge_keyed_fields ensure_all
    ensure_map_with_key get_field remove_field insert_field key_value_of position item_at replace_at
    value_eq values_eq fields_eq text_eq text_le
null_key_run = refl

get_field-merge_fields_example :
    get_field (codes "b") (merge_fields true base_map over_map)
    ≡ merged true (get_field (codes "b") base_map) (get_field (codes "b") over_map)
unfolding get_field text_eq
get_field-merge_fields_example =
    get_field-merge_fields true (codes "b") base_map over_map (refl, (refl, (refl, tt)))

get_path-join_example : get_path (object base_map) (join (codes ".") (codes "a" ∷ [])) ≡ ok one
unfolding get_field text_eq
get_path-join_example =
    get_path-join (codes "a") [] (object base_map) one ((refl, tt), tt)
      (below (codes "a") [] base_map one one refl (here one))
