-- ===== src/Inventory.antt =====
-- bosun-core/src/inventory.rs: values of an inventory and the ways to merge two of them.
mod Merge
mod Append
mod Lookup
mod Keyed
mod Examples
use bonsun.Base.{
  ℕ, zero, suc, Bool, true, false, ◌&&◌, ◌||◌, not, List, [], ◌∷◌, ◌++◌, Option, none, some, Text,
  text_eq, text_le, codes, ◌==◌, if◌then◌else◌,
}

-- `serde_json::Value`, with the variants that the code matches on. A number is its text; a map, without
-- the crate's feature `preserve_order`, holds its fields in the order of their keys.
mutual
  pub data Value : Type 0 where
    null : Value
    boolean : Bool → Value
    number : (text : Text) → Value
    string : Text → Value
    array : Values → Value
    object : Fields → Value

  pub data Values : Type 0 where
    nil : Values
    cons : Value → Values → Values

  pub data Fields : Type 0 where
    done : Fields
    field : (key : Text) (value : Value) → Fields → Fields

-- `Value::is_null`
abbrev pub is_null : Value → Bool
is_null null = true
is_null _ = false

-- `get`, `remove` and `insert` of a map.
unfoldable pub get_field : Text → Fields → Option Value
get_field k done = none
get_field k (field key v fs) = if text_eq key k then some v else get_field k fs

unfoldable pub remove_field : Text → Fields → Fields
remove_field k done = done
remove_field k (field key v fs) =
    if text_eq key k then remove_field k fs else field key v (remove_field k fs)

unfoldable pub insert_field : Text → Value → Fields → Fields
insert_field k w done = field k w done
insert_field k w (field key v fs) =
    if text_eq key k
    then field k w fs
    else if text_le k key
    then field k w (field key v fs)
    else field key v (insert_field k w fs)

unfoldable mutual
  pub value_eq : Value → Value → Bool
  value_eq null null = true
  value_eq (boolean false) (boolean b) = not b
  value_eq (boolean true) (boolean b) = b
  value_eq (number s) (number t) = text_eq s t
  value_eq (string s) (string t) = text_eq s t
  value_eq (array xs) (array ys) = values_eq xs ys
  value_eq (object fs) (object gs) = fields_eq fs gs
  value_eq _ _ = false

  pub values_eq : Values → Values → Bool
  values_eq nil nil = true
  values_eq (cons x xs) (cons y ys) = value_eq x y && values_eq xs ys
  values_eq _ _ = false

  pub fields_eq : Fields → Fields → Bool
  fields_eq done done = true
  fields_eq (field k v fs) (field l w gs) = text_eq k l && (value_eq v w && fields_eq fs gs)
  fields_eq _ _ = false

unfoldable pub has : Values → Value → Bool
has nil v = false
has (cons x xs) v = value_eq x v || has xs v

unfoldable pub push : Values → Value → Values
push nil v = cons v nil
push (cons x xs) v = cons x (push xs v)

-- The items of the second array that the first does not have yet.
unfoldable pub append_new : Values → Values → Values
append_new base nil = base
append_new base (cons item over) = append_new (if has base item then base else push base item) over

unfoldable mutual
  pub merge_deep : (append_lists : Bool) → (base over : Value) → Value
  merge_deep append_lists base null = base
  merge_deep append_lists (object base) (object over) = object (merge_fields append_lists base over)
  merge_deep append_lists (array base) (array over) =
      if append_lists then array (append_new base over) else array over
  merge_deep append_lists _ over = over

  -- The loop over `over_map`.
  pub merge_fields : (append_lists : Bool) → (base over : Fields) → Fields
  merge_fields append_lists base done = base
  merge_fields append_lists base (field k v over) =
      merge_fields append_lists
        (if is_null v then remove_field k base else elim (get_field k base) [
          | none ↦ insert_field k v base
          | some base_v ↦ insert_field k (merge_deep append_lists base_v v) (remove_field k base)
        ])
        over

pub data MergeStrategy : Type 0 where
  deep_map_replace_list deep_map_append_list replace : MergeStrategy

-- `merge_inventory`
unfoldable pub merge_inventory : (base over : Value) → MergeStrategy → Value
merge_inventory base over replace = over
merge_inventory base over deep_map_replace_list = merge_deep false base over
merge_inventory base over deep_map_append_list = merge_deep true base over

pub data InventoryError : Type 0 where
  key_not_found : (key : Text) → InventoryError
  type_mismatch : (path expected actual : Text) → InventoryError
  keyed_list_missing_key : (path key : Text) → InventoryError
  keyed_list_non_map_element : (path : Text) → InventoryError
  unknown_merge_strategy : (name : Text) → InventoryError

pub data Result (A : Type 0) : Type 0 where
  ok : A → Result A
  err : InventoryError → Result A
