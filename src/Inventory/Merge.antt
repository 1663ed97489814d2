-- ===== src/Inventory/Merge.antt =====
-- What a deep merge of two inventories holds under a key (bosun-core/src/inventory.rs).
use bonsun.Base.{
  ◌≡◌, refl, sym, ap, ◌∙◌, inl, inr, Bool, true, false, Option, none, some, Text, text_eq,
  text_eq_iff, if◌then◌else◌, arith, Bool-cases, Option-cases,
}
use bonsun.Inventory.{
  Value, null, Fields, done, field, is_null, get_field, remove_field, insert_field, merge_deep,
  merge_fields,
}

same_left : (k l m : Text) → text_eq k l ≡ true → text_eq k m ≡ text_eq l m
same_left k l m e = rw ((text_eq_iff k l).0 e)

same_right : (k l m : Text) → text_eq l m ≡ true → text_eq k l ≡ text_eq k m
same_right k l m e = rw ((text_eq_iff l m).0 e)

get_field-insert_field :
    (k l : Text) (v : Value) (fs : Fields)
    → get_field k (insert_field l v fs) ≡ (if text_eq l k then some v else get_field k fs)
unfolding get_field insert_field
get_field-insert_field k l v done = refl
get_field-insert_field k l v (field key w fs) =
    ground (arith, same_left key l k, same_right key l k, get_field-insert_field k l v fs)

get_field-remove_field :
    (k l : Text) (fs : Fields)
    → get_field k (remove_field l fs) ≡ (if text_eq l k then none else get_field k fs)
unfolding get_field remove_field
get_field-remove_field k l done = ground arith
get_field-remove_field k l (field key w fs) =
    ground (arith, same_left key l k, same_right key l k, get_field-remove_field k l fs)

same_field : (k l : Text) (fs : Fields) → text_eq k l ≡ true → get_field k fs ≡ get_field l fs
same_field k l fs e = rw ((text_eq_iff k l).0 e)

-- The keys of a map are different.
abbrev pub IsDistinct : Fields → Type 0
IsDistinct done = Unit
IsDistinct (field k v fs) = (get_field k fs ≡ none) × IsDistinct fs

-- A field of the result, by those of the two maps.
abbrev pub merged : (append_lists : Bool) → (base over : Option Value) → Option Value
merged append_lists base none = base
merged append_lists base (some null) = none
merged append_lists none (some v) = some v
merged append_lists (some b) (some v) = some (merge_deep append_lists b v)

-- The map behind one round of the loop.
abbrev step : (append_lists : Bool) → Text → Value → Fields → Fields
step append_lists key v base =
    if is_null v then remove_field key base else elim (get_field key base) [
      | none ↦ insert_field key v base
      | some base_v ↦ insert_field key (merge_deep append_lists base_v v) (remove_field key base)
    ]

merged_full :
    (append_lists : Bool) (base : Option Value) (v : Value)
    → is_null v ≡ false
    → merged append_lists base (some v)
      ≡ elim base [ none ↦ some v | some b ↦ some (merge_deep append_lists b v) ]
merged_full append_lists base null h = cc
merged_full append_lists none v h = refl
merged_full append_lists (some b) v h = refl

get_field-step_full :
    (append_lists : Bool) (k key : Text) (v : Value) (base : Fields)
    → is_null v ≡ false
    → get_field k (step append_lists key v base) ≡ (
        if text_eq key k
        then elim (get_field k base) [ none ↦ some v | some b ↦ some (merge_deep append_lists b v) ]
        else get_field k base)
get_field-step_full append_lists k key v base full = elim (Option-cases (get_field key base)) [
  | inl missing ↦
      rw (full, missing)
        (get_field-insert_field k key v base ∙ ground (arith, missing, same_field key k base))
  | inr (b, there) ↦
      rw (full, there)
        (get_field-insert_field k key (merge_deep append_lists b v) (remove_field key base)
          ∙ ground (arith, there, same_field key k base, get_field-remove_field k key base))
]

get_field-step :
    (append_lists : Bool) (k key : Text) (v : Value) (base : Fields)
    → get_field k (step append_lists key v base) ≡ (
        if text_eq key k then merged append_lists (get_field k base) (some v) else get_field k base)
get_field-step append_lists k key null base = get_field-remove_field k key base
get_field-step append_lists k key v base =
    get_field-step_full append_lists k key v base refl
    ∙ rw (merged_full append_lists (get_field k base) v refl)

merge_fields-step :
    (append_lists : Bool) (key : Text) (v : Value) (base over : Fields)
    → merge_fields append_lists base (field key v over)
      ≡ merge_fields append_lists (step append_lists key v base) over
unfolding merge_fields merge_deep
merge_fields-step append_lists key v base over = refl

merge_fields_done :
    (append_lists : Bool) (base : Fields) → merge_fields append_lists base done ≡ base
unfolding merge_fields merge_deep
merge_fields_done append_lists base = refl

-- Under each key, a deep merge of two maps holds nothing if the second map holds null, the merge of
-- the two values if both hold one, and otherwise the one that is there; the second map's keys differ.
pub get_field-merge_fields :
    (append_lists : Bool) (k : Text) (base over : Fields)
    → IsDistinct over
    → get_field k (merge_fields append_lists base over)
      ≡ merged append_lists (get_field k base) (get_field k over)
unfolding get_field
get_field-merge_fields append_lists k base done distinct = rw (merge_fields_done append_lists base)
get_field-merge_fields append_lists k base (field key v over) distinct =
    let next = step append_lists key v base in
    ap (get_field k) (merge_fields-step append_lists key v base over)
    ∙ get_field-merge_fields append_lists k next over distinct.1
    ∙ elim (Bool-cases (text_eq key k)) [
      | inl same ↦
          let gone : get_field k over ≡ none = sym (same_field key k over same) ∙ distinct.0 in
          rw (gone, same) (rw same at (get_field-step append_lists k key v base))
      | inr other ↦ rw (other, (rw other at (get_field-step append_lists k key v base)))
    ]
