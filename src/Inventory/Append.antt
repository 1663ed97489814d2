-- ===== src/Inventory/Append.antt =====
-- What the concatenation of two arrays without repetition holds (bosun-core/src/inventory.rs).
use bonsun.Base.{
  ◌≡◌, refl, ap, inl, inr, Bool, true, false, ◌||◌, ◌&&◌, Text, text_eq, text_eq_iff, arith,
  Bool-cases,
}
use bonsun.Inventory.{
  Value, null, boolean, number, string, array, object, Values, nil, cons, Fields, done, field,
  value_eq, values_eq, fields_eq, has, push, append_new,
}

text_same : (s t : Text) → text_eq s t ≡ true → s ≡ t
text_same s t h = (text_eq_iff s t).0 h

both : (a b : Bool) → (a && b) ≡ true → (a ≡ true) × (b ≡ true)
both a b h = ground arith

mutual
  unfolding value_eq values_eq fields_eq

  value_eq_sound : (v w : Value) → value_eq v w ≡ true → v ≡ w
  value_eq_sound null null h = refl
  value_eq_sound (boolean false) (boolean false) h = refl
  value_eq_sound (boolean true) (boolean true) h = refl
  value_eq_sound (number s) (number t) h = ap number (text_same s t h)
  value_eq_sound (string s) (string t) h = ap string (text_same s t h)
  value_eq_sound (array xs) (array ys) h = ap array (values_eq_sound xs ys h)
  value_eq_sound (object fs) (object gs) h = ap object (fields_eq_sound fs gs h)
  value_eq_sound v w h = cc

  values_eq_sound : (xs ys : Values) → values_eq xs ys ≡ true → xs ≡ ys
  values_eq_sound nil nil h = refl
  values_eq_sound (cons x xs) (cons y ys) h =
      let (values, tails) = both (value_eq x y) _ h in
      rw (value_eq_sound x y values, values_eq_sound xs ys tails)
  values_eq_sound xs ys h = cc

  fields_eq_sound : (fs gs : Fields) → fields_eq fs gs ≡ true → fs ≡ gs
  fields_eq_sound done done h = refl
  fields_eq_sound (field k v fs) (field l w gs) h =
      let (keys, rest) = both (text_eq k l) _ h in
      let (values, tails) = both (value_eq v w) _ rest in
      rw (text_same k l keys, value_eq_sound v w values, fields_eq_sound fs gs tails)
  fields_eq_sound fs gs h = cc

has-push : (xs : Values) (v w : Value) → has (push xs v) w ≡ (has xs w || value_eq v w)
unfolding has push
has-push nil v w = ground arith
has-push (cons x xs) v w = ground (arith, has-push xs v w)

has_same : (xs : Values) (v w : Value) → has xs v ≡ true → value_eq v w ≡ true → has xs w ≡ true
has_same xs v w h e = rw (value_eq_sound v w e) at h

-- Of each value the concatenation holds one that is equal exactly if one of the arrays does.
pub has-append_new :
    (base over : Values) (v : Value) → has (append_new base over) v ≡ (has base v || has over v)
unfolding has append_new
has-append_new base nil v = ground arith
has-append_new base (cons item over) v = elim (Bool-cases (has base item)) [
  | inl known ↦ ground (arith, known, has-append_new base over v, has_same base item v known)
  | inr new ↦ ground (arith, new, has-append_new (push base item) over v, has-push base item v)
]
