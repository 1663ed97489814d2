-- ===== src/Resource/Identity.antt =====
-- What a resource identifier says of its kind (bosun-core/src/resource.rs).
use bonsun.Base.{◌≡◌, refl, true, false, [], ◌∷◌, ◌++◌, arith, Text}
use bonsun.Resource.{KindResult, try_new, all_kind_chars, kind_char, resource_id}

-- A valid kind holds no colon.
colon_not_kind : kind_char b':' ≡ false
unfolding kind_char
colon_not_kind = refl

try_new-ok : (s k : Text) → try_new s ≡ KindResult.ok k → (k ≡ s) × (all_kind_chars k ≡ true)
unfolding try_new
try_new-ok [] k h = cc
try_new-ok (ch ∷ s) k h = ground arith

split_at_colon :
    (k l i j : Text)
    → all_kind_chars k ≡ true
    → all_kind_chars l ≡ true
    → k ++ b':' ∷ i ≡ l ++ b':' ∷ j
    → (k ≡ l) × (i ≡ j)
unfolding all_kind_chars
split_at_colon [] [] i j hk hl e = (refl, cc)
split_at_colon [] (y ∷ l) i j hk hl e = ground (arith, colon_not_kind)
split_at_colon (x ∷ k) [] i j hk hl e = ground (arith, colon_not_kind)
split_at_colon (x ∷ k) (y ∷ l) i j hk hl e = ground (arith, split_at_colon k l i j)

-- Resources whose kinds passed `try_new` have the same identifier only if they have the same kind
-- and the same identity.
pub resource_id-injective :
    (s t k l i j : Text)
    → try_new s ≡ KindResult.ok k
    → try_new t ≡ KindResult.ok l
    → resource_id k i ≡ resource_id l j
    → (k ≡ l) × (i ≡ j)
unfolding resource_id
resource_id-injective s t k l i j hs ht e =
    split_at_colon k l i j (try_new-ok s k hs).1 (try_new-ok t l ht).1 e
