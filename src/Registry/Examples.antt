-- ===== src/Registry/Examples.antt =====
-- Small registries, and what the code does with them.
use bonsun.Base.{
  ℕ, ◌≡◌, refl, true, List, [], ◌∷◌, some, arith, Text, codes, text_eq, text_le, join, contains,
  text_eq_iff, sort_texts, insert_text,
}
use bonsun.Resource.{Resource}
use bonsun.Registry.{
  Registry, Result, ok, err, cycle, unknown_handle, empty_registry, add, get, link, add_edge,
  decrement, relax, drain, is_ready, is_stuck, run_kahn, init_degrees, build, topological_order,
  has_key,
}
use bonsun.Registry.WellFormed.{IsWellFormed, empty_registry-IsWellFormed, add-IsWellFormed}
use bonsun.Registry.Needs.{IsTopological, needs}
use bonsun.Registry.Order.{topological_order_total}
use bonsun.Registry.Topology.{topological_order-ok, topological_order_complete}

abbrev pub resource : Text → List Text → List Text → Resource ℕ
resource id reload_on depends_on = record {
  id = id;
  kind = codes "file.content";
  spec_version = 1;
  payload = 0;
  reload_on = reload_on;
  restart_on = [];
  depends_on = depends_on;
}

abbrev a : Text
a = codes "a"

abbrev b : Text
b = codes "b"

abbrev c : Text
c = codes "c"

program : Unit {0}
unfolding add get link add_edge decrement relax drain sort_texts insert_text is_ready is_stuck
    run_kahn init_degrees build topological_order text_eq text_le join contains
program = tt

-- `c` is notified by `b`, which depends on `a`; they are registered in the order c, b, a.
abbrev pub chain : Registry ℕ
chain =
    (add (add (add empty_registry (resource c (b ∷ []) [])).1 (resource b [] (a ∷ []))).1
      (resource a [] [])).1

abbrev knot : Registry ℕ
knot = (add (add empty_registry (resource b [] (a ∷ []))).1 (resource a [] (b ∷ []))).1

abbrev dangling : Registry ℕ
dangling = (add empty_registry (resource c (b ∷ []) [])).1

pub chain-IsWellFormed : IsWellFormed chain
chain-IsWellFormed =
    add-IsWellFormed _ _ (add-IsWellFormed _ _ (add-IsWellFormed _ _ empty_registry-IsWellFormed))

dangling-IsWellFormed : IsWellFormed dangling
dangling-IsWellFormed = add-IsWellFormed _ _ empty_registry-IsWellFormed

pub topological_order-chain : topological_order (λ l. l) chain ≡ some (ok (a ∷ b ∷ c ∷ []))
unfolding program
topological_order-chain = refl

topological_order-knot : topological_order (λ l. l) knot ≡ some (err (cycle (codes "a, b")))
unfolding program
topological_order-knot = refl

topological_order-dangling : topological_order (λ l. l) dangling ≡ some (err (unknown_handle b))
unfolding program
topological_order-dangling = refl

add-IsWellFormed_example : IsWellFormed (add chain (resource b [] [])).1
add-IsWellFormed_example = add-IsWellFormed chain (resource b [] []) chain-IsWellFormed

topological_order_total_example :
    (r : Result (List Text)) × (topological_order (λ l. l) chain ≡ some r)
topological_order_total_example =
    topological_order_total (λ l. l) chain (λ l v. refl) chain-IsWellFormed

topological_order-ok_example : IsTopological chain.resources (a ∷ b ∷ c ∷ [])
topological_order-ok_example =
    topological_order-ok (λ l. l) chain (λ l v. refl) chain-IsWellFormed (a ∷ b ∷ c ∷ [])
      topological_order-chain

chain-known : (v u : Text) → needs chain.resources v u ≡ true → has_key chain.by_id u ≡ true
unfolding program
chain-known v u h = ground (arith, text_eq_iff a u, text_eq_iff b u)

chain-IsTopological : IsTopological chain.resources (a ∷ b ∷ c ∷ [])
chain-IsTopological =
    topological_order-ok (λ l. l) chain (λ l v. refl) chain-IsWellFormed _ topological_order-chain

topological_order_complete_example :
    (order : List Text) × (topological_order (λ l. l) chain ≡ some (ok order))
topological_order_complete_example =
    topological_order_complete (λ l. l) chain (λ l v. refl) chain-IsWellFormed (a ∷ b ∷ c ∷ [])
      chain-IsTopological chain-known
