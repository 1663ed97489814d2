-- ===== src/Registry.antt =====
-- bosun-core/src/registry.rs: the registered resources and their topological order.
mod Links
mod Kahn
mod Invariant
mod WellFormed
mod Order
mod Needs
mod Topology
mod Examples
use bonsun.Base.{
  ℕ, zero, suc, ◌+◌, ◌-◌, ◌^◌, Bool, true, false, ◌&&◌, not, List, [], ◌∷◌, ◌++◌, map, Option, none,
  some, Text, text_eq, join, sort_texts, codes, length, get_elem?, keep, ltb, ◌==◌, if◌then◌else◌,
}
use bonsun.Resource.{Resource}

pub data RegistryError : Type 0 where
  duplicate_id unknown_handle : Text → RegistryError
  cycle : Text → RegistryError

pub data Result {ℓ} (A : Type ℓ) : Type ℓ where
  ok : A → Result A
  err : RegistryError → Result A

-- A `HashMap` that is never iterated: what it holds at each key.
abbrev pub Map {ℓ} : Type ℓ → Type ℓ
Map V = Text → Option V

abbrev pub update {ℓ} : {V : Type ℓ} → Map V → Text → V → Map V
update m k v j = if text_eq k j then some v else m j

abbrev pub is_some {ℓ} : {V : Type ℓ} → Option V → Bool
is_some none = false
is_some (some _) = true

abbrev pub has_key {ℓ} : {V : Type ℓ} → Map V → Text → Bool
has_key m k = is_some (m k)

infixl 5 ◌>>=◌
abbrev pub ◌>>=◌ {ℓ κ} : {A : Type ℓ} {B : Type κ} → Result A → (A → Result B) → Result B
ok a >>= f = f a
err e >>= f = err e

pub record Registry (P : Type 0) : Type 0 where
  pub resources : List (Resource P)
  pub by_id : Map ℕ

-- The state of `topological_order` while it reads the resources. An absent key of `adj` is an
-- empty vector, as in `entry(dep).or_default()`.
pub record Graph : Type 0 where
  pub in_degree : Map ℕ
  pub adj : Text → List Text

abbrev pub usize_max : ℕ
usize_max = 2 ^ 64 - 1

-- `*d -= 1` on a usize
pub decrement : ℕ → ℕ
decrement zero = usize_max
decrement (suc d) = d

abbrev pub or_zero : Option ℕ → ℕ
or_zero none = 0
or_zero (some d) = d

pub add_edge : Text → Text → Graph → Graph
add_edge dep target g = record {
  in_degree = update g.in_degree target (or_zero (g.in_degree target) + 1);
  adj = λ u. if text_eq dep u then g.adj u ++ target ∷ [] else g.adj u;
}

-- The inner loop over `depends_on`, `reload_on` and `restart_on`.
pub link : Map ℕ → Text → List Text → Graph → Result Graph
link by_id target [] g = ok g
link by_id target (dep ∷ deps) g =
    if has_key by_id dep
    then link by_id target deps (add_edge dep target g)
    else err (unknown_handle dep)

-- The decrements for the successors of a vertex that leaves the queue.
pub relax : List Text → Map ℕ → List Text → Map ℕ × List Text
relax [] deg queue = (deg, queue)
relax (s ∷ ss) deg queue = elim (deg s) [
  | none ↦ relax ss deg queue
  | some d ↦
      relax ss (update deg s (decrement d)) (if decrement d == 0 then queue ++ s ∷ [] else queue)
]

-- The `while let` loop. `none` means that the fuel ran out.
pub drain : ℕ → (Text → List Text) → Map ℕ → List Text → List Text → Option (List Text × Map ℕ)
drain fuel adj deg [] order = some (order, deg)
drain zero adj deg (id ∷ queue) order = none
drain (suc fuel) adj deg (id ∷ queue) order =
    let (deg', queue') = relax (adj id) deg queue in drain fuel adj deg' queue' (order ++ id ∷ [])

pub is_ready : Map ℕ → Text → Bool
is_ready deg v = elim (deg v) [ none ↦ false | some d ↦ d == 0 ]

pub is_stuck : Map ℕ → Text → Bool
is_stuck deg v = elim (deg v) [ none ↦ false | some d ↦ ltb 0 d ]

module _ {P : Type 0} where
  -- `Registry::new`
  abbrev pub empty_registry : Registry P
  empty_registry = record { resources = []; by_id = λ _. none }

  abbrev pub ids : List (Resource P) → List Text
  ids [] = []
  ids (r ∷ rs) = r.id ∷ ids rs

  -- `Registry::add`; a refused resource leaves the registry as it is
  unfoldable pub add : Registry P → Resource P → Result Text × Registry P
  add reg r = if has_key reg.by_id r.id then (err (duplicate_id r.id), reg) else (
    ok r.id,
    record {
      resources = reg.resources ++ r ∷ [];
      by_id = update reg.by_id r.id (length reg.resources);
    },
  )

  -- `Registry::get`; an index out of range, on which Rust would panic, is `none` here
  unfoldable pub get : Registry P → Text → Option (Resource P)
  get reg id = elim (reg.by_id id) [ none ↦ none | some i ↦ get_elem? reg.resources i ]

  pub init_degrees : List (Resource P) → Map ℕ
  init_degrees [] = λ _. none
  init_degrees (r ∷ rs) = update (init_degrees rs) r.id 0

  abbrev pub dependencies : Resource P → List Text
  dependencies r = r.depends_on ++ (r.reload_on ++ r.restart_on)

  pub build : Map ℕ → List (Resource P) → Graph → Result Graph
  build by_id [] g = ok g
  build by_id (r ∷ rs) g = link by_id r.id (dependencies r) g >>= λ g'. build by_id rs g'

  module _ (iter : List Text → List Text) (reg : Registry P) where
    abbrev pub order_or_cycle : List Text × Map ℕ → Result (List Text)
    order_or_cycle (order, deg) =
        if length order == length reg.resources
        then ok order
        else err (
            cycle (join (codes ", ") (sort_texts (keep (is_stuck deg) (iter (ids reg.resources))))))

    pub run_kahn : Graph → Option (Result (List Text))
    run_kahn g =
        elim (drain (length reg.resources) g.adj g.in_degree
          (keep (is_ready g.in_degree) (iter (ids reg.resources))) []) [
            | none ↦ none
            | some end ↦ some (order_or_cycle end)
          ]

    -- `Registry::topological_order`. `iter` is the order in which a `HashMap` gives its keys.
    pub topological_order : Option (Result (List Text))
    topological_order =
        elim (build reg.by_id reg.resources
          (record { in_degree = init_degrees reg.resources; adj = λ _. [] })) [
            | err e ↦ some (err e)
            | ok g ↦ run_kahn g
          ]
