-- ===== src/Registry/Links.antt =====
-- The graph that `topological_order` reads from the resources (bosun-core/src/registry.rs).
use bonsun.Base.{
  ℕ, ◌+◌, ◌≡◌, refl, true, false, List, [], ◌∷◌, ◌++◌, append-nil, append_assoc, none, some, inl,
  inr, arith, Text, text_eq, text_eq_refl, text_eq_iff, contains, Bool-cases, if◌then◌else◌,
}
use bonsun.Resource.{Resource}
use bonsun.Registry.{
  Map, has_key, RegistryError, unknown_handle, Result, ok, err, ◌>>=◌, Graph, add_edge, link, build,
  dependencies,
}

-- An edge from a dependency to its dependent.
abbrev pub Edges : Type 0
Edges = List (Text × Text)

-- How many edges to `v` come from vertices that are not done.
abbrev pub pending : Edges → Text → List Text → ℕ
pending [] v done = 0
pending ((u, w) ∷ es) v done =
    (if text_eq w v then (if contains done u then 0 else 1) else 0) + pending es v done

-- The vertices to which `u` has an edge, as often as it has one.
abbrev pub targets : Edges → Text → List Text
targets [] u = []
targets ((x, w) ∷ es) u = if text_eq x u then w ∷ targets es u else targets es u

abbrev pub edges_to : Text → List Text → Edges
edges_to v [] = []
edges_to v (d ∷ ds) = (d, v) ∷ edges_to v ds

abbrev pub edges : {P : Type 0} → List (Resource P) → Edges
edges [] = []
edges (r ∷ rs) = edges_to r.id (dependencies r) ++ edges rs

abbrev pub sources : Edges → List Text
sources [] = []
sources ((u, w) ∷ es) = u ∷ sources es

abbrev pub heads : Edges → List Text
heads [] = []
heads ((u, w) ∷ es) = w ∷ heads es

-- The two loops of the program as one loop over the edges.
pub link_edges : Map ℕ → Edges → Graph → Result Graph
link_edges by_id [] g = ok g
link_edges by_id ((u, w) ∷ es) g =
    if has_key by_id u then link_edges by_id es (add_edge u w g) else err (unknown_handle u)

link-link_edges :
    (by_id : Map ℕ) (v : Text) (ds : List Text) (g : Graph)
    → link by_id v ds g ≡ link_edges by_id (edges_to v ds) g
unfolding link link_edges
link-link_edges by_id v [] g = refl
link-link_edges by_id v (d ∷ ds) g = ground (arith, link-link_edges by_id v ds (add_edge d v g))

link_edges-append :
    (by_id : Map ℕ) (es fs : Edges) (g : Graph)
    → link_edges by_id (es ++ fs) g ≡ (link_edges by_id es g >>= λ g'. link_edges by_id fs g')
unfolding link_edges
link_edges-append by_id [] fs g = refl
link_edges-append by_id ((u, w) ∷ es) fs g = elim (Bool-cases (has_key by_id u)) [
  | inl known ↦ rw known (link_edges-append by_id es fs (add_edge u w g))
  | inr unknown ↦ rw unknown
]

bind_cong :
    {A B : Type 0} (m : Result A) (f g : A → Result B)
    → ((a : A) → f a ≡ g a)
    → (m >>= f) ≡ (m >>= g)
bind_cong (ok a) f g h = h a
bind_cong (err e) f g h = refl

pub build-link_edges :
    {P : Type 0} (by_id : Map ℕ) (rs : List (Resource P)) (g : Graph)
    → build by_id rs g ≡ link_edges by_id (edges rs) g
unfolding build link_edges
build-link_edges by_id [] g = refl
build-link_edges by_id (r ∷ rs) g =
    rw (link-link_edges, link_edges-append)
      (bind_cong (link_edges by_id (edges_to r.id (dependencies r)) g) _ _
        (λ g'. build-link_edges by_id rs g'))

add_edge-deg :
    (u w v : Text) (g : Graph) (d : ℕ)
    → g.in_degree v ≡ some d
    → (add_edge u w g).in_degree v ≡ some (d + (if text_eq w v then 1 else 0))
unfolding add_edge
add_edge-deg u w v g d h = elim (Bool-cases (text_eq w v)) [
  | inl same ↦ rw (same, (text_eq_iff w v).0 same, h)
  | inr other ↦ rw other (ground arith)
]

-- After the edges are read, a vertex that has an in-degree has gained one for each edge to it.
pub link_edges-deg :
    (by_id : Map ℕ) (es : Edges) (g g' : Graph) (v : Text) (d : ℕ)
    → link_edges by_id es g ≡ ok g'
    → g.in_degree v ≡ some d
    → g'.in_degree v ≡ some (d + pending es v [])
unfolding link_edges contains
link_edges-deg by_id [] g g' v d e h = ground arith
link_edges-deg by_id ((u, w) ∷ es) g g' v d e h = ground (
  arith,
  add_edge-deg u w v g d h,
  link_edges-deg by_id es (add_edge u w g) g' v (d + (if text_eq w v then 1 else 0)),
)

pub link_edges-none :
    (by_id : Map ℕ) (es : Edges) (g g' : Graph) (v : Text)
    → link_edges by_id es g ≡ ok g'
    → g.in_degree v ≡ none
    → contains (heads es) v ≡ false
    → g'.in_degree v ≡ none
unfolding link_edges contains add_edge
link_edges-none by_id [] g g' v e h c = cc
link_edges-none by_id ((u, w) ∷ es) g g' v e h c =
    ground (arith, link_edges-none by_id es (add_edge u w g) g' v)

add_edge-adj :
    (x w u : Text) (g : Graph)
    → (add_edge x w g).adj u ≡ (if text_eq x u then g.adj u ++ w ∷ [] else g.adj u)
unfolding add_edge
add_edge-adj x w u g = refl

pub link_edges-adj :
    (by_id : Map ℕ) (es : Edges) (g g' : Graph) (u : Text)
    → link_edges by_id es g ≡ ok g'
    → g'.adj u ≡ g.adj u ++ targets es u
unfolding link_edges
link_edges-adj by_id [] g g' u e = rw append-nil (ground arith)
link_edges-adj by_id ((x, w) ∷ es) g g' u e = ground (
  arith,
  add_edge-adj x w u g,
  append_assoc (g.adj u) (w ∷ []) (targets es u),
  link_edges-adj by_id es (add_edge x w g) g' u,
)

-- A handle that is reported as unknown is a dependency, and is not registered.
pub link_edges-err :
    (by_id : Map ℕ) (es : Edges) (g : Graph) (e : RegistryError)
    → link_edges by_id es g ≡ err e
    → (d : Text) × (e ≡ unknown_handle d)
      × (has_key by_id d ≡ false)
      × (contains (sources es) d ≡ true)
unfolding link_edges contains
link_edges-err by_id [] g e h = cc
link_edges-err by_id ((u, w) ∷ es) g e h = elim (Bool-cases (has_key by_id u)) [
  | inl known ↦
      let (d, is, absent, there) =
        link_edges-err by_id es (add_edge u w g) e (ground (arith, known)) in
      (d, is, absent, ground arith)
  | inr unknown ↦ (u, ground arith, unknown, rw (text_eq_refl u))
]

-- A graph is built only if every dependency is registered.
pub link_edges-known :
    (by_id : Map ℕ) (es : Edges) (g g' : Graph) (d : Text)
    → link_edges by_id es g ≡ ok g'
    → contains (sources es) d ≡ true
    → has_key by_id d ≡ true
unfolding link_edges contains
link_edges-known by_id [] g g' d e h = cc
link_edges-known by_id ((u, w) ∷ es) g g' d e h =
    ground (arith, text_eq_iff u d, link_edges-known by_id es (add_edge u w g) g' d)
