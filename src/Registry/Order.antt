-- ===== src/Registry/Order.antt =====
-- `topological_order` returns a topological order exactly where there is one
-- (bosun-core/src/registry.rs).
use mathlib.Core.Path.{fun_ext}
use bonsun.Base.{
  ℕ, ◌≡◌, refl, ◌∙◌, ◌⊎◌, Bool, true, false, ◌||◌, List, [], ◌∷◌, ◌++◌, none, some, inl, inr, arith,
  Text, text_eq, text_eq_iff, contains, count, contains→count, count→contains, length, Bool-cases,
  if◌then◌else◌, keep,
}
use bonsun.Resource.{Resource}
use bonsun.Registry.{
  Map, has_key, Result, ok, err, unknown_handle, RegistryError, Registry, Graph, ids, dependencies,
  drain, is_ready, init_degrees, build, order_or_cycle, run_kahn, topological_order,
}
use bonsun.Registry.Links.{
  Edges, pending, targets, edges, edges_to, sources, heads, link_edges, build-link_edges,
  link_edges-deg, link_edges-none, link_edges-adj, link_edges-err, link_edges-known,
}
use bonsun.Registry.Invariant.{Invariant, drain-Invariant}
use bonsun.Registry.WellFormed.{IsWellFormed}

-- A list of texts in another order.
abbrev pub IsShuffle : (List Text → List Text) → Type 0
IsShuffle iter = (l : List Text) (v : Text) → count v (iter l) ≡ count v l

count-keep :
    (p : Text → Bool) (l : List Text) (v : Text)
    → count v (keep p l) ≡ (if p v then count v l else 0)
count-keep p [] v = ground arith
count-keep p (x ∷ l) v = elim (Bool-cases (text_eq x v)) [
  | inl same ↦ rw ((text_eq_iff x v).0 same) (ground (arith, count-keep p l v))
  | inr other ↦ ground (arith, other, count-keep p l v)
]

contains-append :
    (xs ys : List Text) (v : Text) → contains (xs ++ ys) v ≡ contains xs v || contains ys v
unfolding contains
contains-append [] ys v = refl
contains-append (x ∷ xs) ys v = ground (arith, contains-append xs ys v)

heads-append : (es fs : Edges) → heads (es ++ fs) ≡ heads es ++ heads fs
heads-append [] fs = refl
heads-append ((u, w) ∷ es) fs = rw (heads-append es fs)

heads-edges_to :
    (v w : Text) (ds : List Text) → contains (heads (edges_to w ds)) v ≡ true → text_eq w v ≡ true
unfolding contains
heads-edges_to v w [] h = cc
heads-edges_to v w (d ∷ ds) h = ground (arith, heads-edges_to v w ds)

module _ {P : Type 0} where
  init_degrees_lem :
      (rs : List (Resource P)) (v : Text)
      → init_degrees rs v ≡ (if contains (ids rs) v then some 0 else none)
  unfolding init_degrees contains
  init_degrees_lem [] v = refl
  init_degrees_lem (r ∷ rs) v = ground (arith, init_degrees_lem rs v)

  heads-edges :
      (rs : List (Resource P)) (v : Text)
      → contains (ids rs) v ≡ false
      → contains (heads (edges rs)) v ≡ false
  unfolding contains
  heads-edges [] v h = refl
  heads-edges (r ∷ rs) v h = rw (heads-append (edges_to r.id (dependencies r)) (edges rs)) (
      ground (
        arith,
        contains-append (heads (edges_to r.id (dependencies r))) (heads (edges rs)) v,
        heads-edges_to v r.id (dependencies r),
        heads-edges rs v,
      ))

  pub length-ids : (rs : List (Resource P)) → length (ids rs) ≡ length rs
  length-ids [] = refl
  length-ids (r ∷ rs) = omega (arith, length-ids rs)

  module _ (iter : List Text → List Text) (reg : Registry P) (shuffle : IsShuffle iter)
      (wf : IsWellFormed reg) where
    abbrev start : Graph
    start = record { in_degree = init_degrees reg.resources; adj = λ _. [] }

    module _ (g : Graph) (built : link_edges reg.by_id (edges reg.resources) start ≡ ok g) where
      built-deg :
          (v : Text)
          → g.in_degree v ≡ (
              if contains (ids reg.resources) v
              then some (pending (edges reg.resources) v [])
              else none)
      built-deg v = ground (
        arith,
        init_degrees_lem reg.resources v,
        link_edges-deg reg.by_id (edges reg.resources) start g v 0 built,
        link_edges-none reg.by_id (edges reg.resources) start g v built,
        heads-edges reg.resources v,
      )

      built-adj : g.adj ≡ targets (edges reg.resources)
      built-adj = fun_ext (λ u. link_edges-adj reg.by_id (edges reg.resources) start g u built)

      first-Invariant :
          Invariant
            (edges reg.resources)
            (ids reg.resources)
            g.in_degree
            (keep (is_ready g.in_degree) (iter (ids reg.resources)))
            []
      unfolding is_ready
      first-Invariant = record {
        degrees = built-deg;
        placed = λ v. ground (
          arith,
          built-deg v,
          count-keep (is_ready g.in_degree) (iter (ids reg.resources)) v,
          shuffle (ids reg.resources) v,
          wf.distinct v,
          contains→count (ids reg.resources) v,
          count→contains (ids reg.resources) v,
        );
        respects = tt;
      }

    abbrev pub Outcome : Type 0
    Outcome =
        ((d : Text) × (topological_order iter reg ≡ some (err (unknown_handle d)))
          × (contains (sources (edges reg.resources)) d ≡ true)
          × (has_key reg.by_id d ≡ false))
        ⊎ ((order : List Text) × (deg : Map ℕ) × (topological_order iter reg
              ≡ some (order_or_cycle iter reg (order, deg)))
            × Invariant (edges reg.resources) (ids reg.resources) deg [] order
            × ((d : Text)
                → contains (sources (edges reg.resources)) d ≡ true
                → has_key reg.by_id d ≡ true))

    build-start :
        (m : Result Graph)
        → link_edges reg.by_id (edges reg.resources) start ≡ m
        → build reg.by_id reg.resources start ≡ m
    build-start m e = build-link_edges reg.by_id reg.resources start ∙ e

    returned-err :
        (e : RegistryError)
        → build reg.by_id reg.resources start ≡ err e
        → topological_order iter reg ≡ some (err e)
    unfolding topological_order
    returned-err e h = rw (h, topological_order)

    returned-ok :
        (g : Graph) (order : List Text) (deg : Map ℕ)
        → build reg.by_id reg.resources start ≡ ok g
        → drain
            (length reg.resources)
            g.adj
            g.in_degree
            (keep (is_ready g.in_degree) (iter (ids reg.resources)))
            []
          ≡ some (order, deg)
        → topological_order iter reg ≡ some (order_or_cycle iter reg (order, deg))
    unfolding topological_order run_kahn
    returned-ok g order deg h ends = rw (h, topological_order) (rw (ends, run_kahn))

    outcome_of : (m : Result Graph) → link_edges reg.by_id (edges reg.resources) start ≡ m → Outcome
    outcome_of (err e) eq =
        let (d, is, absent, there) = link_edges-err reg.by_id (edges reg.resources) start e eq in
        inl (d, rw is at (returned-err e (build-start _ eq)), there, absent)
    outcome_of (ok g) eq =
        let (order, deg, ends, inv) =
          drain-Invariant (edges reg.resources) (ids reg.resources) (length reg.resources)
            g.in_degree _ [] (first-Invariant g eq) (omega (arith, length-ids reg.resources)) in
        inr (
          order,
          deg,
          returned-ok g order deg (build-start _ eq) (rw (built-adj g eq) ends),
          inv,
          λ d. link_edges-known reg.by_id (edges reg.resources) start g d eq,
        )

    -- The two ways in which the function can end.
    pub outcome : Outcome
    outcome = outcome_of _ refl

    -- With the fuel given the function always returns.
    pub topological_order_total : (r : Result (List Text)) × (topological_order iter reg ≡ some r)
    topological_order_total = elim outcome [
      | inl (d, e, _, _) ↦ (_, e)
      | inr (order, deg, e, _, _) ↦ (_, e)
    ]
