-- ===== src/Registry/Needs.antt =====
-- Which resources a resource needs, and what the order of `topological_order` has to satisfy
-- (bosun-core/src/registry.rs).
use bonsun.Base.{
  ◌+◌, ◌≡◌, refl, Bool, true, false, ◌&&◌, ◌||◌, List, [], ◌∷◌, ◌++◌, append-nil, append_assoc, inl,
  inr, arith, Text, text_eq, text_eq_refl, text_eq_iff, contains, count, Bool-cases,
}
use bonsun.Resource.{Resource}
use bonsun.Registry.{ids, dependencies}
use bonsun.Registry.Links.{Edges, pending, edges, edges_to, sources}
use bonsun.Registry.Invariant.{Respects}

pending-append :
    (es fs : Edges) (v : Text) (done : List Text)
    → pending (es ++ fs) v done ≡ pending es v done + pending fs v done
pending-append [] fs v done = omega arith
pending-append ((u, w) ∷ es) fs v done = omega (arith, pending-append es fs v done)

done_of_pending :
    (w v u : Text) (ds done : List Text)
    → text_eq w v ≡ true
    → pending (edges_to w ds) v done ≡ 0
    → contains ds u ≡ true
    → contains done u ≡ true
unfolding contains
done_of_pending w v u [] done same e h = cc
done_of_pending w v u (d ∷ ds) done same e h =
    ground (arith, text_eq_iff d u, done_of_pending w v u ds done)

pending_of_done :
    (w v : Text) (ds done : List Text)
    → (text_eq w v ≡ true → (u : Text) → contains ds u ≡ true → contains done u ≡ true)
    → pending (edges_to w ds) v done ≡ 0
unfolding contains
pending_of_done w v [] done h = refl
pending_of_done w v (d ∷ ds) done h = ground (
  arith,
  text_eq_refl d,
  λ (e : text_eq w v ≡ true). h e d,
  pending_of_done w v ds done (λ e u c. h e u (ground (arith, c))),
)

pub Respects-split :
    (es : Edges) (done xs ys : List Text) (v : Text)
    → Respects es done (xs ++ v ∷ ys)
    → pending es v (done ++ xs) ≡ 0
Respects-split es done [] ys v h = rw append-nil h.0
Respects-split es done (x ∷ xs) ys v h =
    rw append_assoc at (Respects-split es (done ++ x ∷ []) xs ys v h.1)

sources-append :
    (es fs : Edges) (d : Text)
    → contains (sources (es ++ fs)) d ≡ (contains (sources es) d || contains (sources fs) d)
unfolding contains
sources-append [] fs d = refl
sources-append ((u, w) ∷ es) fs d = ground (arith, sources-append es fs d)

sources-edges_to :
    (w : Text) (ds : List Text) (d : Text) → contains (sources (edges_to w ds)) d ≡ contains ds d
unfolding contains
sources-edges_to w [] d = refl
sources-edges_to w (x ∷ ds) d = ground (arith, sources-edges_to w ds d)

module _ {P : Type 0} where
  -- Some resource named `v` depends on `u`, or waits to be notified by it.
  abbrev pub needs : List (Resource P) → Text → Text → Bool
  needs [] v u = false
  needs (r ∷ rs) v u = (text_eq r.id v && contains (dependencies r) u) || needs rs v u

  -- Each resource stands in the order once, and behind all that it needs.
  pub record IsTopological (rs : List (Resource P)) (order : List Text) : Type 0 where
    pub complete : (v : Text) → count v order ≡ count v (ids rs)
    pub behind :
        (xs ys : List Text) (v u : Text)
        → order ≡ xs ++ v ∷ ys
        → needs rs v u ≡ true
        → contains xs u ≡ true

  pub needs-done :
      (rs : List (Resource P)) (v u : Text) (done : List Text)
      → pending (edges rs) v done ≡ 0
      → needs rs v u ≡ true
      → contains done u ≡ true
  needs-done [] v u done e h = cc
  needs-done (r ∷ rs) v u done e h =
      let parts = pending-append (edges_to r.id (dependencies r)) (edges rs) v done in
      elim (Bool-cases (text_eq r.id v && contains (dependencies r) u)) [
        | inl here ↦
            done_of_pending r.id v u (dependencies r) done (ground (arith, here))
              (omega (arith, parts)) (ground (arith, here))
        | inr there ↦ needs-done rs v u done (omega (arith, parts)) (ground (arith, there))
      ]

  pub pending_of_needs :
      (rs : List (Resource P)) (v : Text) (done : List Text)
      → ((u : Text) → needs rs v u ≡ true → contains done u ≡ true)
      → pending (edges rs) v done ≡ 0
  pending_of_needs [] v done h = refl
  pending_of_needs (r ∷ rs) v done h = omega (
    arith,
    pending-append (edges_to r.id (dependencies r)) (edges rs) v done,
    pending_of_done r.id v (dependencies r) done (λ e u c. h u (ground (arith, e, c))),
    pending_of_needs rs v done (λ u n. h u (ground (arith, n))),
  )

  -- A source of an edge is needed by some resource.
  pub sources-needs :
      (rs : List (Resource P)) (d : Text)
      → contains (sources (edges rs)) d ≡ true
      → (v : Text) × (needs rs v d ≡ true)
  unfolding contains
  sources-needs [] d h = cc
  sources-needs (r ∷ rs) d h = elim (Bool-cases (contains (dependencies r) d)) [
    | inl here ↦ (r.id, ground (arith, here, text_eq_refl r.id))
    | inr there ↦
        let (v, n) = sources-needs rs d (
          ground (
            arith,
            there,
            sources-append (edges_to r.id (dependencies r)) (edges rs) d,
            sources-edges_to r.id (dependencies r) d,
          )) in
        (v, ground (arith, n))
  ]
