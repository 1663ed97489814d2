-- ===== src/Registry/Topology.antt =====
-- `topological_order` keeps its promise: it returns a topological order exactly where there is one
-- (bosun-core/src/registry.rs).
use bonsun.Base.{
  ℕ, ◌≤◌, ◌≡◌, ◌≢◌, refl, ap, ◌∙◌, Bool, true, false, List, [], ◌∷◌, ◌++◌, append-nil, append_assoc,
  some, inl, inr, arith, Text, text_eq_iff, contains, count, count-append, contains→count,
  count→contains, length, length_le_of_count, count_eq_of_length, hit_self,
}
use bonsun.Registry.{
  Map, has_key, ok, err, unknown_handle, Registry, ids, topological_order, order_or_cycle,
}
use bonsun.Registry.Links.{pending, edges}
use bonsun.Registry.Invariant.{Invariant}
use bonsun.Registry.WellFormed.{IsWellFormed}
use bonsun.Registry.Kahn.{contains_snoc}
use bonsun.Registry.Order.{IsShuffle, outcome, length-ids}
use bonsun.Registry.Needs.{
  needs, IsTopological, needs-done, pending_of_needs, Respects-split, sources-needs,
}

module _ {P : Type 0} where
  module _ (iter : List Text → List Text) (reg : Registry P) (shuffle : IsShuffle iter)
      (wf : IsWellFormed reg) where
    order_or_cycle-ok :
        (order : List Text) (deg : Map ℕ) (result : List Text)
        → order_or_cycle iter reg (order, deg) ≡ ok result
        → (result ≡ order) × (length order ≡ length reg.resources)
    order_or_cycle-ok order deg result e = ground arith

    order_or_cycle-full :
        (order : List Text) (deg : Map ℕ)
        → length order ≡ length reg.resources
        → order_or_cycle iter reg (order, deg) ≡ ok order
    order_or_cycle-full order deg e = ground arith

    order_or_cycle-known :
        (order : List Text) (deg : Map ℕ) (d : Text)
        → order_or_cycle iter reg (order, deg) ≢ err (unknown_handle d)
    order_or_cycle-known order deg d e = ground arith

    none_contained : (u : Text) → contains [] u ≢ true
    unfolding contains
    none_contained u e = cc

    module _ {order : List Text} {deg : Map ℕ}
        (inv : Invariant (edges reg.resources) (ids reg.resources) deg [] order) where
      count-le : (v : Text) → count v order ≤ count v (ids reg.resources)
      count-le v = ground (arith, inv.placed v, contains→count (ids reg.resources) v)

      full-IsTopological : length order ≡ length reg.resources → IsTopological reg.resources order
      full-IsTopological full = record {
        complete =
            count_eq_of_length order (ids reg.resources) count-le
              (omega (arith, length-ids reg.resources));
        behind = λ xs ys v u split n.
            needs-done reg.resources v u xs
              (Respects-split (edges reg.resources) [] xs ys v (rw split at inv.respects)) n;
      }

      -- Every vertex of a topological order is reached.
      reached :
          (l : List Text)
          → IsTopological reg.resources l
          → (done rest : List Text) → l ≡ done ++ rest
          → ((u : Text) → contains done u ≡ true → contains order u ≡ true)
          → (u : Text) → contains l u ≡ true
          → contains order u ≡ true
      reached l top done [] split within = λ u h. within u (rw (split ∙ append-nil done) at h)
      reached l top done (v ∷ rest) split within =
          reached l top (done ++ v ∷ []) rest (rw append_assoc split)
            λ u c. ground (arith, contains_snoc done v u, within u, there, text_eq_iff v u)
        where
          free : pending (edges reg.resources) v order ≡ 0
          free =
              pending_of_needs reg.resources v order
                (λ u n. within u (top.behind done rest v u split n))

          there : contains order v ≡ true
          there = count→contains order v (
              ground (
                arith,
                free,
                inv.placed v,
                top.complete v,
                ap (count v) split,
                count-append v done (v ∷ rest),
                hit_self v,
                count→contains (ids reg.resources) v,
              ))

      full_length :
          (l : List Text) → IsTopological reg.resources l → length order ≡ length reg.resources
      full_length l top =
          let all_reached = reached l top [] l refl (λ u c. absurd (none_contained u c)) in
          omega (
            arith,
            length-ids reg.resources,
            length_le_of_count order (ids reg.resources) count-le,
            length_le_of_count (ids reg.resources) order λ v. ground (
              arith,
              wf.distinct v,
              top.complete v,
              count→contains l v,
              all_reached v,
              contains→count order v,
            ),
          )

    -- A returned order holds each resource once, behind all that it depends on or is notified by.
    pub topological_order-ok :
        (order : List Text)
        → topological_order iter reg ≡ some (ok order)
        → IsTopological reg.resources order
    topological_order-ok order e = elim (outcome iter reg shuffle wf) [
      | inl (d, failed, _, _) ↦ cc
      | inr (order', deg, ends, inv, _) ↦
          let (same, full) = order_or_cycle-ok order' deg order (cc) in
          rw same (full-IsTopological inv full)
    ]

    -- Where every dependency is registered and the resources have a topological order, the function
    -- returns one; so a cycle is reported only where there is no order at all.
    pub topological_order_complete :
        (l : List Text)
        → IsTopological reg.resources l
        → ((v u : Text) → needs reg.resources v u ≡ true → has_key reg.by_id u ≡ true)
        → (order : List Text) × (topological_order iter reg ≡ some (ok order))
    topological_order_complete l top known = elim (outcome iter reg shuffle wf) [
      | inl (d, failed, source, absent) ↦
          let (v, n) = sources-needs reg.resources d source in absurd (differ (known v d n) absent)
      | inr (order, deg, ends, inv, _) ↦
          (order, rw (order_or_cycle-full order deg (full_length inv l top)) at ends)
    ]
      where
        differ : {b : Bool} → b ≡ true → b ≡ false → ⊥
        differ p q = cc

    -- A handle that is reported as unknown is one that a resource needs and that is not registered.
    pub topological_order-unknown :
        (d : Text)
        → topological_order iter reg ≡ some (err (unknown_handle d))
        → (has_key reg.by_id d ≡ false) × (v : Text) × (needs reg.resources v d ≡ true)
    topological_order-unknown d e = elim (outcome iter reg shuffle wf) [
      | inl (d', failed, source, absent) ↦
          let same : d' ≡ d = cc in
          let (v, n) = sources-needs reg.resources d' source in (rw same at absent, v, rw same at n)
      | inr (order, deg, ends, inv, _) ↦ absurd (order_or_cycle-known order deg d (cc))
    ]
