-- ===== src/Registry/Invariant.antt =====
-- What holds of the queue, the order and the in-degrees between two rounds of the loop of
-- `topological_order` (bosun-core/src/registry.rs), and that the loop ends.
use bonsun.Base.{
  ℕ, zero, suc, ◌+◌, ◌≤◌, ◌≡◌, refl, true, ◌&&◌, List, [], ◌∷◌, ◌++◌, append-nil, append_assoc,
  none, some, inl, inr, arith, Text, contains, count, count-append, contains→count, length,
  length-append, length_le_of_count, hit_self, Bool-cases, ◌==◌, if◌then◌else◌,
}
use bonsun.Registry.{Map, relax, drain}
use bonsun.Registry.Links.{Edges, pending, targets}
use bonsun.Registry.Kahn.{relax-deg, relax-none, relax-queue, relax-queue_none, pending_snoc}

-- Every vertex of the list stands behind the sources of its edges.
abbrev pub Respects : Edges → List Text → List Text → Type 0
Respects es done [] = Unit {0}
Respects es done (v ∷ l) = (pending es v done ≡ 0) × Respects es (done ++ v ∷ []) l

Respects-snoc :
    (es : Edges) (done l : List Text) (v : Text)
    → Respects es done l
    → pending es v (done ++ l) ≡ 0
    → Respects es done (l ++ v ∷ [])
Respects-snoc es done [] v h e = (rw append-nil at e, tt)
Respects-snoc es done (x ∷ l) v h e =
    (h.0, Respects-snoc es (done ++ x ∷ []) l v h.1 (rw append_assoc e))

module _ (es : Edges) (keys : List Text) where
  pub record Invariant (deg : Map ℕ) (queue order : List Text) : Type 0 where
    pub degrees : (v : Text) → deg v ≡ (if contains keys v then some (pending es v order) else none)
    pub placed :
        (v : Text)
        → count v order + count v queue
          ≡ (if contains keys v && pending es v order == 0 then 1 else 0)
    pub respects : Respects es [] order

  module _ {deg : Map ℕ} {u : Text} {queue order : List Text}
      (inv : Invariant deg (u ∷ queue) order) where
    popped :
        (count u order ≡ 0)
        × (count u queue ≡ 0)
        × (contains keys u ≡ true)
        × (pending es u order ≡ 0)
    popped = ground (arith, inv.placed u, hit_self u)

    abbrev next : Map ℕ × List Text
    next = relax (targets es u) deg queue

    step-degrees :
        (v : Text)
        → next.0 v ≡ (if contains keys v then some (pending es v (order ++ u ∷ [])) else none)
    step-degrees v = elim (Bool-cases (contains keys v)) [
      | inl there ↦ ground (
        arith,
        there,
        inv.degrees v,
        pending_snoc es v u order popped.0,
        relax-deg (targets es u) deg queue v (pending es v order),
      )
      | inr absent ↦ ground (arith, absent, inv.degrees v, relax-none (targets es u) deg queue v)
    ]

    step-placed :
        (v : Text)
        → count v (order ++ u ∷ []) + count v next.1
          ≡ (if contains keys v && pending es v (order ++ u ∷ []) == 0 then 1 else 0)
    step-placed v = elim (Bool-cases (contains keys v)) [
      | inl there ↦ ground (
        arith,
        there,
        inv.degrees v,
        inv.placed v,
        count-append v order (u ∷ []),
        pending_snoc es v u order popped.0,
        relax-queue (targets es u) deg queue v (pending es v order),
      )
      | inr absent ↦ ground (
        arith,
        absent,
        inv.degrees v,
        inv.placed v,
        count-append v order (u ∷ []),
        relax-queue_none (targets es u) deg queue v,
      )
    ]

    step-Invariant : Invariant next.0 next.1 (order ++ u ∷ [])
    step-Invariant = record {
      degrees = step-degrees;
      placed = step-placed;
      respects = Respects-snoc es [] order u inv.respects popped.3;
    }

  Invariant-length :
      {deg : Map ℕ} {queue order : List Text}
      → Invariant deg queue order
      → length order + length queue ≤ length keys
  Invariant-length {queue = queue} {order = order} inv = omega (
    arith,
    length-append order queue,
    length_le_of_count (order ++ queue) keys
        λ v. ground (arith, inv.placed v, count-append v order queue, contains→count keys v),
  )

  -- With as much fuel as there are vertices that are not in the order yet the loop ends.
  pub drain-Invariant :
      (fuel : ℕ) (deg : Map ℕ) (queue order : List Text)
      → Invariant deg queue order
      → length keys ≤ length order + fuel
      → (order' : List Text) × (deg' : Map ℕ) × (drain fuel (targets es) deg queue order
          ≡ some (order', deg'))
        × Invariant deg' [] order'
  unfolding drain
  drain-Invariant fuel deg [] order inv h = (order, deg, refl, inv)
  drain-Invariant zero deg (u ∷ queue) order inv h = absurd (omega (arith, Invariant-length inv))
  drain-Invariant (suc fuel) deg (u ∷ queue) order inv h =
      drain-Invariant fuel _ _ (order ++ u ∷ []) (step-Invariant inv)
        (omega (arith, length-append order (u ∷ [])))
