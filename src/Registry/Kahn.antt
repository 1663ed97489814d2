-- ===== src/Registry/Kahn.antt =====
-- The loop of `topological_order` and its invariant (bosun-core/src/registry.rs).
use bonsun.Base.{
  ℕ, zero, suc, ◌+◌, ◌-◌, ◌≤◌, ◌<◌, ◌≡◌, refl, true, ◌&&◌, List, [], ◌∷◌, ◌++◌, none, some, inl,
  inr, arith, Text, text_eq, text_eq_iff, contains, hit, count, count-append, contains→count,
  Option-cases, ltb, ◌==◌, if◌then◌else◌,
}
use bonsun.Registry.{Map, update, decrement, relax}
use bonsun.Registry.Links.{Edges, pending, targets}

abbrev pushed : Text → ℕ → List Text → List Text
pushed s k queue = if decrement k == 0 then queue ++ s ∷ [] else queue

same_key : (deg : Map ℕ) (s v : Text) → text_eq s v ≡ true → deg s ≡ deg v
same_key deg s v e = rw ((text_eq_iff s v).0 e)

decrement_pos : (k : ℕ) → 0 < k → decrement k ≡ k - 1
unfolding decrement
decrement_pos zero h = elim h [ ]
decrement_pos (suc k) h = omega arith

text_eq_sym : (s t : Text) → text_eq s t ≡ text_eq t s
text_eq_sym s t = ground (arith, text_eq_iff s t, text_eq_iff t s)

pub contains_snoc :
    (done : List Text) (u x : Text)
    → contains (done ++ u ∷ []) x ≡ (if contains done x then true else text_eq u x)
unfolding contains
contains_snoc [] u x = ground arith
contains_snoc (y ∷ done) u x = ground (arith, contains_snoc done u x)

-- Each edge is decremented once: a vertex loses as much as it stands among the successors.
pub relax-deg :
    (ss : List Text) (deg : Map ℕ) (queue : List Text) (v : Text) (d : ℕ)
    → deg v ≡ some d
    → count v ss ≤ d
    → (relax ss deg queue).0 v ≡ some (d - count v ss)
unfolding relax
relax-deg [] deg queue v d h le = ground arith
relax-deg (s ∷ ss) deg queue v d h le = elim (Option-cases (deg s)) [
  | inl e ↦ rw (e, relax) (ground (arith, same_key deg s v, relax-deg ss deg queue v d))
  | inr (k, e) ↦
      rw (e, relax)
        (ground (
          arith,
          same_key deg s v,
          decrement_pos k,
          relax-deg ss (update deg s (decrement k)) (pushed s k queue) v (d - hit s v),
        ))
]

pub relax-none :
    (ss : List Text) (deg : Map ℕ) (queue : List Text) (v : Text)
    → deg v ≡ none
    → (relax ss deg queue).0 v ≡ none
unfolding relax
relax-none [] deg queue v h = h
relax-none (s ∷ ss) deg queue v h = elim (Option-cases (deg s)) [
  | inl e ↦ rw (e, relax) (relax-none ss deg queue v h)
  | inr (k, e) ↦
      rw (e, relax)
        (relax-none ss (update deg s (decrement k)) (pushed s k queue) v
          (ground (arith, same_key deg s v)))
]

-- A vertex enters the queue when its last edge goes, and only then.
pub relax-queue :
    (ss : List Text) (deg : Map ℕ) (queue : List Text) (v : Text) (d : ℕ)
    → deg v ≡ some d
    → count v ss ≤ d
    → count v (relax ss deg queue).1
      ≡ count v queue + (if ltb 0 (count v ss) && count v ss == d then 1 else 0)
unfolding relax
relax-queue [] deg queue v d h le = omega arith
relax-queue (s ∷ ss) deg queue v d h le = elim (Option-cases (deg s)) [
  | inl e ↦ rw (e, relax) (ground (arith, same_key deg s v, relax-queue ss deg queue v d))
  | inr (k, e) ↦
      rw (e, relax)
        (ground (
          arith,
          same_key deg s v,
          decrement_pos k,
          count-append v queue (s ∷ []),
          relax-queue ss (update deg s (decrement k)) (pushed s k queue) v (d - hit s v),
        ))
]

pub relax-queue_none :
    (ss : List Text) (deg : Map ℕ) (queue : List Text) (v : Text)
    → deg v ≡ none
    → count v (relax ss deg queue).1 ≡ count v queue
unfolding relax
relax-queue_none [] deg queue v h = refl
relax-queue_none (s ∷ ss) deg queue v h = elim (Option-cases (deg s)) [
  | inl e ↦ rw (e, relax) (relax-queue_none ss deg queue v h)
  | inr (k, e) ↦
      rw (e, relax)
        (ground (
          arith,
          same_key deg s v,
          count-append v queue (s ∷ []),
          relax-queue_none ss (update deg s (decrement k)) (pushed s k queue) v,
        ))
]

pub pending_snoc :
    (es : Edges) (v u : Text) (done : List Text)
    → count u done ≡ 0
    → pending es v done ≡ pending es v (done ++ u ∷ []) + count v (targets es u)
pending_snoc [] v u done h = refl
pending_snoc ((x, w) ∷ es) v u done h = ground (
  arith,
  text_eq_iff x u,
  text_eq_sym x u,
  contains→count done x,
  contains_snoc done u x,
  pending_snoc es v u done,
)
