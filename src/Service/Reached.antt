-- ===== src/Service/Reached.antt =====
-- How the steps of an apply change whether a unit runs (bosun-primitives/src/systemd_service and
-- runr_service).
use bonsun.Base.{◌≡◌, ◌∙◌, Bool, true, false, Text}
use bonsun.Primitive.{PrimitiveError}
use bonsun.Service.{ServiceState, running, stopped, absent, Action, start, stop, Node, kept_beside}
use bonsun.Effects.{Result, ok, err, Ends, Keeps, Ends-weaken, from_result}

abbrev pub wants_active : ServiceState → Bool
wants_active running = true
wants_active stopped = false
wants_active absent = false

module _ {V : Type 0} (active : Text → V → Bool) (name : Text) (b : Bool) where
  abbrev pub Is : Node V → Type 0
  Is node = active name node.outside ≡ b

  pub beside-Is :
      {E A : Type 0} (node : Node V) (x : Result E A × V)
      → Is node
      → Keeps (λ v'. active name v' ≡ active name node.outside) x
      → Keeps Is (kept_beside node x)
  beside-Is node (ok a, v) h kept = record { holds = kept.holds ∙ h }
  beside-Is node (err e, v) h kept = record { holds = kept.holds ∙ h }

  -- The unit is so if the operation succeeds.
  abbrev pub Reaches : {E A : Type 0} → Result E A × Node V → Type 0
  Reaches x = Ends (λ _. Is) (λ e node. Unit) x

  pub Keeps-Reaches : {E A : Type 0} (x : Result E A × Node V) → Keeps Is x → Reaches x
  Keeps-Reaches x h = Ends-weaken (λ a node k. k) (λ e node k. tt) h

  pub beside-Reaches :
      {E A : Type 0} (node : Node V) (x : Result E A × V)
      → Ends (λ _ v'. active name v' ≡ b) (λ e v'. Unit) x
      → Reaches (kept_beside node x)
  beside-Reaches node (ok a, v) h = record { holds = h.holds }
  beside-Reaches node (err e, v) h = record { holds = tt }

  pub verified-Reaches :
      (r : Result PrimitiveError Unit) (node : Node V) → Is node → Reaches (from_result r node)
  verified-Reaches (ok _) node h = record { holds = h }
  verified-Reaches (err _) node h = record { holds = tt }

-- The state of the unit behind an action, by the state before it.
abbrev pub reached : Action → Bool → Bool
reached start b = true
reached stop b = false
reached _ b = b
