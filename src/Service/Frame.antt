-- ===== src/Service/Frame.antt =====
-- What the validator, the health check and the deferral of a service keep, if their calls keep it
-- (bosun-primitives/src/systemd_service and runr_service).
use bonsun.Base.{List, [], ◌∷◌, Option, none, some, Text}
use bonsun.Defers.Format.{DeferAction, DeferPriority, HealthCheck}
use bonsun.Defers.Files.{Fs}
use bonsun.Defers.Replay.{HealthCheckError}
use bonsun.Service.{
  ServiceSpec, Node, Tools, on_outside, filed_beside, validate_by, checked, check_by, enqueue_defer,
}
use bonsun.Effects.{Result, ok, err, Keeps, match_result-Ends}

pub record IsRun {V : Type 0} (tools : Tools V) (I : Node V → Type 0) : Type 0 where
  pub validates :
      (argv : List Text) (node : Node V) → I node → Keeps I (on_outside (tools.validator argv) node)
  pub checks :
      (check : HealthCheck) (node : Node V)
      → I node
      → Keeps I (on_outside (tools.health_check_runner check) node)

module _ {V : Type 0} {tools : Tools V} {I : Node V → Type 0} (ran : IsRun tools I) where
  pub validate_by-Keeps :
      (argv : Option (List Text)) (node : Node V) → I node → Keeps I (validate_by tools argv node)
  unfolding validate_by
  validate_by-Keeps none node h = record { holds = h }
  validate_by-Keeps (some []) node h = record { holds = h }
  validate_by-Keeps (some (v ∷ argv)) node h =
      match_result-Ends _ _ (ran.validates (v ∷ argv) node h) (λ _ node1 h1. record { holds = h1 })
        (λ e node1 h1. record { holds = h1 })

  checked-Keeps :
      (spec : ServiceSpec) (e : HealthCheckError) (node : Node V)
      → I node
      → Keeps I (checked tools spec (err e) node)
  checked-Keeps spec HealthCheckError.cancelled node h = record { holds = h }
  checked-Keeps spec _ node h = record { holds = h }

  pub check_by-Keeps :
      (spec : ServiceSpec) (check : Option HealthCheck) (node : Node V)
      → I node
      → Keeps I (check_by tools spec check node)
  unfolding check_by
  check_by-Keeps spec none node h = record { holds = h }
  check_by-Keeps spec (some check) node h =
      match_result-Ends _ _ (ran.checks check node h) (λ _ node1 h1. record { holds = h1 })
        (checked-Keeps spec)

  module _ (filed : (node : Node V) (fs : Fs Text) → I node → I (record node { defers = fs })) where
    filed_beside-Keeps :
        {E A : Type 0} (node : Node V) (x : Result E A × Fs Text)
        → I node
        → Keeps I (filed_beside node x)
    filed_beside-Keeps node (ok a, fs) h = record { holds = filed node fs h }
    filed_beside-Keeps node (err e, fs) h = record { holds = filed node fs h }

    pub enqueue_defer-Keeps :
        (init_system kind : Text) (spec : ServiceSpec) (action : DeferAction)
        → (priority : DeferPriority) (sources : List Text) (node : Node V) → I node
        → Keeps I (enqueue_defer tools init_system kind spec action priority sources node)
    unfolding enqueue_defer
    enqueue_defer-Keeps init_system kind spec action priority sources node h =
        match_result-Ends _ _ (filed_beside-Keeps node _ h) (λ _ node1 h1. record { holds = h1 })
          (λ e node1 h1. record { holds = h1 })
