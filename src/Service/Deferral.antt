-- ===== src/Service/Deferral.antt =====
-- What the deferral of a restart or a reload of a service leaves in the journal
-- (bosun-primitives/src/systemd_service and runr_service).
use bonsun.Base.{ℕ, ◌≡◌, refl, Bool, true, false, List, Text}
use bonsun.Primitive.{PrimitiveError, defer_io}
use bonsun.Defers.Format.{DeferAction, DeferPriority, DeferEntry, make_id}
use bonsun.Defers.Files.{Directory, Fs, quiet}
use bonsun.Defers.Journal.Quiet.{line}
use bonsun.Defers.Journal.Covered.{Filed, enqueue-Filed}
use bonsun.Service.{ServiceSpec, Node, Tools, deferral, filed_beside, enqueue_defer}
use bonsun.Effects.{Result, ok, Ends, match_result-Ends, anyhow}

abbrev pub is_defer_io : PrimitiveError → Bool
is_defer_io (defer_io _ _) = true
is_defer_io _ = false

-- The action of the unit is pending behind a directory `d`: its entry is filed, or one with its identifier or
-- with an action that subsumes it was there.
abbrev pub IsPending :
    {V : Type 0}
    → Tools V
    → (init_system : Text) → ServiceSpec
    → DeferAction
    → (d : Directory Text) → Node V
    → Type 0
IsPending tools init_system spec action d node =
    (e : DeferEntry) × (e.id ≡ make_id init_system action spec.name)
    × (e.init_system ≡ init_system)
    × (e.target ≡ spec.name)
    × (e.action ≡ action)
    × Filed tools.json e d node.defers.files

-- serde_json reads the entry as it wrote it.
abbrev pub Survives : {V : Type 0} → Tools V → DeferEntry → Type 0
Survives tools e = tools.json.from_json (line tools.json e) ≡ ok e

-- The restarts and the reloads of the unit survive.
abbrev pub RoundTrips : {V : Type 0} → Tools V → (init_system : Text) → ServiceSpec → Type 0
RoundTrips {V = V} tools init_system spec =
    (sources : List Text) (v : V)
    → Survives tools
        (deferral tools init_system spec DeferAction.restart DeferPriority.restart sources v)
      × Survives tools
          (deferral tools init_system spec DeferAction.reload DeferPriority.reload sources v)

module _ {V : Type 0} (tools : Tools V) where
  pub filed_as :
      {E A : Type 0} (node : Node V) (x : Result E A × Fs Text) (a : A) (fs : Fs Text)
      → (good : A → Node V → Type 0) → x ≡ (ok a, fs)
      → good a (record node { defers = fs })
      → Ends good (λ e node'. Unit) (filed_beside node x)
  filed_as node x a fs good same h = rw same (record { holds = h })

  pub enqueue_defer-IsPending :
      (init_system kind : Text) (spec : ServiceSpec) (action : DeferAction)
      → (priority : DeferPriority) (sources : List Text) (d : Directory Text) (ns : List ℕ)
      → (node : Node V)
      → Survives tools (deferral tools init_system spec action priority sources node.outside)
      → node.defers ≡ quiet d ns
      → Ends
          (λ report. IsPending tools init_system spec action d)
          (λ e node'. Unit)
          (enqueue_defer tools init_system kind spec action priority sources node)
  unfolding enqueue_defer
  enqueue_defer-IsPending init_system kind spec action priority sources d ns node back calm =
      let e = deferral tools init_system spec action priority sources node.outside in
      let (r, fs, done, filed) = enqueue-Filed tools.json e d ns back in
      match_result-Ends _ _
        (filed_as node _ r fs (λ r node'. Filed tools.json e d node'.defers.files) (rw calm done)
          filed)
        (λ r node1 h1. record { holds = (e, refl, refl, refl, refl, h1) })
        (λ e node1 h1. record { holds = tt })

  -- A deferral that fails says so, and one that succeeds too.
  pub enqueue_defer-tells :
      (init_system kind : Text) (spec : ServiceSpec) (action : DeferAction)
      → (priority : DeferPriority) (sources : List Text) (node : Node V)
      → Ends
          (λ report node'. report.deferred ≡ true)
          (λ e node'. is_defer_io e ≡ true)
          (enqueue_defer tools init_system kind spec action priority sources node)
  unfolding enqueue_defer
  enqueue_defer-tells init_system kind spec action priority sources node =
      match_result-Ends _ _ (anyhow _) (λ _ node1 _. record { holds = refl })
        (λ e node1 _. record { holds = refl })
