-- ===== src/RunrTimer/Converge.antt =====
-- What an apply of a timer leads to (bosun-primitives/src/runr_timer/apply.rs).
use bonsun.Base.{◌≡◌, sym, Bool, true, false, Text, some}
use bonsun.Resource.{Resource}
use bonsun.Primitive.{Diff, is_no_change, ChangeReport}
use bonsun.RunrTimer.{
  TimerState, enabled, disabled, absent, RunrTimerSpec, TimerHandle, timer_of, enabled_now,
  decide_in, decide_timer_action, perform, converge, run,
}
use bonsun.Service.Runr.{RunrError}
use bonsun.Effects.{Result, ok, Ends, bind-Ends, map_err-Ends, Ends-ok, anyhow}

-- `on` tells which timers are enabled: the statuses say so, and an enable and a disable set it.
pub record IsScheduler {V : Type 0} (runr : TimerHandle V) (on : Text → V → Bool) : Type 0 where
  pub tells :
      (n : Text) (v : V)
      → Ends (λ ts v'. enabled_now (timer_of n ts) ≡ on n v') (λ e v'. Unit) (runr.timer_statuses v)
  pub enables :
      (n : Text) (b : Bool) (v : V)
      → Ends (λ _ v'. on n v' ≡ true) (λ e v'. Unit) (runr.timer_enable n b v)
  pub disables :
      (n : Text) (b : Bool) (v : V)
      → Ends (λ _ v'. on n v' ≡ false) (λ e v'. Unit) (runr.timer_disable n b v)

abbrev pub wants_on : TimerState → Bool
wants_on enabled = true
wants_on disabled = false
wants_on absent = false

module _ {V : Type 0} (display : RunrError → Text) {runr : TimerHandle V} {on : Text → V → Bool}
    (scheduler : IsScheduler runr on) (spec : RunrTimerSpec) where
  abbrev Is : Bool → V → Type 0
  Is b v = on spec.name v ≡ b

  performed-Is :
      (state : TimerState) (start now : Bool) (v : V)
      → Is now v
      → Ends
          (λ _. Is (wants_on state))
          (λ e v'. Unit)
          (perform display runr spec (decide_in state start now) v)
  unfolding perform
  performed-Is enabled start true v h = record { holds = h }
  performed-Is enabled start false v h =
      bind-Ends _ (map_err-Ends _ _ (scheduler.enables spec.name start v))
        (λ _ v1 h1. record { holds = h1 })
  performed-Is disabled start false v h = record { holds = h }
  performed-Is disabled start true v h =
      bind-Ends _ (map_err-Ends _ _ (scheduler.disables spec.name false v))
        (λ _ v1 h1. record { holds = h1 })
  performed-Is absent start false v h = record { holds = h }
  performed-Is absent start true v h = bind-Ends _ (anyhow _) (λ _ v1 _.
      bind-Ends _ (map_err-Ends _ _ (scheduler.disables spec.name true v1))
        (λ _ v2 h2. record { holds = h2 }))

  converge-Is :
      (v : V) → Ends (λ _. Is (wants_on spec.state)) (λ e v'. Unit) (converge display runr spec v)
  unfolding converge decide_timer_action
  converge-Is v = bind-Ends _ (map_err-Ends _ _ (scheduler.tells spec.name v)) (λ ts v1 told.
      performed-Is spec.state spec.start_now (enabled_now (timer_of spec.name ts)) v1 (sym told))

  -- If the statuses tell which timers are enabled, and an enable and a disable that succeed set it, then behind
  -- an apply of a timer that succeeds with a difference to apply, the timer is enabled exactly if its state is.
  pub timer_run-Is :
      {P J : Type 0} (from_value : P → Result Text RunrTimerSpec) (r : Resource P) (diff : Diff J)
      → (v v' : V) (report : ChangeReport) → is_no_change diff ≡ false
      → from_value r.payload ≡ ok spec
      → run display (some runr) from_value r diff v ≡ (ok report, v')
      → Is (wants_on spec.state) v'
  unfolding run
  timer_run-Is from_value r diff v v' report some_diff read h =
      Ends-ok report v' (rw (some_diff, read) at h) (converge-Is v)
