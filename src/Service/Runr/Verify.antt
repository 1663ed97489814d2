-- ===== src/Service/Runr/Verify.antt =====
-- What the loops of bosun-runr-client/src/verify.rs return, and that they end.
use native.Mathlib.Nat.{div-add-mod, mod-lt}
use bonsun.Base.{
  ℕ, zero, suc, ◌+◌, ◌*◌, ◌/◌, ◌≤◌, ◌<◌, ◌≡◌, refl, inl, inr, true, List, [], ◌∷◌, Option, none,
  some, Text, text_eq_iff, leb, arith, Bool-cases,
}
use bonsun.Service.Runr.{RunrError, restart_not_observed, ServiceStatus, running_state, status_of}
use bonsun.Effects.{Result, ok, err}
use bonsun.Service.Runr.Poll.{
  Poll, done, again, Poller, is_restart_observed, judge_restart, Outcome, after_now, after_poll,
  after_statuses, poll_loop, verify_restart,
}

-- Time goes on: a reading lies between the times before and behind it, a request does not turn the clock
-- back, and a pause lasts at least as long as asked for.
pub record IsTimed {W : Type 0} (poller : Poller W) (time : W → ℕ) : Type 0 where
  pub reads : (w : W) → (time w ≤ (poller.now w).0) × ((poller.now w).0 ≤ time (poller.now w).1)
  pub requests : (w : W) → time w ≤ time (poller.service_statuses w).1
  pub sleeps : (d : ℕ) (w : W) → time w + d ≤ time (poller.sleep d w)

status_of-name :
    (name : Text) (ss : List ServiceStatus) (s : ServiceStatus)
    → status_of name ss ≡ some s
    → s.name ≡ name
unfolding status_of
status_of-name name [] s h = absurd cc
status_of-name name (x ∷ ss) s h =
    ground (arith, status_of-name name ss s, (text_eq_iff x.name name).0)

-- The fuel of the loops lasts for the whole time.
fuel_lasts : (total interval : ℕ) → 0 < interval → total ≤ (total / interval + 1) * interval
fuel_lasts total interval pos = omega (arith, div-add-mod total interval, mod-lt total pos)

-- A loop that returned a result of the kind.
abbrev pub Returns :
    {W : Type 0}
    → (Result RunrError ServiceStatus → Type 0)
    → Option (Result RunrError ServiceStatus × W)
    → Type 0
Returns {W = W} P o = (r : Result RunrError ServiceStatus) × (w : W) × (o ≡ some (r, w)) × P r

-- What the results say: a service reported to run does.
abbrev pub Runs : Text → Result RunrError ServiceStatus → Type 0
Runs name (ok s) = (s.name ≡ name) × (s.state ≡ running_state)
Runs name (err e) = Unit

abbrev pub IsRestarted : Text → ServiceStatus → Result RunrError ServiceStatus → Type 0
IsRestarted name before (ok s) = (s.name ≡ name) × (is_restart_observed before s ≡ true)
IsRestarted name before (err e) = Unit

judge_restart-IsRestarted :
    (name : Text) (before : ServiceStatus) (current : Option ServiceStatus) (last : Text)
    → (r : Result RunrError ServiceStatus)
    → ((s : ServiceStatus) → current ≡ some s → s.name ≡ name)
    → judge_restart before current last ≡ done r
    → IsRestarted name before r
unfolding judge_restart
judge_restart-IsRestarted name before none last r named h = absurd cc
judge_restart-IsRestarted name before (some s) last (err e) named h = tt
judge_restart-IsRestarted name before (some s) last (ok t) named h = ground (arith, named s refl)

module _ {W : Type 0} (poller : Poller W) (time : W → ℕ) (timed : IsTimed poller time) where
  module _ (name : Text) (judge : Option ServiceStatus → Text → Poll) (late : Text → RunrError)
      (interval deadline : ℕ) (P : Result RunrError ServiceStatus → Type 0)
      (fails : (e : RunrError) → P (err e))
      (judges : (ss : List ServiceStatus) (last : Text) (r : Result RunrError ServiceStatus)
        → judge (status_of name ss) last ≡ done r
        → P r) where
    after_now-Returns :
        (rest : Text → W → Outcome poller) (last : Text) (w : W)
        → ((w' : W) → time w ≤ time w' → time w < deadline → Returns P (rest last w'))
        → Returns P (after_now poller name judge late interval deadline rest last (poller.now w))
    after_now-Returns rest last w goes =
        let (t, w') = poller.now w in
        elim (Bool-cases (leb deadline t)) [
          | inl over ↦ (err (late last), w', rw (over, after_now), fails (late last))
          | inr early ↦
              let before : t < deadline = ground (arith, early) in
              rw (early, after_now)
                (goes w' (omega (arith, timed.reads w)) (omega (arith, before, timed.reads w)))
        ]

    after_poll-Returns :
        (rest : Text → W → Outcome poller) (ss : List ServiceStatus) (last : Text) (w : W)
        (p : Poll)
        → judge (status_of name ss) last ≡ p
        → ((last' : Text) (w' : W)
            → time w ≤ time w'
            → time w < deadline
            → Returns P (rest last' w'))
        → Returns P (after_poll poller name judge late interval deadline rest w p)
    after_poll-Returns rest ss last w (done r) same goes = (r, w, refl, judges ss last r same)
    after_poll-Returns rest ss last w (again last') same goes =
        after_now-Returns rest last' w (goes last')

    after_statuses-Returns :
        (rest : Text → W → Outcome poller) (last : Text)
        → (x : Result RunrError (List ServiceStatus) × W)
        → ((last' : Text) (w' : W)
            → time x.1 ≤ time w'
            → time x.1 < deadline
            → Returns P (rest last' w'))
        → Returns P (after_statuses poller name judge late interval deadline rest last x)
    after_statuses-Returns rest last (err e, w) goes = (err e, w, refl, fails e)
    after_statuses-Returns rest last (ok ss, w) goes =
        after_poll-Returns rest ss last w (judge (status_of name ss) last) refl goes

    poll_loop-Returns :
        (fuel : ℕ) (last : Text) (w : W)
        → deadline ≤ time w + fuel * interval
        → Returns P (poll_loop poller name judge late interval deadline fuel last w)
    unfolding poll_loop
    poll_loop-Returns zero last w enough =
        after_statuses-Returns (λ last w. none) last (poller.service_statuses w)
          (λ last' w' later early. absurd (omega (arith, enough, early, timed.requests w)))
    poll_loop-Returns (suc fuel) last w enough =
        after_statuses-Returns
          (λ last w.
            poll_loop poller name judge late interval deadline fuel last (poller.sleep interval w))
          last (poller.service_statuses w)
          (λ last' w' later early.
            poll_loop-Returns fuel last' (poller.sleep interval w')
              (omega (arith, enough, later, timed.requests w, timed.sleeps interval w')))

  -- The same of `verify_restart`: where it succeeds, a restart of the service of the name is observed.
  pub verify_restart-IsRestarted :
      (name : Text) (before : ServiceStatus) (poll_interval poll_total : ℕ) (w : W)
      → 0 < poll_interval
      → Returns
          (IsRestarted name before)
          (verify_restart poller name before poll_interval poll_total w)
  unfolding verify_restart
  verify_restart-IsRestarted name before poll_interval poll_total w pos =
      poll_loop-Returns name (judge_restart before) (λ last. restart_not_observed name)
        poll_interval _ (IsRestarted name before) (λ e. tt)
        (λ ss last r.
          judge_restart-IsRestarted name before (status_of name ss) last r (status_of-name name ss))
        _ _ _ (omega (arith, fuel_lasts poll_total poll_interval pos, timed.reads w))
