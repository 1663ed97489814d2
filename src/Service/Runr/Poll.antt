-- ===== src/Service/Runr/Poll.antt =====
-- bosun-runr-client/src/verify.rs: the loops that wait until a start or a restart is observed.
use bonsun.Base.{
  ℕ, zero, suc, ◌+◌, ◌/◌, Bool, true, false, not, List, [], Option, none, some, Text, text_eq,
  codes, ltb, leb, ◌==◌, if◌then◌else◌,
}
use bonsun.Service.Runr.{
  RunrError, restart_not_observed, start_not_observed, service_start_failed, ServiceStatus,
  running_state, status_of,
}
use bonsun.Effects.{Result, ok, err, Act}

abbrev failed_state : Text
failed_state = codes "Failed"

abbrev both_differ : Option ℕ → Option ℕ → Bool
both_differ (some a) (some b) = not (a == b)
both_differ _ _ = false

-- `is_restart_observed`
unfoldable pub is_restart_observed : (before current : ServiceStatus) → Bool
is_restart_observed before current =
    if not (text_eq current.state running_state)
    then false
    else if both_differ before.pid current.pid
    then true
    else ltb before.restarts current.restarts

-- What a poll says: the loop ends, or goes on with the state seen last.
pub data Poll : Type 0 where
  done : Result RunrError ServiceStatus → Poll
  again : (last_state : Text) → Poll

-- The requests to the daemon, `Instant::now` and `thread::sleep`.
pub record Poller (W : Type 0) : Type 0 where
  pub service_statuses : Act W RunrError (List ServiceStatus)
  pub now : W → ℕ × W
  pub sleep : ℕ → W → W

-- The body of the loop of `verify_start` on the service found.
unfoldable pub judge_start : Text → Option ServiceStatus → (last_state : Text) → Poll
judge_start name none last = again last
judge_start name (some current) last =
    if text_eq current.state running_state
    then done (ok current)
    else if text_eq current.state failed_state
    then done (err (service_start_failed name))
    else again current.state

-- The body of the loop of `verify_restart`, which keeps no state.
unfoldable pub judge_restart : ServiceStatus → Option ServiceStatus → (last_state : Text) → Poll
judge_restart before none last = again last
judge_restart before (some current) last =
    if is_restart_observed before current then done (ok current) else again last

module _ {W : Type 0} (poller : Poller W) where
  -- `none` means that the fuel, a unit for each pause, ran out.
  abbrev pub Outcome : Type 0
  Outcome = Option (Result RunrError ServiceStatus × W)

  module _ (name : Text) (judge : Option ServiceStatus → Text → Poll) (late : Text → RunrError)
      (interval deadline : ℕ) where
    abbrev pub after_now : (Text → W → Outcome) → Text → ℕ × W → Outcome
    after_now rest last (t, w) = elim (leb deadline t) [
      | true ↦ some (err (late last), w)
      | false ↦ rest last w
    ]

    abbrev pub after_poll : (Text → W → Outcome) → W → Poll → Outcome
    after_poll rest w (done r) = some (r, w)
    after_poll rest w (again last) = after_now rest last (poller.now w)

    abbrev pub after_statuses :
        (Text → W → Outcome) → Text → Result RunrError (List ServiceStatus) × W → Outcome
    after_statuses rest last (err e, w) = some (err e, w)
    after_statuses rest last (ok ss, w) = after_poll rest w (judge (status_of name ss) last)

    -- The `loop`.
    unfoldable pub poll_loop : (fuel : ℕ) → (last_state : Text) → W → Outcome
    poll_loop zero last w = after_statuses (λ last w. none) last (poller.service_statuses w)
    poll_loop (suc fuel) last w =
        after_statuses (λ last w. poll_loop fuel last (poller.sleep interval w)) last
          (poller.service_statuses w)

  -- `verify_start`
  unfoldable pub verify_start : (name : Text) (poll_interval poll_total : ℕ) → W → Outcome
  verify_start name poll_interval poll_total w =
      let (t, w') = poller.now w in
      poll_loop name (judge_start name) (start_not_observed name) poll_interval (t + poll_total)
        (poll_total / poll_interval + 1) (codes "Unknown") w'

  -- `verify_restart`
  unfoldable pub verify_restart :
      (name : Text) (before : ServiceStatus) (poll_interval poll_total : ℕ) → W → Outcome
  verify_restart name before poll_interval poll_total w =
      let (t, w') = poller.now w in
      poll_loop name (judge_restart before) (λ last. restart_not_observed name) poll_interval
        (t + poll_total) (poll_total / poll_interval + 1) [] w'
