-- ===== src/ProcessSignal/Runner.antt =====
-- bosun-primitives/src/process_signal/apply.rs: `RealProcessSignalRunner`, which waits for its child.
use bonsun.Base.{
  ℕ, zero, suc, ◌+◌, ◌-◌, ◌*◌, ◌/◌, ◌≤◌, ◌<◌, ◌≡◌, refl, inl, inr, Bool, true, false, List, [], ◌∷◌,
  ◌++◌, Option, none, some, Text, codes, leb, ◌==◌, if◌then◌else◌, arith, Bool-cases,
}
use bonsun.Primitive.{ℤ, pos, negsuc}
use bonsun.Effects.{Result, ok, err, Act}

-- `ExitStatus`, with its `Debug`.
pub record ExitStatus : Type 0 where
  pub succeeded : Bool
  pub code : Option ℤ
  pub debug : Text

-- `Command::spawn`, the methods of the child, `Instant::now` and `thread::sleep`.
pub record Children (W : Type 0) : Type 0 where
  pub spawn : List Text → Act W Text Unit
  pub try_wait : Act W Text (Option ExitStatus)
  pub kill : W → W
  pub wait : W → W
  pub now : W → ℕ × W
  pub sleep : ℕ → W → W

-- 5 seconds and 50 milliseconds, in nanoseconds.
abbrev pub sync_timeout : ℕ
sync_timeout = 5000000000

abbrev pub sync_poll_interval : ℕ
sync_poll_interval = 50000000

abbrev nothing_found : Option ℤ → Bool
nothing_found (some (pos n)) = n == 1
nothing_found (some (negsuc n)) = false
nothing_found none = false

-- The branch for a child that ended.
unfoldable pub judge_status : (cmd : Text) → ExitStatus → Result Text Unit
judge_status cmd status =
    if status.succeeded
    then ok tt
    else if nothing_found status.code
    then ok tt
    else err (codes "process.signal: " ++ cmd ++ codes " exited with status " ++ status.debug)

module _ {W : Type 0} (children : Children W) where
  -- `none` means that the fuel, a unit for each pause, ran out.
  abbrev pub Outcome : Type 0
  Outcome = Option (Result Text Unit × W)

  module _ (cmd : Text) (started : ℕ) where
    abbrev pub timed_out : Text
    timed_out = codes "process.signal: " ++ cmd ++ codes " timed out after 5s"

    abbrev pub after_elapsed : (W → Outcome) → ℕ × W → Outcome
    after_elapsed rest (t, w) = elim (leb sync_timeout (t - started)) [
      | true ↦ some (err timed_out, children.wait (children.kill w))
      | false ↦ rest (children.sleep sync_poll_interval w)
    ]

    abbrev pub after_try_wait : (W → Outcome) → Result Text (Option ExitStatus) × W → Outcome
    after_try_wait rest (ok (some status), w) = some (judge_status cmd status, w)
    after_try_wait rest (ok none, w) = after_elapsed rest (children.now w)
    after_try_wait rest (err e, w) =
        some (err (codes "process.signal: try_wait error for " ++ cmd ++ codes ": " ++ e), w)

    -- The `loop`.
    unfoldable pub wait_loop : (fuel : ℕ) → W → Outcome
    wait_loop zero w = after_try_wait (λ w. none) (children.try_wait w)
    wait_loop (suc fuel) w = after_try_wait (λ w. wait_loop fuel w) (children.try_wait w)

  abbrev pub wait_fuel : ℕ
  wait_fuel = sync_timeout / sync_poll_interval + 1

  abbrev started_at : (cmd : Text) → ℕ × W → Outcome
  started_at cmd (t, w) = wait_loop cmd t wait_fuel w

  abbrev spawned : (cmd : Text) → Result Text Unit × W → Outcome
  spawned cmd (err e, w) =
      some (err (codes "process.signal: failed to spawn " ++ cmd ++ codes ": " ++ e), w)
  spawned cmd (ok _, w) = started_at cmd (children.now w)

  -- `RealProcessSignalRunner::run`
  unfoldable pub runner_run : List Text → W → Outcome
  runner_run [] w = some (err (codes "process.signal: empty argv"), w)
  runner_run (cmd ∷ rest) w = spawned cmd (children.spawn (cmd ∷ rest) w)

-- Time goes on: a reading lies between the times before and behind it, a question does not turn the clock back,
-- and a pause lasts at least as long as asked for.
pub record IsTimed {W : Type 0} (children : Children W) (time : W → ℕ) : Type 0 where
  pub reads :
      (w : W) → (time w ≤ (children.now w).0) × ((children.now w).0 ≤ time (children.now w).1)
  pub asks : (w : W) → time w ≤ time (children.try_wait w).1
  pub sleeps : (d : ℕ) (w : W) → time w + d ≤ time (children.sleep d w)

-- A run that came to its end.
abbrev pub Returns : {W : Type 0} → Option (Result Text Unit × W) → Type 0
Returns {W = W} o = (r : Result Text Unit) × (w : W) × (o ≡ some (r, w))

module _ {W : Type 0} (children : Children W) (time : W → ℕ) (timed : IsTimed children time) where
  module _ (cmd : Text) (started : ℕ) where
    after_elapsed-Returns :
        (rest : W → Outcome children) (w : W)
        → ((w' : W)
            → time w ≤ time w'
            → time w < started + sync_timeout
            → Returns (rest (children.sleep sync_poll_interval w')))
        → Returns (after_elapsed children cmd started rest (children.now w))
    after_elapsed-Returns rest w goes =
        let (t, w') = children.now w in
        elim (Bool-cases (leb sync_timeout (t - started))) [
          | inl over ↦ (
            err (timed_out children cmd started),
            children.wait (children.kill w'),
            rw (over, after_elapsed),
          )
          | inr early ↦
              let before : t < started + sync_timeout = ground (arith, early) in
              rw (early, after_elapsed)
                (goes w' (omega (arith, timed.reads w)) (omega (arith, before, timed.reads w)))
        ]

    after_try_wait-Returns :
        (rest : W → Outcome children) (x : Result Text (Option ExitStatus) × W)
        → ((w' : W)
            → time x.1 ≤ time w'
            → time x.1 < started + sync_timeout
            → Returns (rest (children.sleep sync_poll_interval w')))
        → Returns (after_try_wait children cmd started rest x)
    after_try_wait-Returns rest (ok (some status), w) goes = (judge_status cmd status, w, refl)
    after_try_wait-Returns rest (ok none, w) goes = after_elapsed-Returns rest w goes
    after_try_wait-Returns rest (err e, w) goes = (_, w, refl)

    wait_loop-Returns :
        (fuel : ℕ) (w : W)
        → started + sync_timeout ≤ time w + fuel * sync_poll_interval
        → Returns (wait_loop children cmd started fuel w)
    unfolding wait_loop
    wait_loop-Returns zero w enough =
        after_try_wait-Returns (λ w. none) (children.try_wait w)
          (λ w' later early. absurd (omega (arith, enough, early, timed.asks w)))
    wait_loop-Returns (suc fuel) w enough =
        after_try_wait-Returns (λ w. wait_loop children cmd started fuel w) (children.try_wait w)
          (λ w' later early.
            wait_loop-Returns fuel (children.sleep sync_poll_interval w')
              (omega (arith, enough, later, timed.asks w, timed.sleeps sync_poll_interval w')))

  spawned-Returns : (cmd : Text) (x : Result Text Unit × W) → Returns (spawned children cmd x)
  spawned-Returns cmd (err e, w) = (_, w, refl)
  spawned-Returns cmd (ok _, w) = wait_loop-Returns cmd _ _ _ (omega (arith, timed.reads w))

  -- If time goes on, the runner returns with a unit of fuel for each pause that fits into the time limit and
  -- one more, also if the child never ends.
  pub runner_run-Returns : (argv : List Text) (w : W) → Returns (runner_run children argv w)
  unfolding runner_run
  runner_run-Returns [] w = (_, w, refl)
  runner_run-Returns (cmd ∷ rest) w = spawned-Returns cmd (children.spawn (cmd ∷ rest) w)
