-- ===== src/AptPackage/Calls.antt =====
-- How many commands an apply of a package runs (bosun-primitives/src/apt_package).
use bonsun.Base.{
  ℕ, zero, suc, ◌+◌, ◌==◌, ◌||◌, ◌≤◌, Bool, true, false, List, Option, none, some, Text, arith,
}
use bonsun.Resource.{Resource}
use bonsun.Primitive.{ℤ, PrimitiveError, Diff, is_no_change}
use bonsun.AptPackage.{
  AptPackageState, present, absent, purged, AptPackageSpec, CommandResult, exited_with,
  InstallOutcome, success, dpkg_interrupted, candidate_missing, other_failure,
}
use bonsun.AptPackage.Recovery.{
  Apt, Job, lift, tell, AptUpdatePolicy, default_policy, UpdateFailure, retriable, non_retriable,
  classify_update_failure, run_dpkg_configure_a, base_backoff, jittered_backoff, sleep_for,
  sleep_until, pause, after_category, after_update, update_rounds,
}
use bonsun.AptPackage.Apply.{
  locked_unless, probe_dpkg_lock, write_log, log_warnings, log_excerpt, failed, concluded,
  recovered, check_cancel_or_deadline, recover_then_retry, after_install, run_install,
  query_dpkg_status, removed, run_remove, carry_out, converge, with_payload, run,
}
use bonsun.AptPackage.Costs.{
  pure-Costs, throw-Costs, free, weaken, bind-Costs, free_before, match_result-Costs, map_err-Costs,
  if-Costs, Costs,
}
use bonsun.Effects.{Result, ok, err}

-- `calls` counts the commands.
pub record IsCounted {W : Type 0} (apt : Apt W) (calls : W → ℕ) : Type 0 where
  pub commands :
      (cmd : Text) (args : List Text) (d : ℕ) (w : W)
      → calls (apt.command cmd args d w).1 ≤ calls w + 1
  pub reads : (w : W) → calls (apt.now w).1 ≤ calls w
  pub asks : (w : W) → calls (apt.is_cancelled w).1 ≤ calls w
  pub sleeps : (d : ℕ) (w : W) → calls (apt.sleep d w) ≤ calls w
  pub draws : (base pct : ℕ) (w : W) → calls (apt.jitter base pct w).1 ≤ calls w
  pub looks : (w : W) → calls (apt.log_dir_exists w).1 ≤ calls w
  pub creates : (w : W) → calls (apt.create_log_dir w).1 ≤ calls w
  pub writes : (name contents : Text) (w : W) → calls (apt.write_file name contents w).1 ≤ calls w
  pub opens : (w : W) → calls (apt.open_lock w).1 ≤ calls w
  pub locks : (w : W) → calls (apt.get_lock w).1 ≤ calls w

module _ {W : Type 0} (calls : W → ℕ) (apt : Apt W) (counted : IsCounted apt calls) where
  command-Costs : (cmd : Text) (args : List Text) (d : ℕ) → Costs calls 1 (apt.command cmd args d)
  command-Costs cmd args d = record { costs = counted.commands cmd args d }

  now-Costs : {E : Type 0} → Costs calls {E = E} 0 (lift apt.now)
  now-Costs = record { costs = λ w. omega (arith, counted.reads w) }

  write_log-Costs : (step stderr : Text) → Costs calls 0 (write_log apt step stderr)
  unfolding write_log
  write_log-Costs step stderr =
      match_result-Costs calls 0 0
        (bind-Costs calls 0 0
          (bind-Costs calls 0 0 (free calls _ counted.looks)
            (λ there. if-Costs calls there 0 (pure-Costs calls tt) (free calls _ counted.creates)))
          (λ _. free calls _ (counted.writes _ stderr)))
        (λ _. pure-Costs calls tt)

  log_warnings-Costs : (step : Text) (r : CommandResult) → Costs calls 0 (log_warnings apt step r)
  log_warnings-Costs step r =
      if-Costs calls _ 0 (pure-Costs calls tt) (write_log-Costs step r.stderr)

  failed-Costs : (step reason : Text) (r : CommandResult) → Costs calls 0 (failed apt step reason r)
  failed-Costs step reason r =
      bind-Costs calls 0 0 (write_log-Costs step r.stderr) (λ _. throw-Costs calls _)

  concluded-Costs :
      (step reason message : Text) (r : CommandResult)
      → Costs calls 0 (concluded apt step reason message r)
  concluded-Costs step reason message r =
      if-Costs calls _ 0
        (bind-Costs calls 0 0 (log_warnings-Costs step r) (λ _. pure-Costs calls _))
        (failed-Costs step reason r)

  log_excerpt-Costs : (step : Text) (e : PrimitiveError) → Costs calls 0 (log_excerpt apt step e)
  log_excerpt-Costs step (PrimitiveError.exec reason exit excerpt) = write_log-Costs step excerpt
  log_excerpt-Costs step _ = pure-Costs calls tt

  recovered-Costs :
      (step : Text) (r : Result PrimitiveError Unit) → Costs calls 0 (recovered apt step r)
  recovered-Costs step (ok _) = pure-Costs calls tt
  recovered-Costs step (err e) =
      bind-Costs calls 0 0 (log_excerpt-Costs step e) (λ _. throw-Costs calls e)

  run_dpkg_configure_a-Costs : (d : ℕ) → Costs calls 1 (run_dpkg_configure_a apt d)
  unfolding run_dpkg_configure_a
  run_dpkg_configure_a-Costs d = bind-Costs calls 0 1 now-Costs (λ t.
      bind-Costs calls 1 0 (command-Costs _ _ _)
        (λ r. if-Costs calls _ 0 (pure-Costs calls tt) (throw-Costs calls _)))

  sleep_for-Costs : (dt : ℕ) → Costs calls 0 (sleep_for apt dt)
  sleep_for-Costs dt =
      if-Costs calls (dt == 0) 0 (pure-Costs calls tt)
        (free calls (tell (apt.sleep dt)) (counted.sleeps dt))

  sleep_until-Costs : (d wake : ℕ) → Costs calls 0 (sleep_until apt d wake)
  sleep_until-Costs d wake = bind-Costs calls 0 0 now-Costs (λ t. sleep_for-Costs _)

  jittered_backoff-Costs : (base pct : ℕ) → Costs calls 0 (jittered_backoff apt base pct)
  jittered_backoff-Costs base pct =
      if-Costs calls (pct == 0 || base == 0) 0 (pure-Costs calls base)
        (free calls (lift (apt.jitter base pct)) (counted.draws base pct))

  pause-Costs :
      (policy : AptUpdatePolicy) (d attempt : ℕ) → Costs calls 0 (pause apt policy d attempt)
  unfolding pause
  pause-Costs policy d attempt =
      bind-Costs calls 0 0
        (jittered_backoff-Costs (base_backoff policy.backoffs attempt) policy.jitter_pct)
        (λ backoff. bind-Costs calls 0 0 now-Costs (λ t.
          if-Costs calls _ 0 (throw-Costs calls _)
            (bind-Costs calls 0 0 now-Costs (λ t'. sleep_until-Costs d (t' + backoff)))))

  after_category-Costs :
      (policy : AptUpdatePolicy) (d k : ℕ) (rest : Job apt Unit) (attempt : ℕ) (r : CommandResult)
      → (c : UpdateFailure) → Costs calls k rest
      → Costs calls k (after_category apt policy d rest attempt r c)
  after_category-Costs policy d k rest attempt r non_retriable h =
      weaken calls 0 k (omega arith) (throw-Costs calls _)
  after_category-Costs policy d k rest attempt r retriable h =
      if-Costs calls _ k (weaken calls 0 k (omega arith) (throw-Costs calls _))
        (free_before calls k (pause-Costs policy d attempt) (λ _. h))

  after_update-Costs :
      (policy : AptUpdatePolicy) (d k : ℕ) (rest : CommandResult → Job apt Unit) (attempt : ℕ)
      → (r : CommandResult) → ((r' : CommandResult) → Costs calls k (rest r'))
      → Costs calls k (after_update apt policy d rest attempt r)
  after_update-Costs policy d k rest attempt r h =
      if-Costs calls (exited_with 0 r.exit_code) k
        (weaken calls 0 k (omega arith) (pure-Costs calls tt))
        (after_category-Costs policy d k (rest r) attempt r
          (classify_update_failure apt.trim r.stderr) (h r))

  update_rounds-Costs :
      (policy : AptUpdatePolicy) (d left attempt : ℕ) (last : Option CommandResult)
      → Costs calls left (update_rounds apt policy d left attempt last)
  unfolding update_rounds
  update_rounds-Costs policy d zero attempt last = throw-Costs calls _
  update_rounds-Costs policy d (suc left) attempt last =
      weaken calls (1 + left) (suc left) (omega arith) (
        free_before calls (1 + left) now-Costs (λ t.
          bind-Costs calls 1 left (command-Costs _ _ _) (λ r.
            after_update-Costs policy d left _ attempt r
              (λ r'. update_rounds-Costs policy d left (attempt + 1) (some r')))))

  check_cancel_or_deadline-Costs : (d : ℕ) → Costs calls 0 (check_cancel_or_deadline apt d)
  unfolding check_cancel_or_deadline
  check_cancel_or_deadline-Costs d = bind-Costs calls 0 0 (free calls _ counted.asks) (λ stop.
      if-Costs calls stop 0 (throw-Costs calls _) (
        bind-Costs calls 0 0 now-Costs
          (λ t. if-Costs calls _ 0 (throw-Costs calls _) (pure-Costs calls tt))))

  recover_then_retry-Costs :
      (ctx k : ℕ) (recovery : Job apt Unit) (step tool : Text) (spec : AptPackageSpec) (d : ℕ)
      → (first : CommandResult) → Costs calls k recovery
      → Costs calls (k + 1) (recover_then_retry apt ctx recovery step tool spec d first)
  unfolding recover_then_retry
  recover_then_retry-Costs ctx k recovery step tool spec d first h =
      free_before calls (k + 1) (write_log-Costs _ first.stderr) (λ _.
        free_before calls (k + 1) (check_cancel_or_deadline-Costs ctx) (λ _.
          bind-Costs calls k 1
            (weaken calls (k + 0) k (omega arith)
              (match_result-Costs calls k 0 h (recovered-Costs step)))
            (λ _.
              free_before calls 1 (check_cancel_or_deadline-Costs ctx)
                (λ _. bind-Costs calls 1 0 (command-Costs _ _ _) (concluded-Costs _ _ _)))))

  after_install-Costs :
      (ctx : ℕ) (spec : AptPackageSpec) (d : ℕ) (r : CommandResult) (o : InstallOutcome)
      → Costs calls 4 (after_install apt ctx spec d r o)
  unfolding after_install
  after_install-Costs ctx spec d r success =
      weaken calls 0 4 (omega arith)
        (bind-Costs calls 0 0 (log_warnings-Costs _ r) (λ _. pure-Costs calls _))
  after_install-Costs ctx spec d r dpkg_interrupted =
      weaken calls 2 4 (omega arith)
        (recover_then_retry-Costs ctx 1 _ _ _ spec d r (run_dpkg_configure_a-Costs d))
  after_install-Costs ctx spec d r candidate_missing =
      recover_then_retry-Costs ctx 3 _ _ _ spec d r (update_rounds-Costs default_policy d 3 0 none)
  after_install-Costs ctx spec d r other_failure =
      weaken calls 0 4 (omega arith) (failed-Costs _ _ r)

  run_install-Costs :
      (ctx : ℕ) (spec : AptPackageSpec) (d : ℕ) → Costs calls 5 (run_install apt ctx spec d)
  unfolding run_install
  run_install-Costs ctx spec d =
      bind-Costs calls 1 4 (command-Costs _ _ d) (λ r. after_install-Costs ctx spec d r _)

  removed-Costs :
      (spec : AptPackageSpec) (d : ℕ) (purge needed : Bool)
      → Costs calls 1 (removed apt spec d purge needed)
  removed-Costs spec d purge false = weaken calls 0 1 (omega arith) (pure-Costs calls _)
  removed-Costs spec d purge true =
      bind-Costs calls 1 0 (command-Costs _ _ d) (concluded-Costs _ _ _)

  run_remove-Costs :
      (spec : AptPackageSpec) (d : ℕ) (purge : Bool) → Costs calls 5 (run_remove apt spec d purge)
  unfolding run_remove query_dpkg_status
  run_remove-Costs spec d purge = weaken calls 2 5 (omega arith) (
      bind-Costs calls 1 1 (bind-Costs calls 1 0 (command-Costs _ _ d) (λ r. pure-Costs calls _))
        (λ status. removed-Costs spec d purge _))

  carry_out-Costs :
      (ctx : ℕ) (lock : Text) (state : AptPackageState) (spec : AptPackageSpec) (d : ℕ)
      → Costs calls 5 (carry_out apt ctx lock state spec d)
  carry_out-Costs ctx lock present spec d = run_install-Costs ctx spec d
  carry_out-Costs ctx lock absent spec d = run_remove-Costs spec d false
  carry_out-Costs ctx lock purged spec d = run_remove-Costs spec d true

  locked_unless-Costs : (held : Bool × ℤ) → Costs calls 0 (locked_unless apt held)
  locked_unless-Costs (true, pid) = pure-Costs calls tt
  locked_unless-Costs (false, pid) = throw-Costs calls _

  probe_dpkg_lock-Costs : (lock : Text) → Costs calls 0 (probe_dpkg_lock apt lock)
  unfolding probe_dpkg_lock
  probe_dpkg_lock-Costs lock =
      bind-Costs calls 0 0 (map_err-Costs calls _ 0 (free calls _ counted.opens)) (λ _.
        bind-Costs calls 0 0 (map_err-Costs calls _ 0 (free calls _ counted.locks))
          locked_unless-Costs)

  with_payload-Costs :
      (ctx : ℕ) (lock : Text) (x : Result Text AptPackageSpec)
      → Costs calls 5 (with_payload apt ctx lock x)
  unfolding converge
  with_payload-Costs ctx lock (err e) = weaken calls 0 5 (omega arith) (throw-Costs calls _)
  with_payload-Costs ctx lock (ok spec) =
      free_before calls 5 (check_cancel_or_deadline-Costs ctx) (λ _.
        free_before calls 5 (probe_dpkg_lock-Costs lock) (λ _.
          free_before calls 5 (bind-Costs calls 0 0 now-Costs (λ t. pure-Costs calls _))
            (λ d. carry_out-Costs ctx lock spec.state spec d)))

  -- Whatever fails, an apply of a package runs at most five commands, where calls counts them.
  pub apt_run-calls :
      {P J : Type 0} (ctx_deadline : ℕ) (lock_path : Text)
      (from_value : P → Result Text AptPackageSpec)
      → (r : Resource P) (diff : Diff J) (w : W)
      → calls (run apt ctx_deadline lock_path from_value r diff w).1 ≤ calls w + 5
  unfolding run
  apt_run-calls ctx lock from_value r diff w =
      (if-Costs calls (is_no_change diff) 5 (weaken calls 0 5 (omega arith) (pure-Costs calls _))
          (with_payload-Costs ctx lock (from_value r.payload))).costs
        w
