-- ===== src/AptPackage/Apply.antt =====
-- bosun-primitives/src/apt_package/apply.rs and lock_probe.rs: the apply of a package.
use bonsun.Base.{
  ℕ, suc, ◌+◌, ◌*◌, Bool, true, false, List, [], ◌∷◌, ◌++◌, Option, none, some, Text, text_eq,
  codes, length, ltb, leb, ◌==◌, if◌then◌else◌,
}
use bonsun.Resource.{Resource}
use bonsun.Primitive.{
  ℤ, pos, PrimitiveError, io, cancelled, dpkg_locked, Diff, is_no_change, ChangeReport, unchanged,
  changed_with,
}
use bonsun.AptPackage.{
  AptPackageState, present, absent, purged, AptPackageSpec, CommandResult, exited_with,
  InstallOutcome, success, dpkg_interrupted, candidate_missing, other_failure,
  analyze_install_result, payload_error,
}
use bonsun.AptPackage.Texts.{stderr_excerpt}
use bonsun.AptPackage.Recovery.{Apt, Job, lift, run_dpkg_configure_a, run_apt_update_with_retries}
use bonsun.Effects.{Result, ok, err, Act, pure, throw, ◌>>=◌, match_result, map_err}

pub data DpkgStatus : Type 0 where
  not_installed config_files : DpkgStatus
  other : Text → DpkgStatus

-- `match status_word`
abbrev pub status_of_word : Text → DpkgStatus
status_of_word word =
    if text_eq word (codes "not-installed")
    then not_installed
    else if text_eq word (codes "config-files")
    then config_files
    else other word

-- `needs_action_for_state`
abbrev pub needs_action_for_state : DpkgStatus → (purge : Bool) → Bool
needs_action_for_state not_installed purge = false
needs_action_for_state config_files purge = purge
needs_action_for_state (other word) purge = true

abbrev pub pkg_spec : Text → Option Text → Text
pkg_spec name none = name
pkg_spec name (some v) = name ++ (b'=' ∷ v)

abbrev pub if_set : Bool → Text → List Text
if_set b flag = if b then flag ∷ [] else []

-- The arguments of `install_attempt`.
abbrev pub install_args : AptPackageSpec → List Text
install_args spec =
    codes "install"
    ∷ codes "-qy"
    ∷ codes "-oDpkg::Options::=--force-confdef"
    ∷ codes "-oDpkg::Options::=--force-confold"
    ∷ codes "-oAPT::Acquire::Retries=3"
    ∷ codes "-oDPkg::Lock::Timeout=30"
    ∷ (if_set spec.allow_downgrade (codes "--allow-downgrades")
        ++ (if_set spec.allow_change_held (codes "--allow-change-held-packages")
            ++ pkg_spec spec.name spec.version ∷ []))

abbrev pub action_word : (purge : Bool) → Text
action_word purge = if purge then codes "purge" else codes "remove"

-- The arguments of `remove_or_purge_attempt`.
abbrev pub remove_args : AptPackageSpec → (purge : Bool) → List Text
remove_args spec purge =
    action_word purge
    ∷ codes "-qy"
    ∷ codes "-oDpkg::Options::=--force-confdef"
    ∷ codes "-oDpkg::Options::=--force-confold"
    ∷ codes "-oDPkg::Lock::Timeout=30"
    ∷ (if_set spec.allow_change_held (codes "--allow-change-held-packages") ++ spec.name ∷ [])

abbrev pub query_args : Text → List Text
query_args name = codes "-W" ∷ codes "-f=${db:Status-Status}\n" ∷ name ∷ []

-- `install_success_message` and `remove_success_message`
abbrev pub install_success_message : AptPackageSpec → Text
install_success_message spec = codes "installed " ++ pkg_spec spec.name spec.version

abbrev pub remove_success_message : AptPackageSpec → (purge : Bool) → Text
remove_success_message spec purge =
    (if purge then codes "purged " else codes "removed ") ++ spec.name

abbrev pub positive : ℤ → Option ℤ
positive (pos (suc n)) = some (pos (suc n))
positive _ = none

module _ {W : Type 0} (apt : Apt W) where
  abbrev pub locked_unless : Bool × ℤ → Job apt Unit
  locked_unless (true, pid) = pure tt
  locked_unless (false, pid) = throw (dpkg_locked (positive pid))

  -- `probe_dpkg_lock`
  unfoldable pub probe_dpkg_lock : (path : Text) → Job apt Unit
  probe_dpkg_lock path =
      map_err (io (codes "open " ++ path ++ codes " for lock probe")) apt.open_lock >>= λ _.
      map_err (io (codes "fcntl(F_GETLK) " ++ path)) apt.get_lock >>= locked_unless

  abbrev pub created_unless : Bool → Act W Text Unit
  created_unless there = if there then pure tt else apt.create_log_dir

  -- `write_log`, whose result is ignored.
  unfoldable pub write_log : (step stderr : Text) → Job apt Unit
  write_log step stderr =
      match_result
        (lift apt.log_dir_exists >>= created_unless >>= λ _.
          apt.write_file (codes "apt-" ++ step ++ codes "-last-error.log") stderr)
        (λ _. pure tt)

  abbrev pub log_warnings : (step : Text) → CommandResult → Job apt Unit
  log_warnings step result =
      if length result.stderr == 0 then pure tt else write_log step result.stderr

  -- `install_attempt`
  abbrev pub install_attempt : AptPackageSpec → (deadline : ℕ) → Job apt CommandResult
  install_attempt spec deadline = apt.command (codes "apt-get") (install_args spec) deadline

  abbrev pub log_excerpt : (step : Text) → PrimitiveError → Job apt Unit
  log_excerpt step (PrimitiveError.exec reason exit excerpt) = write_log step excerpt
  log_excerpt step _ = pure tt

  abbrev pub failed : (step reason : Text) → CommandResult → Job apt ChangeReport
  failed step reason result = write_log step result.stderr >>= λ _.
      throw (PrimitiveError.exec reason result.exit_code (stderr_excerpt result.stderr))

  -- Behind a command that ends the apply.
  abbrev pub concluded : (step reason message : Text) → CommandResult → Job apt ChangeReport
  concluded step reason message result =
      if exited_with 0 result.exit_code
      then (log_warnings step result >>= λ _. pure (changed_with message))
      else failed step reason result

  -- `if let Err(e) = ..` around a recovery.
  abbrev pub recovered : (step : Text) → Result PrimitiveError Unit → Job apt Unit
  recovered step (ok _) = pure tt
  recovered step (err e) = log_excerpt step e >>= λ _. throw e

  module _ (ctx_deadline : ℕ) where
    abbrev pub late : Job apt Unit
    late = lift apt.now >>= λ t. if leb ctx_deadline t then throw cancelled else pure tt

    -- `check_cancel_or_deadline`
    unfoldable pub check_cancel_or_deadline : Job apt Unit
    check_cancel_or_deadline =
        lift apt.is_cancelled >>= λ stop. if stop then throw cancelled else late

    -- `recover_dpkg_then_retry` and `recover_apt_update_then_retry`, with their recovery.
    unfoldable pub recover_then_retry :
        (recovery : Job apt Unit) (step tool : Text)
        → AptPackageSpec
        → (deadline : ℕ) → CommandResult
        → Job apt ChangeReport
    recover_then_retry recovery step tool spec deadline first =
        write_log (codes "install") first.stderr >>= λ _. check_cancel_or_deadline >>= λ _.
        match_result recovery (recovered step) >>= λ _. check_cancel_or_deadline >>= λ _.
        install_attempt spec deadline
        >>= concluded (codes "install-retry")
            (codes "apt-get install " ++ spec.name ++ codes " failed after " ++ tool)
            (install_success_message spec)

    -- `match outcome`
    unfoldable pub after_install :
        AptPackageSpec → (deadline : ℕ) → CommandResult → InstallOutcome → Job apt ChangeReport
    after_install spec deadline result success = log_warnings (codes "install") result >>= λ _.
        pure (changed_with (install_success_message spec))
    after_install spec deadline result dpkg_interrupted =
        recover_then_retry (run_dpkg_configure_a apt deadline) (codes "configure")
          (codes "dpkg --configure -a") spec deadline result
    after_install spec deadline result candidate_missing =
        recover_then_retry (run_apt_update_with_retries apt deadline) (codes "update")
          (codes "apt-get update") spec deadline result
    after_install spec deadline result other_failure =
        failed (codes "install") (codes "apt-get install " ++ spec.name ++ codes " failed") result

    -- `run_install`
    unfoldable pub run_install : AptPackageSpec → (deadline : ℕ) → Job apt ChangeReport
    run_install spec deadline = install_attempt spec deadline >>= λ result.
        after_install spec deadline result (analyze_install_result result)

  abbrev pub status_of : CommandResult → DpkgStatus
  status_of result =
      if exited_with 0 result.exit_code
      then status_of_word (apt.trim result.stdout)
      else not_installed

  -- `query_dpkg_status`
  unfoldable pub query_dpkg_status : Text → (deadline : ℕ) → Job apt DpkgStatus
  query_dpkg_status name deadline =
      apt.command (codes "dpkg-query") (query_args name) deadline >>= λ result.
      pure (status_of result)

  abbrev pub removed :
      AptPackageSpec → (deadline : ℕ) → (purge needed : Bool) → Job apt ChangeReport
  removed spec deadline purge false = pure unchanged
  removed spec deadline purge true =
      apt.command (codes "apt-get") (remove_args spec purge) deadline
      >>= concluded (action_word purge)
          (codes "apt-get " ++ action_word purge ++ codes " " ++ spec.name ++ codes " failed")
          (remove_success_message spec purge)

  -- `run_remove`
  unfoldable pub run_remove :
      AptPackageSpec → (deadline : ℕ) → (purge : Bool) → Job apt ChangeReport
  run_remove spec deadline purge = query_dpkg_status spec.name deadline >>= λ status.
      removed spec deadline purge (needs_action_for_state status purge)

  module _ (ctx_deadline : ℕ) (lock_path : Text) where
    abbrev pub carry_out : AptPackageState → AptPackageSpec → (deadline : ℕ) → Job apt ChangeReport
    carry_out present spec deadline = run_install ctx_deadline spec deadline
    carry_out absent spec deadline = run_remove spec deadline false
    carry_out purged spec deadline = run_remove spec deadline true

    -- `compute_resource_deadline`
    abbrev pub compute_resource_deadline : (timeout_sec : ℕ) → Job apt ℕ
    compute_resource_deadline timeout_sec = lift apt.now >>= λ t. pure (
        if ltb ctx_deadline (t + timeout_sec * 1000000000)
        then ctx_deadline
        else t + timeout_sec * 1000000000)

    -- `run` behind the payload.
    unfoldable pub converge : AptPackageSpec → Job apt ChangeReport
    converge spec = check_cancel_or_deadline ctx_deadline >>= λ _.
        probe_dpkg_lock lock_path >>= λ _.
        compute_resource_deadline spec.timeout_sec >>= λ deadline.
        carry_out spec.state spec deadline

    abbrev pub with_payload : Result Text AptPackageSpec → Job apt ChangeReport
    with_payload (err e) = throw (payload_error e)
    with_payload (ok spec) = converge spec

    -- `run`; `from_value` is serde.
    unfoldable pub run :
        {P J : Type 0}
        → (from_value : P → Result Text AptPackageSpec) → Resource P
        → Diff J
        → Job apt ChangeReport
    run from_value r diff =
        if is_no_change diff then pure unchanged else with_payload (from_value r.payload)
