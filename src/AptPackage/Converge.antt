-- ===== src/AptPackage/Converge.antt =====
-- What an apply of a package leads to (bosun-primitives/src/apt_package).
use bonsun.Base.{
  ℕ, ◌≡◌, refl, Bool, true, false, ◌⊎◌, sym, text_eq, text_eq_iff, if◌then◌else◌, Text, codes,
  length, ◌==◌, inl, inr, Bool-cases, arith,
}
use bonsun.Resource.{Resource}
use bonsun.Primitive.{Diff, is_no_change, ChangeReport}
use bonsun.AptPackage.{
  AptPackageState, present, absent, purged, AptPackageSpec, CommandResult, exited_with,
  InstallOutcome, success, dpkg_interrupted, candidate_missing, other_failure,
  analyze_install_result,
}
use bonsun.AptPackage.Recovery.{Apt, Job}
use bonsun.AptPackage.Apply.{
  config_files, other, status_of_word, needs_action_for_state, install_args, remove_args,
  query_args, status_of, write_log, created_unless, log_warnings, failed, concluded,
  recover_then_retry, after_install, run_install, query_dpkg_status, removed, run_remove, carry_out,
  converge, run,
}
use bonsun.Effects.{Result, ok, err, Ends, bind-Ends, match_result-Ends, Ends-ok, Keeps, anyhow}

-- dpkg's word for the status of a package that is gone: a removal may leave its configuration, a purge does not.
abbrev pub Gone : (purge : Bool) → Text → Type 0
Gone true word = word ≡ codes "not-installed"
Gone false word = (word ≡ codes "not-installed") ⊎ (word ≡ codes "config-files")

-- What the states ask of the word.
abbrev pub Settled : AptPackageState → Text → Type 0
Settled present word = word ≡ codes "installed"
Settled absent word = Gone false word
Settled purged word = Gone true word

-- `status` is dpkg's word for the status of a package. An install that ends well leaves the package installed,
-- a removal leaves it not installed or with its configuration alone, and a purge leaves it not installed.
-- dpkg-query prints the word, and fails only for a package that is not installed. The logs change no package.
pub record IsDpkg {W : Type 0} (apt : Apt W) (status : Text → W → Text) : Type 0 where
  pub installs :
      (spec : AptPackageSpec) (d : ℕ) (w : W)
      → Ends
          (λ r w'. exited_with 0 r.exit_code ≡ true → status spec.name w' ≡ codes "installed")
          (λ e w'. Unit)
          (apt.command (codes "apt-get") (install_args spec) d w)
  pub removes :
      (spec : AptPackageSpec) (purge : Bool) (d : ℕ) (w : W)
      → Ends
          (λ r w'. exited_with 0 r.exit_code ≡ true → Gone purge (status spec.name w'))
          (λ e w'. Unit)
          (apt.command (codes "apt-get") (remove_args spec purge) d w)
  pub prints :
      (name : Text) (d : ℕ) (w : W)
      → Ends
          (λ r w'. exited_with 0 r.exit_code ≡ true → apt.trim r.stdout ≡ status name w')
          (λ e w'. Unit)
          (apt.command (codes "dpkg-query") (query_args name) d w)
  pub fails :
      (name : Text) (d : ℕ) (w : W)
      → Ends
          (λ r w'. exited_with 0 r.exit_code ≡ false → status name w' ≡ codes "not-installed")
          (λ e w'. Unit)
          (apt.command (codes "dpkg-query") (query_args name) d w)
  pub looks : (name : Text) (w : W) → status name (apt.log_dir_exists w).1 ≡ status name w
  pub creates : (name : Text) (w : W) → status name (apt.create_log_dir w).1 ≡ status name w
  pub writes :
      (name file contents : Text) (w : W)
      → status name (apt.write_file file contents w).1 ≡ status name w

both :
    {S E A : Type 0} {P Q : A → S → Type 0} (x : Result E A × S)
    → Ends P (λ e s. Unit) x
    → Ends Q (λ e s. Unit) x
    → Ends (λ a s. P a s × Q a s) (λ e s. Unit) x
both (ok a, s) p q = record { holds = (p.holds, q.holds) }
both (err e, s) p q = record { holds = tt }

not_installed-Gone : (word : Text) (purge : Bool) → word ≡ codes "not-installed" → Gone purge word
not_installed-Gone word true h = h
not_installed-Gone word false h = inl h

kept_files :
    (word : Text) (purge : Bool)
    → word ≡ codes "config-files"
    → needs_action_for_state config_files purge ≡ false
    → Gone purge word
kept_files word true h calm = absurd cc
kept_files word false h calm = inr h

left_alone :
    (word : Text) (purge : Bool)
    → needs_action_for_state
        (if text_eq word (codes "config-files") then config_files else other word)
        purge
      ≡ false
    → Gone purge word
left_alone word purge calm = elim (Bool-cases (text_eq word (codes "config-files"))) [
  | inl files ↦ kept_files word purge ((text_eq_iff word _).0 files) (rw files at calm)
  | inr there ↦ absurd (ground (arith, there, calm))
]

-- A word for which nothing is removed is one of a package that is gone.
calm_word :
    (word : Text) (purge : Bool)
    → needs_action_for_state (status_of_word word) purge ≡ false
    → Gone purge word
calm_word word purge calm = elim (Bool-cases (text_eq word (codes "not-installed"))) [
  | inl none ↦ not_installed-Gone word purge ((text_eq_iff word _).0 none)
  | inr some ↦ left_alone word purge (rw some at calm)
]

keeps : {S E A : Type 0} {I : S → Type 0} (x : Result E A × S) → I x.1 → Keeps I x
keeps (ok a, s) h = record { holds = h }
keeps (err e, s) h = record { holds = h }

install_succeeded :
    (r : CommandResult) → analyze_install_result r ≡ success → exited_with 0 r.exit_code ≡ true
unfolding analyze_install_result
install_succeeded r h = elim (Bool-cases (exited_with 0 r.exit_code)) [
  | inl good ↦ good
  | inr bad ↦ absurd (ground (arith, bad, h))
]

module _ {W : Type 0} (apt : Apt W) (status : Text → W → Text) (dpkg : IsDpkg apt status)
    (spec : AptPackageSpec) where
  -- Where the operation succeeds, the status has the property.
  abbrev Leads : (P : Text → Type 0) → {E A : Type 0} → Result E A × W → Type 0
  Leads P x = Ends (λ a w'. P (status spec.name w')) (λ e w'. Unit) x

  created_unless-Keeps :
      (P : Text → Type 0) (there : Bool) (w : W)
      → P (status spec.name w)
      → Keeps (λ w'. P (status spec.name w')) (created_unless apt there w)
  created_unless-Keeps P true w h = record { holds = h }
  created_unless-Keeps P false w h = keeps _ (rw (dpkg.creates spec.name w) h)

  write_log-Keeps :
      (P : Text → Type 0) (step stderr : Text) (w : W)
      → P (status spec.name w)
      → Leads P (write_log apt step stderr w)
  unfolding write_log
  write_log-Keeps P step stderr w h =
      match_result-Ends _ _
        (bind-Ends _
          (bind-Ends _ (record { holds = rw (dpkg.looks spec.name w) h })
            (λ there w1 h1. created_unless-Keeps P there w1 h1))
          (λ _ w2 h2. keeps _ (rw (dpkg.writes spec.name _ stderr w2) h2)))
        (λ _ w1 h1. record { holds = h1 }) (λ _ w1 h1. record { holds = h1 })

  log_warnings-Keeps :
      (P : Text → Type 0) (step : Text) (r : CommandResult) (w : W)
      → P (status spec.name w)
      → Leads P (log_warnings apt step r w)
  log_warnings-Keeps P step r w h = elim (Bool-cases (length r.stderr == 0)) [
    | inl none ↦ rw none (record { holds = h })
    | inr some ↦ rw some (write_log-Keeps P step r.stderr w h)
  ]

  failed-Leads :
      (P : Text → Type 0) (step reason : Text) (r : CommandResult) (w : W)
      → Leads P (failed apt step reason r w)
  failed-Leads P step reason r w = bind-Ends _ (anyhow _) (λ _ w1 _. record { holds = tt })

  concluded-Leads :
      (P : Text → Type 0) (step reason message : Text) (r : CommandResult) (w : W)
      → (exited_with 0 r.exit_code ≡ true → P (status spec.name w))
      → Leads P (concluded apt step reason message r w)
  concluded-Leads P step reason message r w h = elim (Bool-cases (exited_with 0 r.exit_code)) [
    | inl good ↦
        rw good
          (bind-Ends _ (log_warnings-Keeps P step r w (h good)) (λ _ w1 h1. record { holds = h1 }))
    | inr bad ↦ rw bad (failed-Leads P step reason r w)
  ]

  recover_then_retry-Leads :
      (ctx : ℕ) (recovery : Job apt Unit) (step tool : Text) (d : ℕ) (first : CommandResult) (w : W)
      → Leads (Settled present) (recover_then_retry apt ctx recovery step tool spec d first w)
  unfolding recover_then_retry
  recover_then_retry-Leads ctx recovery step tool d first w = bind-Ends _ (anyhow _) (λ _ w1 _.
      bind-Ends _ (anyhow _) (λ _ w2 _. bind-Ends _ (anyhow _) (λ _ w3 _.
        bind-Ends _ (anyhow _) (λ _ w4 _.
          bind-Ends _ (dpkg.installs spec d w4)
            (λ r w5 h. concluded-Leads (Settled present) _ _ _ r w5 h)))))

  after_install-Leads :
      (ctx d : ℕ) (r : CommandResult) (o : InstallOutcome) (w : W)
      → analyze_install_result r ≡ o
      → (exited_with 0 r.exit_code ≡ true → Settled present (status spec.name w))
      → Leads (Settled present) (after_install apt ctx spec d r o w)
  unfolding after_install
  after_install-Leads ctx d r success w same h =
      bind-Ends _ (log_warnings-Keeps (Settled present) _ r w (h (install_succeeded r same)))
        (λ _ w1 h1. record { holds = h1 })
  after_install-Leads ctx d r dpkg_interrupted w same h = recover_then_retry-Leads ctx _ _ _ d r w
  after_install-Leads ctx d r candidate_missing w same h = recover_then_retry-Leads ctx _ _ _ d r w
  after_install-Leads ctx d r other_failure w same h = failed-Leads (Settled present) _ _ r w

  run_install-Leads : (ctx d : ℕ) (w : W) → Leads (Settled present) (run_install apt ctx spec d w)
  unfolding run_install
  run_install-Leads ctx d w =
      bind-Ends _ (dpkg.installs spec d w) (λ r w1 h. after_install-Leads ctx d r _ w1 refl h)

  removed-Leads :
      (d : ℕ) (purge needed : Bool) (w : W)
      → (needed ≡ false → Gone purge (status spec.name w))
      → Leads (Gone purge) (removed apt spec d purge needed w)
  removed-Leads d purge false w h = record { holds = h refl }
  removed-Leads d purge true w h =
      bind-Ends _ (dpkg.removes spec purge d w)
        (λ r w1 h1. concluded-Leads (Gone purge) _ _ _ r w1 h1)

  -- What the query finds to be nothing to remove is gone.
  calm_Gone :
      (r : CommandResult) (w : W) (purge : Bool)
      → (exited_with 0 r.exit_code ≡ true → apt.trim r.stdout ≡ status spec.name w)
      → (exited_with 0 r.exit_code ≡ false → status spec.name w ≡ codes "not-installed")
      → needs_action_for_state (status_of apt r) purge ≡ false
      → Gone purge (status spec.name w)
  calm_Gone r w purge printed failed calm = elim (Bool-cases (exited_with 0 r.exit_code)) [
    | inl good ↦ rw (sym (printed good)) (calm_word (apt.trim r.stdout) purge (rw good at calm))
    | inr bad ↦ not_installed-Gone (status spec.name w) purge (failed bad)
  ]

  query_dpkg_status-calm :
      (d : ℕ) (w : W)
      → Ends
          (λ s w'.
            (purge : Bool)
            → needs_action_for_state s purge ≡ false
            → Gone purge (status spec.name w'))
          (λ e w'. Unit)
          (query_dpkg_status apt spec.name d w)
  unfolding query_dpkg_status
  query_dpkg_status-calm d w =
      bind-Ends _ (both _ (dpkg.prints spec.name d w) (dpkg.fails spec.name d w))
        (λ r w1 (printed, failed). record {
          holds = λ purge calm. calm_Gone r w1 purge printed failed calm;
        })

  run_remove-Leads :
      (d : ℕ) (purge : Bool) (w : W) → Leads (Gone purge) (run_remove apt spec d purge w)
  unfolding run_remove
  run_remove-Leads d purge w =
      bind-Ends _ (query_dpkg_status-calm d w)
        (λ s w1 gone. removed-Leads d purge _ w1 (λ calm. gone purge calm))

  carry_out-Leads :
      (ctx : ℕ) (lock : Text) (state : AptPackageState) (d : ℕ) (w : W)
      → Leads (Settled state) (carry_out apt ctx lock state spec d w)
  carry_out-Leads ctx lock present d w = run_install-Leads ctx d w
  carry_out-Leads ctx lock absent d w = run_remove-Leads d false w
  carry_out-Leads ctx lock purged d w = run_remove-Leads d true w

  converge-Leads :
      (ctx : ℕ) (lock : Text) (w : W) → Leads (Settled spec.state) (converge apt ctx lock spec w)
  unfolding converge
  converge-Leads ctx lock w = bind-Ends _ (anyhow _) (λ _ w1 _.
      bind-Ends _ (anyhow _)
        (λ _ w2 _. bind-Ends _ (anyhow _) (λ d w3 _. carry_out-Leads ctx lock spec.state d w3)))

  -- If an install that ends well leaves the package installed, a removal leaves it not installed or with its
  -- configuration alone, a purge leaves it not installed, dpkg-query prints the status and fails only for a
  -- package that is not installed, and the logs change no package, then behind an apply of the package that
  -- succeeds with a difference to apply, dpkg's status of it is what its state asks: installed; not installed
  -- or its configuration alone; or not installed.
  pub apt_run-settles :
      {P J : Type 0} (ctx_deadline : ℕ) (lock_path : Text)
      (from_value : P → Result Text AptPackageSpec)
      → (r : Resource P) (diff : Diff J) (w w' : W) (report : ChangeReport)
      → is_no_change diff ≡ false
      → from_value r.payload ≡ ok spec
      → run apt ctx_deadline lock_path from_value r diff w ≡ (ok report, w')
      → Settled spec.state (status spec.name w')
  unfolding run
  apt_run-settles ctx lock from_value r diff w w' report some_diff read h =
      Ends-ok report w' (rw (some_diff, read) at h) (converge-Leads ctx lock w)
