-- ===== src/Defers/Replay/Healthy.antt =====
-- A cycle of the replay in which everything succeeds (bosun-core/src/defers/replay.rs).
use bonsun.Base.{
  ℕ, ◌+◌, ◌^◌, ◌<◌, ◌≡◌, refl, sym, ◌∙◌, inl, inr, true, false, List, [], ◌∷◌, Option, none, some,
  Text, text_eq, text_eq_iff, any, length, arith, Bool-cases, Option-cases,
}
use bonsun.Defers.Format.{DeferEntry, HealthCheck, filename}
use bonsun.Defers.Files.{Directory, ok, lookup, unlink, quiet, syscall}
use bonsun.Defers.Journal.{Serde, saturating_succ, remove, fsync_dir, is_deferred}
use bonsun.Defers.Journal.Quiet.{entry_at, entries, list_sorted-quiet}
use bonsun.Defers.Journal.Listing.{any-entries}
use bonsun.Defers.Journal.Removal.{
  lookup-unlink-none, lookup_of_unlink, lookup-unlink_same, entry_at_of_fewer,
}
use bonsun.Defers.Replay.{
  Client, ReplayReport, empty_report, count_executed, after_health, check_health, after_dispatch,
  replay_entry, replay_all, replay_with_health_check,
}
use bonsun.Defers.Replay.Failure.{saturating_succ_lem}

unlink_missing : (n : Text) (d : Directory Text) → lookup n d ≡ none → unlink n d ≡ d
unfolding lookup unlink
unlink_missing n [] h = refl
unlink_missing n ((k, f) ∷ d) h = ground (arith, unlink_missing n d)

remove-quiet :
    (e : DeferEntry) (d : Directory Text) (ns : List ℕ)
    → remove e (quiet d ns) ≡ (ok tt, quiet (unlink (filename e) d) ns)
unfolding remove fsync_dir syscall
remove-quiet e d ns = elim (Option-cases (lookup (filename e) d)) [
  | inl missing ↦ rw (missing, unlink_missing (filename e) d missing)
  | inr (f, there) ↦ rw there
]

-- The directory without the files of the entries.
unlink_all : List DeferEntry → Directory Text → Directory Text
unlink_all [] d = d
unlink_all (e ∷ es) d = unlink_all es (unlink (filename e) d)

lookup-unlink_all-none :
    (n : Text) (es : List DeferEntry) (d : Directory Text)
    → lookup n d ≡ none
    → lookup n (unlink_all es d) ≡ none
unfolding unlink_all
lookup-unlink_all-none n [] d h = h
lookup-unlink_all-none n (e ∷ es) d h =
    lookup-unlink_all-none n es _ (lookup-unlink-none n (filename e) d h)

lookup_of_unlink_all :
    (n f : Text) (es : List DeferEntry) (d : Directory Text)
    → lookup n (unlink_all es d) ≡ some f
    → lookup n d ≡ some f
unfolding unlink_all
lookup_of_unlink_all n f [] d h = h
lookup_of_unlink_all n f (e ∷ es) d h =
    lookup_of_unlink n (filename e) d f (lookup_of_unlink_all n f es (unlink (filename e) d) h)

lookup-unlink_all :
    (n : Text) (es : List DeferEntry) (d : Directory Text)
    → any (λ x. text_eq (filename x) n) es ≡ true
    → lookup n (unlink_all es d) ≡ none
unfolding unlink_all any
lookup-unlink_all n [] d h = cc
lookup-unlink_all n (e ∷ es) d h = elim (Bool-cases (text_eq (filename e) n)) [
  | inl same ↦
      lookup-unlink_all-none n es _
        (lookup-unlink_same n (filename e) d ((text_eq_iff (filename e) n).0 same))
  | inr other ↦ lookup-unlink_all n es _ (ground (arith, other, h))
]

entry_at-unlink_all :
    (json : Serde) (n : Text) (d : Directory Text)
    → ((n : Text) (a : DeferEntry)
        → is_deferred n ≡ true
        → entry_at json n d ≡ some a
        → n ≡ filename a)
    → is_deferred n ≡ true
    → entry_at json n (unlink_all (entries json d) d) ≡ none
entry_at-unlink_all json n d named hn =
    elim (Option-cases (entry_at json n (unlink_all (entries json d) d))) [
      | inl gone ↦ gone
      | inr (a, left) ↦
          let before : entry_at json n d ≡ some a =
            entry_at_of_fewer json n d (unlink_all (entries json d) d) a
              (λ f. lookup_of_unlink_all n f (entries json d) d) left in
          let gone : lookup n (unlink_all (entries json d) d) ≡ none =
            lookup-unlink_all n (entries json d) d (
              any-entries json (λ x. text_eq (filename x) n) d n a hn before
                ((text_eq_iff (filename a) n).1 (sym (named n a hn before)))) in
          absurd (ground (arith, gone, left))
    ]

module _ (json : Serde) {W : Type 0} (client : Client W) where
  -- The token is never set, and every action and every health check succeeds.
  abbrev pub IsHealthy : Type 0
  IsHealthy =
      ((w : W) → (client.is_cancelled w).0 ≡ false)
      × ((e : DeferEntry) (w : W) → (client.dispatch e w).0 ≡ ok tt)
      × ((check : HealthCheck) (w : W) → (client.run check w).0 ≡ ok tt)

  check_health-healthy :
      (check : Option HealthCheck) (e : DeferEntry) (report : ReplayReport)
      → (d : Directory Text) (ns : List ℕ) (w : W) → IsHealthy
      → (w' : W) × (check_health json client check e report (quiet d ns) w
          ≡ (ok (count_executed report), (quiet (unlink (filename e) d) ns, w')))
  unfolding check_health after_health
  check_health-healthy none e report d ns w good = (w, rw (remove-quiet e d ns))
  check_health-healthy (some check) e report d ns w good =
      ((client.run check w).1, rw (good.2 check w, remove-quiet e d ns))

  replay_all-healthy :
      (es : List DeferEntry) (report : ReplayReport) (d : Directory Text) (ns : List ℕ) (w : W)
      → IsHealthy
      → report.executed + length es < 2 ^ 32
      → (w' : W) × (replay_all json client es report (quiet d ns) w ≡ (
        ok (record report { executed = report.executed + length es }),
        (quiet (unlink_all es d) ns, w'),
      ))
  unfolding replay_all replay_entry after_dispatch unlink_all
  replay_all-healthy [] report d ns w good fits = (w, ground arith)
  replay_all-healthy (e ∷ es) report d ns w good fits =
      let w0 = (client.is_cancelled w).1 in
      let counted : saturating_succ report.executed ≡ report.executed + 1 =
        saturating_succ_lem report.executed (omega arith) in
      let (w1, handled) =
        check_health-healthy e.health_check e report d ns (client.dispatch e w0).1 good in
      let (w', rest) =
        replay_all-healthy es (count_executed report) (unlink (filename e) d) ns w1 good
          (rw counted (omega arith)) in
      (w', rw (good.0 w, good.1 e w0, handled) (rest ∙ ground (arith, counted)))

  -- If no call fails, every action and health check succeeds, and each file bears the name of its
  -- entry, then a cycle returns, counts each listed entry as executed and leaves no entry in the
  -- journal; the listing has fewer than 2 ^ 32 entries.
  pub replay_with_health_check-healthy :
      (d : Directory Text) (ns : List ℕ) (w : W)
      → IsHealthy
      → ((n : Text) (a : DeferEntry)
          → is_deferred n ≡ true
          → entry_at json n d ≡ some a
          → n ≡ filename a)
      → length (entries json d) < 2 ^ 32
      → (d' : Directory Text) × (w' : W) × (replay_with_health_check json client (quiet d ns) w
          ≡ (ok (record empty_report { executed = length (entries json d) }), (quiet d' ns, w')))
        × ((n : Text) → is_deferred n ≡ true → entry_at json n d' ≡ none)
  unfolding replay_with_health_check
  replay_with_health_check-healthy d ns w good named fits =
      let (w', done) =
        replay_all-healthy (entries json d) empty_report d ns w good (omega (arith, fits)) in
      let all : 0 + length (entries json d) ≡ length (entries json d) = omega arith in
      (
        unlink_all (entries json d) d,
        w',
        rw (list_sorted-quiet json d ns) (rw all at done),
        λ n hn. entry_at-unlink_all json n d named hn,
      )
