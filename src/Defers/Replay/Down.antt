-- ===== src/Defers/Replay/Down.antt =====
-- A cycle of the replay whose client cannot be reached (bosun-core/src/defers/replay.rs).
use bonsun.Base.{ℕ, ◌+◌, ◌^◌, ◌<◌, ◌≡◌, ◌∙◌, false, List, [], ◌∷◌, Text, length, arith}
use bonsun.Defers.Format.{DeferEntry}
use bonsun.Defers.Files.{Directory, Fs, ok, err, quiet}
use bonsun.Defers.Journal.{Serde, saturating_succ}
use bonsun.Defers.Journal.Quiet.{entries, list_sorted-quiet}
use bonsun.Defers.Replay.{
  client_unavailable, Client, ReplayReport, empty_report, count_skipped, after_dispatch,
  replay_entry, replay_all, replay_with_health_check,
}
use bonsun.Defers.Replay.Failure.{saturating_succ_lem}

module _ (json : Serde) {W : Type 0} (client : Client W) where
  -- The token is never set, and the client can never be reached.
  abbrev pub IsDown : Type 0
  IsDown =
      ((w : W) → (client.is_cancelled w).0 ≡ false)
      × ((e : DeferEntry) (w : W) → (client.dispatch e w).0 ≡ err client_unavailable)

  replay_all-down :
      (es : List DeferEntry) (report : ReplayReport) (fs : Fs Text) (w : W)
      → IsDown
      → report.skipped_unavailable + length es < 2 ^ 32
      → (w' : W) × (replay_all json client es report fs w ≡ (
        ok (record report { skipped_unavailable = report.skipped_unavailable + length es }),
        (fs, w'),
      ))
  unfolding replay_all replay_entry after_dispatch
  replay_all-down [] report fs w down fits = (w, ground arith)
  replay_all-down (e ∷ es) report fs w down fits =
      let w0 = (client.is_cancelled w).1 in
      let counted : saturating_succ report.skipped_unavailable ≡ report.skipped_unavailable + 1 =
        saturating_succ_lem report.skipped_unavailable (omega arith) in
      let (w', rest) =
        replay_all-down es (count_skipped report) fs (client.dispatch e w0).1 down
          (rw counted (omega arith)) in
      (w', rw (down.0 w, down.1 e w0) (rest ∙ ground (arith, counted)))

  -- If no call fails, the token is never set and the client can never be reached, a cycle leaves the journal
  -- as it is, and counts each entry listed as skipped; the listing has fewer than 2 ^ 32 entries.
  pub replay_with_health_check-down :
      (d : Directory Text) (ns : List ℕ) (w : W)
      → IsDown
      → length (entries json d) < 2 ^ 32
      → (w' : W) × (replay_with_health_check json client (quiet d ns) w ≡ (
        ok (record empty_report { skipped_unavailable = length (entries json d) }),
        (quiet d ns, w'),
      ))
  unfolding replay_with_health_check
  replay_with_health_check-down d ns w down fits =
      let (w', done) =
        replay_all-down (entries json d) empty_report (quiet d ns) w down (omega (arith, fits)) in
      let all : 0 + length (entries json d) ≡ length (entries json d) = omega arith in
      (w', rw (list_sorted-quiet json d ns) (rw all at done))
