-- ===== src/Defers/Replay/Examples.antt =====
-- Cycles over a journal with one entry.
use bonsun.Base.{
  ℕ, ◌+◌, ◌^◌, ◌<◌, ◌≡◌, refl, true, false, [], ◌∷◌, none, some, Text, length, arith, text_eq,
  insert_text, sort_texts,
}
use bonsun.Defers.Format.{
  DeferEntry, filename, manual_clear_filename, sortkey, make_id, filename_slug, default_priority,
}
use bonsun.Defers.Files.{Directory, Fs, ok, err, lookup, quiet}
use bonsun.Defers.Journal.{is_deferred}
use bonsun.Defers.Journal.Quiet.{entry_at, entries, entries_of, line}
use bonsun.Defers.Journal.Examples.{by_id, reload_entry, one_reload, only_reload}
use bonsun.Defers.Replay.{
  Client, client_unavailable, empty_report, count_failed, count_promoted, after_failure,
  replay_with_health_check,
}
use bonsun.Defers.Replay.Failure.{after_failure-promoted}
use bonsun.Defers.Replay.Down.{replay_with_health_check-down}
use bonsun.Defers.Replay.Healthy.{replay_with_health_check-healthy}

-- The entry before its last attempt.
abbrev worn : DeferEntry
worn = record reload_entry { attempt_count = 2 }

after_failure-promoted_example :
    (fs : Fs Text) × (after_failure by_id worn count_failed empty_report (quiet one_reload [])
      ≡ (ok (count_promoted empty_report), fs))
    × (lookup (filename worn) fs.files ≡ none)
    × (lookup (manual_clear_filename worn) fs.files
        ≡ some (line by_id (record worn { attempt_count = 2 + 1 })))
after_failure-promoted_example =
    after_failure-promoted by_id worn count_failed empty_report one_reload [] (omega arith)
      (omega arith)

-- A client that is down, and one with which all goes well; the world counts the actions.
abbrev down : Client ℕ
down = record {
  dispatch = λ e n. (err client_unavailable, n + 1);
  run = λ check n. (ok tt, n);
  is_cancelled = λ n. (false, n);
}

abbrev healthy : Client ℕ
healthy = record down { dispatch = λ e n. (ok tt, n + 1) }

one_entry : entries by_id one_reload ≡ reload_entry ∷ []
unfolding is_deferred entries_of lookup insert_text sort_texts filename sortkey make_id
    filename_slug default_priority text_eq
one_entry = refl

one_fits : length (entries by_id one_reload) < 2 ^ 32
one_fits = rw one_entry (omega arith)

replay_with_health_check-down_example :
    (w' : ℕ) × (replay_with_health_check by_id down (quiet one_reload []) 0 ≡ (
      ok (record empty_report { skipped_unavailable = length (entries by_id one_reload) }),
      (quiet one_reload [], w'),
    ))
replay_with_health_check-down_example =
    replay_with_health_check-down by_id down one_reload [] 0 (λ w. refl, λ e w. refl) one_fits

replay_with_health_check-healthy_example :
    (d' : Directory Text) × (w' : ℕ) × (replay_with_health_check by_id healthy
        (quiet one_reload [])
        0
      ≡ (
        ok (record empty_report { executed = length (entries by_id one_reload) }),
        (quiet d' [], w'),
      ))
    × ((n : Text) → is_deferred n ≡ true → entry_at by_id n d' ≡ none)
replay_with_health_check-healthy_example =
    replay_with_health_check-healthy by_id healthy one_reload [] 0
      (λ w. refl, λ e w. refl, λ check w. refl)
      (λ n a hn ha. let (here, it) = only_reload n a ha in rw (it, here)) one_fits
