-- ===== src/Defers/Format/Names.antt =====
-- The order and the distinctness of the names of journal files (bosun-core/src/defers/format.rs and
-- priority.rs).
use bonsun.Base.{ℕ, ◌<◌, ◌≡◌, refl, true, false, ◌++◌, arith, Text, text_le}
use mathlib.Core.List.{append_cancel_right, head-eq_of_cons-eq, tail-eq_of_cons-eq}
use bonsun.Defers.Format.{
  DeferPriority, restart, reload_or_restart, reload, command, daemon_reload, sortkey, DeferEntry,
  filename,
}

-- The order in which actions are executed, counted from the first.
abbrev pub rank : DeferPriority → ℕ
rank restart = 0
rank reload_or_restart = 1
rank reload = 2
rank command = 3
rank daemon_reload = 4

sortkey_order :
    (p q : DeferPriority) (s t : Text)
    → rank p < rank q
    → (text_le (sortkey p ++ s) (sortkey q ++ t) ≡ true)
      × (text_le (sortkey q ++ t) (sortkey p ++ s) ≡ false)
unfolding sortkey text_le
sortkey_order restart reload_or_restart s t h = (refl, refl)
sortkey_order restart reload s t h = (refl, refl)
sortkey_order restart command s t h = (refl, refl)
sortkey_order restart daemon_reload s t h = (refl, refl)
sortkey_order reload_or_restart reload s t h = (refl, refl)
sortkey_order reload_or_restart command s t h = (refl, refl)
sortkey_order reload_or_restart daemon_reload s t h = (refl, refl)
sortkey_order reload command s t h = (refl, refl)
sortkey_order reload daemon_reload s t h = (refl, refl)
sortkey_order command daemon_reload s t h = (refl, refl)
sortkey_order daemon_reload restart s t h = absurd (omega arith)
sortkey_order p q s t h = absurd (omega arith)

-- In the order of file names an entry of an earlier priority stands before one of a later priority,
-- whatever their identifiers.
pub filename_order :
    (e f : DeferEntry)
    → rank e.priority < rank f.priority
    → (text_le (filename e) (filename f) ≡ true) × (text_le (filename f) (filename e) ≡ false)
unfolding filename
filename_order e f h = sortkey_order e.priority f.priority _ _ h

sortkey_cancel :
    (p q : DeferPriority) (s t : Text) → sortkey p ++ s ≡ sortkey q ++ t → (p ≡ q) × (s ≡ t)
unfolding sortkey
sortkey_cancel restart restart s t h = (refl, tail-eq_of_cons-eq (tail-eq_of_cons-eq h))
sortkey_cancel reload_or_restart reload_or_restart s t h =
    (refl, tail-eq_of_cons-eq (tail-eq_of_cons-eq h))
sortkey_cancel reload reload s t h = (refl, tail-eq_of_cons-eq (tail-eq_of_cons-eq h))
sortkey_cancel command command s t h = (refl, tail-eq_of_cons-eq (tail-eq_of_cons-eq h))
sortkey_cancel daemon_reload daemon_reload s t h = (refl, tail-eq_of_cons-eq (tail-eq_of_cons-eq h))
sortkey_cancel p q s t h = absurd (omega (arith, head-eq_of_cons-eq h))

-- Two entries share a file name only if they have the same priority and the same identifier.
pub filename-injective :
    (e f : DeferEntry) → filename e ≡ filename f → (e.priority ≡ f.priority) × (e.id ≡ f.id)
unfolding filename
filename-injective e f h =
    let (same, tails) = sortkey_cancel e.priority f.priority _ _ h in
    (same, append_cancel_right e.id f.id _ (tail-eq_of_cons-eq tails))
