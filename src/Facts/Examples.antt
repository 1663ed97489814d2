-- ===== src/Facts/Examples.antt =====
-- One fact whose tool fails the second time it is asked.
use bonsun.Base.{
  ℕ, ◌+◌, ◌*◌, ◌≡◌, refl, [], ◌∷◌, none, some, text_eq, codes, contains, leb, if◌then◌else◌,
}
use bonsun.Facts.{
  known, unknown, stale, value_of, at_start_and_after_apply, collected, Fact, State,
  collect_with_panic_guard, fact_by_name, snapshot_get, to_dirty, upgrade_or_replace,
  collect_at_start, mark_all, mark_dirty_after_apply, get,
}
use bonsun.Facts.Refresh.{get-snapshot, get_twice, get-mark_dirty_after_apply}

-- The world is a clock of milliseconds; the fact can be read before the fifth.
abbrev now : ℕ → ℕ × ℕ
now t = (t * 1000000, t + 1)

abbrev packages : Fact ℕ ℕ
packages = record {
  name = codes "installed_packages";
  refresh_policy = at_start_and_after_apply (codes "apt.package" ∷ []);
  collect = λ t. (collected (if leb 5 t then unknown (codes "dpkg-query failed") else known t), t);
}

abbrev empty : State ℕ ℕ
empty = record { cache = λ name. none; world = 3 }

abbrev started : State ℕ ℕ
started = collect_at_start now (packages ∷ []) empty

abbrev later : State ℕ ℕ
later = record started { world = 7 }

stale_run :
    (get now
      (packages ∷ [])
      (codes "installed_packages")
      (mark_dirty_after_apply now (packages ∷ []) (codes "apt.package") later)).0
    ≡ stale 3 4
unfolding collect_at_start collect_with_panic_guard mark_all to_dirty contains text_eq get
    fact_by_name upgrade_or_replace
stale_run = refl

get-snapshot_example :
    get now (packages ∷ []) (codes "hostname") empty
    ≡ (snapshot_get empty (codes "hostname"), empty)
get-snapshot_example = get-snapshot now (packages ∷ []) (codes "hostname") empty refl

get_twice_example :
    let (v, s') =
      get now
        (packages ∷ [])
        (codes "installed_packages")
        (mark_dirty_after_apply now (packages ∷ []) (codes "apt.package") later) in
    get now (packages ∷ []) (codes "installed_packages") s' ≡ (v, s')
get_twice_example =
    get_twice now (packages ∷ []) (codes "installed_packages")
      (mark_dirty_after_apply now (packages ∷ []) (codes "apt.package") later)

get-mark_dirty_after_apply_example :
    value_of
      (get now
        (packages ∷ [])
        (codes "installed_packages")
        (mark_dirty_after_apply now (packages ∷ []) (codes "apt.package") later)).0
    ≡ some 3
unfolding collect_at_start collect_with_panic_guard mark_all to_dirty contains text_eq fact_by_name
get-mark_dirty_after_apply_example =
    get-mark_dirty_after_apply now (packages ∷ []) (codes "apt.package")
      (codes "installed_packages") packages later refl refl
