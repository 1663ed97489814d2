-- ===== src/Facts.antt =====
-- bosun-facts/src/collector.rs and bosun-core/src/facts.rs: the facts of a node, their cache and when they are
-- collected again.
mod Refresh
mod Examples
use bonsun.Base.{
  ℕ, ◌+◌, ◌-◌, ◌/◌, ◌%◌, ◌^◌, Bool, true, false, List, [], ◌∷◌, ◌++◌, Option, none, some, Text,
  text_eq, codes, contains, if◌then◌else◌,
}
use bonsun.Primitive.{Payload, static_str, owned_string, non_string}

-- `J` is the type of JSON values.
pub data FactValue (J : Type 0) : Type 0 where
  known : J → FactValue J
  unknown : (reason : Text) → FactValue J
  stale : (value : J) (age_ms : ℕ) → FactValue J

-- `FactValue::value`
abbrev pub value_of : {J : Type 0} → FactValue J → Option J
value_of (known v) = some v
value_of (stale v _) = some v
value_of (unknown _) = none

pub data RefreshPolicy : Type 0 where
  at_start : RefreshPolicy
  after_apply at_start_and_after_apply : (triggers : List Text) → RefreshPolicy

-- How `Fact::collect` ends.
pub data Collected (J : Type 0) : Type 0 where
  collected : FactValue J → Collected J
  panicked : Payload → Collected J

-- `trait Fact`, less the category, which the collector does not read.
pub record Fact (J W : Type 0) : Type 0 where
  pub name : Text
  pub refresh_policy : RefreshPolicy
  pub collect : W → Collected J × W

pub record CachedFact (J : Type 0) : Type 0 where
  pub value : FactValue J
  pub collected_at : ℕ
  pub dirty : Bool

-- The cache, and the world that the facts read. An `Instant` is a number of nanoseconds.
pub record State (J W : Type 0) : Type 0 where
  pub cache : Text → Option (CachedFact J)
  pub world : W

-- `panic_message`
abbrev pub panic_message : Payload → Text
panic_message (static_str s) = s
panic_message (owned_string s) = s
panic_message non_string = codes "<non-string panic payload>"

abbrev unpanicked : {J W : Type 0} → Collected J × W → FactValue J × W
unpanicked (collected v, w) = (v, w)
unpanicked (panicked p, w) = (unknown (codes "panic: " ++ panic_message p), w)

-- `collect_with_panic_guard`
unfoldable pub collect_with_panic_guard : {J W : Type 0} → Fact J W → W → FactValue J × W
collect_with_panic_guard fact w = unpanicked (fact.collect w)

-- `matches!` of `collect_at_start`
abbrev pub collects_at_start : RefreshPolicy → Bool
collects_at_start at_start = true
collects_at_start (after_apply _) = false
collects_at_start (at_start_and_after_apply _) = true

-- The test of `mark_dirty_after_apply`
abbrev pub is_triggered_by : Text → RefreshPolicy → Bool
is_triggered_by kind at_start = false
is_triggered_by kind (after_apply triggers) = contains triggers kind
is_triggered_by kind (at_start_and_after_apply triggers) = contains triggers kind

-- `Duration::as_millis` of `elapsed`, as a u64
abbrev pub age_of : (since : ℕ) → ℕ → ℕ
age_of since t = ((t - since) / 1000000) % 2 ^ 64

module _ {J : Type 0} where
  abbrev pub unknown_fact : Text → FactValue J
  unknown_fact name = unknown (codes "unknown fact '" ++ name ++ codes "'")

  abbrev pub value_or_unknown : Text → Option (CachedFact J) → FactValue J
  value_or_unknown name none = unknown_fact name
  value_or_unknown name (some c) = c.value

  -- What `mark_dirty_after_apply` stores for a fact that was never collected.
  abbrev pub pending : FactValue J
  pending = unknown (codes "pending after-apply refresh")

  abbrev pub is_stale : FactValue J → Bool
  is_stale (stale _ _) = true
  is_stale _ = false

module _ {J W : Type 0} where
  -- `HashMap::insert`
  abbrev pub insert : Text → CachedFact J → State J W → State J W
  insert name entry s = record s { cache = λ n. if text_eq name n then some entry else s.cache n }

  -- `FactsCollector::fact_by_name`
  unfoldable pub fact_by_name : Text → List (Fact J W) → Option (Fact J W)
  fact_by_name name [] = none
  fact_by_name name (f ∷ fs) = if text_eq f.name name then some f else fact_by_name name fs

  -- `FactsCollector::snapshot` and the `get` of a `FactsSnapshot`
  abbrev pub snapshot_get : State J W → Text → FactValue J
  snapshot_get s name = value_or_unknown name (s.cache name)

  -- `to_dirty`
  unfoldable pub to_dirty : Text → List (Fact J W) → List Text
  to_dirty kind [] = []
  to_dirty kind (f ∷ fs) =
      if is_triggered_by kind f.refresh_policy then f.name ∷ to_dirty kind fs else to_dirty kind fs

  -- `Instant::now`
  module _ (now : W → ℕ × W) where
    abbrev aged : J → (since : ℕ) → W → FactValue J × W
    aged v since w = let (t, w') = now w in (stale v (age_of since t), w')

    -- `upgrade_or_replace`
    unfoldable pub upgrade_or_replace :
        (prev fresh : FactValue J) → (prev_collected_at : ℕ) → W → FactValue J × W
    upgrade_or_replace prev (known v) since w = (known v, w)
    upgrade_or_replace (known v) (unknown reason) since w = aged v since w
    upgrade_or_replace (stale v _) (unknown reason) since w = aged v since w
    upgrade_or_replace (unknown _) (unknown reason) since w = (unknown reason, w)
    upgrade_or_replace prev (stale v age) since w = (stale v age, w)

    abbrev at_entry : Text → FactValue J → State J W → State J W
    at_entry name v s =
        let (t, w) = now s.world in
        insert name (record { value = v; collected_at = t; dirty = false }) (record s { world = w })

    abbrev collect_into : Fact J W → State J W → FactValue J × W → State J W
    collect_into f s (v, w) = at_entry f.name v (record s { world = w })

    -- `FactsCollector::collect_at_start`
    unfoldable pub collect_at_start : List (Fact J W) → State J W → State J W
    collect_at_start [] s = s
    collect_at_start (f ∷ fs) s = collect_at_start fs (
        if collects_at_start f.refresh_policy
        then collect_into f s (collect_with_panic_guard f s.world)
        else s)

    abbrev pub mark_entry : Text → Option (CachedFact J) → State J W → State J W
    mark_entry name (some entry) s = insert name (record entry { dirty = true }) s
    mark_entry name none s =
        let (t, w) = now s.world in
        insert name (record { value = pending; collected_at = t; dirty = true })
          (record s { world = w })

    -- The loop over `to_dirty`.
    unfoldable pub mark_all : List Text → State J W → State J W
    mark_all [] s = s
    mark_all (name ∷ names) s = mark_all names (mark_entry name (s.cache name) s)

    -- `FactsCollector::mark_dirty_after_apply`
    abbrev pub mark_dirty_after_apply : List (Fact J W) → Text → State J W → State J W
    mark_dirty_after_apply facts kind s = mark_all (to_dirty kind facts) s

    -- The end of step 3: a stale value keeps the time from which it is.
    abbrev pub store : Text → CachedFact J → State J W → FactValue J × W → FactValue J × State J W
    store name entry s (v, w) =
        if is_stale v
        then (
          v,
          insert name (record { value = v; collected_at = entry.collected_at; dirty = false })
              (record s { world = w }),
        )
        else (v, at_entry name v (record s { world = w }))

    -- Steps 2 and 3. The entry is still there in step 3, since the collection does not touch the cache.
    abbrev pub refresh :
        Text → CachedFact J → State J W → Option (Fact J W) → FactValue J × State J W
    refresh name entry s none =
        (unknown (codes "fact '" ++ name ++ codes "' has cache entry but no collector"), s)
    refresh name entry s (some f) =
        let (fresh, w) = collect_with_panic_guard f s.world in
        store name entry s (upgrade_or_replace entry.value fresh entry.collected_at w)

    abbrev pub get_entry :
        List (Fact J W) → Text → Option (CachedFact J) → State J W → FactValue J × State J W
    get_entry facts name none s = (unknown_fact name, s)
    get_entry facts name (some entry) s =
        if entry.dirty then refresh name entry s (fact_by_name name facts) else (entry.value, s)

    -- `FactsView::get`
    unfoldable pub get : List (Fact J W) → Text → State J W → FactValue J × State J W
    get facts name s = get_entry facts name (s.cache name) s
