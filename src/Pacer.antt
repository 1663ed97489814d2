-- ===== src/Pacer.antt =====
-- bosun-core/src/pacer.rs: the pause between two resources. A `Duration` is its nanoseconds.
pub mod Bounds
mod Examples
use bonsun.Base.{ℕ, ◌-◌, ◌*◌, ◌/◌, ◌^◌, Bool, ◌||◌, not, leb, ltb, ◌==◌, if◌then◌else◌}

pub record PacerConfig : Type 0 where
  pub target : ℕ
  pub min_interval : ℕ
  pub max_interval : ℕ

-- `PacerConfig::disabled`
unfoldable pub disabled : PacerConfig
disabled = record { target = 0; min_interval = 0; max_interval = 0 }

-- `PacerConfig::new`
pub new : (target_sec min_interval_ms max_interval_ms : ℕ) → PacerConfig
new target_sec min_interval_ms max_interval_ms = record {
  target = target_sec * 1_000_000_000;
  min_interval = min_interval_ms * 1_000_000;
  max_interval = max_interval_ms * 1_000_000;
}

-- `PacerConfig::is_enabled`
unfoldable pub is_enabled : PacerConfig → Bool
is_enabled c = not (c.target == 0)

abbrev pub u32_max : ℕ
u32_max = 2 ^ 32 - 1

-- `Ord::clamp` for bounds in order
unfoldable pub clamp : ℕ → ℕ → ℕ → ℕ
clamp lo hi x = if ltb x lo then lo else if ltb hi x then hi else x

-- `u32::try_from(count).unwrap_or(u32::MAX)`
abbrev pub as_u32 : ℕ → ℕ
as_u32 count = if leb count u32_max then count else u32_max

-- `PacerConfig::interval_for`. When `min > max` both bounds of the clamp are `min`.
unfoldable pub interval_for : PacerConfig → ℕ → ℕ
unfolding is_enabled clamp
interval_for c resource_count =
    if not (is_enabled c) || resource_count == 0
    then 0
    else (let raw = c.target / as_u32 resource_count in
        if ltb c.max_interval c.min_interval
        then clamp c.min_interval c.min_interval raw
        else clamp c.min_interval c.max_interval raw)
