-- ===== src/Pacer/Examples.antt =====
-- Tests and instances for the pacer.
use bonsun.Base.{◌≡◌, refl, true}
use bonsun.Pacer.{PacerConfig, new, is_enabled, interval_for}

-- 30 seconds, pauses from 60 to 1000 milliseconds
abbrev config : PacerConfig
config = record { target = 30_000_000_000; min_interval = 60_000_000; max_interval = 1_000_000_000 }

new-config : new 30 60 1000 ≡ config
unfolding new
new-config = refl

interval_for-hundred : interval_for config 100 ≡ 300_000_000
unfolding interval_for
interval_for-hundred = refl

config-is_enabled : is_enabled config ≡ true
unfolding is_enabled
config-is_enabled = refl
