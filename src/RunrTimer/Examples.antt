-- ===== src/RunrTimer/Examples.antt =====
-- A timer that is switched on.
use bonsun.Base.{◌≡◌, refl, Bool, true, false, [], ◌∷◌, some, Text, codes, text_eq}
use bonsun.Resource.{Resource}
use bonsun.Primitive.{Diff, add, changed_with}
use bonsun.RunrTimer.{
  enabled, RunrTimerSpec, TimerHandle, timer_of, decide_timer_action, perform, converge, run,
}
use bonsun.Effects.{Result, ok, ◌>>=◌, map_err}

abbrev one_timer : TimerHandle Bool
one_timer = record {
  base_url = codes "http://localhost";
  timer_statuses = λ on. (ok (record { name = codes "vacuum"; enabled_flag = some on } ∷ []), on);
  timer_enable = λ n b on. (ok tt, true);
  timer_disable = λ n b on. (ok tt, false);
  timer_stop = λ n on. (ok tt, on);
}

abbrev vacuum : RunrTimerSpec
vacuum = record { name = codes "vacuum"; state = enabled; start_now = false }

abbrev timer : Resource Text
timer = record {
  id = codes "runr.timer:vacuum";
  kind = codes "runr.timer";
  spec_version = 1;
  payload = [];
  reload_on = [];
  restart_on = [];
  depends_on = [];
}

abbrev any_diff : Diff Text
any_diff = add [] []

abbrev from_value : Text → Result Text RunrTimerSpec
from_value payload = ok vacuum

enabled_run :
    run (λ e. []) (some one_timer) from_value timer any_diff false
    ≡ (ok (changed_with (codes "enabled runr.timer:vacuum (start_now=false)")), true)
unfolding run converge perform decide_timer_action timer_of text_eq ◌>>=◌ map_err
enabled_run = refl
