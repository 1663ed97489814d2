-- ===== src/Orchestrator/Planning/Examples.antt =====
-- Tests and instances for `plan_only`.
use bonsun.Base.{ℕ, ◌≡◌, refl, true, [], ◌∷◌, none, Text, codes, text_eq}
use bonsun.Registry.{Registry, empty_registry, add, get}
use bonsun.Orchestrator.{Backend}
use bonsun.Orchestrator.Planning.{has_errors, plan_error, plan_with, plan_found, plan_all, plan_in}

abbrev a : Text
a = codes "a"

abbrev reg : Registry ℕ
reg =
    (add empty_registry (record {
      id = a;
      kind = codes "file.content";
      spec_version = 1;
      payload = 0;
      reload_on = [];
      restart_on = [];
      depends_on = [];
    })).1

abbrev backend : Backend ℕ ℕ ℕ
backend = record {
  primitives = λ k. none;
  mark_dirty = λ k w. w;
  sleep = λ t w. (true, w);
  display = λ e. codes "error";
}

plan_in-unregistered : has_errors (plan_in backend reg (a ∷ []) 0) ≡ true
unfolding has_errors plan_in plan_all plan_found plan_with plan_error get add text_eq
plan_in-unregistered = refl
