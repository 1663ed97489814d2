-- ===== src/Defers/Format.antt =====
-- bosun-core/src/defers/format.rs and priority.rs: a deferred action and the name of its file.
pub mod Names
pub mod Examples
use bonsun.Base.{ℕ, Bool, true, List, [], ◌∷◌, ◌++◌, Option, Text, codes}

pub data DeferPriority : Type 0 where
  restart reload_or_restart reload command daemon_reload : DeferPriority

-- `DeferPriority::sortkey`
unfoldable pub sortkey : DeferPriority → Text
sortkey restart = codes "0r"
sortkey reload_or_restart = codes "1r"
sortkey reload = codes "2r"
sortkey command = codes "3c"
sortkey daemon_reload = codes "4d"

pub data DeferAction : Type 0 where
  start stop restart reload reload_or_restart : DeferAction
  command : (argv : List Text) → DeferAction
  daemon_reload : DeferAction

-- `DeferAction::filename_slug`
unfoldable pub filename_slug : DeferAction → Text
filename_slug DeferAction.start = codes "start"
filename_slug DeferAction.stop = codes "stop"
filename_slug DeferAction.restart = codes "restart"
filename_slug DeferAction.reload = codes "reload"
filename_slug DeferAction.reload_or_restart = codes "reload_or_restart"
filename_slug (DeferAction.command _) = codes "command.run"
filename_slug DeferAction.daemon_reload = codes "daemon_reload"

-- `DeferAction::default_priority`
unfoldable pub default_priority : DeferAction → DeferPriority
default_priority DeferAction.start = DeferPriority.restart
default_priority DeferAction.stop = DeferPriority.restart
default_priority DeferAction.restart = DeferPriority.restart
default_priority DeferAction.reload_or_restart = DeferPriority.reload_or_restart
default_priority DeferAction.reload = DeferPriority.reload
default_priority (DeferAction.command _) = DeferPriority.command
default_priority DeferAction.daemon_reload = DeferPriority.daemon_reload

pub data HealthCheck : Type 0 where
  cmd : (argv : List Text) (timeout_sec retry_count retry_interval_sec : Option ℕ) → HealthCheck
  url :
      (address : Text) (expected_status timeout_sec retry_count retry_interval_sec : Option ℕ)
      → HealthCheck

-- `enqueued_at` is a time stamp that no code reads.
pub record DeferEntry : Type 0 where
  pub spec_version : ℕ
  pub id : Text
  pub action : DeferAction
  pub init_system : Text
  pub target : Text
  pub validate_cmd : Option (List Text)
  pub health_check : Option HealthCheck
  pub priority : DeferPriority
  pub enqueued_at : ℕ
  pub enqueued_by : List Text
  pub attempt_count : ℕ
  pub max_attempts : ℕ

-- `DeferEntry::filename`
unfoldable pub filename : DeferEntry → Text
filename e = sortkey e.priority ++ (b'-' ∷ e.id ++ codes ".deferred")

-- `DeferEntry::manual_clear_filename`
unfoldable pub manual_clear_filename : DeferEntry → Text
manual_clear_filename e = sortkey e.priority ++ (b'-' ∷ e.id ++ codes ".manual_clear")

-- `make_id`
unfoldable pub make_id : Text → DeferAction → Text → Text
make_id init_system (DeferAction.command _) target = codes "command.run:" ++ target
make_id [] DeferAction.daemon_reload target = codes "daemon_reload"
make_id (c ∷ init_system) DeferAction.daemon_reload target =
    (c ∷ init_system) ++ codes ".daemon_reload"
make_id init_system other target = init_system ++ (b'.' ∷ filename_slug other ++ (b':' ∷ target))
