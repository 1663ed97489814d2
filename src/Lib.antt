-- ===== src/Lib.antt =====
-- Verification of the core of the bosun client (bosun-client/crates): the part of the program that
-- orders the resources of a bundle, plans and applies them, and keeps deferred actions; the primitives for
-- services, users, groups, signals, packages and symlinks, and the facts that they change.
--
-- Parts, files and sources (paths below bosun-client/crates):
--   Resource.antt      bosun-core/src/resource.rs: kinds, identifiers, the registered resource.
--   Registry.antt      bosun-core/src/registry.rs: `add`, `get` and `topological_order`. Below it:
--     Links (the graph that is read), Kahn and Invariant (the loop), Order and Topology (the result),
--     Needs (what an order has to satisfy), WellFormed (the index), Examples.
--   Primitive.antt     bosun-core/src/primitive.rs and diff.rs: errors, diffs, reports, the context.
--   Orchestrator.antt  bosun-core/src/orchestrator.rs: `apply`, with Branches (how an iteration ends),
--     and Orchestrator/Planning.antt `plan_only`. Below it: Steps, Visits, Runs (an iteration and a
--     run as steps), Report and Applied (what the report says), Idle (what is called for a resource
--     that is held back), Paced (how long the pauses take), Examples.
--   Pacer.antt         bosun-core/src/pacer.rs: the pause between two resources; Bounds, Examples.
--   Defers/Format.antt  bosun-core/src/defers/format.rs and priority.rs: entries and file names (Names).
--   Defers/Files.antt   what the journal calls of std::fs and the clock.
--   Defers/Journal.antt bosun-core/src/defers/journal.rs. Below it: Quiet (the operations if no call
--     fails), Listing and Removal (which entries are seen and left), Repeat and Reduced (what enqueue
--     keeps), Covered (what it leaves), Atomic and Untouched (what stays whichever calls fail), Root
--     (`open`, with Safety), Examples.
--   Defers/Replay.antt  bosun-core/src/defers/replay.rs and action.rs. Below it: Failure (an entry that
--     fails), Down and Healthy (whole cycles), Examples.
--   UnitName.antt      bosun-core/src/unit_name.rs; Safety (what an accepted name is), Examples.
--   Inventory.antt     bosun-core/src/inventory.rs: values and the deep merge; Lookup (dotted paths),
--     Keyed (the merge of lists by a key), Merge, Append (what a merge holds), Examples.
--   HealthCheck.antt   bosun-core/src/health_check.rs: defaults and `cancellable_sleep`; Sleep (how long it
--     lasts), Examples. HealthCheck/Retry: bosun-primitives/src/health_check, the attempts of a check
--     and the runner, with Ends (how they end).
--   Effects.antt       operations that change a state and may fail, and how to reason about their ends.
--   Service.antt       bosun-primitives/src/systemd_service and runr_service, what both share. Below it:
--     Systemd and Runr (plan and apply; for runr Poll and Verify, bosun-runr-client/src/verify.rs), in each
--     Converge (what an apply reaches) and Examples; for both Frame, Reached and Deferral (what a part
--     keeps, reaches and files), and for systemd also Untouched, Deferral and Throttle (the journal, and
--     how often the daemon reloads).
--   Facts.antt         bosun-facts/src/collector.rs and bosun-core/src/facts.rs; Refresh, Examples.
--   Users.antt         bosun-primitives/src/users_user: the plan. Below it: Apply, Diffs, Satisfied and
--     Converge (what an apply of a user leads to), Group (bosun-primitives/src/users_group), Backend (the tools of
--     shadow-utils that both call), Examples.
--   ProcessSignal.antt bosun-primitives/src/process_signal: plan and apply. Below it: Argv (the commands),
--     Apply (what it does), Runner (`RealProcessSignalRunner`), Examples.
--   AptPackage.antt    bosun-primitives/src/apt_package: plan and results. Below it: Texts, Recovery
--     (`apt-get update`, `dpkg --configure -a`), Apply, Costs and Calls (how many commands run), Converge
--     (what an apply leads to), Examples.
--   Paths.antt         what std::fs does, and checks of paths. Below it: Components (std::path), Resolve and
--     Inside (bosun-core/src/path_safety.rs and what it promises), Symlink and Settled
--     (bosun-primitives/src/file_symlink and what its apply leads to), Delete
--     (bosun-primitives/src/file_delete), Examples.
--   RunrTimer.antt     bosun-primitives/src/runr_timer: plan and apply of a timer of runr; Converge, Examples.
--   Base.antt          texts, lists and counts that the parts share.
--
-- The parts meet as in the program: the orchestrator takes the order from the registry and the pause
-- from the pacer, and calls primitives through their contract. A function that changes state returns
-- the new state; an error is a value of a result type. A text is the list of its UTF-8 bytes. A
-- `HashMap` is a function from keys to optional values, or, where the program iterates over it, a
-- list of keys in an arbitrary order, which is a parameter `iter`.
--
-- Parameters: the primitives, the callback `mark_dirty`, the world W that they change (facts,
-- deadline and cancellation token included), the sleep between resources, and the `Display` of an
-- error, which is derived by a third-party crate. A panic of a primitive is a value of `Call`.
--
-- The directory of the journal is a list of names and contents beside the outcomes of the system
-- calls to come, each of which may fail, and the readings of the clock; an operation keeps what it did
-- before it failed. serde_json (as the record `Serde`), the client of the service manager and the
-- runner of health checks are parameters. `quiet` is a directory none of whose calls fails.
--
-- The primitives work on a world of any type, over records of what they call: the
-- handles of systemd and runr, the validator, the runner of health checks, the clock and the token (`Tools`,
-- `Poller`, `Probe`, `Timer`), the C library and processes (`Host`, `Children`), the runner of the commands of
-- apt (`Apt`), std::fs (`FileSystem`). A theorem on what an apply reaches has as hypotheses that these do what they are asked to do,
-- as a record (`IsManager`, `IsDatabase`, `IsDpkg`), which the examples fill.
-- `IsDpkg` has it that dpkg-query fails only for a package that is not installed, as the code takes it. serde is a function `from_value`
-- from the payload; the `Display` and the `Debug` of texts and errors are parameters. A name of a user is
-- checked byte by byte, which refuses a character outside ASCII at its first byte.
--
-- The calls of `open` on the root of the journal are given by their results, which need not agree: another
-- process may change the path between two of them.
--
-- A number of serde_json is its text, and the `Debug` of an optional value, which stands in paths of errors
-- only, is the parameter `debug`.
--
-- Fuel: the loop of `topological_order` has one unit for each resource, since each round moves one
-- resource into the order. The sleep has one unit for each period of 50 milliseconds and one more, since
-- every pause but the last is that long. The loops that wait for a start, a restart or a child have one unit for
-- each pause that fits into their time and one more. The attempts of a health check and of `apt-get update`
-- recurse on the attempts that are left, and need no fuel.
--
-- Bounds: a decrement of an in-degree wraps at zero as on a 64-bit usize; the pacer caps the number of
-- resources at 2^32 - 1 as the code does. Counters of the orchestrator's reports are
-- unbounded here, since the number of resources limits them. Those of the replay and the number of
-- attempts stop at 2^32 - 1 as in the code.
--
-- Not modelled: logging, serialisation, the bundle loader and the glue to Starlark, which build payloads from
-- the arguments of a third-party interpreter; the primitives for contents of files, templates, certificates,
-- timers of systemd, cgroups, keys and caches of apt, sysctl and PostgreSQL; the readers of single facts; HTTP and D-Bus in the
-- service clients; the process group and the threads of apt's RealCommandRunner and the random part of its
-- pauses, which is a floating-point number; the command line.
pub mod Base
pub mod Resource
pub mod Registry
pub mod Primitive
pub mod Pacer
pub mod Orchestrator
pub mod Defers
pub mod UnitName
pub mod Inventory
pub mod HealthCheck
pub mod Effects
pub mod Service
pub mod Facts
pub mod Users
pub mod ProcessSignal
pub mod AptPackage
pub mod Paths
pub mod RunrTimer
