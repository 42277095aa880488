-- ===== src/Lib.antt =====
-- AkuSupervisor, a supervisor of the services of a development machine: it starts, stops, restarts and
-- watches the process trees of registered services on behalf of users, agents and its own recovery.
--
-- The program's core is a registry of services. A request names a service, an actor and a reason. The
-- registry looks the entry up, asks the entry's control policy whether the actor may act, writes down the
-- desired state, and has the entry's runtime start or stop a process tree through the platform's ports.
-- A periodic refresh observes exits and health and plans restarts. Above it, a start is planned in the
-- order of the dependencies; beside it, the output of the processes is cut into lines, kept in a ring and
-- fanned out to subscribers. The services come from a configuration that is validated first; a store of
-- cooperative operations runs the reload of the supervisor's browser extension, one at a time.
--
-- Which file models which part:
-- - Base: tests, lists, results, the monad of stateful and fallible code, and `BTreeMap`.
-- - Domain: src/domain. Domain.Lifecycle is lifecycle.rs (`LifecycleState`, `transition_to`);
--   Domain.Actor, Domain.Reason and Domain.Control are control.rs (`Actor`, `Reason::new`,
--   `ControlPolicy::authorize`, `apply_user_action`). Domain.Authority and Domain.Reasons prove.
-- - Runtime: src/application/service_runtime.rs. The mutex's content is `RuntimeState`, and each method is
--   a function on it and on the world of its callbacks, which are arguments. Runtime.Consistency,
--   Runtime.Contract, Runtime.Invariant and Runtime.Histories specify and prove.
-- - Health: src/application/health.rs. Ports: src/application/platform_ports.rs; the adapters behind the
--   traits, the clocks and `sleep` are the record `Backend` of functions on the machine's state.
-- - Registry: src/application/service_registry.rs. Types, Supervision (`SupervisionState`), Entry
--   (`ServiceEntry` and its locks), Observe (health), Launch (the callbacks given to the runtime),
--   Operations (`start`, `stop_with_report`, `restart_with_report`), Refresh (`reconcile_process_exit`,
--   `refresh_services`' body), Topology (`reconcile_registrations`, building) and Dispatch (look-up,
--   snapshots, visits of all services). Registry.Laws, Registry.Supervision.Plans,
--   Registry.Topology.Retained and Registry.Reading prove.
-- - Control: src/application/control_api.rs, the outcomes and errors of the control API; Registry.Api is
--   the registry's implementation of `SupervisorControl`.
-- - Planning: src/application/dependency_control.rs, StartOrder (`stable_start_order`), Mutation
--   (`DependencyAwareControl`) and Shutdown (`stable_shutdown_order`). Planning.Sound, Planning.Fuel,
--   Planning.Acyclic, Planning.Order, Planning.Target, Planning.Untouched and the modules under
--   Planning.Shutdown prove.
-- - LiveLogs: src/adapters/service_logs.rs, the in-memory part: Events, Ring (`push_ring`), Lines
--   (`take_complete_lines`), Subscribers (`publish_event`), Hub (`publish`, `close_stream`, `subscribe`).
--   LiveLogs.Cuts and the modules under LiveLogs.Hub prove.
-- - Cooperative: src/application/cooperative_operations.rs with the types of cooperative_actions.rs.
--   Types, Begin (`begin`, `get`, `active`, `OperationState::insert`) and Worker (`execute`,
--   `update_progress`) are the code; Flights is the interleaving of its critical sections as a step
--   relation; Retention, Admission, Kept, Interleaving and Outlasting prove.
-- - CommandLine: src/platform/windows/process_tree.rs, Quoting (`append_windows_argument`,
--   `build_command_line`). Splitting states the documented rules by which Windows programs read a command
--   line and its program's name, Escape, Encoded, ProgramName and RoundTrip prove.
-- - Config: src/adapters/config.rs. Types (the configuration), Texts (`valid_service_id`,
--   `valid_json_pointer`), Checks and Places (the checks of one service and of the settings), Dependencies
--   (`validate_service_dependencies`, `dependency_cycle`), Validation
--   (`validation_issues_with_filesystem`), Registrations (`service_registrations`). Search, Ranks, Acyclic,
--   StartPlans, PortLists, Ports, Pointers, Limits, Mirrors and Registered prove.
-- - Token: src/adapters/runtime_token.rs, `load_or_create` and `bearer_matches`, with the file operations as
--   the record `Files`. Token.Bits, Token.Equal and Token.Stored prove.
-- - Tests: runs on concrete inputs.
--
-- State and errors: an operation takes the entry and the machine and returns both with a result; what was
-- changed before an error stays changed, as in the code. A poisoned lock is a flag of the state. An
-- operation on an entry runs alone, since the code holds the entry's `mutation` lock throughout; requests
-- on an entry are therefore a sequence. The clocks are read where the code reads them.
--
-- Bounds and fuel: `u32`, `u64` and `usize` counters that saturate do so in the model. The rounds of the
-- two waits take fuel, since the clock is the machine's; a wait that uses it up returns an error of the
-- model's own, and the theorems on the registry hold for every fuel. The visit of dependencies has fuel
-- for one call more than there are services, which Planning.Order shows to be enough. The cutting of lines
-- has fuel for each byte, since each round takes one at least. The search for a dependency cycle has fuel
-- for one call more than there are services, which Config.StartPlans shows to be enough. The loop that
-- evicts old operations would never end if its queue were empty, and then gives no result; Cooperative
-- shows that this does not occur. The loop of the shutdown order has fuel for one round more than there
-- are services, which Planning.Shutdown.Loop shows to be enough.
--
-- Not modelled: the printing of messages; the files, sockets and threads of the adapters; the parsing of
-- configuration (that of serde) and its fingerprint; `validate_launch_readiness`; the operating system
-- behind the ports, of which process_tree.rs is modelled only in the quoting of arguments; and the
-- reading of log files. JSON values, the derived equality of registrations, the parsers of
-- addresses and of paths, and the control that a cooperative operation calls are parameters.
pub mod Base
pub mod Domain
pub mod Runtime
pub mod Health
pub mod Ports
pub mod Registry
pub mod Control
pub mod Cooperative
pub mod CommandLine
pub mod Config
pub mod Token
pub mod Planning
pub mod LiveLogs
pub mod Tests
