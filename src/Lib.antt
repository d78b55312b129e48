-- ===== src/Lib.antt =====
-- Verification library of Cosmo NPS, the control panel around the NPS tunnel server.
--
-- The program: `cmd/tunnel-control` is an HTTP server that keeps users, nodes and tunnels in a store
-- (`internal/core`), signs users in with sessions, takes traffic reports from the nodes, and pushes the
-- store's content to the engines. The handlers reach the data only through the store's methods, each of
-- which holds the store's mutex throughout, so a method is modelled as one step from a store and the
-- outside (clock, random bytes, SHA-256, outcome of the write) to a result and the next store. The memory
-- and the file are two fields: a failed write leaves them different, as in the code.
--
-- The files and the code that they model:
--   Base, Text, Dict: shared tests, lists, integers and results; Go strings as lists of bytes with the
--     functions of `strings` and `strconv` that the code calls; maps as association lists.
--   Core/Port, Core/Domain: ParsePortRanges, FormatPortRanges, NormalizeDomain and their relatives of
--     internal/core/types.go, portInRanges and domainInPools of internal/core/store.go.
--   Core/Model: the structs of internal/core/types.go and RuntimeConfig of internal/core/adapters.go.
--   Core/Env: what an operation takes from outside. Core/Secret: hashPassword and verifyPassword.
--   Core/Clients, Core/Frp: RenderNPCCommand, ExportNPSClients, RenderFRPC and ExportFRPUsers of
--     internal/core/adapters.go.
--   Store/Base: Store and saveLocked. Store/Rules: validateTunnelLocked. Store/Tunnels, Store/Nodes,
--     Store/Users and Store/Users/Expiry: the methods of Store in internal/core/store.go.
--   Store/Load: NewStore with load and the two migrations.
--   Store/Invariant: the invariant of the store, its preservation by each method, and runs of calls.
--   Control/Sessions, Control/Tunnels, Control/Traffic, Control/Usage: the session table, authMiddleware,
--     login, logout, changePassword, the handlers of /api/tunnels, reportTraffic, and the filters and
--     resource counts of cmd/tunnel-control/main.go. Control/Log: cmd/tunnel-control/log_buffer.go.
--   Control/Users, Control/Nodes, Control/Bootstrap: the handlers of /api/users and /api/nodes, agentBundle
--     and clientBootstrap. Control/Clients, Control/Probe, Control/Availability: the client states and the
--     availability of tunnels. Control/Push, Control/Pages: pushRemoteNodes, listLogs, clearLogs,
--     diagnostics, userConfig and enforceUserExpiry; all of cmd/tunnel-control/main.go.
--     Control/Guarded: what the handlers refuse.
--   Engine: the Manager of internal/engine/manager.go, with its steps and its specification.
--   Integrated: SyncNPSState, SyncFRPState, CollectNPSTraffic and the client statuses of
--     internal/integrated/engines.go, over the NPS library and the frp service as parameters.
--   Agent: syncOnce, applyBundle, the push handler and the settings of cmd/tunnel-agent/main.go, and the
--     agent together with the control server.
--   Client: syncAndStart of cmd/tunnel-client/main.go. Client/Launcher: launcherState of
--     cmd/tunnel-client/launcher.go. Client/Once: which clients are
--     started. Client/Launcher/Alone: the runs in the window.
--   Tests: witnesses on concrete inputs.
-- A definition has the name of its function in snake case; a long function is cut into parts that stand
-- in one module in the order of the code.
--
-- Choices. An int is an unbounded integer, except in the traffic counters, whose int64 results wrap
-- around. Times are nanoseconds since Go's zero time. Texts are ASCII for letter case and blanks. Maps are
-- walked in the order of their entries; Go's order is arbitrary, and only the choice between two error
-- messages, and which random secret goes to which record, depends on it. Every loop is structural
-- recursion on a list, so no fuel is used. An HTTP handler takes the decoded body and the value of the
-- session cookie, and its reply is a result; the float64 quotient of a traffic speed is a parameter.
--
-- Of the manager of processes, an address of a command is a number that is never used twice, and a
-- goroutine that waits for a process is an entry of a list. The NPS library is a record of operations on a
-- state of any type; the fields that the code sets through a pointer into the library are an operation of
-- their own, and a pointer from a task or a host to its client is the client's id. What a theorem needs of
-- the library is a hypothesis, which the tests fulfil with a stand-in. The network, the parser of dates and
-- Go's quoted form of strings are parameters.
--
-- Not modelled: JSON and HTTP encoding; the mains, tickers and goroutines; RunFRP and RunNPS, which start
-- the libraries' servers; exportConfigs, syncEngineUsers and prepareAgentData, which write files; the
-- requests, saved settings, window and service of cmd/tunnel-client; the handlers that only render pages
-- and scripts; the copies of NPS and frp under upstream.
pub mod Base
pub mod Text
pub mod Dict
pub mod Engine
pub mod Core
pub mod Store
pub mod Agent
pub mod Client
pub mod Control
pub mod Integrated
pub mod Tests
