-- ===== src/Lib.antt =====
-- A verification library for gitvm: sandboxes for code on one host (a network pool, two runtime
-- backends and an orchestrator), the API of that host, the agent inside a sandbox, a node that
-- serves sandboxes to a control plane, and the control plane, which authenticates requests, places
-- sandboxes on nodes and scales the nodes.
--
-- How the parts interact. The control plane (controlplane/) picks a node for each sandbox and
-- forwards requests to it. A node (node/server.go) answers from its orchestrator (orchestrator/),
-- which keeps the table of sandboxes and calls a runtime backend through the interface of
-- runtime/runtime.go. The Firecracker backend (runtime/firecracker/) takes a slot of the network
-- pool (network/) and an image of the template cache (template/cache.go), boots a microVM and waits
-- for its agent. The Docker backend (runtime/docker/) gives its commands to a Docker daemon. A
-- single host is served by api/ in front of the same orchestrator. Both it and a node pass requests
-- for commands and files on to the agent (agent/). The SDK (sdk/) is a client of the single host.
--
-- Which file models what. Functions have the names of the source in snake case.
--   Base            conditionals, results, tables (Go's maps), times and durations, actions with a trace,
--                   and the functions of package strings that take a text apart (Base/Scan)
--   Network/Slot    network/types.go: a slot and its addresses
--   Network/Host    network/tap.go and network/iptables.go: the commands, and which of them run
--   Network/Pool    network/pool.go: NewPool, Allocate, Release, Count
--   Runtime         runtime/runtime.go: the interface as a record of operations
--   Orchestrator/Store, Orchestrator/Calls
--                   orchestrator/state.go, orchestrator.go and cleanup.go
--   Template        template/cache.go
--   Firecracker/Config, Firecracker/Vm, Firecracker/Backend
--                   runtime/firecracker/config.go, vm.go and firecracker.go
--   Docker/Commands, Docker/Agent, Docker/Backend
--                   runtime/docker/docker.go: the command lines, the way to a container's agent, the
--                   calls; Docker/Daemon states what is expected of Docker itself
--   Http            requests to an agent, which node/ and api/ share
--   Node/Handlers, Node/Routes, Node/Control
--                   node/server.go: the sandbox API, and registering and heartbeats; Node/Joining puts a
--                   node and a control plane together
--   Api/Handlers, Api/Server
--                   api/handlers.go and types.go, api/server.go and middleware.go
--   Sdk/Client, Sdk/Machine
--                   sdk/client.go, machine.go and types.go; Sdk/Host, Sdk/Hosted and Sdk/Lost put a machine
--                   and the server of a single host together
--   Agent/Defaults, Agent/Process, Agent/Files, Agent/Server
--                   agent/main.go, process.go, filesystem.go and types.go
--   ControlPlane/Types, ControlPlane/Db
--                   controlplane/types.go and db.go: the tables and the statements on them
--   ControlPlane/Auth, ControlPlane/Handlers, ControlPlane/Scaler, ControlPlane/Histories
--                   controlplane/auth.go, handlers.go (and helpers of server.go), scaler.go and cloud.go, and
--                   sequences of what these do to the database
--   ControlPlane/Aws, ControlPlane/Gcp, ControlPlane/Azure
--                   controlplane/cloud_aws.go, cloud_gcp.go and cloud_azure.go: the providers of the scaler
-- The modules below these hold the proofs, and those named Tests hold runs and examples.
--
-- How state and effects are modelled. A component's state is a record that each operation takes and
-- returns. The calls on one component are taken one after another. The network pool holds its mutex
-- for a whole call, so for it that is every history; the orchestrator, the backend and the control
-- plane lock single accesses to their tables, so for them it is the histories in which calls do not
-- overlap. What a call does to the outside is a command or an action in a trace; whether it
-- succeeds is a parameter that may depend on the whole trace before it. A backend, a cloud, a node
-- or an agent that is called is a parameter with a state of its own, and so are the Docker daemon
-- and, for the agent, the processes, users and files of the guest; what they are expected to do is
-- a hypothesis of the theorems that need it, and the tests have an instance. The context of a call
-- is not cancelled while the call runs. Random ids, tokens and the time that is read are arguments.
-- Logging is left out.
--
-- Of Docker the theorems expect that a container changes by the commands on it alone, so that none
-- ends by itself. Those on the agreement of the store and Docker expect besides that docker rm -f
-- succeeds and that a docker run that fails leaves no container, of which Docker promises neither.
--
-- Numbers are natural numbers, also the counts that a node reports, which are int in the source. Where a request may carry a negative number it is an integer that
-- the program only compares with 0. The product of a timeout and a second is taken modulo 2 ^ 64,
-- as int64 arithmetic does. Times are nanoseconds since the year 1; the database keeps whole
-- seconds. The scaler's two thresholds are compared as fractions, which agrees with float64 for
-- totals below 2 ^ 50. Paths are the parts given to filepath.Join; a slot's device and addresses
-- are kept as numbers, and their texts are built where the program passes them on. A table keeps an
-- order where Go's map has none. Sorting by ORDER BY is stable, where SQL leaves ties open.
--
-- Bounds and fuel. Every loop is bounded: the search of Allocate makes as many rounds as the pool
-- has slots, the wait for the socket 50 rounds and the wait for the agent 60 rounds, or 30 for a
-- container, as in the source; the digits of a number n are written with fuel n + 1, which is more
-- than it has digits.
--
-- What is not modelled. The template builder and the commands. Requests over Firecracker's socket,
-- SQLite, sha256 and JSON are outside the repository's own logic: an action, the meaning of SQL, a
-- parameter, and a body that decodes or not. The ticker of a node's heartbeat loop is left out, and
-- so are HTTP headers but those that the authentication reads and the SDK sets.
pub mod Base
pub mod Network
pub mod Runtime
pub mod Template
pub mod Firecracker
pub mod Docker
pub mod Orchestrator
pub mod Http
pub mod Node
pub mod Api
pub mod Sdk
pub mod Agent
pub mod ControlPlane
