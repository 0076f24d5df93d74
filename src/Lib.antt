-- ===== src/Lib.antt =====
-- The control plane of a small container orchestrator: a controller that keeps the cluster's state
-- behind an HTTP API and brings it towards what is wanted in rounds, and on every node an agent that
-- does the same for the containers of its node.
--
-- The parts, and the files that model them:
--   * Api (internal/api): the records that all parts share, the phases of an assignment, and the deep
--     copies, which are the identity on values.
--   * Store (internal/store/store.go, nodes.go, services.go, jobs.go, assignments.go): `MemoryStore`, four
--     maps. A method is a function of the store, for the mutex makes it one step. Its children are
--     about the invariant of the maps (Keyed, Writes), the listings (Listing, Order), one status report (Status) and many
--     (Reports), what the API lets in (Admissible) and
--     deletion with what is owned (Delete).
--   * Sqlite (internal/store/sqlite.go): `SQLiteStore`, the store that the controller runs on, over an SQL engine
--     and a JSON encoding. Tables gives the SQL texts their meaning, Represents says which store the tables
--     hold, Cases how a method may end, Objects, Assignments, Owners and Reads take the methods one by one
--     against those of `MemoryStore`, with the order of rows in Aligned, Listing and Order, and Methods and
--     Session take calls one after another.
--   * Backup (internal/store/backup.go): snapshots of the database, their pruning and their restoring, over calls
--     of the operating system. Files says what is relied on, Prune, Publish, Newest and Restore are about the
--     steps.
--   * Scheduler (internal/scheduler/scheduler.go): `ChooseNode`. Its children say what is counted as in
--     use (Usage), what the loop finds (Scan), which node is picked (Choice) and that it has room (Capacity).
--   * Controller (internal/controller/controller.go, services.go, jobs.go): the state, the liveness of nodes
--     with the grace after a restart, the marking of lost work, the IDs of new assignments (Ids, Fresh), the
--     rounds for a service (Services) and for a job (Jobs), the round of all
--     (Reconcile) and what it keeps (Sound).
--   * System: the controller with its clients, as a step relation of requests, rounds and restarts.
--   * Http (internal/controller/http.go, auth.go, handlers.go, respond.go, and `SignNodeCSR` and the
--     certificate names of internal/pki/pki.go): `serve_http` takes a request and the controller to the controller after it and
--     a response. Routes binds the paths, Auth holds the guards, Handlers and Nodes the handlers.
--   * Agent (internal/agent/agent.go, sync.go) over the interface `Executor` (internal/runtime/runtime.go),
--     and Runtime (internal/runtime/sim.go), the simulated runtime, which Agent/Simulated makes an
--     `Executor`.
--   * Pki (internal/pki/token.go, and `WriteFile` of internal/pki/pki.go): Token is the join token as text,
--     Files the writing of a file under a temporary name, and Stored the token in its file.
--   * Client (internal/client/join.go, and `clientTLS` of internal/client/config.go): how a node gets its
--     credentials with a token. Trusted is about what it trusts, Held and Rejoined about the next start.
--   * Base holds what these share: Go's `int` with its wrap-around, maps, sorting, strings and lists.
--   * Tests applies the theorems to a small cluster.
--
-- The controller's rounds and the API handlers act on the same store; a round's steps are calls of
-- store methods, as in the code. The agent reads its assignments through the API and reports phases
-- through it, which the API accepts for the node's own assignments only. In System a request and a
-- round are one step each; a request that comes between two store calls of a round is not covered.
--
-- Bounds: an `int` is an integer whose sums and differences wrap at 64 bits. The search for an unused
-- assignment ID, unbounded in the code, has fuel, one unit for a draw; with more fuel than there are
-- stored assignments it is enough as long as the random source does not repeat a suffix that soon. Every
-- other loop is structural, or counts the replicas that are still missing.
--
-- Parameters: the random source and Unicode's lower case (`Env`), the decoding of JSON (`Decoders`), PEM
-- and X.509 (`Ca`), the SQL engine (`Engine`) and the encoding of stored objects (`Codecs`), the operating system's files (`Os`, `Files`), the hash and the random bytes of a join token
-- (`TokenSource`), what a joining node calls (`Machine`), and the runtime (`Executor`) where it is not the
-- simulated one. Go's map order is the order of an association list.
--
-- Not modelled: the opening of the database, the containerd runtime, the files of certificates, the
-- API calls of the HTTP client, the command line tools and the wiring of the processes. They drive libraries, files and
-- the network; the tickers that call the modelled steps are left out too.
pub mod Base
pub mod Api
pub mod Store
pub mod Sqlite
pub mod Backup
pub mod Scheduler
pub mod Controller
pub mod Http
pub mod Pki
pub mod Runtime
pub mod Agent
pub mod Client
pub mod System
pub mod Tests
