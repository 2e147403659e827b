-- ===== src/Lib.antt =====
-- Pilothouse: the privileged broker and its stores.
--
-- Pilothouse is a web console for a Linux host. The web server runs without privileges and asks the
-- broker (internal/broker), a privileged daemon, for queries and actions. The broker logs users in,
-- keeps their sessions, checks every call against its registry of actions, takes a lock for the
-- resource of the action, records the attempt in the audit store, and runs the handler, in the
-- foreground or as a job that the job store records.
--
-- Modules and code:
--   Base (and Base/): shared helpers: lists and association lists over the native ℕ, results,
--     integers, Boolean tests.
--   Auth: internal/auth/identity.go. `resolve` is `Resolve`; Auth/Resolution holds the proofs.
--   Broker/Sessions: internal/broker/sessions.go. `create`, `get`, `delete` are `Create`, `Get`,
--     `Delete`; the state is the map of sessions by digest. Expiry and History hold the proofs.
--   Broker/Locks: internal/broker/serialize.go. `try_lock`, `lock_enter` with `receive`, `send` with
--     `release_reference` are `tryLock`, `lock` and the unlock function, on a heap of entries.
--     Threads has the callers as a step relation, Invariant its invariant, Exclusion what follows.
--   Broker/Text, Broker/Params: the tests on texts and on parameters in internal/broker/actions.go
--     (`validateParameters`, `validatePreparedParameters`); Params/Prepared holds the proofs.
--   Broker/Actions: `ActionRegistry.Execute` and `runBackground` of internal/broker/actions.go, with
--     `recordProblem` of internal/broker/problems.go. `admit` is the part before the lock; `execute`
--     gives the events of a call in their order, its error and the task that it starts;
--     `run_background` gives the events of the task. Admit, Effects, Protocol and Outcomes hold the
--     proofs.
--   Broker/Attempts: the limiter of login attempts in internal/broker/server.go, with `delay`,
--     `failure` and `success`; Attempts/Delays holds the proofs.
--   Broker/Registration: `RegisterDefinition`, `Register`, `Registered` and the registry of queries of
--     internal/broker/actions.go; Registration/Entries holds the proofs, and Params/Exact those on the
--     names of parameters.
--   Broker/Faults, Broker/Streams: internal/broker/streams.go. `register_stream_query`,
--     `execute_stream_query`, `register_stream_action` and `execute_stream_action` are the methods of
--     the two registries; Streams/Metadata has `validateStreamParameters`, Streams/Reader
--     `streamLimitReader` with its proofs, Streams/Calls the proofs on the calls.
--   Broker/Server: the handlers of internal/broker/server.go, composed of the parts above. `authorize`,
--     `current_session`, `logout`, `execute_action`, `query`, `stream_query`, `stream_action` are the
--     methods of `Server`; Server/Bearer has `bearerToken`, Server/Login has `login`, with its proofs;
--     Acting, Throttle and Tokens hold the other proofs.
--   Store: the interface of the bbolt database that the stores rely on, the trimming loop that they
--     share (Store/Trim) and the entries of a bucket (Store/Entries).
--   Jobs: internal/jobs/jobs.go. `enqueue`, `start`, `complete`, `update`, `trim_oldest` have the
--     names of the source; Recovery has `Open`, Queries has `List` and `RebootRequiredSince`;
--     Transitions, Lifecycle and Writes hold the proofs.
--     The loops that the two stores share over what a restart has interrupted, and over what is
--     listed, are Store/Recovery and Store/Listing.
--   Audit: internal/audit/audit.go. `begin`, `complete`, `open_store`, `list` and `trim_oldest` have the
--     names of the source; Audit/Writes and Audit/Opening hold the proofs.
--   Capability: internal/capability/capability.go, and Capability/Probes the probes of the other files
--     of that directory; Union and Configured hold the proofs.
--   Platform: internal/platform/registry.go and internal/platform/capability.go. `register_module` is
--     `Register`; Modules and Gates hold the proofs.
--   Listen: cmd/pilothouse/listen.go and the part of `run` in cmd/pilothouse/main.go that uses it;
--     Listen/Plaintext holds the proofs.
--   Storage: internal/modules/storage. Storage/Targets has the methods of `PathManager` of paths.go on
--     the tests of Storage/Names, from paths.go and remote.go; a call gives its system calls in their
--     order. Policy and Descriptors hold the proofs. Storage/Remote has the other validation of
--     remote.go; Remote/Ownership holds its proofs.
--     Storage/Model has the data of a snapshot (model.go); Storage/Aggregate, Order, Summary, Limit
--     and Normalize have the functions of normalize.go under their names, Storage/Graph its
--     `validateGraph`. Graph/Chains, Graph/Search, Graph/Cycles, Graph/Verdict,
--     Aggregate/Resources, Aggregate/Bounds, Limit/Shrink, Normalize/Sound and Normalize/Overflow
--     hold the proofs.
--     Storage/Definitions has `definition` of remote_manager.go with the checks of manifest.go and
--     units.go, Storage/Units the rendering of units.go, Storage/Host the calls that
--     remote_manager.go makes, Storage/Lifecycle its methods `Create`, `Mount`, `Unmount`,
--     `Delete`. Storage/Files has `writeArtifact` and the checks of a file, Storage/Artifacts the
--     other methods of `ArtifactStore`, Storage/System the host that they make.
--     Definitions/Accepted, Artifacts/Loaded, Units/Texts, Units/Lines and Lifecycle/Manifest
--     hold the proofs.
--   Files: the flags for roots of internal/modules/files/config.go. `add_root` is `RootFlags.Add`,
--     `root_specs` is `RootFlags.Specs`; Files/Roots holds the proofs.
--   Extract: packaging/extract/rpm.go, with `underUsrBin` of packaging/extract/extract.go; the functions
--     keep their names. Extract/Rows, Extract/Table and Extract/Postinstall hold the proofs.
--   Tests: tests, and each result at a concrete input.
--
-- Conventions. A time is a number of nanoseconds, given as an argument where the source reads the
-- clock. Random tokens, the digest of a token, PAM, the decoders of JSON and base64, handlers,
-- contexts, failures of a transaction, the calls of the operating system, and what a cursor of the
-- database gives while the loop over it puts are arguments too. A Go map is an association list; the
-- order of its entries never shows in what is proved. A value of the database is what it decodes to,
-- `none` where it does not decode. A part under a mutex or in a transaction is one step; a login is
-- several, and takes the limiter and the server as it finds them.
--
-- Bounds and fuel. `validateGraph` has fuel for one call more than there are names of resources, and
-- `enforceSnapshotLimit` for one round more than there are entries; both are proved to be enough.
-- The loop of `trimOldest` runs `count - maxRecords` rounds, which is the recursion
-- of `trim`; all other loops are recursions on lists.
--
-- Not modelled: HTTP, PAM, processes, packaging but for the reading of rpm packages, the pages of
-- the web server, and the modules under internal/modules but for the parts named above.
mod Base
pub mod Auth
pub mod Store
pub mod Jobs
pub mod Audit
pub mod Capability
pub mod Platform
pub mod Listen
pub mod Storage
pub mod Files
pub mod Extract
pub mod Broker
mod Tests
