-- ===== src/Lib.antt =====
-- A model of the Connector Fabric Manager (CFM): the parts of its Go code that decide what happens to
-- an orchestration and to the participant profiles that wait for one.
--
-- The Tenant Manager (tmanager) keeps tenants, cells, dataspace profiles and participant profiles. To
-- deploy a profile it stores it, records the manifest that it waits on and sends the manifest over
-- NATS. The Provision Manager (pmanager) turns the manifest into an orchestration, stores it in a
-- JetStream KV entry and publishes one message for each activity of the first step. Agents process
-- these messages; the activity executor updates the KV entry with optimistic concurrency, publishes
-- the next step once all parallel activities are completed, and answers with a response when the
-- orchestration ends. The Tenant Manager's callback applies the response to the profile. A watcher
-- copies the KV entry's states into an index and starts a compensation when an orchestration failed.
--
-- The files and the code that they model:
--   Prelude             names of the libraries, Boolean tests, lists over native numbers, string-keyed
--                       maps (Go's maps; a nil map reads as the empty one, and a write into a
--                       nil map, which panics in Go, writes into the empty one), signed integers
--   Errors              common/types/errors.go: error values as the trees that errors.Is and errors.As
--                       walk, and the classes recoverable, client and fatal. Messages keep their fixed
--                       text, without the values formatted into them
--   Nats                common/natsclient: Retry has the delays and delivery counts of retry.go, Processor
--                       has ProcessMessage of processor.go, Subjects has mergeStreamSubjects of
--                       stream.go. A message is what its metadata and its calls return; a handler gives
--                       the settling calls it made, and its error
--   Json                values of type any after json.Unmarshal
--   Text                strings.ToLower and strings.ToUpper, on ASCII letters, and strings.Split at a dot
--   Query               common/query/predicate.go: Matches, and the JSON of predicates (Encoding); a
--                       FieldMatcher gets and compares the values of fields
--   Sql                 common/sqlstore/query.go: PostgresJSONBBuilder, with the conditions on a field
--                       (Jsonb) and whole predicates (Builder). A query is the list of its pieces, so that
--                       placeholders can be told from text
--   Dag                 common/dag/dag.go: the graph; Cycles is the search for a cycle, Sort the two sorts and
--                       the levels. A pointer to a vertex is its ID
--   System              common/system/assembler.go: Assemble and Shutdown; an assembly's calls are a
--                       parameter
--   Orchestration       pmanager/api/types.go: the orchestration, EngineState.Merge, the step queries, and
--                       InstantiateOrchestration (Instantiate)
--   Store               common/store/store.go and common/memorystore/memorystore.go: EntityStore with
--                       its contract IsLawful, the in-memory store (Memory) and its pages (Paging)
--   Engine.Client       pmanager/natsorchestration/client.go: MsgClient is the interface to JetStream,
--                       over a world that other parties change as well; UpdateOrchestration
--   Engine.Truncate     truncateError of pmanager/natsorchestration/activity.go, on bytes
--   Engine.Activity     results of activities, runActivity and the update functions
--   Engine.Handlers     persistState, processOnActivityCompletion, handleOrchestrationCompletion,
--                       handleRetryError and handleFatalError of that file
--   Engine.Executor     its processMessage; what follows a completion (Proceeding)
--   Engine.Orchestrator pmanager/natsorchestration/orchestration.go: GetOrchestration, Execute, start
--   Manager.Provision   pmanager/core/provision.go: Start, and pmanager/natsprovision/handler.go
--   Manager.Definitions pmanager/core/definition_manager.go, with validateActivitySchema (Schema), and
--                       pmanager/memorystore/store.go (Memory). The evaluation of the predicate on
--                       templateRef and the orchestration entries are parameters of Memory
--   Manager.Watcher     pmanager/natsorchestration/watcher.go: onMessage and the compensation
--   Token               common/token/cache.go: the token cache, over times as numbers
--   Tenant              tmanager/api/types.go: the entities
--   Tenant.Access       tmanager/api/access.go, checkTenantAccess and checkProfileAccess
--   Tenant.Pending      setPendingOrchestration and isPendingOrchestration
--   Tenant.Generation   tmanager/core/generation.go, generation_vpa.go, generateCredentialSpecs
--   Tenant.References   tmanager/core/references.go
--   Tenant.Participants tmanager/core/service_participant.go: DeployProfile (Deploy), DisposeProfile and
--                       revertDispose (Dispose), with what they share
--   Tenant.Callback     vpaCallbackHandler of service_participant.go, tmanager/natsprovision/provision.go
--   Tenant.Services     tmanager/core/service_tenant.go, service_cell.go, service_dataspace.go
--   Examples            samples on which the theorems are applied, and runs of the definitions
--
-- How state is kept: a function that calls the store, the message client or a transaction takes the
-- world before and gives the world after with its result. The interfaces are records: MsgClient,
-- EntityStore, DefinitionStore, Tenant.Stores.Stores, and Parts of Manager.Provision and of
-- Manager.Watcher. What the Tenant Manager and the watcher rely on is named there too (IsSound): an
-- entity is found as it was written, a transaction that succeeds has committed what its callback
-- did, and sending a message leaves the store as it is. Nothing is assumed of the message client. A
-- dispatcher or an activity may panic, run out of time or return an error; those are cases of
-- Dispatched and of Ran.
--
-- Bounds: UpdateOrchestration's loop is recursion on the rounds left, started at maxUpdateConflicts
-- (50) as in the source, whose loop gives up after as many conflicts; the case of no round left is
-- never reached from there. The loops of the graph sorts have a unit of fuel for each vertex; running out
-- of it is a result of its own, which the theorem on the sorts excludes. All other recursion is
-- structural. The order in which Go ranges over the vertices is the order of the graph's list, and so
-- any order.
--
-- Not modelled: telemetry (except the trace context that the stored state carries) and logging; the
-- set-up of streams, consumers and fetch loops (common/natsclient/nats.go, loop.go, and stream.go
-- apart from the merging of subjects); row locks, which only make a call wait or fail; the running
-- of SQL; HTTP handlers and clients; query parsing and the access to fields by reflection, so that
-- a predicate of Store is a test on entities; and the agents' activities, which are the executor's
-- parameter.
pub mod Prelude
pub mod Errors
pub mod Nats
pub mod Json
pub mod Text
pub mod Query
pub mod Sql
pub mod Dag
pub mod System
pub mod Orchestration
pub mod Store
pub mod Engine
pub mod Manager
pub mod Token
pub mod Tenant
pub mod Examples
