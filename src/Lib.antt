-- ===== src/Lib.antt =====
-- Ultravisor: the work queue between an operation's graph and the beacons that carry out its tasks.
--
-- The parts and how they interact. Beacons (worker processes) register with the coordinator under a
-- name, offer capabilities, and either poll for work or are pushed work over a WebSocket. The engine
-- and the API server enqueue work items; the coordinator routes them by name, by sticky affinity or
-- by capability, takes reports of progress, completion, failure and stalls, and resumes the operation
-- that waits. A timer drops overdue items, returns due retries to the queue, and ages beacons and
-- affinity bindings. The scheduler works on the same two maps, on timers of its own: it dispatches
-- waiting items by priority, labels their health, finds stalled items and serves cancellation,
-- reordering and the counts of the queue's page. Action defaults are resolved per capability and
-- action from a table, with a short cache. The fleet manager sends models and runtimes to beacons, and
-- the coordinator's poll asks it whether a beacon may have an item. The queue's events go through a ring
-- in the API server to its clients, and through a buffer into the timeline's tables.
--
-- Base: a JavaScript object as an association list in insertion order (Base.Dict), integers for
-- priorities (Base.Int), lists and tests over native numbers, and counting of entries.
--
-- Work: the records of work items, beacons and bindings, and the statuses.
--
-- Coordinator models source/services/Ultravisor-Beacon-Coordinator.cjs. Its state is the record
-- `Coordinator` of Coordinator.State: the maps `_Beacons`, `_WorkQueue` and `_AffinityBindings`, the
-- hashes of `_DirectDispatchCallbacks` and `_StreamDispatchHandlers`, the counter, and a log of the
-- calls on other services in the order in which the code makes them. Each method is a function from
-- the state to the state and its answer: Registry (`registerBeacon`, `deregisterBeacon`,
-- `heartbeat`), Enqueue (`enqueueWorkItem`), Routing (`_tryPushToWebSocketBeacon`,
-- `_pushAssignedWorkItem`, `_dispatchPendingWorkItems`, `_removeWorkItemFromBeacon`), Poll
-- (`pollForWork`), Finish (`completeWorkItem`, `failWorkItem`, `stallWorkItem`), Timeouts
-- (`_checkTimeouts`, with whether it throws), Requests (`updateProgress`, `clearAffinityBinding`,
-- `dispatchAndWait`, `dispatchAndStream` and their timeouts). Coordinator.Step is the machine whose
-- steps are these calls, but for the timeouts of direct dispatches; neither `restoreFromJournal` nor
-- what the scheduler does is a step of it.
-- Coordinator.Coverage has its invariant, Polling, Passes, Retry and Intake further theorems.
--
-- Scheduler models source/services/Ultravisor-Beacon-Scheduler.cjs over the same state: Order
-- (`_compareDispatchPriority` and the stable sort), Pick (`_pickBeacon`, `_beaconCanTake`), Dispatch
-- (`_dispatchTick`, `_dispatchItemToBeacon`, `_markCanceled`), Buckets (`bucketFor`, `summarize`,
-- `listBuckets`), Health (`_healthTick`, `_maybeMarkStalled`, `_maybeRecoverStalled`, the label of
-- `computeHealth`), Requests (`requestCancel`, `reorderWorkItem`). Picking, Slots, Ticks, Moves
-- and Tallies have the theorems.
--
-- Defaults models source/services/Ultravisor-Beacon-ActionDefaults.cjs: Resolve (`resolve`,
-- `invalidate`), Apply (`applyToWorkItem`), and Caching with the theorems.
--
-- Admission models source/services/Ultravisor-AdmissionPolicy.cjs: Sample (`_sample`), Tokens
-- (`_consumeToken`, in thousandths of a token, which is exact; the ratio of the fleet as a
-- percentage), Decide (`evaluate`, `_deny`), and Credit and Rates with the theorems.
--
-- LongPoll models source/services/Ultravisor-LongPollManager.cjs with the waiters of
-- `_handleLongPollRequest` in source/web_server/Ultravisor-API-Server.cjs: Waiters (`register`,
-- `_settle`, `cancel`, the request and its timer), Drains (`drainOnBroadcast`, `drainAll`,
-- `fSatisfy`); Answers, Steps, Runs, Rearm and Cap have the theorems. The buffer's index function
-- and the topic filter are arguments.
--
-- Status models source/services/Ultravisor-Status.cjs, the statuses of runs.
--
-- Engine models the graph executor, source/services/Ultravisor-ExecutionEngine.cjs, with the
-- records of source/services/Ultravisor-ExecutionManifest.cjs and `mergeAndLift` of
-- source/services/Ultravisor-OutputStore.cjs. A run is the record `Context`, the runs are a map.
-- Names (`_extractPortName`) and Graph (`_buildNodeMap`, `_buildPortLabelMap`,
-- `_inferConnectionType`, `_buildConnectionMap`, `_getDownstreamEvents`) turn a graph into the maps
-- that the loop reads; Context and Rollup keep a run's records (`recordTaskStart` to
-- `finalizeExecution`); Execute is the event loop (`_processEventQueue`, `_executeTaskForEvent`,
-- `_drainEventsForSubgraph`), in which a task is a tree of what it does with its callbacks; Runs
-- (`executeOperation`, `startOperationAsync`, a manifest of `loadRecentManifests`,
-- `resumeWaitingRuns`, `abandonRun`, `abandonStaleRuns`), Resume (`resumeOperation`,
-- `stallOperation`, `forceErrorOnWaitingTask`) and Checkpoint (`retryFromCheckpoint`) are the
-- operations. Steps is the machine of these operations, restarts included, in which an asynchronous
-- start is an execution. Weights, Termination, Frame, Kept, Outcome, Failure, Connections, Reach,
-- Reached, Totality, Settled, Invariant, Failed and Retries have the theorems. The coordinator
-- calls `resumeOperation` and `stallOperation`; a retry calls `enqueueWorkItem`.
--
-- Journal models source/services/persistence/Ultravisor-Beacon-QueueJournal.cjs and
-- `restoreFromJournal` of the coordinator: Entries (`_applyEntry`, `replay`), Files (`appendEntry`,
-- `compact`, with the point at which it is cut off), Pointwise, Twice, Crash and Restart with the
-- theorems.
--
-- Observer models source/services/observer/ObserverPolicy.cjs: Policy (`classifyBeacon`,
-- `classifyWorkItem`, `classifyOperation`, `isRetryEligible`) and Upcoming (`classifyUpcoming`);
-- Waiting and Agreement have the theorems.
--
-- Fleet models source/services/Ultravisor-FleetManager.cjs, its store
-- source/services/persistence/Ultravisor-Beacon-FleetStore.cjs and
-- source/services/Ultravisor-DirectoryDistributor.cjs: Installs and Runtimes (the rows and their
-- SQL statements), Push (`pushDirectoryToTarget`), Models (`_walkCatalog`), Filter
-- (`scanAvailableModels`, `_extractModelKey`, `checkDispatchAllowed`), Manager (`installModel`,
-- `uninstallModel`, `enableModel`, `disableModel`, `_discoverInstalledModelsOnBeacon`), AutoPush
-- (`_autoPushRuntimeToBeacon`). The writes of an installation are steps of their own, since it
-- awaits replies between them. Transfer, Consent, Delivery and Histories have the theorems.
--
-- Timeline models source/services/persistence/Ultravisor-Timeline-Store.cjs (Store: `insertBatch`,
-- `readRange`, `countRange`, `archiveOlderThan`), source/services/Ultravisor-TimelineAggregator.cjs
-- (Aggregator) and source/services/Ultravisor-TimelineProjector.cjs (Projector, with confidences in
-- hundredths). Kept, History and Ranges have the theorems.
--
-- Runs models source/services/Ultravisor-Beacon-RunManager.cjs over the run functions of
-- source/services/persistence/Ultravisor-Beacon-QueueStore.cjs: Manager; Replays and Ended have the
-- theorems.
--
-- Resync models the queue's event ring of source/web_server/Ultravisor-API-Server.cjs: Ring
-- (`_stampQueueEvent`, `_findQueueEventIndex`, `QueueSubscribe`, the polls that need not wait) and
-- Client, a client as docs/client-integration.md describes it; After, Emits, Reconnect and Follow have
-- the theorems.
--
-- Persist models source/services/Ultravisor-QueuePersistenceBridge.cjs: Bridge (`getPersistenceBeacon`,
-- `_writeOrLocal`, `setPersistenceAssignment`, `getPersistenceStatus`, `_handleMeadowProxyBootstrap`),
-- Bootstrap (`_runBootstrap` as a machine whose steps are the replies that it awaits) and Flush
-- (`_flushQueueToBeacon`); Reassign, Endpoints, Sound, Backlog, Catchup and Complete have the theorems.
--
-- Tests: sample states, and the theorems listed below applied to them.
--
-- Conventions. Texts that are only compared are numbers, times are milliseconds, priorities are
-- integers, a field that may be null is an `Option`. An object that two maps share is reached by its
-- key, so a mutation through any reference is a change under that key. Numbers are unbounded: the
-- code's are floating point and far below the bound of exact integers. Fuel bounds only the engine's
-- event loop, where a graph may have cycles; it counts nested calls, and Termination says how much is
-- enough for ranked graphs. Each other loop of the code runs over a list taken at its start and is
-- recursion on that list. Event names and port hashes are lists of characters.
--
-- Parameters. The clock, the settings, the push handler, the fleet manager's filter, the templates
-- of new IDs and hashes and the queue store's rows are arguments (`Env`, `get_row`, `cache_key`);
-- Fleet.Delivery puts the modelled filter in, with whether it throws as an argument. The tables that the package Meadow keeps (`Database`,
-- `RunTable`), the scans and chunks of the package ultravisor-file-stream and a beacon's replies are
-- arguments (`Hub`).
-- So are the registry of task types, the tasks themselves, the stored form of a value and the stored
-- operations (`Services`). Nothing is assumed of them but what a theorem's binders say.
--
-- Not modelled. Payloads that no branch reads, log lines, timers and sockets; the action catalog,
-- universal addresses and uploads in the coordinator; the numerical health score and its broadcast;
-- the settings and templates of tasks, and operations on a run while one of its tasks still runs, in
-- the engine; the writing of the files of manifests and which of them a restart reads; the schemas and listings of the stores; the manifest store
-- bridge, the state manager, the observer's read models, the API server but for its long polls and the queue's
-- event ring, the beacon client, task types, the command line and the web interface, which are I/O
-- around the queue or larger than this development.
pub mod Base
pub mod Work
pub mod Status
pub mod Defaults
pub mod Coordinator
pub mod Scheduler
pub mod Admission
pub mod LongPoll
pub mod Engine
pub mod Journal
pub mod Observer
pub mod Fleet
pub mod Timeline
pub mod Runs
pub mod Resync
pub mod Persist
pub mod Tests
