-- ===== src/Coordinator/State.antt =====
-- The coordinator's maps (its constructor), what surrounds it, and the calls that it makes on other
-- services, kept as a log (source/services/Ultravisor-Beacon-Coordinator.cjs).
use ultravisor.Base.{
  ℕ, Bool, false, Option, none, some, List, [], ◌++◌, if◌then◌else◌, contains, not, ◌&&◌,
}
use ultravisor.Base.Dict.{Dict, lookup, modify}
use ultravisor.Work.{Text, Status, WorkItem, Beacon, Binding, is_meta_capability}

-- The `EventType` of a row in the queue's event log.
pub data EventType : Type 0 where
  enqueued dispatched completed_event failed_event : EventType
  stalled_event unstalled canceled_event cancel_requested_event reordered : EventType

-- The calls on the journal, the persistence bridge, the scheduler's broadcasts, the execution
-- engine and the callers that wait for a result.
pub data Effect : Type 0 where
  journal_enqueue : Text → Status → Effect
  journal_claim : Text → Text → Effect
  journal_affinity : Text → Effect
  journal_affinity_clear : Text → Effect
  journal_complete journal_fail journal_stalled : Text → Effect
  journal_retry : Text → ℕ → ℕ → Effect
  persist_upsert : Text → Status → Effect
  persist_update : Text → Status → Effect
  persist_priority persist_cancel_request persist_progress persist_health : Text → Effect
  persist_event : Text → EventType → Option Status → Status → Effect
  persist_attempt : Text → ℕ → Text → Effect
  persist_outcome : Text → ℕ → Status → Effect
  broadcast : Text → EventType → Effect
  broadcast_health : Text → Effect
  broadcast_summary : Effect
  push_frame : Text → Text → Effect
  stream_progress : Text → Effect
  answer_stream answer_direct : Text → Bool → Effect
  record_task_error : Text → Text → Effect
  resume_operation : Text → Text → Bool → Effect
  stall_operation : Text → Text → Effect

-- What the coordinator reads from outside: the clock, its settings, the services that are there,
-- the push handler that the API server sets and the fleet manager's dispatch filter.
pub record Env : Type 0 where
  pub now : ℕ
  pub push_handler : Option (Text → WorkItem → Bool)
  pub fleet_allows : Text → WorkItem → Bool
  pub has_journal : Bool
  pub has_bridge : Bool
  pub has_scheduler : Bool
  pub has_engine : Bool
  pub has_manifest : Bool
  pub heartbeat_timeout_ms : ℕ
  pub affinity_ttl_ms : ℕ
  pub default_timeout_ms : ℕ
  -- The templates of `WorkItemHash` and `BeaconID`.
  pub work_item_hash : Text → Text → ℕ → ℕ → Text
  pub beacon_id : Text → ℕ → Text

pub record Coordinator : Type 0 where
  pub beacons : Dict Beacon
  pub queue : Dict WorkItem
  pub bindings : Dict Binding
  pub direct : List Text
  pub streams : List Text
  pub counter : ℕ
  pub log : List Effect

abbrev pub emit : List Effect → Coordinator → Coordinator
emit es c = record c { log = c.log ++ es }

abbrev pub emit_if : Bool → List Effect → Coordinator → Coordinator
emit_if b es c = record c { log = c.log ++ (if b then es else []) }

-- The guard in front of each write through the persistence bridge.
abbrev pub persists : Env → WorkItem → Bool
persists env it = env.has_bridge && not (is_meta_capability it.capability)

abbrev pub modify_item : Text → (WorkItem → WorkItem) → Coordinator → Coordinator
modify_item h f c = record c { queue = modify h f c.queue }

abbrev pub modify_beacon : Text → (Beacon → Beacon) → Coordinator → Coordinator
modify_beacon b f c = record c { beacons = modify b f c.beacons }

abbrev pub with_current : List Text → Beacon → Beacon
with_current hs bcn = record bcn { current = hs }

-- Whether the beacon is registered and lists the item in `CurrentWorkItems`.
unfoldable pub lists : Text → Text → Dict Beacon → Bool
lists b h beacons = elim (lookup b beacons) [ none ↦ false | some bcn ↦ contains h bcn.current ]
