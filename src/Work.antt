-- ===== src/Work.antt =====
-- The records that the beacon services share: work items, beacons and affinity bindings
-- (source/services/Ultravisor-Beacon-Coordinator.cjs, the literals in `enqueueWorkItem`,
-- `registerBeacon` and `pollForWork`), and the status names of
-- source/services/Ultravisor-Beacon-Scheduler.cjs.
-- A text that is only compared (an ID, a hash, a name, a reason) is its number under a fixed
-- numbering of texts in which the empty text is 0. A time is a number of milliseconds. A field that
-- may be `null` or missing is an `Option`. `WorkItemHash` and `BeaconID` are the keys of the maps.
-- Payloads that no branch reads (Settings, Result, Tags, Contexts, Progress, logs) are left out.
use ultravisor.Base.{ℕ, Bool, true, false, ◌||◌, Option, List, ◌==◌}
use ultravisor.Base.Int.{ℤ}

abbrev pub Text : Type 0
Text = ℕ

abbrev pub no_text : Text
no_text = 0

abbrev pub shell : Text
shell = 1

abbrev pub execute : Text
execute = 2

abbrev pub unknown : Text
unknown = 3

abbrev pub queue_persistence : Text
queue_persistence = 4

abbrev pub manifest_store : Text
manifest_store = 5

abbrev pub meadow_proxy : Text
meadow_proxy = 15

abbrev data_beacon_schema : Text
data_beacon_schema = 94

abbrev data_beacon_management : Text
data_beacon_management = 95

-- The default of `LastError`, "Unknown error".
abbrev pub unknown_error : Text
unknown_error = 6

-- The error text that `_checkTimeouts` composes.
abbrev pub timed_out : Text
timed_out = 7

-- The reason that `_dispatchTick` gives, "Canceled before dispatch".
abbrev pub canceled_before_dispatch : Text
canceled_before_dispatch = 8

-- The default of a requested cancellation, "cancel requested".
abbrev pub cancel_requested_reason : Text
cancel_requested_reason = 9

pub data Status : Type 0 where
  queued pending assigned dispatched running retry_scheduled stalled : Status
  completed complete failed error timeout canceled : Status

pub data BeaconStatus : Type 0 where
  online busy offline : BeaconStatus

pub data HealthLabel : Type 0 where
  unknown_health healthy uncertain unhealthy : HealthLabel

pub record WorkItem : Type 0 where
  pub run_hash : Text
  pub run_id : Text
  pub node_hash : Text
  pub operation_hash : Text
  pub capability : Text
  pub action : Text
  pub affinity_key : Text
  pub require_affinity_match : Bool
  pub assigned_beacon : Option Text
  pub status : Status
  pub timeout_ms : ℕ
  pub created_at : ℕ
  pub enqueued_at : ℕ
  pub assigned_at : Option ℕ
  pub dispatched_at : Option ℕ
  pub started_at : Option ℕ
  pub claimed_at : Option ℕ
  pub completed_at : Option ℕ
  pub canceled_at : Option ℕ
  pub cancel_requested : Bool
  pub cancel_reason : Text
  pub last_event_at : Option ℕ
  pub queue_wait_ms : ℕ
  pub priority : ℤ
  pub health_label : HealthLabel
  pub attempt_number : ℕ
  pub max_attempts : ℕ
  pub retry_backoff_ms : ℕ
  pub retry_after : Option ℕ
  pub last_error : Text
  pub prior_status : Option Status
  pub stalled_at : Option ℕ
  pub stalled_since_ms : Option ℕ
  pub stall_finalized : Bool

pub record Beacon : Type 0 where
  pub name : Text
  pub session : Text
  pub capabilities : List Text
  pub status : BeaconStatus
  pub last_heartbeat : ℕ
  pub current : List Text
  pub max_concurrent : ℕ
  pub registered_at : ℕ

pub record Binding : Type 0 where
  pub beacon : Text
  pub run : Text
  pub created : ℕ
  pub expires : ℕ

abbrev pub is_pending : Status → Bool
is_pending pending = true
is_pending _ = false

abbrev pub is_assigned : Status → Bool
is_assigned assigned = true
is_assigned _ = false

abbrev pub is_running : Status → Bool
is_running running = true
is_running _ = false

abbrev pub is_retry_scheduled : Status → Bool
is_retry_scheduled retry_scheduled = true
is_retry_scheduled _ = false

abbrev pub is_stalled : Status → Bool
is_stalled stalled = true
is_stalled _ = false

abbrev pub is_offline : BeaconStatus → Bool
is_offline offline = true
is_offline _ = false

-- The work that persistence itself causes is not persisted.
unfoldable pub is_meta_capability : Text → Bool
is_meta_capability cap =
    cap == queue_persistence
    || (cap == manifest_store
        || (cap == meadow_proxy || (cap == data_beacon_schema || cap == data_beacon_management)))

-- Statuses in which the item takes a slot of the beacon that it is assigned to.
abbrev pub is_held : Status → Bool
is_held assigned = true
is_held running = true
is_held _ = false
