-- ===== src/Tests/Samples.antt =====
-- Concrete beacons, work items and coordinators.
use ultravisor.Base.{◌+◌, true, false, none, some, List, [], ◌∷◌}
use ultravisor.Base.Int.{pos}
use ultravisor.Work.{
  Text, WorkItem, Beacon, shell, execute, pending, running, online, unknown_health,
}
use ultravisor.Defaults.{Row, Settings}
use ultravisor.Coordinator.State.{Env, Coordinator}
use ultravisor.Coordinator.Registry.{BeaconInfo}
use ultravisor.Coordinator.Enqueue.{WorkItemInfo}

-- At time 5000, with every service but a push handler.
abbrev pub env_5000 : Env
env_5000 = record {
  now = 5000;
  push_handler = none;
  fleet_allows = λ b it. true;
  has_journal = true;
  has_bridge = true;
  has_scheduler = true;
  has_engine = true;
  has_manifest = true;
  heartbeat_timeout_ms = 60000;
  affinity_ttl_ms = 3600000;
  default_timeout_ms = 300000;
  work_item_hash = λ cap action now n. 100 + n;
  beacon_id = λ name now. 50 + name;
}

abbrev pub beacon_of : List Text → Beacon
beacon_of current = record {
  name = 20;
  session = 30;
  capabilities = shell ∷ [];
  status = online;
  last_heartbeat = 0;
  current = current;
  max_concurrent = 1;
  registered_at = 0;
}

-- Two attempts are left to it.
abbrev pub waiting_item : WorkItem
waiting_item = record {
  run_hash = 0;
  run_id = 0;
  node_hash = 0;
  operation_hash = 0;
  capability = shell;
  action = execute;
  affinity_key = 0;
  require_affinity_match = false;
  assigned_beacon = none;
  status = pending;
  timeout_ms = 300000;
  created_at = 0;
  enqueued_at = 0;
  assigned_at = none;
  dispatched_at = none;
  started_at = none;
  claimed_at = none;
  completed_at = none;
  canceled_at = none;
  cancel_requested = false;
  cancel_reason = 0;
  last_event_at = some 0;
  queue_wait_ms = 0;
  priority = pos 0;
  health_label = unknown_health;
  attempt_number = 0;
  max_attempts = 3;
  retry_backoff_ms = 5000;
  retry_after = none;
  last_error = 0;
  prior_status = none;
  stalled_at = none;
  stalled_since_ms = none;
  stall_finalized = false;
}

-- It runs on the beacon 60.
abbrev pub running_item : WorkItem
running_item = record waiting_item {
  status = running;
  assigned_beacon = some 60;
  claimed_at = some 1000;
  started_at = some 1000;
  attempt_number = 1;
}

-- Overdue, and out of attempts.
abbrev pub overdue_item : WorkItem
overdue_item = record running_item { timeout_ms = 1000; max_attempts = 1 }

abbrev pub coordinator_of : List Text → List (Text × WorkItem) → Coordinator
coordinator_of current queue = record {
  beacons = (60, beacon_of current) ∷ [];
  queue = queue;
  bindings = [];
  direct = [];
  streams = [];
  counter = 0;
  log = [];
}

-- A free beacon and an item that waits.
abbrev pub with_waiting : Coordinator
with_waiting = coordinator_of [] ((7, waiting_item) ∷ [])

-- Work of a capability that the beacon does not offer.
abbrev pub other_item : WorkItem
other_item = record waiting_item { capability = 11 }

abbrev pub with_other : Coordinator
with_other = coordinator_of [] ((7, other_item) ∷ [])

-- A beacon that runs one item, while another waits.
abbrev pub with_running : Coordinator
with_running = coordinator_of (8 ∷ []) ((8, running_item) ∷ (7, waiting_item) ∷ [])

abbrev pub with_overdue : Coordinator
with_overdue = coordinator_of (8 ∷ []) ((8, overdue_item) ∷ [])

abbrev pub plain_settings : Settings
plain_settings = record {
  timeout = 0;
  timeout_upper = 0;
  max_retries = 2;
  max_attempts_upper = 0;
  retry_backoff = 0;
  retry_backoff_upper = 0;
  priority_setting = none;
  priority_upper = none;
}

abbrev pub shell_info : WorkItemInfo
shell_info = record {
  run_hash = 0;
  run_id = 0;
  node_hash = 0;
  operation_hash = 0;
  capability = shell;
  action = execute;
  settings = plain_settings;
  affinity_key = 0;
  require_affinity_match = false;
  timeout_ms = 0;
  enqueued_at = none;
  priority = none;
}

abbrev pub run_info : WorkItemInfo
run_info = record shell_info { run_hash = 5; node_hash = 6 }

abbrev pub node_info : BeaconInfo
node_info = record {
  info_name = 20;
  info_capabilities = some (shell ∷ []);
  info_max_concurrent = 1;
}

-- A row of the table of action defaults: a minute, and three attempts.
abbrev pub minute_row : Row
minute_row = record {
  timeout_ms = 60000;
  max_attempts = 3;
  retry_backoff_ms = 0;
  default_priority = 0;
  expected_wait_p95_ms = 0;
  heartbeat_expected_ms = 0;
  min_samples_for_baseline = 0;
}
