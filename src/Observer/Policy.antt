-- ===== src/Observer/Policy.antt =====
-- Beacons, work items in flight, operations and retries (`classifyBeacon`, `classifyWorkItem`,
-- `classifyOperation`, `isRetryEligible`, source/services/observer/ObserverPolicy.cjs). A multiplier is
-- in tenths, and a threshold 0 is missing. Times have been parsed; an override is one of the three labels.
use ultravisor.Base.{
  ℕ, ◌==◌, ◌*◌, ◌-◌, Bool, true, false, ◌||◌, ◌&&◌, not, Option, none, some, List, [], ◌∷◌,
  if◌then◌else◌, ltb, leb, or_num, is_some,
}
use ultravisor.Work.{
  Text, Status, pending, assigned, dispatched, running, stalled, completed, complete, failed, error,
  timeout, canceled, WorkItem,
}
use ultravisor.Scheduler.Health.{last_heard}
use ultravisor.Status.{RunStatus, old_completed, other_status}

pub data Liveness : Type 0 where
  alive suspect dead : Liveness

pub data LivenessReason : Type 0 where
  beacon_missing manual_override ws_closed just_registered heartbeat_timeout heartbeat_late
        nominal :
      LivenessReason

pub record Limits : Type 0 where
  pub heartbeat_expected_ms : ℕ
  pub suspect_tenths : ℕ
  pub dead_tenths : ℕ
  pub ws_close_immediately_dead : Bool
  pub stall_tenths : ℕ

abbrev pub default_limits : Limits
default_limits = record {
  heartbeat_expected_ms = 60000;
  suspect_tenths = 15;
  dead_tenths = 30;
  ws_close_immediately_dead = true;
  stall_tenths = 20;
}

-- A beacon as the observer sees it. `ws_connected` is `none` where it is not known.
pub record SeenBeacon : Type 0 where
  pub id : Text
  pub name : Text
  pub override : Option Liveness
  pub ws_connected : Option Bool
  pub last_heartbeat_at : Option ℕ
  pub registered_at : Option ℕ
  pub liveness : Liveness
  pub capabilities : List Text
  pub max_concurrent : ℕ
  pub current : List Text

abbrev pub is_socket_closed : Limits → SeenBeacon → Bool
is_socket_closed l b =
    l.ws_close_immediately_dead
    && (elim b.ws_connected [ none ↦ false | some is_open ↦ not is_open ])

abbrev pub last_beat : SeenBeacon → Option ℕ
last_beat b = elim b.last_heartbeat_at [ some t ↦ some t | none ↦ b.registered_at ]

-- More than a number of tenths of the expected window.
abbrev pub exceeds : Limits → ℕ → ℕ → Bool
exceeds l tenths age = ltb (or_num l.heartbeat_expected_ms 60000 * tenths) (10 * age)

unfoldable pub classify_beat : ℕ → Limits → Option ℕ → Liveness × LivenessReason
classify_beat now l none = (alive, just_registered)
classify_beat now l (some t) =
    if t == 0
    then (alive, just_registered)
    else (if exceeds l (or_num l.dead_tenths 30) (now - t)
        then (dead, heartbeat_timeout)
        else (if exceeds l (or_num l.suspect_tenths 15) (now - t)
            then (suspect, heartbeat_late)
            else (alive, nominal)))

unfoldable pub classify_beacon : ℕ → Limits → Option SeenBeacon → Liveness × LivenessReason
unfolding classify_beat
classify_beacon now l none = (dead, beacon_missing)
classify_beacon now l (some b) = elim b.override [
  | some label ↦ (label, manual_override)
  | none ↦ if is_socket_closed l b then (dead, ws_closed) else classify_beat now l (last_beat b)
]

pub data ItemLabel : Type 0 where
  item_healthy item_stalled : ItemLabel

pub data ItemReason : Type 0 where
  noop terminal previously_stalled beacon_dead inactive in_queue no_signal silent fine : ItemReason

abbrev pub is_terminal_work : Status → Bool
is_terminal_work completed = true
is_terminal_work complete = true
is_terminal_work failed = true
is_terminal_work error = true
is_terminal_work timeout = true
is_terminal_work canceled = true
is_terminal_work stalled = true
is_terminal_work _ = false

abbrev pub is_stalled : Status → Bool
is_stalled stalled = true
is_stalled _ = false

abbrev pub is_working : Status → Bool
is_working dispatched = true
is_working running = true
is_working _ = false

abbrev pub is_parked : Status → Bool
is_parked pending = true
is_parked assigned = true
is_parked _ = false

abbrev pub is_dead : Option Liveness → Bool
is_dead (some dead) = true
is_dead _ = false

-- `expected` is the item's own window, 0 where it has none.
unfoldable pub classify_silence : ℕ → Limits → ℕ → WorkItem → ItemLabel × ItemReason
classify_silence now l expected it = elim (last_heard it) [
  | none ↦ (item_healthy, no_signal)
  | some t ↦
      let window = or_num expected (or_num l.heartbeat_expected_ms 60000) in
      if ltb (window * or_num l.stall_tenths 20) (10 * (now - t))
      then (item_stalled, silent)
      else (item_healthy, fine)
]

unfoldable pub classify_work_item :
    ℕ → Limits → ℕ → Option WorkItem → Option Liveness → ItemLabel × ItemReason
unfolding classify_silence
classify_work_item now l expected none b = (item_healthy, noop)
classify_work_item now l expected (some it) b =
    if is_terminal_work it.status
    then (item_healthy, terminal)
    else (if is_stalled it.status
        then (item_stalled, previously_stalled)
        else (if is_dead b && is_working it.status
            then (item_stalled, beacon_dead)
            else (if not (is_working it.status || is_parked it.status)
                then (item_healthy, inactive)
                else (if is_parked it.status && not (is_some it.dispatched_at)
                    then (item_healthy, in_queue)
                    else classify_silence now l expected it))))

pub data RunReason : Type 0 where
  no_run run_terminal stalled_work_item in_flight : RunReason

-- 'Canceled'
abbrev pub canceled_status : Text
canceled_status = 1

abbrev pub is_ended : RunStatus → Bool
is_ended RunStatus.stalled = true
is_ended RunStatus.failed = true
is_ended RunStatus.complete = true
is_ended old_completed = true
is_ended RunStatus.abandoned = true
is_ended (other_status t) = t == canceled_status
is_ended _ = false

unfoldable pub any_stalled : List WorkItem → Bool
any_stalled [] = false
any_stalled (it ∷ its) = is_stalled it.status || any_stalled its

-- `none` for an observer that cannot list the run's items.
unfoldable pub classify_operation :
    Option RunStatus → Option (List WorkItem) → Option RunStatus × RunReason
unfolding any_stalled
classify_operation none its = (none, no_run)
classify_operation (some s) its = if is_ended s then (some s, run_terminal) else elim its [
  | none ↦ (some s, in_flight)
  | some all ↦
      if any_stalled all then (some RunStatus.stalled, stalled_work_item) else (some s, in_flight)
]

abbrev pub can_try_again : Status → Bool
can_try_again stalled = true
can_try_again failed = true
can_try_again error = true
can_try_again _ = false

unfoldable pub is_retry_eligible : Option WorkItem → Bool
is_retry_eligible none = false
is_retry_eligible (some it) =
    if not (can_try_again it.status)
    then false
    else not (leb (or_num it.max_attempts 1) it.attempt_number)
