-- ===== src/Tests/Observing.antt =====
-- The observer's theorems at concrete items (source/services/observer/ObserverPolicy.cjs).
use ultravisor.Base.{◌≡◌, refl, ◌||◌, ◌&&◌, true, none, some, [], ◌∷◌, if◌then◌else◌}
use ultravisor.Work.{shell}
use ultravisor.Scheduler.Health.{should_stall, baseline}
use ultravisor.Observer.Policy.{
  alive, dead, SeenBeacon, default_limits, item_stalled, item_healthy, classify_work_item, is_dead,
  is_working,
}
use ultravisor.Observer.Upcoming.{classify_upcoming}
use ultravisor.Observer.Waiting.{blocking, classify_upcoming_lem}
use ultravisor.Observer.Agreement.{classify_work_item_lem}
use ultravisor.Tests.Samples.{waiting_item, running_item}

abbrev pub busy_beacon : SeenBeacon
busy_beacon = record {
  id = 30;
  name = 31;
  override = none;
  ws_connected = some true;
  last_heartbeat_at = some 900;
  registered_at = some 100;
  liveness = alive;
  capabilities = shell ∷ [];
  max_concurrent = 1;
  current = 12 ∷ [];
}

classify_work_item_lem_example :
    (classify_work_item 5000 default_limits 0 (some running_item) (some dead)).0 ≡ (
      if should_stall 5000 (baseline none running_item).heartbeat_ms running_item
        || (is_dead (some dead) && is_working running_item.status)
      then item_stalled
      else item_healthy)
unfolding baseline
classify_work_item_lem_example = classify_work_item_lem 5000 0 none running_item (some dead) refl

classify_upcoming_lem_example :
    (classify_upcoming (some waiting_item) (busy_beacon ∷ [])).0
    ≡ blocking waiting_item (busy_beacon ∷ [])
classify_upcoming_lem_example = classify_upcoming_lem waiting_item (busy_beacon ∷ []) refl
