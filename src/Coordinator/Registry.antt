-- ===== src/Coordinator/Registry.antt =====
-- The beacon registry: `registerBeacon`, `deregisterBeacon`, `heartbeat` and the lookups by name
-- and session (source/services/Ultravisor-Beacon-Coordinator.cjs). Of a registration the record is
-- kept; the action catalog, the operations that a beacon brings, reachability probes and the
-- notices to the fleet manager and the persistence bridges change no map of this module.
use ultravisor.Base.{
  ℕ, ◌==◌, Bool, true, false, Option, none, some, List, [], ◌∷◌, if◌then◌else◌, leb, length, or_num,
  or_else, is_some,
}
use ultravisor.Base.Dict.{find, Dict, lookup, insert, modify, delete}
use ultravisor.Work.{Text, WorkItem, Beacon, online, busy, pending, is_held}
use ultravisor.Coordinator.State.{Env, Coordinator, modify_beacon}

abbrev pub unnamed : Text
unnamed = 10

pub record BeaconInfo : Type 0 where
  pub info_name : Text
  pub info_capabilities : Option (List Text)
  pub info_max_concurrent : ℕ

unfoldable pub find_by_name : Text → Dict Beacon → Option (Text × Beacon)
find_by_name name beacons = find (λ bcn. bcn.name == name) beacons

unfoldable pub find_by_session : Text → Dict Beacon → Option (Text × Beacon)
find_by_session session beacons = find (λ bcn. bcn.session == session) beacons

-- A known name is reclaimed in place, whatever its status.
unfoldable pub reclaim : ℕ → BeaconInfo → Text → Beacon → Beacon
reclaim now info session bcn = record bcn {
  session = session;
  last_heartbeat = now;
  status = online;
  capabilities = or_else info.info_capabilities bcn.capabilities;
  max_concurrent = or_num info.info_max_concurrent bcn.max_concurrent;
}

unfoldable pub new_beacon : ℕ → BeaconInfo → Text → Beacon
new_beacon now info session = record {
  name = or_num info.info_name unnamed;
  session = session;
  capabilities = or_else info.info_capabilities [];
  status = online;
  last_heartbeat = now;
  current = [];
  max_concurrent = or_num info.info_max_concurrent 1;
  registered_at = now;
}

unfoldable pub register_beacon : Env → BeaconInfo → Text → Coordinator → Coordinator
unfolding reclaim new_beacon
register_beacon env info session c =
    let name = or_num info.info_name unnamed in
    elim (find_by_name name c.beacons) [
      | some (b, old) ↦ modify_beacon b (reclaim env.now info session) c
      | none ↦ record c {
        beacons = insert (env.beacon_id name env.now) (new_beacon env.now info session) c.beacons;
      }
    ]

-- An item that was assigned or running goes back to the queue.
unfoldable pub release : WorkItem → WorkItem
release it =
    if is_held it.status
    then record it { status = pending; assigned_beacon = none; claimed_at = none }
    else it

unfoldable pub release_all : List Text → Dict WorkItem → Dict WorkItem
unfolding release
release_all [] queue = queue
release_all (h ∷ hs) queue = release_all hs (modify h release queue)

unfoldable pub deregister_beacon : Text → Coordinator → Coordinator × Bool
unfolding release_all
deregister_beacon b c = elim (lookup b c.beacons) [
  | none ↦ (c, false)
  | some bcn ↦
      (record c { queue = release_all bcn.current c.queue; beacons = delete b c.beacons }, true)
]

unfoldable pub beat : ℕ → Beacon → Beacon
beat now bcn = record bcn {
  last_heartbeat = now;
  status = if leb bcn.max_concurrent (length bcn.current) then busy else online;
}

unfoldable pub heartbeat : Env → Text → Coordinator → Coordinator × Bool
unfolding beat
heartbeat env b c = (modify_beacon b (beat env.now) c, is_some (lookup b c.beacons))
