-- ===== src/Scheduler/Pick.antt =====
-- `_beaconCanTake` and `_pickBeacon` (source/services/Ultravisor-Beacon-Scheduler.cjs).
use ultravisor.Base.{
  Bool, true, false, ◌&&◌, ◌==◌, Option, none, some, List, [], ◌∷◌, if◌then◌else◌, ltb, length,
  contains, or_num,
}
use ultravisor.Base.Dict.{Dict, lookup, keys}
use ultravisor.Work.{Text, WorkItem, Beacon, BeaconStatus, online, shell}
use ultravisor.Coordinator.Registry.{find_by_name}

abbrev pub is_online : BeaconStatus → Bool
is_online online = true
is_online _ = false

unfoldable pub can_take : Beacon → WorkItem → Bool
can_take bcn it =
    is_online bcn.status
    && contains (or_num it.capability shell) bcn.capabilities
    && ltb (length bcn.current) (or_num bcn.max_concurrent 1)

-- One beacon against the best so far: only a smaller load replaces it.
unfoldable pub better : WorkItem → Text → Beacon → Option (Text × Beacon) → Option (Text × Beacon)
unfolding can_take
better it b bcn none = if can_take bcn it then some (b, bcn) else none
better it b bcn (some (k, old)) =
    if can_take bcn it && ltb (length bcn.current) (length old.current)
    then some (b, bcn)
    else some (k, old)

-- The loop for the least loaded beacon.
unfoldable pub least_loaded :
    WorkItem → List Text → Dict Beacon → Option (Text × Beacon) → Option (Text × Beacon)
unfolding better
least_loaded it [] beacons best = best
least_loaded it (b ∷ bs) beacons best =
    least_loaded it bs beacons
      (elim (lookup b beacons) [ none ↦ best | some bcn ↦ better it b bcn best ])

abbrev pub if_can_take : WorkItem → Text → Beacon → Option (Text × Beacon)
if_can_take it b bcn = if can_take bcn it then some (b, bcn) else none

-- An item that is not assigned: the beacon that its affinity key names, or the least loaded one.
unfoldable pub pick_free : WorkItem → Dict Beacon → Option (Text × Beacon)
unfolding least_loaded can_take
pick_free it beacons =
    if it.affinity_key == 0
    then least_loaded it (keys beacons) beacons none
    else elim (find_by_name it.affinity_key beacons) [
      | none ↦ least_loaded it (keys beacons) beacons none
      | some (b, bcn) ↦ if_can_take it b bcn
    ]

-- The first argument is the beacon that the item is assigned to.
unfoldable pub pick_for : Option Text → WorkItem → Dict Beacon → Option (Text × Beacon)
unfolding pick_free
pick_for none it beacons = pick_free it beacons
pick_for (some b) it beacons = elim (lookup b beacons) [
  | none ↦ none
  | some bcn ↦ if_can_take it b bcn
]

unfoldable pub pick_beacon : WorkItem → Dict Beacon → Option (Text × Beacon)
unfolding pick_for
pick_beacon it beacons = pick_for it.assigned_beacon it beacons
