-- ===== src/Tests/Scheduling.antt =====
-- The scheduler's theorems at concrete states.
use ultravisor.Base.{
  ◌==◌, ◌⊎◌, true, none, some, List, [], ◌∷◌, ◌≡◌, refl, arith, inl, inr, Bool-cases, contains,
}
use ultravisor.Base.Int.{pos, suc_ℤ}
use ultravisor.Base.Dict.{IsUnique, lookup, find_in, keys}
use ultravisor.Work.{Text, WorkItem, canceled, assigned}
use ultravisor.Coordinator.State.{Coordinator}
use ultravisor.Coordinator.Registry.{find_by_name}
use ultravisor.Scheduler.Pick.{can_take, pick_beacon}
use ultravisor.Scheduler.Dispatch.{dispatch_tick}
use ultravisor.Scheduler.Requests.{request_cancel, canceled_now, reorder_item, up, moved}
use ultravisor.Scheduler.Picking.{pick_beacon_sound}
use ultravisor.Scheduler.Slots.{WithinCapacity, dispatch_tick-WithinCapacity}
use ultravisor.Scheduler.Ticks.{dispatch_tick-request_cancel}
use ultravisor.Scheduler.Moves.{HasMoved, reorder_item-moves}
use ultravisor.Tests.Samples.{
  env_5000, beacon_of, waiting_item, with_waiting, with_running, coordinator_of,
}

with_waiting-WithinCapacity : WithinCapacity with_waiting.beacons
unfolding lookup
with_waiting-WithinCapacity b bcn e = elim (Bool-cases (60 == b)) [
  | inl t ↦ ground arith
  | inr t ↦ ground arith
]

dispatch_tick-WithinCapacity_example : WithinCapacity (dispatch_tick env_5000 with_waiting).beacons
dispatch_tick-WithinCapacity_example =
    dispatch_tick-WithinCapacity env_5000 with_waiting with_waiting-WithinCapacity

pick_60 : pick_beacon waiting_item with_waiting.beacons ≡ some (60, beacon_of [])
unfolding pick_beacon keys lookup contains
pick_60 = refl

pick_beacon_sound_example :
    (lookup 60 with_waiting.beacons ≡ some (beacon_of []))
    × (can_take (beacon_of []) waiting_item ≡ true)
    × ((waiting_item.assigned_beacon ≡ none) ⊎ (waiting_item.assigned_beacon ≡ some 60))
pick_beacon_sound_example =
    pick_beacon_sound waiting_item with_waiting.beacons 60 (beacon_of []) pick_60

-- It has to run on a beacon of the name 21; the only one is named 20.
abbrev strict_item : WorkItem
strict_item = record waiting_item { affinity_key = 21; require_affinity_match = true }

pick_60_strict : pick_beacon strict_item with_waiting.beacons ≡ some (60, beacon_of [])
unfolding pick_beacon find_by_name find_in keys lookup contains
pick_60_strict = refl

abbrev three_items : List (Text × WorkItem)
three_items =
    (7, waiting_item)
    ∷ (8, record waiting_item { priority = pos 3 })
    ∷ (9, record waiting_item { status = assigned })
    ∷ []

with_running-IsUnique : IsUnique with_running.queue
unfolding lookup
with_running-IsUnique = (refl, (refl, tt))

dispatch_tick-request_cancel_example :
    ((request_cancel env_5000 7 0 with_running).1 ≡ canceled_now)
    × ((request_cancel env_5000 7 0 with_running).0.beacons ≡ with_running.beacons)
    × ((x : WorkItem) × (lookup 7
            (dispatch_tick env_5000 (request_cancel env_5000 7 0 with_running).0).queue
          ≡ some x)
        × (x.status ≡ canceled))
unfolding lookup
dispatch_tick-request_cancel_example =
    dispatch_tick-request_cancel env_5000 env_5000 7 0 waiting_item with_running
      with_running-IsUnique refl refl

abbrev with_three : Coordinator
with_three = coordinator_of [] three_items

move_7_up : (reorder_item env_5000 up 7 with_three).1 ≡ moved (pos 0) (pos 4)
unfolding reorder_item lookup suc_ℤ
move_7_up = refl

reorder_item-moves_example :
    HasMoved up 7 with_three (reorder_item env_5000 up 7 with_three).0 (pos 0) (pos 4)
reorder_item-moves_example = reorder_item-moves env_5000 up 7 with_three (pos 0) (pos 4) move_7_up
