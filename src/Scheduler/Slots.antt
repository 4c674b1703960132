-- ===== src/Scheduler/Slots.antt =====
-- The dispatch tick and the slots of the beacons (source/services/Ultravisor-Beacon-Scheduler.cjs).
use ultravisor.Base.{
  suc, ◌==◌, ◌≤◌, true, some, List, [], ◌∷◌, ◌≡◌, inl, inr, arith, length, length-append, or_num,
  Bool-cases, Option-cases,
}
use ultravisor.Base.Dict.{Dict, lookup, modify, lookup-modify}
use ultravisor.Work.{Text, WorkItem, Beacon}
use ultravisor.Coordinator.State.{Env, Coordinator}
use ultravisor.Scheduler.Order.{sort}
use ultravisor.Scheduler.Pick.{can_take, pick_beacon}
use ultravisor.Scheduler.Picking.{pick_beacon_sound}
use ultravisor.Scheduler.Dispatch.{
  list_hash, dispatch_item, mark_canceled, tick_one, tick_loop, dispatch_tick, waiting,
}

-- No beacon has more items in its list than it may run at once.
abbrev pub WithinCapacity : Dict Beacon → Type 0
WithinCapacity beacons =
    (b : Text) (bcn : Beacon)
    → lookup b beacons ≡ some bcn
    → length bcn.current ≤ or_num bcn.max_concurrent 1

length-list_hash :
    (h : Text) (bcn : Beacon) → length (list_hash h bcn).current ≤ suc (length bcn.current)
length-list_hash h bcn = ground (arith, length-append bcn.current (h ∷ []))

add-WithinCapacity :
    (h b : Text) (bcn : Beacon) (it : WorkItem) (beacons : Dict Beacon)
    → lookup b beacons ≡ some bcn
    → can_take bcn it ≡ true
    → WithinCapacity beacons
    → WithinCapacity (modify b (list_hash h) beacons)
unfolding can_take
add-WithinCapacity h b bcn it beacons there fit v k other e = elim (Bool-cases (b == k)) [
  | inr ne ↦ v k other (ground (arith, lookup-modify b k (list_hash h) beacons))
  | inl same ↦ ground (arith, lookup-modify b k (list_hash h) beacons, length-list_hash h bcn)
]

tick_one-WithinCapacity :
    (env : Env) (h : Text) (it : WorkItem) (c : Coordinator)
    → WithinCapacity c.beacons
    → WithinCapacity (tick_one env h it c).beacons
unfolding tick_one dispatch_item mark_canceled
tick_one-WithinCapacity env h it c v = elim (Bool-cases it.cancel_requested) [
  | inl t ↦ simp t v
  | inr t ↦ simp t (elim (Option-cases (pick_beacon it c.beacons)) [
    | inl e ↦ rw e v
    | inr ((b, bcn), e) ↦
        let fit = pick_beacon_sound it c.beacons b bcn e in
        rw e (add-WithinCapacity h b bcn it c.beacons fit.0 fit.1 v)
  ])
]

tick_loop-WithinCapacity :
    (env : Env) (items : List (Text × WorkItem)) (c : Coordinator)
    → WithinCapacity c.beacons
    → WithinCapacity (tick_loop env items c).beacons
unfolding tick_loop
tick_loop-WithinCapacity env [] c v = v
tick_loop-WithinCapacity env ((h, it) ∷ items) c v =
    tick_loop-WithinCapacity env items (tick_one env h it c) (tick_one-WithinCapacity env h it c v)

-- A dispatch tick never overfills a beacon: where no beacon had more items in its list than its
-- limit, none has afterwards, however many items waited.
pub dispatch_tick-WithinCapacity :
    (env : Env) (c : Coordinator)
    → WithinCapacity c.beacons
    → WithinCapacity (dispatch_tick env c).beacons
unfolding dispatch_tick
dispatch_tick-WithinCapacity env c v = tick_loop-WithinCapacity env (sort (waiting c.queue)) c v
