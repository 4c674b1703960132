-- ===== src/Scheduler/Ticks.antt =====
-- The items that a dispatch tick leaves alone, and canceled ones (source/services/Ultravisor-Beacon-Scheduler.cjs).
use ultravisor.Base.{
  ◌==◌, Bool, true, false, not, ◌&&◌, none, some, List, [], ◌∷◌, ◌≡◌, refl, ◌∙◌, inl, inr, arith,
  Bool-cases, Option-cases,
}
use ultravisor.Base.Dict.{Dict, IsUnique, lookup, modify-IsUnique, lookup-modify}
use ultravisor.Work.{Text, WorkItem, canceled, canceled_before_dispatch}
use ultravisor.Coordinator.State.{Env, Coordinator}
use ultravisor.Scheduler.Order.{place, sort}
use ultravisor.Scheduler.Pick.{pick_beacon}
use ultravisor.Scheduler.Dispatch.{
  awaits_dispatch, dispatch_item, mark_canceled, to_canceled, to_dispatched, waiting, tick_one,
  tick_loop, dispatch_tick,
}
use ultravisor.Scheduler.Health.{is_upcoming}
use ultravisor.Scheduler.Requests.{request_cancel, canceled_now}

-- No entry of the list is the item's.
abbrev absent : Text → List (Text × WorkItem) → Bool
absent h [] = true
absent h (x ∷ xs) = not (x.0 == h) && absent h xs

absent-place :
    (h : Text) (x : Text × WorkItem) (xs : List (Text × WorkItem))
    → absent h (place x xs) ≡ (not (x.0 == h) && absent h xs)
unfolding place
absent-place h x [] = refl
absent-place h x (y ∷ ys) = ground (arith, absent-place h x ys)

absent-sort : (h : Text) (xs : List (Text × WorkItem)) → absent h (sort xs) ≡ absent h xs
unfolding sort
absent-sort h [] = refl
absent-sort h (x ∷ xs) = ground (arith, absent-place h x (sort xs), absent-sort h xs)

absent-waiting-none :
    (h : Text) (m : Dict WorkItem) → lookup h m ≡ none → absent h (waiting m) ≡ true
unfolding waiting lookup
absent-waiting-none h [] e = refl
absent-waiting-none h ((k, it) ∷ m) e = ground (arith, absent-waiting-none h m)

absent-waiting :
    (h : Text) (it : WorkItem) (m : Dict WorkItem)
    → IsUnique m
    → lookup h m ≡ some it
    → awaits_dispatch it.status ≡ false
    → absent h (waiting m) ≡ true
unfolding waiting lookup
absent-waiting h it [] u e s = cc
absent-waiting h it ((k, x) ∷ m) u e s = elim (Bool-cases (k == h)) [
  | inl t ↦ ground (arith, absent-waiting-none h m)
  | inr t ↦ ground (arith, absent-waiting h it m u.1)
]

lookup-tick_one :
    (env : Env) (h k : Text) (it : WorkItem) (c : Coordinator)
    → (k == h) ≡ false
    → lookup h (tick_one env k it c).queue ≡ lookup h c.queue
unfolding tick_one dispatch_item mark_canceled
lookup-tick_one env h k it c ne = elim (Bool-cases it.cancel_requested) [
  | inl t ↦
      simp t ground
        (arith, lookup-modify k h (to_canceled env.now canceled_before_dispatch) c.queue)
  | inr t ↦ simp t (elim (Option-cases (pick_beacon it c.beacons)) [
    | inl e ↦ rw e refl
    | inr ((b, bcn), e) ↦ rw e (ground (arith, lookup-modify k h (to_dispatched env.now b) c.queue))
  ])
]

lookup-tick_loop :
    (env : Env) (h : Text) (items : List (Text × WorkItem)) (c : Coordinator)
    → absent h items ≡ true
    → lookup h (tick_loop env items c).queue ≡ lookup h c.queue
unfolding tick_loop
lookup-tick_loop env h [] c a = refl
lookup-tick_loop env h ((k, it) ∷ items) c a =
    lookup-tick_loop env h items (tick_one env k it c) (ground (arith, a))
    ∙ lookup-tick_one env h k it c (ground (arith, a))

-- In a queue with one entry per hash, a dispatch tick changes no item whose status is neither
-- Queued nor Pending.
pub lookup-dispatch_tick :
    (env : Env) (h : Text) (it : WorkItem) (c : Coordinator)
    → IsUnique c.queue
    → lookup h c.queue ≡ some it
    → awaits_dispatch it.status ≡ false
    → lookup h (dispatch_tick env c).queue ≡ some it
unfolding dispatch_tick
lookup-dispatch_tick env h it c u e s =
    let rest =
      lookup-tick_loop env h (sort (waiting c.queue)) c
        (absent-sort h (waiting c.queue) ∙ absent-waiting h it c.queue u e s) in
    rest ∙ e

-- The cancellation of an item that waits for a beacon is final: the reply says so, and after the
-- next dispatch tick the item is still there and Canceled, although its hash stays in the list of a
-- beacon that it was assigned to: the request changes no beacon.
pub dispatch_tick-request_cancel :
    (env later : Env) (h reason : Text) (it : WorkItem) (c : Coordinator)
    → IsUnique c.queue
    → lookup h c.queue ≡ some it
    → is_upcoming it.status ≡ true
    → ((request_cancel env h reason c).1 ≡ canceled_now)
      × ((request_cancel env h reason c).0.beacons ≡ c.beacons)
      × ((x : WorkItem) × (lookup h (dispatch_tick later (request_cancel env h reason c).0).queue
            ≡ some x)
          × (x.status ≡ canceled))
unfolding request_cancel mark_canceled to_canceled
dispatch_tick-request_cancel env later h reason it c u e s =
    let x = to_canceled env.now reason it in
    let stays =
      lookup-dispatch_tick later h x (request_cancel env h reason c).0
        (ground (arith, e, s, modify-IsUnique h (to_canceled env.now reason) c.queue u))
        (ground (arith, e, s, lookup-modify h h (to_canceled env.now reason) c.queue)) refl in
    (ground (arith, e, s), ground (arith, e, s), (x, stays, refl))
