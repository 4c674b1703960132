-- ===== src/Scheduler/Moves.antt =====
-- Where a reordered item lands (source/services/Ultravisor-Beacon-Scheduler.cjs).
use ultravisor.Base.{
  ◌==◌, if◌then◌else◌, none, some, ◌≡◌, ◌≢◌, sym, inl, inr, arith, Ordering, Bool-cases,
  Option-cases,
}
use ultravisor.Base.Int.{ℤ, pred_ℤ, ltb_ℤ-suc, ltb_ℤ-pred, ltb_ℤ-asymm}
use ultravisor.Base.Dict.{lookup, lookup-modify}
use ultravisor.Work.{Text, WorkItem, is_assigned}
use ultravisor.Coordinator.State.{Env, Coordinator}
use ultravisor.Scheduler.Order.{compare_priority, compare_dispatch, sort}
use ultravisor.Scheduler.Buckets.{upcoming, bucket_for, same_bucket, list_buckets}
use ultravisor.Scheduler.Requests.{
  Direction, up, down, moved, Place, neighbour, new_priority, with_priority, place_of, move_item,
  reorder_item, at_edge,
}

-- On which side of the neighbour an item has to be served.
abbrev pub side : Direction → Ordering
side up = Ordering.lt
side down = Ordering.gt

-- How the item compares with the neighbour afterwards: an assigned item stands before one that is not.
abbrev pub placed : Direction → WorkItem → WorkItem → Ordering
placed dir it next =
    if is_assigned it.status
    then (if is_assigned next.status then side dir else Ordering.lt)
    else (if is_assigned next.status then Ordering.gt else side dir)

compare_priority-new :
    (dir : Direction) (it next : WorkItem)
    → compare_priority (with_priority (new_priority dir next.priority) it) next ≡ side dir
unfolding compare_priority
compare_priority-new up it next = ground (arith, ltb_ℤ-suc next.priority)
compare_priority-new down it next =
    ground (arith, ltb_ℤ-pred next.priority, ltb_ℤ-asymm (pred_ℤ next.priority) next.priority)

compare_dispatch-new :
    (dir : Direction) (it next : WorkItem)
    → compare_dispatch (with_priority (new_priority dir next.priority) it) next ≡ placed dir it next
unfolding compare_dispatch
compare_dispatch-new dir it next = ground (arith, compare_priority-new dir it next)

at_edge-moved : (dir : Direction) (p q : ℤ) → at_edge dir ≢ moved p q
at_edge-moved up p q h = cc
at_edge-moved down p q h = cc

-- What the reply `moved` stands for, about the queue in front of it and the queue behind it.
abbrev pub HasMoved : Direction → Text → Coordinator → Coordinator → ℤ → ℤ → Type 0
HasMoved dir h c after p q =
    (it : WorkItem) × (next : WorkItem) × (place : Place) × (k : Text) × (lookup h c.queue
      ≡ some it)
    × (it.priority ≡ p)
    × (place_of h none (sort (list_buckets (some upcoming) 5000 c.queue)) ≡ some place)
    × (neighbour dir place ≡ some (k, next))
    × (compare_dispatch (with_priority q it) next ≡ placed dir it next)
    × ((j : Text)
        → lookup j after.queue ≡ (if h == j then some (with_priority q it) else lookup j c.queue))

-- Where the reply is that the item has moved from one priority to another, the item had the first;
-- in the sorted list of upcoming items it had a neighbour on the side that was asked for; it is in
-- the queue with the second priority. Where both items are assigned, or neither is, it is now served
-- strictly before that neighbour (`up`) or strictly behind it (`down`); where one of them is
-- assigned, that one is served first, whatever was asked for. No other item has changed.
pub reorder_item-moves :
    (env : Env) (dir : Direction) (h : Text) (c : Coordinator) (p q : ℤ)
    → (reorder_item env dir h c).1 ≡ moved p q
    → HasMoved dir h c (reorder_item env dir h c).0 p q
unfolding reorder_item move_item
reorder_item-moves env dir h c p q e = elim (Option-cases (lookup h c.queue)) [
  | inl n ↦ ground arith
  | inr (it, l) ↦ elim (Bool-cases (same_bucket (bucket_for it) upcoming)) [
    | inr t ↦ ground arith
    | inl t ↦
        elim (Option-cases (place_of h none (sort (list_buckets (some upcoming) 5000 c.queue)))) [
          | inl n ↦ ground arith
          | inr (place, pl) ↦ elim (Option-cases (neighbour dir place)) [
            | inl n ↦ ground (arith, at_edge-moved dir p q)
            | inr ((k, next), nb) ↦
                let same_p : it.priority ≡ p = ground arith in
                let same_q : new_priority dir next.priority ≡ q = ground arith in
                (
                  it,
                  next,
                  place,
                  k,
                  l,
                  same_p,
                  pl,
                  nb,
                  (rw (sym same_q) (compare_dispatch-new dir it next)),
                  (λ j. ground (
                    arith,
                    lookup-modify h j (with_priority (new_priority dir next.priority)) c.queue,
                  )),
                )
          ]
        ]
  ]
]
