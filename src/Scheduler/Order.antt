-- ===== src/Scheduler/Order.antt =====
-- `_compareDispatchPriority` and the stable sort by it
-- (source/services/Ultravisor-Beacon-Scheduler.cjs). Enqueue times are ISO texts of one format,
-- which compare as the times do.
use ultravisor.Base.{Bool, true, false, List, [], ◌∷◌, if◌then◌else◌, Ordering, compare}
use ultravisor.Base.Int.{ltb_ℤ}
use ultravisor.Work.{Text, WorkItem, is_assigned}

-- Higher priority first, then the earlier enqueue time.
unfoldable pub compare_priority : WorkItem → WorkItem → Ordering
compare_priority a b =
    if ltb_ℤ b.priority a.priority
    then Ordering.lt
    else (if ltb_ℤ a.priority b.priority then Ordering.gt else compare a.enqueued_at b.enqueued_at)

-- The sign of `_compareDispatchPriority(a, b)`: assigned items first.
unfoldable pub compare_dispatch : WorkItem → WorkItem → Ordering
unfolding compare_priority
compare_dispatch a b =
    if is_assigned a.status
    then (if is_assigned b.status then compare_priority a b else Ordering.lt)
    else (if is_assigned b.status then Ordering.gt else compare_priority a b)

abbrev pub is_gt : Ordering → Bool
is_gt Ordering.gt = true
is_gt _ = false

-- One entry goes in front of the first that has to come after it, behind its equals.
unfoldable pub place : Text × WorkItem → List (Text × WorkItem) → List (Text × WorkItem)
unfolding compare_dispatch
place x [] = x ∷ []
place x (y ∷ ys) =
    let rest = y ∷ place x ys in if is_gt (compare_dispatch x.1 y.1) then rest else x ∷ y ∷ ys

-- `sort`: stable, so the entries are placed from the back.
unfoldable pub sort : List (Text × WorkItem) → List (Text × WorkItem)
unfolding place
sort [] = []
sort (x ∷ xs) = place x (sort xs)
