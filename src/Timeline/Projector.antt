-- ===== src/Timeline/Projector.antt =====
-- What runs now and what is predicted (source/services/Ultravisor-TimelineProjector.cjs). The
-- statistics of a capability come from the observer and are an argument. A confidence is in
-- hundredths.
use ultravisor.Base.{
  ℕ, suc, ◌+◌, ◌-◌, ◌*◌, ◌/◌, ◌==◌, Bool, true, false, not, ◌&&◌, ◌||◌, Option, none, some, List,
  [], ◌∷◌, ◌++◌, if◌then◌else◌, leb, ltb, or_num, or_else, min, contains,
}
use ultravisor.Base.Dict.{Dict}
use ultravisor.Work.{Text, Status, queued, pending, assigned, dispatched, running, WorkItem}

abbrev pub is_in_flight : Status → Bool
is_in_flight dispatched = true
is_in_flight running = true
is_in_flight _ = false

abbrev pub is_to_come : Status → Bool
is_to_come pending = true
is_to_come queued = true
is_to_come assigned = true
is_to_come _ = false

pub record Present : Type 0 where
  pub item : Text
  pub at_ms : ℕ
  pub end_ms : ℕ
  pub run : Text
  pub beacon : Option Text

unfoldable pub project_item : ℕ → Text → WorkItem → Present
project_item now h it = record {
  item = h;
  at_ms = or_else it.dispatched_at (or_else it.assigned_at (or_num it.enqueued_at now));
  end_ms = now;
  run = or_num it.run_hash it.run_id;
  beacon = it.assigned_beacon;
}

unfoldable pub project_present : ℕ → Dict WorkItem → List Present
unfolding project_item
project_present now [] = []
project_present now ((h, it) ∷ q) =
    let rest = project_present now q in
    if is_in_flight it.status then project_item now h it ∷ rest else rest

-- `Samples` and `MedianMs`.
pub record Stats : Type 0 where
  pub samples : ℕ
  pub median_ms : ℕ

pub record Seen : Type 0 where
  pub is_up : Bool
  pub capabilities : List Text
  pub max_concurrent : ℕ

-- The slots of the beacons that are alive or suspect and offer the capability.
unfoldable pub eligible_count : Text → List Seen → ℕ
eligible_count cap [] = 0
eligible_count cap (b ∷ bs) =
    (if b.is_up && contains cap b.capabilities then or_num b.max_concurrent 1 else 0)
    + eligible_count cap bs

unfoldable pub confidence : Stats → ℕ → ℕ
confidence s eligible =
    if s.samples == 0 || eligible == 0 || ltb s.samples 3
    then 0
    else (if ltb s.samples 10
        then 40 + (s.samples - 3) * 5
        else min 100 (80 + min 20 (s.samples - 10)))

abbrev pub unspecified : Text
unspecified = 14

abbrev pub key_of : WorkItem → Text
key_of it = or_num it.capability unspecified

-- The items of one capability in the queue's order.
unfoldable pub group_of : Text → Dict WorkItem → List (Text × WorkItem)
group_of cap [] = []
group_of cap ((h, it) ∷ q) =
    let rest = group_of cap q in
    if is_to_come it.status && key_of it == cap then (h, it) ∷ rest else rest

-- The stable sort by `EnqueuedAt`.
unfoldable pub insert_by_age : Text × WorkItem → List (Text × WorkItem) → List (Text × WorkItem)
insert_by_age e [] = e ∷ []
insert_by_age e (f ∷ fs) =
    if leb e.1.enqueued_at f.1.enqueued_at then e ∷ f ∷ fs else f ∷ insert_by_age e fs

unfoldable pub sort_by_age : List (Text × WorkItem) → List (Text × WorkItem)
unfolding insert_by_age
sort_by_age [] = []
sort_by_age (e ∷ es) = insert_by_age e (sort_by_age es)

pub record Prediction : Type 0 where
  pub item : Text
  pub at_ms : ℕ
  pub end_ms : ℕ
  pub predicted : Option ℕ
  pub confidence : ℕ

unfoldable pub predict : ℕ → Stats → ℕ → ℕ → Text → Prediction
unfolding confidence
predict now s slots i h =
    let predicted : Option ℕ =
      if ltb 0 slots && ltb 0 s.median_ms then some (now + (i / slots) * s.median_ms) else none in
    record {
      item = h;
      at_ms = now;
      end_ms = or_else predicted now;
      predicted = predicted;
      confidence = if ltb 0 slots then confidence s slots else 0;
    }

-- The first `limit` items of a group, the place of each counted from 0.
unfoldable pub predict_from : ℕ → Stats → ℕ → ℕ → ℕ → List (Text × WorkItem) → List Prediction
unfolding predict
predict_from now s slots limit i [] = []
predict_from now s slots limit i ((h, it) ∷ es) =
    let rest = predict_from now s slots limit (suc i) es in
    if ltb i limit then predict now s slots i h ∷ rest else []

abbrev pub future_limit : ℕ
future_limit = 32

unfoldable pub project_group :
    ℕ → (Text → Stats) → List Seen → ℕ → Text → Dict WorkItem → List Prediction
unfolding group_of sort_by_age predict_from eligible_count
project_group now stats beacons asked cap queue =
    predict_from now (stats cap) (eligible_count cap beacons) (or_num asked future_limit) 0
      (sort_by_age (group_of cap queue))

-- The capabilities in the order in which the queue first has them.
unfoldable pub capabilities_of : List Text → Dict WorkItem → List Text
capabilities_of seen [] = []
capabilities_of seen ((h, it) ∷ q) =
    let cap = key_of it in
    let skipped = capabilities_of seen q in
    let kept = cap ∷ capabilities_of (cap ∷ seen) q in
    if not (is_to_come it.status) || contains cap seen then skipped else kept

unfoldable pub project_groups :
    ℕ → (Text → Stats) → List Seen → ℕ → List Text → Dict WorkItem → List Prediction
unfolding project_group
project_groups now stats beacons asked [] queue = []
project_groups now stats beacons asked (cap ∷ caps) queue =
    project_group now stats beacons asked cap queue
    ++ project_groups now stats beacons asked caps queue

unfoldable pub project_future : ℕ → (Text → Stats) → List Seen → ℕ → Dict WorkItem → List Prediction
unfolding project_groups capabilities_of
project_future now stats beacons asked queue =
    project_groups now stats beacons asked (capabilities_of [] queue) queue
