-- ===== src/Scheduler/Requests.antt =====
-- `requestCancel` and `reorderWorkItem` (source/services/Ultravisor-Beacon-Scheduler.cjs).
use ultravisor.Base.{◌==◌, true, Option, none, some, List, [], ◌∷◌, if◌then◌else◌, or_num}
use ultravisor.Base.Int.{ℤ, suc_ℤ, pred_ℤ}
use ultravisor.Base.Dict.{lookup}
use ultravisor.Work.{Text, Status, WorkItem, cancel_requested_reason}
use ultravisor.Coordinator.State.{
  Env, Coordinator, persist_priority, persist_cancel_request, persist_event, broadcast,
  broadcast_summary, cancel_requested_event, reordered, emit, emit_if, persists, modify_item,
}
use ultravisor.Scheduler.Order.{sort}
use ultravisor.Scheduler.Dispatch.{mark_canceled}
use ultravisor.Scheduler.Buckets.{upcoming, bucket_for, same_bucket, list_buckets}
use ultravisor.Scheduler.Health.{is_upcoming, is_active}

pub data CancelReply : Type 0 where
  canceled_now requested no_such_item : CancelReply
  refused : Status → CancelReply

unfoldable pub to_cancel_requested : Text → WorkItem → WorkItem
to_cancel_requested reason it = record it {
  cancel_requested = true;
  cancel_reason = or_num reason cancel_requested_reason;
}

unfoldable pub request_cancel : Env → Text → Text → Coordinator → Coordinator × CancelReply
unfolding mark_canceled to_cancel_requested
request_cancel env h reason c = elim (lookup h c.queue) [
  | none ↦ (c, no_such_item)
  | some it ↦
      if is_upcoming it.status
      then (mark_canceled env h it reason c, canceled_now)
      else (if is_active it.status
          then (
            emit (broadcast h cancel_requested_event ∷ []) (
                emit_if (persists env it)
                  (persist_cancel_request h
                    ∷ persist_event h cancel_requested_event (some it.status) it.status
                    ∷ [])
                  (modify_item h (to_cancel_requested reason) c)),
            requested,
          )
          else (c, refused it.status))
]

pub data Direction : Type 0 where
  up down : Direction

pub data ReorderReply : Type 0 where
  moved : ℤ → ℤ → ReorderReply
  missing not_upcoming not_listed at_top at_bottom : ReorderReply

-- The neighbours of an entry in a list: whether it is there, and what stands before and behind it.
pub record Place : Type 0 where
  pub before : Option (Text × WorkItem)
  pub behind : Option (Text × WorkItem)

abbrev pub first : List (Text × WorkItem) → Option (Text × WorkItem)
first [] = none
first (x ∷ xs) = some x

unfoldable pub place_of : Text → Option (Text × WorkItem) → List (Text × WorkItem) → Option Place
place_of h prev [] = none
place_of h prev ((k, it) ∷ rest) =
    let later = place_of h (some (k, it)) rest in
    if k == h then some (record { before = prev; behind = first rest }) else later

abbrev pub neighbour : Direction → Place → Option (Text × WorkItem)
neighbour up p = p.before
neighbour down p = p.behind

abbrev pub at_edge : Direction → ReorderReply
at_edge up = at_top
at_edge down = at_bottom

-- One above the neighbour, or one below it.
abbrev pub new_priority : Direction → ℤ → ℤ
new_priority up p = suc_ℤ p
new_priority down p = pred_ℤ p

abbrev pub with_priority : ℤ → WorkItem → WorkItem
with_priority p it = record it { priority = p }

unfoldable pub move_item :
    Env → Direction → Text → WorkItem → WorkItem → Coordinator → Coordinator × ReorderReply
move_item env dir h it next c =
    let p = new_priority dir next.priority in
    (
      emit (broadcast h reordered ∷ broadcast_summary ∷ []) (
          emit_if (persists env it)
            (persist_priority h ∷ persist_event h reordered (some it.status) it.status ∷ [])
            (modify_item h (with_priority p) c)),
      moved it.priority p,
    )

unfoldable pub reorder_item : Env → Direction → Text → Coordinator → Coordinator × ReorderReply
unfolding move_item place_of sort list_buckets bucket_for
reorder_item env dir h c = elim (lookup h c.queue) [
  | none ↦ (c, missing)
  | some it ↦
      if same_bucket (bucket_for it) upcoming
      then elim (place_of h none (sort (list_buckets (some upcoming) 5000 c.queue))) [
        | none ↦ (c, not_listed)
        | some p ↦ elim (neighbour dir p) [
          | none ↦ (c, at_edge dir)
          | some (k, next) ↦ move_item env dir h it next c
        ]
      ]
      else (c, not_upcoming)
]
