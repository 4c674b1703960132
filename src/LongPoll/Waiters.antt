-- ===== src/LongPoll/Waiters.antt =====
-- The manager's state, `register`, `_settle` and `cancel`
-- (source/services/Ultravisor-LongPollManager.cjs), and the request that waits
-- (source/web_server/Ultravisor-API-Server.cjs). A waiter object is reached by its number; a Set is
-- the list of its waiters in order of insertion.
use ultravisor.Base.{
  ℕ, ◌+◌, Bool, true, false, none, some, List, [], ◌∷◌, ◌++◌, if◌then◌else◌, leb, length, contains,
  remove, or_num,
}
use ultravisor.Base.Dict.{Dict, lookup, insert, modify}
use ultravisor.Work.{Text}

pub record Waiter : Type 0 where
  pub bucket : Text
  pub since : Text
  pub limit : ℕ
  pub settled : Bool
  -- `TimeoutHandle` is a timer that has not fired and is not cleared.
  pub has_timer : Bool

-- The responses that are sent: events with `More`, no events, and the refusal with status 503.
pub data Answer : Type 0 where
  events : Text → List Text → Bool → Answer
  empty : Text → Answer
  too_many : Text → Answer

pub record Manager : Type 0 where
  pub buckets : Dict (List Text)
  pub waiters : Dict Waiter
  pub max_waiters : ℕ
  pub answers : List Answer

abbrev pub queue_bucket : Text
queue_bucket = 1

abbrev pub observer_bucket : Text
observer_bucket = 2

-- The constructor; a cap of 0 is the default.
abbrev pub new_manager : ℕ → Manager
new_manager cap = record {
  buckets = (queue_bucket, []) ∷ (observer_bucket, []) ∷ [];
  waiters = [];
  max_waiters = or_num cap 1024;
  answers = [];
}

unfoldable pub total_waiters : Dict (List Text) → ℕ
total_waiters [] = 0
total_waiters ((name, set) ∷ m) = length set + total_waiters m

abbrev pub answer : Answer → Manager → Manager
answer a m = record m { answers = m.answers ++ a ∷ [] }

abbrev pub add : Text → List Text → List Text
add id set = if contains id set then set else set ++ id ∷ []

abbrev pub open_waiter : Waiter → Waiter
open_waiter w = record w { settled = false }

unfoldable pub register : Text → Waiter → Manager → Manager × Bool
register id w m = elim (lookup w.bucket m.buckets) [
  | none ↦ (m, false)
  | some set ↦ if leb m.max_waiters (total_waiters m.buckets) then (m, false) else (
    record m {
      buckets = insert w.bucket (add id set) m.buckets;
      waiters = insert id (open_waiter w) m.waiters;
    },
    true,
  )
]

abbrev pub close_waiter : Waiter → Waiter
close_waiter w = record w { settled = true; has_timer = false }

-- `_settle` of a waiter that is found, with whether it was open.
unfoldable pub settle_waiter : Text → Waiter → Manager → Manager × Bool
settle_waiter id w m = if w.settled then (m, false) else (
  record m {
    buckets = modify w.bucket (remove id) m.buckets;
    waiters = modify id close_waiter m.waiters;
  },
  true,
)

unfoldable pub cancel : Text → Manager → Manager
unfolding settle_waiter
cancel id m = elim (lookup id m.waiters) [ none ↦ m | some w ↦ (settle_waiter id w m).0 ]

abbrev pub with_timer : Waiter → Waiter
with_timer w = record w { has_timer = true }

-- A request without events to send at once: a new waiter, then its timer.
unfoldable pub wait_for : Text → Text → Text → ℕ → Manager → Manager
unfolding register
wait_for id bucket since limit m =
    let r =
      register id
        (record {
          bucket = bucket;
          since = since;
          limit = limit;
          settled = false;
          has_timer = false;
        })
        m in
    if r.1
    then record r.0 { waiters = modify id with_timer r.0.waiters }
    else answer (too_many id) r.0

-- The timer's callback, where the timer is still set.
unfoldable pub on_timer : Text → Manager → Manager
unfolding cancel
on_timer id m = elim (lookup id m.waiters) [
  | none ↦ m
  | some w ↦ if w.has_timer then answer (empty id) (cancel id m) else m
]
