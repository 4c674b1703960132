-- ===== src/Tests/Polls.antt =====
-- The theorems on long polls at concrete requests.
use ultravisor.Base.{
  arith, Bool, remove, ℕ, ◌≤◌, true, false, Option, some, List, [], ◌∷◌, ◌≡◌, refl,
}
use ultravisor.Base.Dict.{lookup, modify}
use ultravisor.Work.{Text}
use ultravisor.LongPoll.Waiters.{
  Waiter, Manager, new_manager, on_timer, observer_bucket, queue_bucket, open_waiter, close_waiter,
  register, settle_waiter, total_waiters,
}
use ultravisor.LongPoll.Drains.{drain_one, filter}
use ultravisor.LongPoll.Answers.{times}
use ultravisor.LongPoll.Runs.{Call, waits, timer, broadcast, evict_all, run, run-times_le}
use ultravisor.LongPoll.Cap.{IsCapped}
use ultravisor.LongPoll.Rearm.{drain_one_clears_timer}

-- A request waits, a broadcast answers it, its timer fires late, and the server shuts down.
abbrev calls : List Call
calls =
    waits 7 queue_bucket 3 10
    ∷ broadcast queue_bucket (λ since. some 0) (λ topic. true) (3 ∷ 4 ∷ 5 ∷ [])
    ∷ timer 7
    ∷ evict_all
    ∷ []

run-times_le_example : times 7 (run calls (new_manager 0)).answers ≤ 1
unfolding lookup
run-times_le_example = run-times_le 0 calls 7 (refl, tt)

-- A request on the observer's stream with its timer set.
abbrev observing : Waiter
observing = record {
  bucket = observer_bucket;
  since = 3;
  limit = 10;
  settled = false;
  has_timer = true;
}

abbrev with_observing : Manager
with_observing = record {
  buckets = (queue_bucket, []) ∷ (observer_bucket, 7 ∷ []) ∷ [];
  waiters = (7, observing) ∷ [];
  max_waiters = 1024;
  answers = [];
}

abbrev no_topic : Text → Bool
no_topic topic = false

abbrev at_start : Text → Option ℕ
at_start since = some 0

there_is_room :
    (register 7 (close_waiter observing) (settle_waiter 7 observing with_observing).0).1 ≡ true
unfolding register lookup settle_waiter modify total_waiters remove
there_is_room = refl

drain_one_clears_timer_example :
    ((drain_one at_start no_topic (3 ∷ 4 ∷ []) 7 with_observing).answers ≡ with_observing.answers)
    × (lookup 7 (drain_one at_start no_topic (3 ∷ 4 ∷ []) 7 with_observing).waiters
        ≡ some (open_waiter (close_waiter observing)))
    × (on_timer 7 (drain_one at_start no_topic (3 ∷ 4 ∷ []) 7 with_observing)
        ≡ drain_one at_start no_topic (3 ∷ 4 ∷ []) 7 with_observing)
unfolding lookup filter
drain_one_clears_timer_example =
    drain_one_clears_timer at_start no_topic (3 ∷ 4 ∷ []) 7 0 observing with_observing refl refl
      refl refl refl there_is_room

with_observing-IsCapped : IsCapped with_observing
unfolding total_waiters
with_observing-IsCapped = omega arith
