-- ===== src/Resync/Ring.antt =====
-- The queue's event stream: `_stampQueueEvent`, `_findQueueEventIndex`, `QueueSubscribe` and the
-- answer of `_handleLongPollRequest` that does not wait
-- (source/web_server/Ultravisor-API-Server.cjs). Payloads and times are left out.
use ultravisor.Base.{
  ℕ, suc, ◌-◌, ◌==◌, Bool, not, ◌||◌, Option, none, some, List, [], ◌∷◌, ◌++◌, if◌then◌else◌,
  length, drop, take, ltb,
}
use ultravisor.Work.{Text}
use ultravisor.Engine.Names.{Name, same_name}
use ultravisor.Timeline.Aggregator.{codes}

pub record Stamped : Type 0 where
  pub topic : Name
  pub guid : Text
  pub seq : ℕ

pub record Ring : Type 0 where
  pub buffer : List Stamped
  pub cap : ℕ
  pub seq : ℕ

abbrev pub is_replayable : Name → Bool
is_replayable t = not (
    same_name t (codes "queue.summary")
    || same_name t (codes "queue.replay_begin")
    || same_name t (codes "queue.replay_complete")
    || same_name t (codes "queue.reset"))

-- `splice(0, length - cap)` where the buffer is longer than the cap.
abbrev pub keep_last : ℕ → List Stamped → List Stamped
keep_last cap xs = drop (length xs - cap) xs

abbrev pub stamped : Name → Text → Ring → Stamped
stamped topic guid r = record { topic = topic; guid = guid; seq = suc r.seq }

unfoldable pub stamp : Name → Text → Ring → Ring
unfolding same_name
stamp topic guid r =
    if is_replayable topic
    then record r {
      seq = suc r.seq;
      buffer = keep_last r.cap (r.buffer ++ stamped topic guid r ∷ []);
    }
    else record r { seq = suc r.seq }

-- The scan from the newest event on.
unfoldable pub last_index : Text → List Stamped → Option ℕ
last_index g [] = none
last_index g (x ∷ xs) = elim (last_index g xs) [
  | some i ↦ some (suc i)
  | none ↦ if x.guid == g then some 0 else none
]

unfoldable pub find_index : Text → List Stamped → Option ℕ
unfolding last_index
find_index g xs = if g == 0 then none else last_index g xs

-- What a subscription sends: a reset, or the events after the client's last one between two
-- control frames.
pub data Frame : Type 0 where
  reset : Text → Frame
  replay_begin replay_complete : Text → ℕ → Frame
  replayed : Stamped → Frame

unfoldable pub replay : List Stamped → List Frame
replay [] = []
replay (x ∷ xs) = replayed x ∷ replay xs

unfoldable pub last_guid : Text → List Stamped → Text
last_guid g [] = g
last_guid g (x ∷ xs) = last_guid x.guid xs

abbrev pub replay_frames : Text → List Stamped → List Frame
replay_frames g xs =
    replay_begin g (length xs) ∷ replay xs ++ replay_complete (last_guid g xs) (length xs) ∷ []

-- A subscription without a last event sends nothing. Each control frame takes a sequence number.
unfoldable pub subscribe : Text → Ring → Ring × List Frame
unfolding find_index replay last_guid
subscribe last r = if last == 0 then (r, []) else elim (find_index last r.buffer) [
  | none ↦ (record r { seq = suc r.seq }, reset last ∷ [])
  | some i ↦ (record r { seq = suc (suc r.seq) }, replay_frames last (drop (suc i) r.buffer))
]

-- The answers of a poll that need not wait: status 410, or events with the cursor and `More`.
pub data PollAnswer : Type 0 where
  gone : PollAnswer
  poll_events : List Stamped → Text → Bool → PollAnswer

unfoldable pub filter_topic : (Name → Bool) → List Stamped → List Stamped
filter_topic p [] = []
filter_topic p (x ∷ xs) = let rest = filter_topic p xs in if p x.topic then x ∷ rest else rest

abbrev pub poll_answer : Text → ℕ → List Stamped → PollAnswer
poll_answer since limit xs =
    poll_events (take limit xs) (last_guid since (take limit xs)) (ltb limit (length xs))

unfoldable pub poll_now : (Name → Bool) → Text → ℕ → Ring → PollAnswer
unfolding find_index filter_topic last_guid
poll_now matches since limit r =
    if since == 0
    then poll_answer since limit (filter_topic matches r.buffer)
    else elim (find_index since r.buffer) [
      | none ↦ gone
      | some i ↦ poll_answer since limit (filter_topic matches (drop (suc i) r.buffer))
    ]
