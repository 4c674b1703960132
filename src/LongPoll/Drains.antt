-- ===== src/LongPoll/Drains.antt =====
-- `drainOnBroadcast` and `drainAll` (source/services/Ultravisor-LongPollManager.cjs) with the
-- `fSatisfy` of the API server's waiters (source/web_server/Ultravisor-API-Server.cjs). The index of
-- an event in the buffer and the topic filter are arguments.
use ultravisor.Base.{
  ℕ, suc, ◌==◌, Bool, ◌||◌, Option, none, some, List, [], ◌∷◌, if◌then◌else◌, ltb, length, take,
  drop, min,
}
use ultravisor.Base.Dict.{lookup, insert, keys}
use ultravisor.Work.{Text}
use ultravisor.LongPoll.Waiters.{
  Waiter, events, empty, Manager, answer, register, settle_waiter, close_waiter,
}

unfoldable pub filter : (Text → Bool) → List Text → List Text
filter p [] = []
filter p (x ∷ xs) = let rest = filter p xs in if p x then x ∷ rest else rest

-- `fSatisfy`, after the waiter has been settled: where no event passes the filter it is registered
-- again, and answered with no events where that is refused.
unfoldable pub satisfy : (Text → Bool) → Text → Waiter → List Text → Bool → Manager → Manager
unfolding filter register
satisfy matches id w evs more m =
    let kept = filter matches evs in
    let r = register id (close_waiter w) m in
    if length kept == 0
    then (if r.1 then r.0 else answer (empty id) r.0)
    else answer (events id (take w.limit kept) (more || ltb w.limit (length kept))) m

abbrev pub slice_length : ℕ → ℕ → ℕ
slice_length limit available = if ltb 0 limit then min limit available else available

-- One waiter of the loop.
unfoldable pub drain_one : (Text → Option ℕ) → (Text → Bool) → List Text → Text → Manager → Manager
unfolding satisfy settle_waiter
drain_one find matches buffer id m = elim (lookup id m.waiters) [
  | none ↦ m
  | some w ↦ elim (find w.since) [
    | none ↦ m
    | some i ↦
        let available = drop (suc i) buffer in
        let n = slice_length w.limit (length available) in
        if w.settled || length available == 0
        then m
        else satisfy matches id w (take n available) (ltb n (length available))
            (settle_waiter id w m).0
  ]
]

unfoldable pub drain_loop :
    (Text → Option ℕ) → (Text → Bool) → List Text → List Text → Manager → Manager
unfolding drain_one
drain_loop find matches buffer [] m = m
drain_loop find matches buffer (id ∷ ids) m =
    drain_loop find matches buffer ids (drain_one find matches buffer id m)

unfoldable pub drain_on_broadcast :
    Text → (Text → Option ℕ) → (Text → Bool) → List Text → Manager → Manager
unfolding drain_loop
drain_on_broadcast bucket find matches buffer m = elim (lookup bucket m.buckets) [
  | none ↦ m
  | some set ↦ drain_loop find matches buffer set m
]

-- `fTimeout` of a waiter that is open.
unfoldable pub expire : Text → Waiter → Manager → Manager
expire id w m = if w.settled then m else answer (empty id) (settle_waiter id w m).0

unfoldable pub evict : List Text → Manager → Manager
unfolding expire
evict [] m = m
evict (id ∷ ids) m = elim (lookup id m.waiters) [
  | none ↦ evict ids m
  | some w ↦ evict ids (expire id w m)
]

unfoldable pub drain_buckets : List Text → Manager → Manager
unfolding evict
drain_buckets [] m = m
drain_buckets (name ∷ names) m = elim (lookup name m.buckets) [
  | none ↦ drain_buckets names m
  | some set ↦
      let out = evict set m in
      drain_buckets names (record out { buckets = insert name [] out.buckets })
]

unfoldable pub drain_all : Manager → Manager
unfolding drain_buckets
drain_all m = drain_buckets (keys m.buckets) m
