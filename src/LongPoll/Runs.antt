-- ===== src/LongPoll/Runs.antt =====
-- Sequences of calls on the long polls (source/services/Ultravisor-LongPollManager.cjs,
-- source/web_server/Ultravisor-API-Server.cjs).
use ultravisor.Base.{ℕ, Bool, Option, none, List, [], ◌∷◌, ◌≡◌, ◌≤◌, refl, arith}
use ultravisor.Base.Dict.{lookup, keys}
use ultravisor.Work.{Text}
use ultravisor.LongPoll.Waiters.{Manager, cancel, wait_for, on_timer, new_manager}
use ultravisor.LongPoll.Drains.{drain_on_broadcast, drain_all}
use ultravisor.LongPoll.Answers.{times, is_fine, IsSingle}
use ultravisor.LongPoll.Steps.{
  cancel-IsSingle, on_timer-IsSingle, drain_on_broadcast-IsSingle, drain_buckets-IsSingle,
  wait_for-IsSingle,
}

-- What happens to the long polls: a request that waits, its timer, a client that disconnects, a
-- broadcast (with what it finds, the topics that match, and the events), and the eviction of all.
pub data Call : Type 0 where
  waits : Text → Text → Text → ℕ → Call
  timer disconnects : Text → Call
  broadcast : Text → (Text → Option ℕ) → (Text → Bool) → List Text → Call
  evict_all : Call

unfoldable pub long_poll_step : Call → Manager → Manager
long_poll_step (waits id bucket since limit) m = wait_for id bucket since limit m
long_poll_step (timer id) m = on_timer id m
long_poll_step (disconnects id) m = cancel id m
long_poll_step (broadcast bucket find matches buffer) m =
    drain_on_broadcast bucket find matches buffer m
long_poll_step evict_all m = drain_all m

unfoldable pub run : List Call → Manager → Manager
unfolding long_poll_step
run [] m = m
run (call ∷ calls) m = run calls (long_poll_step call m)

-- Each request that waits is a new object.
abbrev pub AreFresh : List Call → Manager → Type 0
AreFresh [] m = Unit {0}
AreFresh (waits id bucket since limit ∷ calls) m =
    (lookup id m.waiters ≡ none) × AreFresh calls (wait_for id bucket since limit m)
AreFresh (call ∷ calls) m = AreFresh calls (long_poll_step call m)

run-IsSingle :
    (calls : List Call) (m : Manager) → AreFresh calls m → IsSingle m → IsSingle (run calls m)
unfolding run long_poll_step drain_all
run-IsSingle [] m f v = v
run-IsSingle (waits id bucket since limit ∷ calls) m f v =
    run-IsSingle calls (wait_for id bucket since limit m) f.1
      (wait_for-IsSingle id bucket since limit m f.0 v)
run-IsSingle (timer id ∷ calls) m f v =
    run-IsSingle calls (on_timer id m) f (on_timer-IsSingle id m v)
run-IsSingle (disconnects id ∷ calls) m f v =
    run-IsSingle calls (cancel id m) f (cancel-IsSingle id m v)
run-IsSingle (broadcast bucket find matches buffer ∷ calls) m f v =
    run-IsSingle calls (drain_on_broadcast bucket find matches buffer m) f
      (drain_on_broadcast-IsSingle bucket find matches buffer m v)
run-IsSingle (evict_all ∷ calls) m f v =
    run-IsSingle calls (drain_all m) f (drain_buckets-IsSingle (keys m.buckets) m v)

new_manager-IsSingle : (cap : ℕ) → IsSingle (new_manager cap)
unfolding is_fine times lookup
new_manager-IsSingle cap id = refl

-- From a new manager, whatever requests, timers, disconnects, broadcasts and evictions follow in
-- whatever order, a request that waits, each being a new one, is answered at most once by its
-- `fSatisfy` and `fTimeout` together.
pub run-times_le :
    (cap : ℕ) (calls : List Call) (id : Text)
    → AreFresh calls (new_manager cap)
    → times id (run calls (new_manager cap)).answers ≤ 1
unfolding is_fine
run-times_le cap calls id fresh =
    ground (arith, run-IsSingle calls (new_manager cap) fresh (new_manager-IsSingle cap) id)
