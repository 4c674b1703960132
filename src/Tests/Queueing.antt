-- ===== src/Tests/Queueing.antt =====
-- The coordinator's theorems at concrete states.
use ultravisor.Base.{
  ℕ, suc, ◌+◌, ◌*◌, leb, if◌then◌else◌, or_else, ◌<◌, ◌⊎◌, contains, remove, ◌≤◌, ◌==◌, true, false,
  none, some, [], ◌≡◌, refl, arith, length, inl, inr, Bool-cases,
}
use ultravisor.Base.Dict.{lookup, find_in, keys, insert, modify}
use ultravisor.Work.{Text, WorkItem, is_held, retry_scheduled, unknown_error}
use ultravisor.Coordinator.State.{Coordinator, lists}
use ultravisor.Coordinator.Registry.{find_by_name, register_beacon, deregister_beacon}
use ultravisor.Coordinator.Routing.{remove_from_beacon}
use ultravisor.Coordinator.Poll.{poll_for_work, can_claim, is_mine}
use ultravisor.Coordinator.Finish.{complete_work_item, fail_work_item, done}
use ultravisor.Coordinator.Timeouts.{check_timeouts, retry_loop, expire_loop, is_overdue, is_due}
use ultravisor.Coordinator.Step.{
  report_error, deregister, step, enqueue, poll, register, report_done,
}
use ultravisor.Coordinator.Enqueue.{enqueue_work_item}
use ultravisor.Coordinator.Coverage.{
  IsCovered, step-IsCovered, Reachable, start, after, deregister_beacon-orphans, initial,
}
use ultravisor.Coordinator.Polling.{poll_sound, poll_complete, Taken}
use ultravisor.Coordinator.Passes.{check_timeouts_throws}
use ultravisor.Coordinator.Retry.{fail-retry}
use ultravisor.Tests.Samples.{
  env_5000, beacon_of, waiting_item, running_item, overdue_item, with_waiting, with_running,
  with_overdue, with_other, other_item, node_info, run_info,
}

-- A beacon has registered, an item of an operation has been queued, and the beacon has taken it and
-- completed it.
abbrev after_done : Coordinator
after_done = step env_5000 (report_done 101) (
    step env_5000 (poll 70)
      (step env_5000 (enqueue none run_info) (step env_5000 (register node_info 30) initial)))

with_running-IsCovered : IsCovered with_running
unfolding lookup lists contains
with_running-IsCovered h it b e held of_b = elim (Bool-cases (8 == h)) [
  | inl t ↦ ground arith
  | inr t ↦ ground arith
]

step-IsCovered_example : IsCovered (step env_5000 (report_error 8 0) with_running)
step-IsCovered_example =
    step-IsCovered env_5000 (report_error 8 0) with_running tt with_running-IsCovered

poll_7 : (poll_for_work env_5000 60 with_waiting).1 ≡ some 7
unfolding poll_for_work lookup find_in keys contains
poll_7 = refl

poll_sound_example :
    (length {A = Text} [] < 1)
    × Taken env_5000 60 7
        (beacon_of [])
        with_waiting.queue
        (poll_for_work env_5000 60 with_waiting).0.queue
unfolding lookup
poll_sound_example = poll_sound env_5000 60 7 (beacon_of []) with_waiting refl poll_7

poll_nothing : (poll_for_work env_5000 60 with_other).1 ≡ none
unfolding poll_for_work lookup find_in keys contains
poll_nothing = refl

-- The beacon does not offer the capability 11.
poll_complete_example :
    ((poll_for_work env_5000 60 with_other).0.queue ≡ with_other.queue)
    × ((1 ≤ length {A = Text} [])
        ⊎ ((is_mine 60 other_item ≡ false)
            × (can_claim env_5000 60 (beacon_of []) other_item ≡ false)))
unfolding lookup
poll_complete_example =
    poll_complete env_5000 60 7 (beacon_of []) other_item with_other refl refl poll_nothing

registered : Reachable (step env_5000 (register node_info 30) initial)
unfolding find_by_name find_in keys lookup
registered = after env_5000 (register node_info 30) refl start

after_done-Reachable : Reachable after_done
after_done-Reachable =
    after env_5000 (report_done 101) tt
      (after env_5000 (poll 70) tt (after env_5000 (enqueue none run_info) tt registered))

-- The item of an operation stays in the queue, with its beacon, until the operation has resumed.
abbrev done_item : WorkItem
done_item = or_else (lookup 101 (step env_5000 (deregister 70) after_done).queue) waiting_item

done_item_is_there : lookup 101 (step env_5000 (deregister 70) after_done).queue ≡ some done_item
unfolding step lookup register_beacon enqueue_work_item poll_for_work complete_work_item
    deregister_beacon find_by_name find_in keys insert contains modify remove_from_beacon remove
done_item_is_there = refl

done_item_is_of_70 : done_item.assigned_beacon ≡ some 70
unfolding step lookup register_beacon enqueue_work_item poll_for_work complete_work_item
    deregister_beacon find_by_name find_in keys insert contains modify remove_from_beacon remove
done_item_is_of_70 = refl

deregister_beacon-orphans_example :
    (lookup 70 (step env_5000 (deregister 70) after_done).beacons ≡ none)
    × (is_held done_item.status ≡ false)
deregister_beacon-orphans_example =
    deregister_beacon-orphans env_5000 70 101 done_item after_done after_done-Reachable
      done_item_is_there done_item_is_of_70

check_timeouts_throws_example :
    ((check_timeouts env_5000 with_overdue).1 ≡ true)
    × ((check_timeouts env_5000 with_overdue).0
        ≡ (retry_loop env_5000
            (keys with_overdue.queue)
            (expire_loop env_5000 (keys with_overdue.queue) with_overdue)).0)
unfolding lookup is_overdue
check_timeouts_throws_example =
    check_timeouts_throws env_5000 refl 8 overdue_item with_overdue refl refl refl refl

fail-retry_example :
    ((fail_work_item env_5000 8 0 with_running).1 ≡ done)
    × ((k : Text)
        → lookup k (fail_work_item env_5000 8 0 with_running).0.queue ≡ (
            if 8 == k
            then some (record running_item {
              attempt_number = suc running_item.attempt_number;
              last_error = unknown_error;
              status = retry_scheduled;
              retry_after =
                  some (5000 + running_item.retry_backoff_ms * suc running_item.attempt_number);
              claimed_at = none;
              assigned_beacon = none;
            })
            else lookup k with_running.queue))
    × ((later : ℕ) (i : WorkItem)
        → lookup 8 (fail_work_item env_5000 8 0 with_running).0.queue ≡ some i
        → is_due later i
          ≡ leb (5000 + running_item.retry_backoff_ms * suc running_item.attempt_number) later)
    × ((fail_work_item env_5000 8 0 with_running).0.beacons ≡ with_running.beacons)
unfolding lookup
fail-retry_example = fail-retry env_5000 8 0 running_item with_running refl refl refl
