-- ===== src/Coordinator/Retry.antt =====
-- What `failWorkItem` does with an item that has attempts left
-- (source/services/Ultravisor-Beacon-Coordinator.cjs).
use ultravisor.Base.{
  ℕ, suc, ◌+◌, ◌-◌, ◌*◌, ◌==◌, ◌<◌, ◌≤◌, leb, or_num, if◌then◌else◌, true, false, none, some, ◌≡◌,
  refl, arith, length,
}
use ultravisor.Base.Dict.{lookup, lookup-modify}
use ultravisor.Work.{Text, WorkItem, Beacon, retry_scheduled, unknown_error}
use ultravisor.Coordinator.State.{Env, Coordinator}
use ultravisor.Coordinator.Routing.{remove_from_beacon}
use ultravisor.Coordinator.Poll.{poll_for_work}
use ultravisor.Coordinator.Finish.{
  done, is_finalized, has_attempts, schedule_retry, retry_item, fail_work_item,
}
use ultravisor.Coordinator.Timeouts.{is_due}

module _ (env : Env) (h message : Text) (it : WorkItem) (c : Coordinator)
    (found : lookup h c.queue ≡ some it) (open_item : is_finalized it.status ≡ false)
    (attempts : has_attempts it ≡ true) where
  fail_is_retry : fail_work_item env h message c ≡ retry_item env h message it c
  unfolding fail_work_item
  fail_is_retry = rw (found, fail_work_item) (rw (open_item, attempts))

  -- A failure of an item that is not final and has attempts left is answered without an error. The
  -- item waits for its retry, without a beacon and with one attempt more, under the message that was
  -- given or "Unknown error"; every other item is as it was. A pass finds the item due for its retry
  -- exactly from the backoff times the number of attempts on. No beacon changes, so that the slot
  -- that the item took is not freed, which is a defect.
  pub fail-retry :
      let r = fail_work_item env h message c in
      (r.1 ≡ done)
      × ((k : Text)
          → lookup k r.0.queue ≡ (
              if h == k
              then some (record it {
                attempt_number = suc it.attempt_number;
                last_error = or_num message unknown_error;
                status = retry_scheduled;
                retry_after = some (env.now + it.retry_backoff_ms * suc it.attempt_number);
                claimed_at = none;
                assigned_beacon = none;
              })
              else lookup k c.queue))
      × ((later : ℕ) (i : WorkItem)
          → lookup h r.0.queue ≡ some i
          → is_due later i ≡ leb (env.now + it.retry_backoff_ms * suc it.attempt_number) later)
      × (r.0.beacons ≡ c.beacons)
  unfolding retry_item schedule_retry remove_from_beacon is_due
  fail-retry = rw fail_is_retry (
    refl,
    (λ k. ground (arith, lookup-modify h k (schedule_retry env.now message) c.queue)),
    (λ later i e. ground (arith, lookup-modify h h (schedule_retry env.now message) c.queue)),
    refl,
  )

  -- A beacon that was full when one of its items failed with attempts left stays full: its next
  -- poll gets nothing.
  pub poll-fail_retry :
      (b : Text) (bcn : Beacon) (later : Env)
      → lookup b c.beacons ≡ some bcn
      → bcn.max_concurrent ≤ length bcn.current
      → (poll_for_work later b (fail_work_item env h message c).0).1 ≡ none
  unfolding poll_for_work
  poll-fail_retry b bcn later there full = ground (arith, fail-retry)

-- Attempts left to the item, as `failWorkItem` counts them.
unfoldable pub attempts_left : Text → Coordinator → ℕ
attempts_left h c = elim (lookup h c.queue) [
  | none ↦ 0
  | some it ↦ it.max_attempts - 1 - it.attempt_number
]

-- The failure of an item that is not final and has attempts left leaves it with fewer attempts.
pub attempts_left-fail_retry :
    (env : Env) (h message : Text) (it : WorkItem) (c : Coordinator)
    → lookup h c.queue ≡ some it
    → is_finalized it.status ≡ false
    → has_attempts it ≡ true
    → attempts_left h (fail_work_item env h message c).0 < attempts_left h c
unfolding attempts_left schedule_retry
attempts_left-fail_retry env h message it c found open_item attempts =
    ground (arith, (fail-retry env h message it c found open_item attempts).1 h)
