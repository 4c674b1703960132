-- ===== src/Coordinator/Passes.antt =====
-- The timeout pass over an overdue item that belongs to no operation
-- (`_checkTimeouts`, source/services/Ultravisor-Beacon-Coordinator.cjs).
use ultravisor.Base.{
  ap, subst, ◌∙◌, ◌==◌, Bool, true, false, Option, none, some, List, [], ◌∷◌, ◌≡◌, refl, inl, inr,
  arith, contains, Bool-cases, Option-cases,
}
use ultravisor.Base.Dict.{Dict, lookup, modify, keys, lookup-modify, lookup-delete, contains-keys}
use ultravisor.Work.{Text, WorkItem, timed_out}
use ultravisor.Coordinator.State.{Env, Coordinator}
use ultravisor.Coordinator.Routing.{try_push, dispatch_pending, remove_from_beacon}
use ultravisor.Coordinator.Finish.{
  has_attempts, settle, retry_item, fail_marked, fail_item, fail_work_item,
}
use ultravisor.Coordinator.Timeouts.{
  is_overdue, expire_one, expire_loop, retry_one, retry_loop, check_timeouts, back_in_queue,
}

settle_ne :
    (env : Env) (k h : Text) (it : WorkItem) (success : Bool) (c : Coordinator)
    → (k == h) ≡ false
    → lookup h (settle env k it success c).0.queue ≡ lookup h c.queue
unfolding settle
settle_ne env k h it success c ne = ground (arith, lookup-delete k h c.queue)

settle_self :
    (env : Env) (h : Text) (it : WorkItem) (success : Bool) (c : Coordinator)
    → it.run_hash ≡ 0
    → lookup h (settle env h it success c).0.queue ≡ none
unfolding settle
settle_self env h it success c alone = ground (arith, lookup-delete h h c.queue)

modify_ne :
    (k h : Text) (f : WorkItem → WorkItem) (queue : Dict WorkItem)
    → (k == h) ≡ false
    → lookup h (modify k f queue) ≡ lookup h queue
modify_ne k h f queue ne = rw (lookup-modify k h f queue, ne)

-- All beacons poll: no push handler is set.
module _ (env : Env) (polling : env.push_handler ≡ none) where
  remove-queue :
      (o : Option Text) (k : Text) (c : Coordinator)
      → (remove_from_beacon env o k c).queue ≡ c.queue
  unfolding remove_from_beacon dispatch_pending
  remove-queue none k c = refl
  remove-queue (some b) k c = ground arith

  fail_item_ne :
      (k h message : Text) (it : WorkItem) (c : Coordinator)
      → (k == h) ≡ false
      → lookup h (fail_item env k message it c).0.queue ≡ lookup h c.queue
  unfolding fail_item
  fail_item_ne k h message it c ne =
      settle_ne env k h it false _ ne
      ∙ ap (lookup h) (remove-queue it.assigned_beacon k _)
      ∙ modify_ne k h _ c.queue ne

  retry_item_ne :
      (k h message : Text) (it : WorkItem) (c : Coordinator)
      → (k == h) ≡ false
      → lookup h (retry_item env k message it c).0.queue ≡ lookup h c.queue
  unfolding retry_item
  retry_item_ne k h message it c ne =
      ap (lookup h) (remove-queue _ k _) ∙ modify_ne k h _ c.queue ne

  expire_one_ne :
      (k h : Text) (c : Coordinator)
      → (k == h) ≡ false
      → lookup h (expire_one env k c).queue ≡ lookup h c.queue
  unfolding expire_one fail_work_item
  expire_one_ne k h c ne = elim (Option-cases (lookup k c.queue)) [
    | inl e ↦ rw (e, expire_one)
    | inr (it, e) ↦
        ground (arith, fail_item_ne k h timed_out it c, retry_item_ne k h timed_out it c)
  ]

  -- Overdue, out of attempts and of no operation.
  abbrev IsDoomed : WorkItem → Type 0
  IsDoomed it = (is_overdue env.now it ≡ true) × (has_attempts it ≡ false) × (it.run_hash ≡ 0)

  expire_one_self :
      (h : Text) (it : WorkItem) (c : Coordinator)
      → lookup h c.queue ≡ some it
      → IsDoomed it
      → lookup h (expire_one env h c).queue ≡ none
  unfolding expire_one fail_work_item fail_item is_overdue
  expire_one_self h it c found doomed = ground (
    arith,
    settle_self env h it false
        (remove_from_beacon env it.assigned_beacon h (fail_marked env h timed_out it c)),
  )

  expire_one_absent :
      (k h : Text) (c : Coordinator)
      → lookup h c.queue ≡ none
      → lookup h (expire_one env k c).queue ≡ none
  unfolding expire_one
  expire_one_absent k h c gone = elim (Bool-cases (k == h)) [
    | inr ne ↦ expire_one_ne k h c ne ∙ gone
    | inl e ↦ ground arith
  ]

  expire_loop_absent :
      (hs : List Text) (h : Text) (c : Coordinator)
      → lookup h c.queue ≡ none
      → lookup h (expire_loop env hs c).queue ≡ none
  unfolding expire_loop
  expire_loop_absent [] h c gone = gone
  expire_loop_absent (k ∷ ks) h c gone =
      expire_loop_absent ks h (expire_one env k c) (expire_one_absent k h c gone)

  expire_loop_doomed :
      (hs : List Text) (h : Text) (it : WorkItem) (c : Coordinator)
      → contains h hs ≡ true
      → lookup h c.queue ≡ some it
      → IsDoomed it
      → lookup h (expire_loop env hs c).queue ≡ none
  unfolding expire_loop contains
  expire_loop_doomed [] h it c there found doomed = cc
  expire_loop_doomed (k ∷ ks) h it c there found doomed = elim (Bool-cases (k == h)) [
    | inr ne ↦
        expire_loop_doomed ks h it (expire_one env k c) (ground arith)
          (expire_one_ne k h c ne ∙ found) doomed
    | inl e ↦
        let same : h ≡ k = ground arith in
        expire_loop_absent ks h (expire_one env k c) (
          subst (λ j. lookup h (expire_one env j c).queue ≡ none) same
            (expire_one_self h it c found doomed))
  ]

  retry_one_absent :
      (k h : Text) (it : WorkItem) (c : Coordinator)
      → lookup h c.queue ≡ none
      → lookup h (retry_one env k it c).queue ≡ none
  unfolding retry_one try_push
  retry_one_absent k h it c gone = ground (arith, lookup-modify k h back_in_queue c.queue)

  -- Where one of the keys is missing, the retry loop throws.
  retry_loop_throws :
      (hs : List Text) (h : Text) (c : Coordinator)
      → contains h hs ≡ true
      → lookup h c.queue ≡ none
      → (retry_loop env hs c).1 ≡ true
  unfolding retry_loop contains
  retry_loop_throws [] h c there gone = cc
  retry_loop_throws (k ∷ ks) h c there gone = elim (Option-cases (lookup k c.queue)) [
    | inl e ↦ rw (e, retry_loop)
    | inr (it, e) ↦
        rw (e, retry_loop)
          (retry_loop_throws ks h (retry_one env k it c) (ground arith)
            (retry_one_absent k h it c gone))
  ]

  -- Where all beacons poll, a timeout pass over a queue with an overdue item that has no attempts
  -- left and belongs to no operation throws: its last two loops, which mark silent beacons offline
  -- and drop expired bindings, do not run.
  pub check_timeouts_throws :
      (h : Text) (it : WorkItem) (c : Coordinator)
      → lookup h c.queue ≡ some it
      → is_overdue env.now it ≡ true
      → has_attempts it ≡ false
      → it.run_hash ≡ 0
      → ((check_timeouts env c).1 ≡ true)
        × ((check_timeouts env c).0
            ≡ (retry_loop env (keys c.queue) (expire_loop env (keys c.queue) c)).0)
  unfolding check_timeouts
  check_timeouts_throws h it c found overdue spent alone =
      let there = contains-keys h it c.queue found in
      let gone = expire_loop_doomed (keys c.queue) h it c there found (overdue, spent, alone) in
      let thrown =
        retry_loop_throws (keys c.queue) h (expire_loop env (keys c.queue) c) there gone in
      (rw thrown, rw thrown)
