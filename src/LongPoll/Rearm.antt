-- ===== src/LongPoll/Rearm.antt =====
-- A waiter whose events are all filtered out (`fSatisfy` of `_handleLongPollRequest`,
-- source/web_server/Ultravisor-API-Server.cjs).
use ultravisor.Base.{
  ℕ, suc, ◌==◌, ◌||◌, Bool, true, false, Option, some, List, [], ◌≡◌, refl, ◌∙◌, inl, inr, arith,
  length, drop, take, Bool-cases,
}
use ultravisor.Base.Dict.{lookup}
use ultravisor.Work.{Text}
use ultravisor.LongPoll.Waiters.{
  Waiter, Manager, register, settle_waiter, on_timer, close_waiter, open_waiter,
}
use ultravisor.LongPoll.Drains.{filter, satisfy, slice_length, drain_one}
use ultravisor.LongPoll.Steps.{lookup-register}

-- What a broadcast has for a waiter.
abbrev pub slice_for : ℕ → Waiter → List Text → List Text
slice_for i w buffer =
    take (slice_length w.limit (length (drop (suc i) buffer))) (drop (suc i) buffer)

register_keeps_answers :
    (id : Text) (w : Waiter) (m : Manager) → (register id w m).0.answers ≡ m.answers
unfolding register
register_keeps_answers id w m = ground arith

settle_keeps_answers :
    (id : Text) (w : Waiter) (m : Manager) → (settle_waiter id w m).0.answers ≡ m.answers
unfolding settle_waiter
settle_keeps_answers id w m = elim (Bool-cases w.settled) [
  | inl t ↦ simp t refl
  | inr t ↦ simp t refl
]

satisfy_registers :
    (matches : Text → Bool) (id : Text) (w : Waiter) (evs : List Text) (more : Bool) (m : Manager)
    → filter matches evs ≡ []
    → (register id (close_waiter w) m).1 ≡ true
    → satisfy matches id w evs more m ≡ (register id (close_waiter w) m).0
unfolding satisfy
satisfy_registers matches id w evs more m no_match room = rw no_match (rw room refl)

-- A broadcast that has events for an open waiter, none of which passes the topic filter, answers
-- nothing; where there is room the waiter stays open, but its timer has been cleared and is not set
-- again: from then on no timer answers it.
pub drain_one_clears_timer :
    (find : Text → Option ℕ) (matches : Text → Bool) (buffer : List Text) (id i : ℕ) (w : Waiter)
    (m : Manager)
    → lookup id m.waiters ≡ some w
    → w.settled ≡ false
    → find w.since ≡ some i
    → (length (drop (suc i) buffer) == 0) ≡ false
    → filter matches (slice_for i w buffer) ≡ []
    → (register id (close_waiter w) (settle_waiter id w m).0).1 ≡ true
    → let after = drain_one find matches buffer id m in
      (after.answers ≡ m.answers)
      × (lookup id after.waiters ≡ some (open_waiter (close_waiter w)))
      × (on_timer id after ≡ after)
unfolding drain_one on_timer
drain_one_clears_timer find matches buffer id i w m there is_open found some_events no_match room =
    let guard : (w.settled || length (drop (suc i) buffer) == 0) ≡ false =
      ground (arith, is_open, some_events) in
    let back : drain_one find matches buffer id m
        ≡ (register id (close_waiter w) (settle_waiter id w m).0).0 =
      rw (there, drain_one)
        (rw found (
          simp guard
            (satisfy_registers matches id w _ _ (settle_waiter id w m).0 no_match room))) in
    let kept = lookup-register id (close_waiter w) (settle_waiter id w m).0 room in
    rw back (
      register_keeps_answers id (close_waiter w) (settle_waiter id w m).0
          ∙ settle_keeps_answers id w m,
      kept,
      rw (kept, on_timer),
    )
