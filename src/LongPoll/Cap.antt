-- ===== src/LongPoll/Cap.antt =====
-- The cap on waiting requests (source/services/Ultravisor-LongPollManager.cjs).
use ultravisor.Base.{
  ℕ, suc, ◌+◌, ◌≤◌, ◌==◌, ◌||◌, Bool, false, Option, some, List, [], ◌∷◌, ◌≡◌, inl, inr, arith,
  length, drop, remove, length-append, length-remove-le, Bool-cases, Option-cases,
}
use ultravisor.Base.Dict.{Dict, lookup, insert, modify, keys}
use ultravisor.Work.{Text}
use ultravisor.LongPoll.Waiters.{
  Waiter, Manager, add, total_waiters, register, settle_waiter, cancel, wait_for, on_timer,
  close_waiter,
}
use ultravisor.LongPoll.Drains.{
  satisfy, drain_one, drain_loop, drain_on_broadcast, expire, evict, drain_buckets, drain_all,
}
use ultravisor.LongPoll.Runs.{Call, waits, timer, disconnects, broadcast, evict_all, long_poll_step}

total-insert :
    (name : Text) (set old : List Text) (m : Dict (List Text))
    → lookup name m ≡ some old
    → total_waiters (insert name set m) + length old ≡ total_waiters m + length set
unfolding total_waiters insert lookup
total-insert name set old [] e = cc
total-insert name set old ((k, s) ∷ m) e = ground (arith, total-insert name set old m)

total-remove :
    (name id : Text) (m : Dict (List Text))
    → total_waiters (modify name (remove id) m) ≤ total_waiters m
unfolding total_waiters modify
total-remove name id [] = omega arith
total-remove name id ((k, s) ∷ m) = ground (arith, total-remove name id m, length-remove-le id s)

length-add : (id : Text) (set : List Text) → length (add id set) ≤ suc (length set)
length-add id set = ground (arith, length-append set (id ∷ []))

abbrev pub IsCapped : Manager → Type 0
IsCapped m = total_waiters m.buckets ≤ m.max_waiters

register-IsCapped :
    (id : Text) (w : Waiter) (m : Manager) → IsCapped m → IsCapped (register id w m).0
unfolding register
register-IsCapped id w m v = elim (Option-cases (lookup w.bucket m.buckets)) [
  | inl e ↦ ground arith
  | inr (set, e) ↦
      ground (arith, total-insert w.bucket (add id set) set m.buckets e, length-add id set)
]

settle_waiter-IsCapped :
    (id : Text) (w : Waiter) (m : Manager) → IsCapped m → IsCapped (settle_waiter id w m).0
unfolding settle_waiter
settle_waiter-IsCapped id w m v = ground (arith, total-remove w.bucket id m.buckets)

satisfy-IsCapped :
    (matches : Text → Bool) (id : Text) (w : Waiter) (evs : List Text) (more : Bool) (m : Manager)
    → IsCapped m
    → IsCapped (satisfy matches id w evs more m)
unfolding satisfy
satisfy-IsCapped matches id w evs more m v =
    ground (arith, register-IsCapped id (close_waiter w) m v)

drain_one-IsCapped :
    (find : Text → Option ℕ) (matches : Text → Bool) (buffer : List Text) (id : Text) (m : Manager)
    → IsCapped m
    → IsCapped (drain_one find matches buffer id m)
unfolding drain_one
drain_one-IsCapped find matches buffer id m v = elim (Option-cases (lookup id m.waiters)) [
  | inl e ↦ rw (e, drain_one) v
  | inr (w, e) ↦ elim (Option-cases (find w.since)) [
    | inl f ↦ rw (e, drain_one) (rw f v)
    | inr (i, f) ↦ elim (Bool-cases (w.settled || length (drop (suc i) buffer) == 0)) [
      | inl t ↦ rw (e, drain_one) (rw f (simp t v))
      | inr t ↦
          rw (e, drain_one)
            (rw f (
              simp t (
                satisfy-IsCapped matches id w _ _ (settle_waiter id w m).0
                  (settle_waiter-IsCapped id w m v))))
    ]
  ]
]

drain_loop-IsCapped :
    (find : Text → Option ℕ) (matches : Text → Bool) (buffer ids : List Text) (m : Manager)
    → IsCapped m
    → IsCapped (drain_loop find matches buffer ids m)
unfolding drain_loop
drain_loop-IsCapped find matches buffer [] m v = v
drain_loop-IsCapped find matches buffer (id ∷ ids) m v =
    drain_loop-IsCapped find matches buffer ids (drain_one find matches buffer id m)
      (drain_one-IsCapped find matches buffer id m v)

expire-IsCapped : (id : Text) (w : Waiter) (m : Manager) → IsCapped m → IsCapped (expire id w m)
unfolding expire
expire-IsCapped id w m v = elim (Bool-cases w.settled) [
  | inl t ↦ simp t v
  | inr t ↦ simp t (settle_waiter-IsCapped id w m v)
]

evict-IsCapped : (ids : List Text) (m : Manager) → IsCapped m → IsCapped (evict ids m)
unfolding evict
evict-IsCapped [] m v = v
evict-IsCapped (id ∷ ids) m v = elim (Option-cases (lookup id m.waiters)) [
  | inl e ↦ rw (e, evict) (evict-IsCapped ids m v)
  | inr (w, e) ↦ rw (e, evict) (evict-IsCapped ids (expire id w m) (expire-IsCapped id w m v))
]

total-clear :
    (name : Text) (m : Dict (List Text)) → total_waiters (insert name [] m) ≤ total_waiters m
unfolding total_waiters insert
total-clear name [] = omega arith
total-clear name ((k, s) ∷ m) = ground (arith, total-clear name m)

drain_buckets-IsCapped :
    (names : List Text) (m : Manager) → IsCapped m → IsCapped (drain_buckets names m)
unfolding drain_buckets
drain_buckets-IsCapped [] m v = v
drain_buckets-IsCapped (name ∷ names) m v = elim (Option-cases (lookup name m.buckets)) [
  | inl e ↦ rw (e, drain_buckets) (drain_buckets-IsCapped names m v)
  | inr (set, e) ↦
      rw (e, drain_buckets)
        (drain_buckets-IsCapped names
          (record (evict set m) { buckets = insert name [] (evict set m).buckets })
          (omega (arith, evict-IsCapped set m v, total-clear name (evict set m).buckets)))
]

-- Each call on the long polls keeps that no more requests wait, in all buckets together, than the
-- cap allows.
pub long_poll_step-IsCapped :
    (call : Call) (m : Manager) → IsCapped m → IsCapped (long_poll_step call m)
unfolding long_poll_step wait_for on_timer cancel drain_on_broadcast drain_all
long_poll_step-IsCapped (waits id bucket since limit) m v = ground (
  arith,
  register-IsCapped id
      (record { bucket = bucket; since = since; limit = limit; settled = false; has_timer = false })
      m v,
)
long_poll_step-IsCapped (timer id) m v = elim (Option-cases (lookup id m.waiters)) [
  | inl e ↦ rw (e, on_timer) v
  | inr (w, e) ↦ ground (arith, settle_waiter-IsCapped id w m v)
]
long_poll_step-IsCapped (disconnects id) m v = elim (Option-cases (lookup id m.waiters)) [
  | inl e ↦ rw (e, cancel) v
  | inr (w, e) ↦ rw (e, cancel) (settle_waiter-IsCapped id w m v)
]
long_poll_step-IsCapped (broadcast bucket find matches buffer) m v =
    elim (Option-cases (lookup bucket m.buckets)) [
      | inl e ↦ rw (e, drain_on_broadcast) v
      | inr (set, e) ↦ rw (e, drain_on_broadcast) (drain_loop-IsCapped find matches buffer set m v)
    ]
long_poll_step-IsCapped evict_all m v = drain_buckets-IsCapped (keys m.buckets) m v
