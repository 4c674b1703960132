-- ===== src/LongPoll/Steps.antt =====
-- The operations on long polls keep that each request is answered at most once
-- (source/services/Ultravisor-LongPollManager.cjs, source/web_server/Ultravisor-API-Server.cjs).
use ultravisor.Base.{
  ℕ, suc, ◌==◌, ◌||◌, Bool, true, false, Option, none, some, List, [], ◌∷◌, ◌≡◌, refl, ◌∙◌, subst,
  inl, inr, arith, length, drop, Bool-cases, Option-cases,
}
use ultravisor.Base.Dict.{lookup, insert, lookup-modify, lookup-insert, modify}
use ultravisor.Work.{Text}
use ultravisor.LongPoll.Waiters.{
  Waiter, Manager, empty, too_many, answer, register, settle_waiter, cancel, wait_for, on_timer,
  with_timer, close_waiter, open_waiter,
}
use ultravisor.LongPoll.Drains.{
  filter, satisfy, drain_one, drain_loop, drain_on_broadcast, expire, evict, drain_buckets,
}
use ultravisor.LongPoll.Answers.{
  times, times-append, is_fine, IsSingle, answer-IsSingle, settle_waiter-IsSingle, open-times,
  lookup-settle_waiter, register-IsSingle, register_refused,
}

times-settle_waiter :
    (id : Text) (w : Waiter) (m : Manager)
    → times id (settle_waiter id w m).0.answers ≡ times id m.answers
unfolding settle_waiter
times-settle_waiter id w m = elim (Bool-cases w.settled) [
  | inl t ↦ simp t refl
  | inr t ↦ simp t refl
]

satisfy-IsSingle :
    (matches : Text → Bool) (id : Text) (w : Waiter) (evs : List Text) (more : Bool) (m : Manager)
    → lookup id m.waiters ≡ some (close_waiter w)
    → times id m.answers ≡ 0
    → IsSingle m
    → IsSingle (satisfy matches id w evs more m)
unfolding satisfy times
satisfy-IsSingle matches id w evs more m there zero v =
    elim (Bool-cases (length (filter matches evs) == 0)) [
      | inr t ↦ rw t (answer-IsSingle id _ w m (λ j. refl) there zero v)
      | inl t ↦ rw t (elim (Bool-cases (register id (close_waiter w) m).1) [
        | inl r ↦ rw r (register-IsSingle id (close_waiter w) m zero v)
        | inr r ↦
            rw (r, register_refused id (close_waiter w) m r)
              (answer-IsSingle id _ w m (λ j. refl) there zero v)
      ])
    ]

drain_one-IsSingle :
    (find : Text → Option ℕ) (matches : Text → Bool) (buffer : List Text) (id : Text) (m : Manager)
    → IsSingle m
    → IsSingle (drain_one find matches buffer id m)
unfolding drain_one
drain_one-IsSingle find matches buffer id m v = elim (Option-cases (lookup id m.waiters)) [
  | inl e ↦ rw (e, drain_one) v
  | inr (w, e) ↦ elim (Option-cases (find w.since)) [
    | inl f ↦ rw (e, drain_one) (rw f v)
    | inr (i, f) ↦ elim (Bool-cases (w.settled || length (drop (suc i) buffer) == 0)) [
      | inl t ↦ rw (e, drain_one) (rw f (simp t v))
      | inr t ↦
          let is_open : w.settled ≡ false = ground (arith, t) in
          rw (e, drain_one)
            (rw f (
              simp t (
                satisfy-IsSingle matches id w _ _ (settle_waiter id w m).0
                  (lookup-settle_waiter id w m e is_open)
                  (times-settle_waiter id w m ∙ open-times id w m e is_open v)
                  (settle_waiter-IsSingle id w m e v))))
    ]
  ]
]

drain_loop-IsSingle :
    (find : Text → Option ℕ) (matches : Text → Bool) (buffer ids : List Text) (m : Manager)
    → IsSingle m
    → IsSingle (drain_loop find matches buffer ids m)
unfolding drain_loop
drain_loop-IsSingle find matches buffer [] m v = v
drain_loop-IsSingle find matches buffer (id ∷ ids) m v =
    drain_loop-IsSingle find matches buffer ids (drain_one find matches buffer id m)
      (drain_one-IsSingle find matches buffer id m v)

-- A waiter that is open is settled and answered with no events.
expire-IsSingle :
    (id : Text) (w : Waiter) (m : Manager)
    → lookup id m.waiters ≡ some w
    → w.settled ≡ false
    → IsSingle m
    → IsSingle (answer (empty id) (settle_waiter id w m).0)
unfolding times
expire-IsSingle id w m there is_open v =
    answer-IsSingle id (empty id) w (settle_waiter id w m).0 (λ j. refl)
      (lookup-settle_waiter id w m there is_open)
      (times-settle_waiter id w m ∙ open-times id w m there is_open v)
      (settle_waiter-IsSingle id w m there v)

expire_any-IsSingle :
    (id : Text) (w : Waiter) (m : Manager)
    → lookup id m.waiters ≡ some w
    → IsSingle m
    → IsSingle (expire id w m)
unfolding expire
expire_any-IsSingle id w m there v = elim (Bool-cases w.settled) [
  | inl t ↦ simp t v
  | inr t ↦ simp t (expire-IsSingle id w m there t v)
]

evict-IsSingle : (ids : List Text) (m : Manager) → IsSingle m → IsSingle (evict ids m)
unfolding evict
evict-IsSingle [] m v = v
evict-IsSingle (id ∷ ids) m v = elim (Option-cases (lookup id m.waiters)) [
  | inl e ↦ rw (e, evict) (evict-IsSingle ids m v)
  | inr (w, e) ↦ rw (e, evict) (evict-IsSingle ids (expire id w m) (expire_any-IsSingle id w m e v))
]

pub drain_buckets-IsSingle :
    (names : List Text) (m : Manager) → IsSingle m → IsSingle (drain_buckets names m)
unfolding drain_buckets
drain_buckets-IsSingle [] m v = v
drain_buckets-IsSingle (name ∷ names) m v = elim (Option-cases (lookup name m.buckets)) [
  | inl e ↦ rw (e, drain_buckets) (drain_buckets-IsSingle names m v)
  | inr (set, e) ↦
      rw (e, drain_buckets)
        (drain_buckets-IsSingle names
          (record (evict set m) { buckets = insert name [] (evict set m).buckets })
          (evict-IsSingle set m v))
]

pub cancel-IsSingle : (id : Text) (m : Manager) → IsSingle m → IsSingle (cancel id m)
unfolding cancel
cancel-IsSingle id m v = elim (Option-cases (lookup id m.waiters)) [
  | inl e ↦ rw (e, cancel) v
  | inr (w, e) ↦ rw (e, cancel) (settle_waiter-IsSingle id w m e v)
]

fires :
    (id : Text) (w : Waiter) (m : Manager)
    → lookup id m.waiters ≡ some w
    → w.has_timer ≡ true
    → IsSingle m
    → w.settled ≡ false
unfolding is_fine
fires id w m there t v = ground (arith, v id)

pub on_timer-IsSingle : (id : Text) (m : Manager) → IsSingle m → IsSingle (on_timer id m)
unfolding on_timer cancel
on_timer-IsSingle id m v = elim (Option-cases (lookup id m.waiters)) [
  | inl e ↦ rw (e, on_timer) v
  | inr (w, e) ↦ elim (Bool-cases w.has_timer) [
    | inr t ↦ rw (e, on_timer) (simp t v)
    | inl t ↦
        rw (e, on_timer) (simp t (rw (e, cancel) (expire-IsSingle id w m e (fires id w m e t v) v)))
  ]
]

pub drain_on_broadcast-IsSingle :
    (bucket : Text) (find : Text → Option ℕ) (matches : Text → Bool) (buffer : List Text)
    (m : Manager)
    → IsSingle m
    → IsSingle (drain_on_broadcast bucket find matches buffer m)
unfolding drain_on_broadcast
drain_on_broadcast-IsSingle bucket find matches buffer m v =
    elim (Option-cases (lookup bucket m.buckets)) [
      | inl e ↦ rw (e, drain_on_broadcast) v
      | inr (set, e) ↦ rw (e, drain_on_broadcast) (drain_loop-IsSingle find matches buffer set m v)
    ]

fresh-times :
    (id : Text) (m : Manager) → lookup id m.waiters ≡ none → IsSingle m → times id m.answers ≡ 0
unfolding is_fine
fresh-times id m fresh v = ground (arith, v id)

pub lookup-register :
    (id : Text) (w : Waiter) (m : Manager)
    → (register id w m).1 ≡ true
    → lookup id (register id w m).0.waiters ≡ some (open_waiter w)
unfolding register
lookup-register id w m ok = elim (Option-cases (lookup w.bucket m.buckets)) [
  | inl e ↦ ground arith
  | inr (set, e) ↦ ground (arith, lookup-insert id id (open_waiter w) m.waiters)
]

arm-IsSingle :
    (id : Text) (w : Waiter) (m : Manager)
    → lookup id m.waiters ≡ some (open_waiter w)
    → IsSingle m
    → IsSingle (record m { waiters = modify id with_timer m.waiters })
unfolding is_fine
arm-IsSingle id w m there v j = elim (Bool-cases (id == j)) [
  | inr e ↦ ground (arith, lookup-modify id j with_timer m.waiters, v j)
  | inl e ↦
      let same : id ≡ j = ground (arith, e) in
      ground (
        arith,
        lookup-modify id j with_timer m.waiters,
        v j,
        subst (λ k. lookup k m.waiters ≡ some (open_waiter w)) same there,
      )
]

too_many-IsSingle : (id : Text) (m : Manager) → IsSingle m → IsSingle (answer (too_many id) m)
unfolding times
too_many-IsSingle id m v j = ground (arith, times-append j m.answers (too_many id ∷ []), v j)

pub wait_for-IsSingle :
    (id bucket since limit : ℕ) (m : Manager)
    → lookup id m.waiters ≡ none
    → IsSingle m
    → IsSingle (wait_for id bucket since limit m)
unfolding wait_for
wait_for-IsSingle id bucket since limit m fresh v =
    let w : Waiter = record {
      bucket = bucket;
      since = since;
      limit = limit;
      settled = false;
      has_timer = false;
    } in
    let kept = register-IsSingle id w m (fresh-times id m fresh v) v in
    elim (Bool-cases (register id w m).1) [
      | inl t ↦ rw t (arm-IsSingle id w (register id w m).0 (lookup-register id w m t) kept)
      | inr t ↦ rw t (too_many-IsSingle id (register id w m).0 kept)
    ]
