-- ===== src/LongPoll/Answers.antt =====
-- Each waiting request is answered at most once (source/services/Ultravisor-LongPollManager.cjs).
use ultravisor.Base.{
  false, ℕ, suc, ◌+◌, ◌==◌, ◌&&◌, not, Bool, true, Option, none, some, List, [], ◌∷◌, ◌++◌, ◌≡◌,
  subst, inl, inr, arith, if◌then◌else◌, leb, Bool-cases, Option-cases,
}
use ultravisor.Base.Dict.{lookup, lookup-insert, lookup-modify}
use ultravisor.Work.{Text}
use ultravisor.LongPoll.Waiters.{
  register, total_waiters, open_waiter, Waiter, Answer, events, empty, too_many, Manager, answer,
  settle_waiter, close_waiter,
}

-- How often a waiter's `fSatisfy` or `fTimeout` has sent a response.
unfoldable pub times : Text → List Answer → ℕ
times id [] = 0
times id (events k evs more ∷ rest) = if k == id then suc (times id rest) else times id rest
times id (empty k ∷ rest) = if k == id then suc (times id rest) else times id rest
times id (too_many k ∷ rest) = times id rest

pub times-append :
    (id : Text) (xs ys : List Answer) → times id (xs ++ ys) ≡ times id xs + times id ys
unfolding times
times-append id [] ys = omega arith
times-append id (events k evs more ∷ rest) ys = ground (arith, times-append id rest ys)
times-append id (empty k ∷ rest) ys = ground (arith, times-append id rest ys)
times-append id (too_many k ∷ rest) ys = times-append id rest ys

-- A waiter that was never registered or is open has not been answered; a settled one has been
-- answered at most once, and its timer does not fire any more.
unfoldable pub is_fine : ℕ → Option Waiter → Bool
is_fine n none = n == 0
is_fine n (some w) = if w.settled then leb n 1 && not w.has_timer else n == 0

abbrev pub IsSingle : Manager → Type 0
IsSingle m = (id : Text) → is_fine (times id m.answers) (lookup id m.waiters) ≡ true

pub settle_waiter-IsSingle :
    (id : Text) (w : Waiter) (m : Manager)
    → lookup id m.waiters ≡ some w
    → IsSingle m
    → IsSingle (settle_waiter id w m).0
unfolding settle_waiter is_fine
settle_waiter-IsSingle id w m there v j = elim (Bool-cases w.settled) [
  | inl t ↦ simp t (v j)
  | inr t ↦ simp t (elim (Bool-cases (id == j)) [
    | inl e ↦
        let same : id ≡ j = ground (arith, e) in
        ground (
          arith,
          lookup-modify id j close_waiter m.waiters,
          v j,
          subst (λ k. lookup k m.waiters ≡ some w) same there,
        )
    | inr e ↦ ground (arith, lookup-modify id j close_waiter m.waiters, v j)
  ])
]

-- The answer to a waiter that has just been settled.
pub answer-IsSingle :
    (id : Text) (a : Answer) (w : Waiter) (m : Manager)
    → ((j : Text) → times j (a ∷ []) ≡ (if id == j then 1 else 0))
    → lookup id m.waiters ≡ some (close_waiter w)
    → times id m.answers ≡ 0
    → IsSingle m
    → IsSingle (answer a m)
unfolding is_fine
answer-IsSingle id a w m once there zero v j = elim (Bool-cases (id == j)) [
  | inl e ↦
      let same : id ≡ j = ground (arith, e) in
      ground (
        arith,
        times-append j m.answers (a ∷ []),
        once j,
        subst (λ k. lookup k m.waiters ≡ some (close_waiter w)) same there,
        subst (λ k. times k m.answers ≡ 0) same zero,
      )
  | inr e ↦ ground (arith, times-append j m.answers (a ∷ []), once j, v j)
]

pub open-times :
    (id : Text) (w : Waiter) (m : Manager)
    → lookup id m.waiters ≡ some w
    → w.settled ≡ false
    → IsSingle m
    → times id m.answers ≡ 0
unfolding is_fine
open-times id w m there t v = ground (arith, v id)

pub lookup-settle_waiter :
    (id : Text) (w : Waiter) (m : Manager)
    → lookup id m.waiters ≡ some w
    → w.settled ≡ false
    → lookup id (settle_waiter id w m).0.waiters ≡ some (close_waiter w)
unfolding settle_waiter
lookup-settle_waiter id w m there t =
    simp t (ground (arith, lookup-modify id id close_waiter m.waiters))

pub register-IsSingle :
    (id : Text) (w : Waiter) (m : Manager)
    → times id m.answers ≡ 0
    → IsSingle m
    → IsSingle (register id w m).0
unfolding register is_fine
register-IsSingle id w m zero v j = elim (Option-cases (lookup w.bucket m.buckets)) [
  | inl e ↦ ground (arith, v j)
  | inr (set, e) ↦ elim (Bool-cases (leb m.max_waiters (total_waiters m.buckets))) [
    | inl t ↦ ground (arith, v j)
    | inr t ↦ elim (Bool-cases (id == j)) [
      | inr d ↦ ground (arith, v j, lookup-insert id j (open_waiter w) m.waiters)
      | inl d ↦
          let same : id ≡ j = ground (arith, d) in
          ground (
            arith,
            lookup-insert id j (open_waiter w) m.waiters,
            subst (λ k. times k m.answers ≡ 0) same zero,
          )
    ]
  ]
]

pub register_refused :
    (id : Text) (w : Waiter) (m : Manager) → (register id w m).1 ≡ false → (register id w m).0 ≡ m
unfolding register
register_refused id w m failed = elim (Option-cases (lookup w.bucket m.buckets)) [
  | inl e ↦ ground arith
  | inr (set, e) ↦ elim (Bool-cases (leb m.max_waiters (total_waiters m.buckets))) [
    | inl t ↦ ground arith
    | inr t ↦ ground arith
  ]
]
