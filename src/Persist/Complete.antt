-- ===== src/Persist/Complete.antt =====
-- Any sequence of additions and flushes
-- (source/services/Ultravisor-QueuePersistenceBridge.cjs).
use ultravisor.Base.{
  ℕ, zero, suc, Bool, true, ◌&&◌, List, [], ◌∷◌, ◌++◌, ◌≡◌, refl, ◌∙◌, sym, ap, subst, arith, take,
  Bool-cases, inl, inr,
}
use ultravisor.Work.{Text}
use ultravisor.Persist.Flush.{
  Stored, Call, upserts, appends, Flush, Dispatch, time_of, is_flushed, attempt, send_events,
  push_item, advance, flush_items, flush_queue, flush_limit,
}
use ultravisor.Persist.Backlog.{
  is_delivered, are_delivered, are_ascending, is_delivered-cons, push_item-delivers,
  flush_items-keeps, send_events-ok, push_item-ok,
}
use ultravisor.Persist.Catchup.{
  last_time, AreMarked, AreMarked-advance, AreMarked-rest, AreMarked-flushed, flush_items-flushed,
  flush_items-next, flush_items-AreMarked, Backlog, Step, adds, flushes, perform, perform_all,
  new_backlog,
}

AreMarked-append :
    (t : ℕ) (is : List Stored) (i : Stored) (f : Flush)
    → are_ascending t (is ++ i ∷ []) ≡ true
    → AreMarked t is f
    → AreMarked t (is ++ i ∷ []) f
unfolding are_delivered are_ascending last_time
AreMarked-append t [] i f up (h, le) = (ground arith, ground arith)
AreMarked-append t (j ∷ is) i f up h =
    let (rest, le) =
      AreMarked-append (time_of j) is i f (ground arith) (AreMarked-rest t j is f h) in
    (ground (arith, rest, h.0), le)

are_ascending-append :
    (t : ℕ) (is : List Stored) (i : Stored)
    → are_ascending t (is ++ i ∷ []) ≡ true
    → are_ascending t is ≡ true
unfolding are_ascending
are_ascending-append t [] i h = refl
are_ascending-append t (j ∷ is) i h = ground (arith, are_ascending-append (time_of j) is i)

are_ascending-perform_all :
    (ss : List Step) (b : Backlog)
    → are_ascending 0 (perform_all ss b).store ≡ true
    → are_ascending 0 b.store ≡ true
unfolding perform_all perform
are_ascending-perform_all [] b h = h
are_ascending-perform_all (adds i ∷ ss) b h =
    are_ascending-append 0 b.store i (are_ascending-perform_all ss (perform (adds i) b) h)
are_ascending-perform_all (flushes d ∷ ss) b h =
    are_ascending-perform_all ss (perform (flushes d) b) h

perform_all-AreMarked :
    (ss : List Step) (b : Backlog)
    → are_ascending 0 (perform_all ss b).store ≡ true
    → AreMarked 0 b.store b.flush
    → AreMarked 0 (perform_all ss b).store (perform_all ss b).flush
unfolding perform_all perform flush_queue
perform_all-AreMarked [] b up h = h
perform_all-AreMarked (adds i ∷ ss) b up h =
    perform_all-AreMarked ss (perform (adds i) b) up (
      AreMarked-append 0 b.store i b.flush (are_ascending-perform_all ss (perform (adds i) b) up) h)
perform_all-AreMarked (flushes d ∷ ss) b up h =
    perform_all-AreMarked ss (perform (flushes d) b) up (
      flush_items-AreMarked d flush_limit 0 b.store b.flush
        (are_ascending-perform_all (flushes d ∷ ss) b up) h)

unfoldable pub all_delivered : List Call → List Stored → Bool
all_delivered ks [] = true
all_delivered ks (i ∷ is) = is_delivered i ks && all_delivered ks is

all_delivered-cons :
    (i : Stored) (is : List Stored) (ks : List Call)
    → is_delivered i ks ≡ true
    → all_delivered ks is ≡ true
    → all_delivered ks (i ∷ is) ≡ true
unfolding all_delivered
all_delivered-cons i is ks h rest = rw h rest

module _ (d : Dispatch) (works : (n : ℕ) (k : Call) → d n k ≡ true) where
  send_events-works : (es : List Text) (f : Flush) → (send_events d es f).1 ≡ true
  unfolding send_events attempt
  send_events-works [] f = refl
  send_events-works (e ∷ es) f =
      ap (λ r. r.1) (send_events-ok d e es f (works f.calls (appends e)))
      ∙ send_events-works es (attempt d (appends e) f).0

  push_item-works : (i : Stored) (f : Flush) → (push_item d i f).1 ≡ true
  unfolding attempt
  push_item-works i f =
      ap (λ r. r.1) (push_item-ok d i f (works f.calls (upserts i.hash)))
      ∙ send_events-works i.events (attempt d (upserts i.hash) f).0

  flush_items-all_delivered :
      (n t : ℕ) (is : List Stored) (f : Flush)
      → are_ascending t is ≡ true
      → AreMarked t is f
      → all_delivered (flush_items d (take n is) f).taken (take n is) ≡ true
  unfolding all_delivered are_ascending
  flush_items-all_delivered zero t is f up h = refl
  flush_items-all_delivered (suc n) t [] f up h = refl
  flush_items-all_delivered (suc n) t (i ∷ is) f up h = elim (Bool-cases (is_flushed f.mark i)) [
    | inl e ↦
        let there = AreMarked-flushed t i is f e h in
        subst (λ g. all_delivered g.taken (i ∷ take n is) ≡ true)
          (sym (flush_items-flushed d i (take n is) f e))
          (all_delivered-cons i (take n is) (flush_items d (take n is) f).taken
            (flush_items-keeps (λ ks. is_delivered i ks ≡ true) (is_delivered-cons i) d (take n is)
              f there)
            (flush_items-all_delivered n (time_of i) is f (ground arith)
              (AreMarked-rest t i is f h)))
    | inr e ↦
        let g = advance i (push_item d i f).0 in
        let ok = push_item-works i f in
        subst (λ r. all_delivered r.taken (i ∷ take n is) ≡ true)
          (sym (flush_items-next d i (take n is) f e ok))
          (all_delivered-cons i (take n is) (flush_items d (take n is) g).taken
            (flush_items-keeps (λ ks. is_delivered i ks ≡ true) (is_delivered-cons i) d (take n is)
              g (push_item-delivers d i f ok))
            (flush_items-all_delivered n (time_of i) is g (ground arith)
              (AreMarked-advance i is (push_item d i f).0 t up)))
  ]

-- Items are added to the store, each later than those before it, and flushes are tried, each of
-- which may fail at any call, from an empty store on. The beacon has each item up to the
-- high-water mark, with its events. A flush after that whose calls all succeed leaves the beacon
-- with the first 5000 items of the store and their events.
pub perform_all_lem :
    (ss : List Step) (d : Dispatch)
    → are_ascending 0 (perform_all ss new_backlog).store ≡ true
    → ((n : ℕ) (k : Call) → d n k ≡ true)
    → (are_delivered
          (perform_all ss new_backlog).flush.mark
          (perform_all ss new_backlog).flush.taken
          (perform_all ss new_backlog).store
        ≡ true)
      × (all_delivered
            (flush_queue d
              (perform_all ss new_backlog).store
              (perform_all ss new_backlog).flush).taken
            (take flush_limit (perform_all ss new_backlog).store)
          ≡ true)
unfolding flush_queue are_delivered last_time
perform_all_lem ss d up works =
    let b = perform_all ss new_backlog in
    let marked : AreMarked 0 b.store b.flush =
      perform_all-AreMarked ss new_backlog up (refl, omega arith) in
    (marked.0, flush_items-all_delivered d works flush_limit 0 b.store b.flush up marked)
