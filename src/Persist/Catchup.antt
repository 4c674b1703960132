-- ===== src/Persist/Catchup.antt =====
-- The high-water mark says what the persistence beacon has
-- (source/services/Ultravisor-QueuePersistenceBridge.cjs).
use ultravisor.Base.{
  ℕ, zero, suc, ◌≤◌, true, false, List, [], ◌∷◌, ◌++◌, ◌≡◌, refl, sym, subst, arith, take,
  Bool-cases, inl, inr,
}
use ultravisor.Persist.Flush.{
  Stored, Call, Flush, Dispatch, time_of, is_flushed, push_item, advance, flush_items, flush_queue,
}
use ultravisor.Persist.Backlog.{
  is_delivered, are_delivered, are_ascending, is_delivered-cons, push_item-delivers, mark-push_item,
  push_item-keeps, flush_items-keeps,
}

unfoldable pub last_time : ℕ → List Stored → ℕ
last_time t [] = t
last_time t (i ∷ is) = last_time (time_of i) is

are_delivered-cons :
    (mark : ℕ) (k : Call) (ks : List Call) (is : List Stored)
    → are_delivered mark ks is ≡ true
    → are_delivered mark (k ∷ ks) is ≡ true
unfolding are_delivered
are_delivered-cons mark k ks [] h = refl
are_delivered-cons mark k ks (i ∷ is) h =
    ground (arith, is_delivered-cons i k ks, are_delivered-cons mark k ks is)

-- Items that are later than the mark need not be delivered.
are_delivered-later :
    (mark t : ℕ) (ks : List Call) (is : List Stored)
    → mark ≤ t
    → are_ascending t is ≡ true
    → are_delivered mark ks is ≡ true
unfolding are_delivered are_ascending
are_delivered-later mark t ks [] le h = refl
are_delivered-later mark t ks (i ∷ is) le h =
    let next : mark ≤ time_of i = ground arith in
    let rest = are_delivered-later mark (time_of i) ks is next (ground arith) in
    ground (arith, rest)

last_time-le : (t : ℕ) (is : List Stored) → are_ascending t is ≡ true → t ≤ last_time t is
unfolding are_ascending last_time
last_time-le t [] h = omega arith
last_time-le t (i ∷ is) h =
    let rest = last_time-le (time_of i) is (ground arith) in ground (arith, rest)

pub flush_items-flushed :
    (d : Dispatch) (i : Stored) (is : List Stored) (f : Flush)
    → is_flushed f.mark i ≡ true
    → flush_items d (i ∷ is) f ≡ flush_items d is f
unfolding flush_items
flush_items-flushed d i is f e = rw (e, flush_items) refl

pub flush_items-next :
    (d : Dispatch) (i : Stored) (is : List Stored) (f : Flush)
    → is_flushed f.mark i ≡ false
    → (push_item d i f).1 ≡ true
    → flush_items d (i ∷ is) f ≡ flush_items d is (advance i (push_item d i f).0)
unfolding flush_items
flush_items-next d i is f e ok = rw (e, flush_items) (rw (ok, flush_items) refl)

flush_items-stop :
    (d : Dispatch) (i : Stored) (is : List Stored) (f : Flush)
    → is_flushed f.mark i ≡ false
    → (push_item d i f).1 ≡ false
    → flush_items d (i ∷ is) f ≡ (push_item d i f).0
unfolding flush_items
flush_items-stop d i is f e bad = rw (e, flush_items) (rw (bad, flush_items) refl)

-- Each item up to the mark is delivered, and the mark is no later than the last time.
abbrev pub AreMarked : ℕ → List Stored → Flush → Type 0
AreMarked t is f = (are_delivered f.mark f.taken is ≡ true) × (f.mark ≤ last_time t is)

pub AreMarked-advance :
    (i : Stored) (is : List Stored) (g : Flush) (t : ℕ)
    → are_ascending t (i ∷ is) ≡ true
    → AreMarked (time_of i) is (advance i g)
unfolding are_ascending
AreMarked-advance i is g t up =
    let here : (advance i g).mark ≡ time_of i = ground arith in
    let rest : are_ascending (time_of i) is ≡ true = ground arith in
    (
      are_delivered-later (advance i g).mark (time_of i) g.taken is (ground arith) rest,
      ground (arith, last_time-le (time_of i) is rest),
    )

AreMarked-cons :
    (t : ℕ) (i : Stored) (is : List Stored) (g : Flush)
    → is_delivered i g.taken ≡ true
    → AreMarked (time_of i) is g
    → AreMarked t (i ∷ is) g
unfolding are_delivered last_time
AreMarked-cons t i is g there (h, le) = (ground arith, le)

pub AreMarked-rest :
    (t : ℕ) (i : Stored) (is : List Stored) (f : Flush)
    → AreMarked t (i ∷ is) f
    → AreMarked (time_of i) is f
unfolding are_delivered last_time
AreMarked-rest t i is f (h, le) = (ground arith, le)

pub AreMarked-flushed :
    (t : ℕ) (i : Stored) (is : List Stored) (f : Flush)
    → is_flushed f.mark i ≡ true
    → AreMarked t (i ∷ is) f
    → is_delivered i f.taken ≡ true
unfolding are_delivered
AreMarked-flushed t i is f e (h, le) = ground arith

pub flush_items-AreMarked :
    (d : Dispatch) (n t : ℕ) (is : List Stored) (f : Flush)
    → are_ascending t is ≡ true
    → AreMarked t is f
    → AreMarked t is (flush_items d (take n is) f)
unfolding flush_items are_ascending
flush_items-AreMarked d zero t is f up h = h
flush_items-AreMarked d (suc n) t [] f up h = h
flush_items-AreMarked d (suc n) t (i ∷ is) f up h = elim (Bool-cases (is_flushed f.mark i)) [
  | inl e ↦ subst (AreMarked t (i ∷ is)) (sym (flush_items-flushed d i (take n is) f e)) (
      AreMarked-cons t i is (flush_items d (take n is) f)
        (flush_items-keeps (λ ks. is_delivered i ks ≡ true) (is_delivered-cons i) d (take n is) f
          (AreMarked-flushed t i is f e h))
        (flush_items-AreMarked d n (time_of i) is f (ground arith) (AreMarked-rest t i is f h)))
  | inr e ↦ elim (Bool-cases (push_item d i f).1) [
    | inl ok ↦
        let g = advance i (push_item d i f).0 in
        subst (AreMarked t (i ∷ is)) (sym (flush_items-next d i (take n is) f e ok)) (
          AreMarked-cons t i is (flush_items d (take n is) g)
            (flush_items-keeps (λ ks. is_delivered i ks ≡ true) (is_delivered-cons i) d (take n is)
              g (push_item-delivers d i f ok))
            (flush_items-AreMarked d n (time_of i) is g (ground arith)
              (AreMarked-advance i is (push_item d i f).0 t up)))
    | inr bad ↦ subst (AreMarked t (i ∷ is)) (sym (flush_items-stop d i (take n is) f e bad)) (
        rw (mark-push_item d i f) (
          push_item-keeps (λ ks. are_delivered f.mark ks (i ∷ is) ≡ true)
              (λ k ks. are_delivered-cons f.mark k ks (i ∷ is)) d i f h.0,
          h.1,
        ))
  ]
]

-- The local store beside the state of the flushes. Items are added at its end.
pub record Backlog : Type 0 where
  pub store : List Stored
  pub flush : Flush

pub data Step : Type 0 where
  adds : Stored → Step
  flushes : Dispatch → Step

unfoldable pub perform : Step → Backlog → Backlog
unfolding flush_queue
perform (adds i) b = record b { store = b.store ++ i ∷ [] }
perform (flushes d) b = record b { flush = flush_queue d b.store b.flush }

unfoldable pub perform_all : List Step → Backlog → Backlog
unfolding perform
perform_all [] b = b
perform_all (s ∷ ss) b = perform_all ss (perform s b)

abbrev pub new_backlog : Backlog
new_backlog = record { store = []; flush = record { mark = 0; calls = 0; taken = []; pushed = 0 } }
