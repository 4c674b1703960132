-- ===== src/Resync/After.antt =====
-- What follows an event in a list of events
-- (`_findQueueEventIndex` and `slice` of source/web_server/Ultravisor-API-Server.cjs).
use ultravisor.Base.{
  ℕ, zero, suc, ◌==◌, Bool, true, false, ◌||◌, Option, none, some, List, [], ◌∷◌, ◌++◌, ◌≡◌, refl,
  ◌∙◌, sym, ap, subst, arith, if◌then◌else◌, drop, take, Option-cases, inl, inr,
}
use ultravisor.Work.{Text}
use ultravisor.Resync.Ring.{Stamped, last_index, last_guid}

unfoldable pub has_event : Text → List Stamped → Bool
has_event g [] = false
has_event g (x ∷ xs) = x.guid == g || has_event g xs

-- What follows the last event with the GUID.
unfoldable pub after : Text → List Stamped → Option (List Stamped)
after g [] = none
after g (x ∷ xs) = elim (after g xs) [
  | some rest ↦ some rest
  | none ↦ if x.guid == g then some xs else none
]

pub after-drop_index :
    (g : Text) (xs : List Stamped)
    → (elim (last_index g xs) [ none ↦ none | some i ↦ some (drop (suc i) xs) ]) ≡ after g xs
unfolding last_index after
after-drop_index g [] = refl
after-drop_index g (x ∷ xs) = elim (Option-cases (last_index g xs)) [
  | inl e ↦
      let none_after : after g xs ≡ none = sym (after-drop_index g xs) ∙ rw (e) refl in
      rw (e, last_index) (rw (none_after, after) (ground arith))
  | inr (i, e) ↦
      let some_after : after g xs ≡ some (drop (suc i) xs) =
        sym (after-drop_index g xs) ∙ rw (e) refl in
      rw (e, last_index) (rw (some_after, after) refl)
]

pub after-cons :
    (g : Text) (x : Stamped) (xs rest : List Stamped)
    → after g xs ≡ some rest
    → after g (x ∷ xs) ≡ some rest
unfolding after
after-cons g x xs rest h = rw (h, after) refl

-- The end of a list knows what follows an event that it has.
pub after-suffix :
    (g : Text) (older xs rest : List Stamped)
    → after g xs ≡ some rest
    → after g (older ++ xs) ≡ some rest
after-suffix g [] xs rest h = h
after-suffix g (x ∷ older) xs rest h =
    after-cons g x (older ++ xs) rest (after-suffix g older xs rest h)

pub after-last_guid_self :
    (y : Stamped) (ys : List Stamped) → after (last_guid y.guid ys) (y ∷ ys) ≡ some []
unfolding after last_guid
after-last_guid_self y [] = ground arith
after-last_guid_self y (z ∷ zs) =
    after-cons (last_guid z.guid zs) y (z ∷ zs) [] (after-last_guid_self z zs)

-- After the last event nothing follows.
pub after-last_guid :
    (g : Text) (xs rest : List Stamped)
    → after g xs ≡ some rest
    → after (last_guid g rest) xs ≡ some []
unfolding after last_guid
after-last_guid g xs [] h = h
after-last_guid g [] (y ∷ ys) h = cc
after-last_guid g (x ∷ xs) (y ∷ ys) h = elim (Option-cases (after g xs)) [
  | inl e ↦
      let same : xs ≡ y ∷ ys = ground arith in
      subst (λ l. after (last_guid y.guid ys) (x ∷ l) ≡ some []) (sym same)
        (after-cons (last_guid y.guid ys) x (y ∷ ys) [] (after-last_guid_self y ys))
  | inr (r, e) ↦
      let found : after g xs ≡ some (y ∷ ys) = ground arith in
      after-cons (last_guid y.guid ys) x xs [] (after-last_guid g xs (y ∷ ys) found)
]

pub after-append_none :
    (g : Text) (e : Stamped) (xs : List Stamped)
    → (e.guid == g) ≡ false
    → after g xs ≡ none
    → after g (xs ++ e ∷ []) ≡ none
unfolding after
after-append_none g e [] n h = ground arith
after-append_none g e (x ∷ xs) n h = elim (Option-cases (after g xs)) [
  | inl m ↦ rw (after-append_none g e xs n m, after) (ground arith)
  | inr (r, m) ↦ ground arith
]

-- A new event is the last, and follows what was there.
pub after-append_new :
    (g : Text) (e : Stamped) (xs rest : List Stamped)
    → (e.guid == g) ≡ false
    → after g xs ≡ some rest
    → after g (xs ++ e ∷ []) ≡ some (rest ++ e ∷ [])
unfolding after
after-append_new g e [] rest n h = cc
after-append_new g e (x ∷ xs) rest n h = elim (Option-cases (after g xs)) [
  | inl m ↦
      let same : xs ≡ rest = ground arith in
      let here : (x.guid == g) ≡ true = ground arith in
      rw (after-append_none g e xs n m, after) (simp here (ap (λ l. some (l ++ e ∷ [])) same))
  | inr (r, m) ↦
      let same : r ≡ rest = ground arith in
      rw (after-append_new g e xs r n m, after) (ap (λ l. some (l ++ e ∷ [])) same)
]

pub after-append_last : (e : Stamped) (xs : List Stamped) → after e.guid (xs ++ e ∷ []) ≡ some []
unfolding after
after-append_last e [] = ground arith
after-append_last e (x ∷ xs) = after-cons e.guid x (xs ++ e ∷ []) [] (after-append_last e xs)

pub after-has_event :
    (g : Text) (xs rest : List Stamped) → after g xs ≡ some rest → has_event g xs ≡ true
unfolding after has_event
after-has_event g [] rest h = cc
after-has_event g (x ∷ xs) rest h = elim (Option-cases (after g xs)) [
  | inl e ↦ ground arith
  | inr (r, e) ↦ ground (arith, after-has_event g xs r e)
]

pub has_event-append_new :
    (g : Text) (xs : List Stamped) (e : Stamped)
    → has_event g xs ≡ false
    → (e.guid == g) ≡ false
    → has_event g (xs ++ e ∷ []) ≡ false
unfolding has_event
has_event-append_new g [] e h n = ground arith
has_event-append_new g (x ∷ xs) e h n = ground (arith, has_event-append_new g xs e)

pub has_event-after :
    (g c : Text) (xs rest : List Stamped)
    → has_event g xs ≡ false
    → after c xs ≡ some rest
    → has_event g rest ≡ false
unfolding has_event after
has_event-after g c [] rest h found = cc
has_event-after g c (x ∷ xs) rest h found = elim (Option-cases (after c xs)) [
  | inl e ↦
      let same : xs ≡ rest = ground arith in subst (λ l. has_event g l ≡ false) same (ground arith)
  | inr (r, e) ↦ has_event-after g c xs rest (ground arith) (ground arith)
]

pub take-append-drop : (n : ℕ) (xs : List Stamped) → take n xs ++ drop n xs ≡ xs
take-append-drop zero xs = refl
take-append-drop (suc n) [] = refl
take-append-drop (suc n) (x ∷ xs) = ap (◌∷◌ x) (take-append-drop n xs)
