-- ===== src/Observer/Waiting.antt =====
-- The reasons for which an item waits, against a description of each (`classifyUpcoming`,
-- source/services/observer/ObserverPolicy.cjs).
use ultravisor.Base.{
  ◌==◌, ◌≡◌, refl, subst, ◌∙◌, Bool, true, false, ◌||◌, ◌&&◌, not, Option, none, some, List, [],
  ◌∷◌, ◌++◌, inl, inr, if◌then◌else◌, or_num, contains, Bool-cases,
}
use ultravisor.Work.{Text, WorkItem, shell}
use ultravisor.Observer.Policy.{SeenBeacon, is_terminal_work}
use ultravisor.Observer.Upcoming.{
  Blocking, no_eligible_beacon, affinity_pinned_to_offline, all_eligible_busy, is_live, is_eligible,
  is_full, is_target, affinity_target, Found, find_beacon, find_beacons, is_target_live, is_nil,
  classify_upcoming,
}

-- Some beacon offers the capability and is not dead; some such beacon has room.
unfoldable pub any_eligible : Text → List SeenBeacon → Bool
any_eligible cap [] = false
any_eligible cap (b ∷ bs) = is_eligible cap b || any_eligible cap bs

unfoldable pub any_free : Text → List SeenBeacon → Bool
any_free cap [] = false
any_free cap (b ∷ bs) = (is_eligible cap b && not (is_full b)) || any_free cap bs

and_true : (a : Bool) → a ≡ a && true
and_true true = refl
and_true false = refl

is_nil-push :
    {A : Type 0} (xs : List A) (x : A) (a : Bool)
    → (is_nil (xs ++ x ∷ []) && a) ≡ (is_nil xs && false)
is_nil-push [] x a = refl
is_nil-push (y ∷ ys) x a = refl

find_eligible :
    (cap target : Text) (bs : List SeenBeacon) (f : Found)
    → is_nil (find_beacons cap target bs f).eligible
      ≡ (is_nil f.eligible && not (any_eligible cap bs))
unfolding find_beacons any_eligible
find_eligible cap target [] f = and_true (is_nil f.eligible)
find_eligible cap target (b ∷ bs) f = elim (Bool-cases (is_eligible cap b)) [
  | inr q ↦ find_eligible cap target bs (find_beacon cap target b f) ∙ rw q refl
  | inl q ↦ elim (Bool-cases (is_full b)) [
    | inl r ↦
        find_eligible cap target bs (find_beacon cap target b f)
        ∙ rw (q, r) (is_nil-push f.eligible b.id (not (any_eligible cap bs)))
    | inr r ↦
        find_eligible cap target bs (find_beacon cap target b f)
        ∙ rw (q, r) (is_nil-push f.eligible b.id (not (any_eligible cap bs)))
  ]
]

find_free :
    (cap target : Text) (bs : List SeenBeacon) (f : Found)
    → is_nil (find_beacons cap target bs f).free ≡ (is_nil f.free && not (any_free cap bs))
unfolding find_beacons any_free
find_free cap target [] f = and_true (is_nil f.free)
find_free cap target (b ∷ bs) f = elim (Bool-cases (is_eligible cap b)) [
  | inr q ↦ find_free cap target bs (find_beacon cap target b f) ∙ rw q refl
  | inl q ↦ elim (Bool-cases (is_full b)) [
    | inl r ↦ find_free cap target bs (find_beacon cap target b f) ∙ rw (q, r) refl
    | inr r ↦
        find_free cap target bs (find_beacon cap target b f)
        ∙ rw (q, r) (is_nil-push f.free b.id (not (any_free cap bs)))
  ]
]

or_false : (a : Bool) → a ≡ true → a || false ≡ true
or_false true h = refl
or_false false h = h

or_weaken : (a x y : Bool) → a || y ≡ true → a || (x || y) ≡ true
or_weaken true x y h = refl
or_weaken false true y h = refl
or_weaken false false y h = h

or_matched :
    (a n t e l y : Bool) → (a || n && t) || y ≡ true → e && l ≡ true → a || (t && l || y) ≡ true
or_matched true n t e l y h k = refl
or_matched false n true true true y h k = refl
or_matched false n true true false y h k = cc
or_matched false n true false l y h k = cc
or_matched false true false e l y h k = h
or_matched false false false e l y h k = h

-- A match is a target that is not dead.
matched_live :
    (cap target : Text) (bs : List SeenBeacon) (f : Found)
    → (find_beacons cap target bs f).is_matched ≡ true
    → f.is_matched || is_target_live target bs ≡ true
unfolding find_beacons is_target_live
matched_live cap target [] f h = or_false f.is_matched h
matched_live cap target (b ∷ bs) f h = elim (Bool-cases (is_eligible cap b)) [
  | inr q ↦
      let same : find_beacon cap target b f ≡ f = rw q refl in
      or_weaken f.is_matched _ (is_target_live target bs) (
        matched_live cap target bs f
          (subst (λ g. (find_beacons cap target bs g).is_matched ≡ true) same h))
  | inl q ↦ elim (Bool-cases (is_full b)) [
    | inl r ↦
        let next : Found = record f { eligible = f.eligible ++ b.id ∷ [] } in
        let same : find_beacon cap target b f ≡ next = rw (q, r) refl in
        or_weaken f.is_matched _ (is_target_live target bs) (
          matched_live cap target bs next
            (subst (λ g. (find_beacons cap target bs g).is_matched ≡ true) same h))
    | inr r ↦
        let next : Found = record {
          eligible = f.eligible ++ b.id ∷ [];
          free = f.free ++ b.id ∷ [];
          is_matched = f.is_matched || (not (target == 0) && is_target target b);
        } in
        let same : find_beacon cap target b f ≡ next = rw (q, r) refl in
        or_matched f.is_matched (not (target == 0)) (is_target target b)
          (contains cap b.capabilities) (is_live b.liveness) (is_target_live target bs)
          (matched_live cap target bs next
            (subst (λ g. (find_beacons cap target bs g).is_matched ≡ true) same h))
          q
  ]
]

-- What the answer means, in the order in which the reasons are tried.
unfoldable pub blocking : WorkItem → List SeenBeacon → Option Blocking
unfolding any_eligible any_free is_target_live
blocking it bs =
    let cap = or_num it.capability shell in
    let target = affinity_target it in
    if not (any_eligible cap bs)
    then some no_eligible_beacon
    else (if not (target == 0) && not (is_target_live target bs)
        then some affinity_pinned_to_offline
        else (if any_free cap bs then none else some all_eligible_busy))

drop_match : (n m l : Bool) → (m ≡ true → l ≡ true) → n && not m && not l ≡ n && not l
drop_match false m l h = refl
drop_match true false l h = refl
drop_match true true l h = rw (h refl) refl

abbrev answer : Bool → Bool → Bool → List Text → Option Blocking × List Text
answer a b c xs =
    if a
    then (some no_eligible_beacon, [])
    else (if b
        then (some affinity_pinned_to_offline, xs)
        else (if c then (some all_eligible_busy, xs) else (none, xs)))

answers :
    (a b c : Bool) (xs : List Text)
    → (answer a b (not c) xs).0 ≡ (
        if a
        then some no_eligible_beacon
        else (if b
            then some affinity_pinned_to_offline
            else (if c then none else some all_eligible_busy)))
answers true b c xs = refl
answers false true c xs = refl
answers false false true xs = refl
answers false false false xs = refl

-- Of an item that is not at an end the observer says that no beacon is eligible exactly if none that
-- offers the capability is alive or suspect; else that it is bound to a beacon that is offline, exactly if
-- it is bound and no beacon of that ID or name is alive or suspect; else that all are busy, exactly if no
-- eligible beacon has room; else nothing.
pub classify_upcoming_lem :
    (it : WorkItem) (bs : List SeenBeacon)
    → is_terminal_work it.status ≡ false
    → (classify_upcoming (some it) bs).0 ≡ blocking it bs
unfolding classify_upcoming blocking
classify_upcoming_lem it bs going =
    let cap : Text = or_num it.capability shell in
    let target : Text = affinity_target it in
    let empty : Found = record { eligible = []; free = []; is_matched = false } in
    let live : (find_beacons cap target bs empty).is_matched ≡ true
        → is_target_live target bs ≡ true =
      matched_live cap target bs empty in
    let first : is_nil (find_beacons cap target bs empty).eligible ≡ not (any_eligible cap bs) =
      find_eligible cap target bs empty in
    let second : not (target == 0)
          && not (find_beacons cap target bs empty).is_matched
          && not (is_target_live target bs)
        ≡ not (target == 0) && not (is_target_live target bs) =
      drop_match (not (target == 0)) (find_beacons cap target bs empty).is_matched
        (is_target_live target bs) live in
    let third : is_nil (find_beacons cap target bs empty).free ≡ not (any_free cap bs) =
      find_free cap target bs empty in
    rw going (
      rw (first, second, third)
        (answers (not (any_eligible cap bs)) (not (target == 0) && not (is_target_live target bs))
          (any_free cap bs) (find_beacons cap target bs empty).eligible))
