-- ===== src/Coordinator/Coverage/Moves.antt =====
-- Coverage of one map by the other, kept by the changes of a single item or beacon.
use ultravisor.Base.{
  ◌==◌, true, false, some, [], ◌∷◌, ◌++◌, ◌≡◌, inl, inr, arith, contains, Bool-cases, Option-cases,
  contains-append_last,
}
use ultravisor.Base.Dict.{
  Dict, lookup, insert, modify, delete, lookup-insert, lookup-modify, lookup-delete,
}
use ultravisor.Work.{Text, WorkItem, Beacon, is_held}
use ultravisor.Coordinator.State.{Coordinator, lists, with_current}

abbrev pub Covered : Dict Beacon → Dict WorkItem → Type 0
Covered beacons queue =
    (h : Text) (it : WorkItem) (b : Text)
    → lookup h queue ≡ some it
    → is_held it.status ≡ true
    → it.assigned_beacon ≡ some b
    → lists b h beacons ≡ true

abbrev pub IsCovered : Coordinator → Type 0
IsCovered c = Covered c.beacons c.queue

pub lists-modify_ne :
    (b k h : Text) (f : Beacon → Beacon) (m : Dict Beacon)
    → (b == k) ≡ false
    → lists k h (modify b f m) ≡ lists k h m
unfolding lists
lists-modify_ne b k h f m e = ground (arith, lookup-modify b k f m)

-- A change that keeps what a beacon lists keeps what the map lists.
pub lists-modify :
    (b k h : Text) (f : Beacon → Beacon) (m : Dict Beacon)
    → ((bcn : Beacon) → contains h bcn.current ≡ true → contains h (f bcn).current ≡ true)
    → lists k h m ≡ true
    → lists k h (modify b f m) ≡ true
unfolding lists
lists-modify b k h f m keep l = elim (Option-cases (lookup k m)) [
  | inl e ↦ ground arith
  | inr (bcn, e) ↦ ground (arith, lookup-modify b k f m, keep bcn)
]

pub lists-add_self :
    (b h : Text) (m : Dict Beacon) (bcn : Beacon)
    → lookup b m ≡ some bcn
    → lists b h (modify b (λ x. with_current (x.current ++ h ∷ []) x) m) ≡ true
unfolding lists
lists-add_self b h m bcn e = ground (
  arith,
  lookup-modify b b (λ x. with_current (x.current ++ h ∷ []) x) m,
  contains-append_last h h bcn.current,
)

pub Covered-modify :
    (k : Text) (f : WorkItem → WorkItem) (beacons : Dict Beacon) (queue : Dict WorkItem)
    → ((it : WorkItem) (b : Text)
        → lookup k queue ≡ some it
        → is_held (f it).status ≡ true
        → (f it).assigned_beacon ≡ some b
        → lists b k beacons ≡ true)
    → Covered beacons queue
    → Covered beacons (modify k f queue)
Covered-modify k f beacons queue new old h it b found held at = elim (Bool-cases (k == h)) [
  | inr ne ↦ old h it b (ground (arith, lookup-modify k h f queue)) held at
  | inl e ↦ elim (Option-cases (lookup k queue)) [
    | inl gone ↦ ground (arith, lookup-modify k h f queue)
    | inr (it0, there) ↦ ground (arith, lookup-modify k h f queue, new it0 b there)
  ]
]

pub Covered-mono :
    (old new : Dict Beacon) (queue : Dict WorkItem)
    → ((b h : Text) → lists b h old ≡ true → lists b h new ≡ true)
    → Covered old queue
    → Covered new queue
Covered-mono old new queue grow v h it b found held at = grow b h (v h it b found held at)

-- An item that holds no slot may be struck from any beacon's list.
pub Covered-strike :
    (b k : Text) (f : Beacon → Beacon) (beacons : Dict Beacon) (queue : Dict WorkItem)
    → ((h : Text) (bcn : Beacon)
        → (k == h) ≡ false
        → contains h bcn.current ≡ true
        → contains h (f bcn).current ≡ true)
    → ((it : WorkItem) → lookup k queue ≡ some it → is_held it.status ≡ false)
    → Covered beacons queue
    → Covered (modify b f beacons) queue
Covered-strike b k f beacons queue keep idle v h it a found held at = elim (Bool-cases (k == h)) [
  | inl e ↦ ground (arith, idle it)
  | inr ne ↦ lists-modify b a h f beacons (λ bcn. keep h bcn ne) (v h it a found held at)
]

pub Covered-delete :
    (k : Text) (beacons : Dict Beacon) (queue : Dict WorkItem)
    → Covered beacons queue
    → Covered beacons (delete k queue)
Covered-delete k beacons queue v h it b found held at = elim (Bool-cases (k == h)) [
  | inl e ↦ ground (arith, lookup-delete k h queue)
  | inr ne ↦ v h it b (ground (arith, lookup-delete k h queue)) held at
]

pub Covered-insert :
    (k : Text) (new : WorkItem) (beacons : Dict Beacon) (queue : Dict WorkItem)
    → ((b : Text)
        → is_held new.status ≡ true
        → new.assigned_beacon ≡ some b
        → lists b k beacons ≡ true)
    → Covered beacons queue
    → Covered beacons (insert k new queue)
Covered-insert k new beacons queue listed v h it b found held at = elim (Bool-cases (k == h)) [
  | inl e ↦ ground (arith, lookup-insert k h new queue, listed b)
  | inr ne ↦ v h it b (ground (arith, lookup-insert k h new queue)) held at
]
