-- ===== src/Coordinator/Coverage/Claims.antt =====
-- Slot coverage through polls, enqueues, registration and deregistration.
use ultravisor.Base.{
  true, some, [], ◌∷◌, ◌++◌, if◌then◌else◌, ◌≡◌, inl, inr, arith, contains, Bool-cases,
  Option-cases, leb, length, contains-append_last,
}
use ultravisor.Base.Dict.{Dict, lookup, modify, keys, find, find_in-some, lookup-modify}
use ultravisor.Work.{Text, WorkItem, Beacon}
use ultravisor.Coordinator.State.{Env, Coordinator, lists, with_current}
use ultravisor.Coordinator.Poll.{
  is_mine, can_claim, start_assigned, claim_poll, take_assigned, take_pending, take_work,
  poll_for_work,
}
use ultravisor.Coordinator.Coverage.Moves.{
  Covered, IsCovered, Covered-modify, Covered-mono, lists-modify,
}

-- What a poll does to the list of the beacon.
abbrev list_once : Text → Beacon → Beacon
list_once h x = with_current (if contains h x.current then x.current else x.current ++ h ∷ []) x

list_once-keeps :
    (h k : Text) (x : Beacon)
    → contains k x.current ≡ true
    → contains k (list_once h x).current ≡ true
list_once-keeps h k x e = ground (arith, contains-append_last k h x.current)

lists-list_once :
    (b h : Text) (m : Dict Beacon) (bcn : Beacon)
    → lookup b m ≡ some bcn
    → lists b h (modify b (list_once h) m) ≡ true
unfolding lists
lists-list_once b h m bcn e =
    ground (arith, lookup-modify b b (list_once h) m, contains-append_last h h bcn.current)

take_pending-IsCovered :
    (env : Env) (b h : Text) (it : WorkItem) (bcn : Beacon) (c : Coordinator)
    → lookup b c.beacons ≡ some bcn
    → IsCovered c
    → IsCovered (take_pending env b h it c)
unfolding take_pending claim_poll
take_pending-IsCovered env b h it bcn c there v =
    Covered-modify h (claim_poll env.now b) _ c.queue
      (λ i k e held at. ground (arith, lists-list_once b h c.beacons bcn there))
      (Covered-mono c.beacons _ c.queue
        (λ k j. lists-modify b k j (list_once h) c.beacons (λ x. list_once-keeps h j x)) v)

take_assigned-IsCovered :
    (env : Env) (b h : Text) (it : WorkItem) (c : Coordinator)
    → lookup h c.queue ≡ some it
    → is_mine b it ≡ true
    → IsCovered c
    → IsCovered (take_assigned env b h it c)
unfolding take_assigned start_assigned is_mine
take_assigned-IsCovered env b h it c found mine v =
    Covered-modify h (start_assigned env.now) c.beacons c.queue
      (λ i k e held at. v h i k e (ground arith) at) v

take_work-IsCovered :
    (env : Env) (b : Text) (bcn old : Beacon) (c : Coordinator)
    → lookup b c.beacons ≡ some old
    → IsCovered c
    → IsCovered (take_work env b bcn c).0
unfolding take_work
take_work-IsCovered env b bcn old c there v = elim (Option-cases (find (is_mine b) c.queue)) [
  | inr ((h, it), e) ↦
      let found = find_in-some (is_mine b) (keys c.queue) c.queue e in
      rw (e, take_work) (take_assigned-IsCovered env b h it c found.0 found.1 v)
  | inl e ↦
      rw (e, take_work)
        (elim (Option-cases (find (can_claim env b bcn) c.queue)) [
          | inl g ↦ rw (g, take_work) v
          | inr ((h, it), g) ↦ rw (g, take_work) (take_pending-IsCovered env b h it old c there v)
        ])
]

pub poll_for_work-IsCovered :
    (env : Env) (b : Text) (c : Coordinator) → IsCovered c → IsCovered (poll_for_work env b c).0
unfolding poll_for_work
poll_for_work-IsCovered env b c v = elim (Option-cases (lookup b c.beacons)) [
  | inl e ↦ rw (e, poll_for_work) v
  | inr (bcn, e) ↦
      let f : Beacon → Beacon = λ x. record x { last_heartbeat = env.now } in
      let seen : Covered (modify b f c.beacons) c.queue =
        Covered-mono c.beacons _ c.queue (λ k j. lists-modify b k j f c.beacons (λ x l. l)) v in
      rw (e, poll_for_work)
        (elim (Bool-cases (leb bcn.max_concurrent (length bcn.current))) [
          | inl t ↦ rw t seen
          | inr t ↦ rw t (
              take_work-IsCovered env b bcn (f bcn) _
                (ground (arith, lookup-modify b b f c.beacons)) seen)
        ])
]
