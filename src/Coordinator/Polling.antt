-- ===== src/Coordinator/Polling.antt =====
-- What a poll gives: only work that the beacon may run, and some whenever there is any
-- (`pollForWork`, source/services/Ultravisor-Beacon-Coordinator.cjs).
use ultravisor.Base.{
  suc, ◌<◌, ◌≤◌, subst, true, false, none, some, ◌≡◌, refl, ◌⊎◌, inl, inr, arith, leb, length,
  contains, Bool-cases, Option-cases,
}
use ultravisor.Base.Dict.{
  Dict, lookup, keys, find, find_in-some, find_in-none, contains-keys, lookup-modify,
}
use ultravisor.Work.{Text, WorkItem, Beacon, running, is_pending}
use ultravisor.Coordinator.State.{Env, Coordinator, modify_beacon}
use ultravisor.Coordinator.Routing.{satisfies_affinity}
use ultravisor.Coordinator.Poll.{
  is_mine, can_claim, start_assigned, claim_poll, take_assigned, take_pending, take_work,
  poll_for_work,
}

-- What a beacon may take: an item assigned to it, or a pending one of its capability that affinity
-- and the fleet's filter let it have.
pub data MayTake (env : Env) (b : Text) (bcn : Beacon) (it : WorkItem) : Type 0 where
  own : is_mine b it ≡ true → MayTake env b bcn it
  free :
      is_pending it.status ≡ true
      → satisfies_affinity it bcn ≡ true
      → contains it.capability bcn.capabilities ≡ true
      → env.fleet_allows b it ≡ true
      → MayTake env b bcn it

can_claim-MayTake :
    (env : Env) (b : Text) (bcn : Beacon) (it : WorkItem)
    → can_claim env b bcn it ≡ true
    → MayTake env b bcn it
unfolding can_claim
can_claim-MayTake env b bcn it h = free (ground arith) (ground arith) (ground arith) (ground arith)

-- The outcome of a poll that answers with an item.
pub record Taken (env : Env) (b h : Text) (bcn : Beacon) (queue after : Dict WorkItem)
    : Type 0 where
  pub before : WorkItem
  pub now_held : WorkItem
  pub was_there : lookup h queue ≡ some before
  pub may_take : MayTake env b bcn before
  pub is_there : lookup h after ≡ some now_held
  pub runs : now_held.status ≡ running
  pub on_beacon : now_held.assigned_beacon ≡ some b
  pub counted : now_held.attempt_number ≡ suc before.attempt_number

take_assigned-Taken :
    (env : Env) (b h : Text) (bcn : Beacon) (it : WorkItem) (c : Coordinator)
    → lookup h c.queue ≡ some it
    → is_mine b it ≡ true
    → Taken env b h bcn c.queue (take_assigned env b h it c).queue
unfolding take_assigned start_assigned is_mine
take_assigned-Taken env b h bcn it c found mine = record {
  before = it;
  now_held = start_assigned env.now it;
  was_there = found;
  may_take = own mine;
  is_there = ground (arith, lookup-modify h h (start_assigned env.now) c.queue);
  runs = refl;
  on_beacon = ground arith;
  counted = refl;
}

take_pending-Taken :
    (env : Env) (b h : Text) (bcn : Beacon) (it : WorkItem) (c : Coordinator)
    → lookup h c.queue ≡ some it
    → can_claim env b bcn it ≡ true
    → Taken env b h bcn c.queue (take_pending env b h it c).queue
unfolding take_pending claim_poll
take_pending-Taken env b h bcn it c found may = record {
  before = it;
  now_held = claim_poll env.now b it;
  was_there = found;
  may_take = can_claim-MayTake env b bcn it may;
  is_there = ground (arith, lookup-modify h h (claim_poll env.now b) c.queue);
  runs = refl;
  on_beacon = refl;
  counted = refl;
}

take_work-Taken :
    (env : Env) (b h : Text) (bcn : Beacon) (c : Coordinator)
    → (take_work env b bcn c).1 ≡ some h
    → Taken env b h bcn c.queue (take_work env b bcn c).0.queue
unfolding take_work
take_work-Taken env b h bcn c e = elim (Option-cases (find (is_mine b) c.queue)) [
  | inr ((k, it), f) ↦
      let found = find_in-some (is_mine b) (keys c.queue) c.queue f in
      let same : k ≡ h = ground arith in
      rw (f, take_work)
        (subst (λ j. Taken env b j bcn c.queue (take_assigned env b k it c).queue) same
          (take_assigned-Taken env b k bcn it c found.0 found.1))
  | inl f ↦
      rw (f, take_work)
        (elim (Option-cases (find (can_claim env b bcn) c.queue)) [
          | inr ((k, it), g) ↦
              let found = find_in-some (can_claim env b bcn) (keys c.queue) c.queue g in
              let same : k ≡ h = ground arith in
              rw (g, take_work)
                (subst (λ j. Taken env b j bcn c.queue (take_pending env b k it c).queue) same
                  (take_pending-Taken env b k bcn it c found.0 found.1))
          | inl g ↦ ground arith
        ])
]

-- A poll that answers with an item gives one that was in the queue and that the beacon may take;
-- it runs on that beacon afterwards, its attempt is counted, and the beacon had a free slot.
pub poll_sound :
    (env : Env) (b h : Text) (bcn : Beacon) (c : Coordinator)
    → lookup b c.beacons ≡ some bcn
    → (poll_for_work env b c).1 ≡ some h
    → (length bcn.current < bcn.max_concurrent)
      × Taken env b h bcn c.queue (poll_for_work env b c).0.queue
unfolding poll_for_work
poll_sound env b h bcn c there e = elim (Bool-cases (leb bcn.max_concurrent (length bcn.current))) [
  | inl t ↦ ground arith
  | inr t ↦
      rw (there, poll_for_work)
        (rw t (
          ground arith,
          take_work-Taken env b h bcn
              (modify_beacon b (λ x. record x { last_heartbeat = env.now }) c) (ground arith),
        ))
]

-- A poll that answers with nothing leaves the queue alone, and either the beacon is full or an item
-- of the queue, whichever it is, is neither assigned to the beacon nor claimable by it.
pub poll_complete :
    (env : Env) (b h : Text) (bcn : Beacon) (it : WorkItem) (c : Coordinator)
    → lookup b c.beacons ≡ some bcn
    → lookup h c.queue ≡ some it
    → (poll_for_work env b c).1 ≡ none
    → ((poll_for_work env b c).0.queue ≡ c.queue)
      × ((bcn.max_concurrent ≤ length bcn.current)
          ⊎ ((is_mine b it ≡ false) × (can_claim env b bcn it ≡ false)))
unfolding poll_for_work take_work
poll_complete env b h bcn it c there l e =
    elim (Bool-cases (leb bcn.max_concurrent (length bcn.current))) [
      | inl t ↦ (ground arith, inl (ground arith))
      | inr t ↦ elim (Option-cases (find (is_mine b) c.queue)) [
        | inr (k, f) ↦ ground arith
        | inl f ↦ elim (Option-cases (find (can_claim env b bcn) c.queue)) [
          | inr (k, g) ↦ ground arith
          | inl g ↦ (
            ground arith,
            inr (
              find_in-none (is_mine b) (keys c.queue) c.queue h it f (contains-keys h it c.queue l)
                  l,
              find_in-none (can_claim env b bcn) (keys c.queue) c.queue h it g
                  (contains-keys h it c.queue l) l,
            ),
          )
        ]
      ]
    ]
