-- ===== src/Coordinator/Poll.antt =====
-- `pollForWork` (source/services/Ultravisor-Beacon-Coordinator.cjs). The answer is the item's hash;
-- `_sanitizeWorkItemForBeacon` only copies fields of the item.
use ultravisor.Base.{
  ℕ, suc, ◌-◌, ◌==◌, Bool, false, not, ◌&&◌, Option, none, some, List, [], ◌∷◌, ◌++◌, if◌then◌else◌,
  leb, length, contains, or_num, or_else,
}
use ultravisor.Base.Dict.{lookup, find}
use ultravisor.Work.{Text, Status, WorkItem, Beacon, running, assigned, is_assigned, is_pending}
use ultravisor.Coordinator.State.{
  Env, Coordinator, Effect, persist_update, persist_event, persist_attempt, dispatched, emit_if,
  persists, modify_item, modify_beacon, with_current,
}
use ultravisor.Coordinator.Routing.{satisfies_affinity, bind_affinity, claim_rows}

abbrev pub assigned_to : Text → WorkItem → Bool
assigned_to b it = elim it.assigned_beacon [ none ↦ false | some a ↦ a == b ]

abbrev pub assigned_elsewhere : Text → WorkItem → Bool
assigned_elsewhere b it = elim it.assigned_beacon [ none ↦ false | some a ↦ not (a == b) ]

-- The first pass takes an item that was assigned to this beacon.
unfoldable pub is_mine : Text → WorkItem → Bool
is_mine b it = is_assigned it.status && assigned_to b it

-- The second pass takes a pending item that this beacon may run.
unfoldable pub can_claim : Env → Text → Beacon → WorkItem → Bool
unfolding satisfies_affinity
can_claim env b bcn it =
    is_pending it.status
    && not (assigned_elsewhere b it)
    && satisfies_affinity it bcn
    && contains it.capability bcn.capabilities
    && env.fleet_allows b it

-- `if (!QueueWaitMs && EnqueuedAt)`: the wait is recorded once.
abbrev pub wait_of : ℕ → WorkItem → ℕ
wait_of now it = or_num it.queue_wait_ms (now - it.enqueued_at)

unfoldable pub start_assigned : ℕ → WorkItem → WorkItem
start_assigned now it = record it {
  status = running;
  started_at = some (or_else it.started_at now);
  dispatched_at = some (or_else it.dispatched_at now);
  last_event_at = some now;
  queue_wait_ms = wait_of now it;
  attempt_number = suc it.attempt_number;
}

unfoldable pub claim_poll : ℕ → Text → WorkItem → WorkItem
claim_poll now b it = record it {
  status = running;
  assigned_beacon = some b;
  claimed_at = some now;
  assigned_at = some (or_else it.assigned_at now);
  dispatched_at = some (or_else it.dispatched_at now);
  started_at = some (or_else it.started_at now);
  last_event_at = some now;
  queue_wait_ms = wait_of now it;
  attempt_number = suc it.attempt_number;
}

-- What both passes hand to the persistence bridge.
abbrev pub poll_rows : Text → Text → Status → WorkItem → List Effect
poll_rows h b from it =
    persist_update h running
    ∷ persist_event h dispatched (some from) running
    ∷ persist_attempt h (suc it.attempt_number) b
    ∷ []

unfoldable pub take_assigned : Env → Text → Text → WorkItem → Coordinator → Coordinator
unfolding start_assigned
take_assigned env b h it c =
    emit_if (persists env it) (poll_rows h b assigned it) (modify_item h (start_assigned env.now) c)

unfoldable pub take_pending : Env → Text → Text → WorkItem → Coordinator → Coordinator
unfolding claim_poll bind_affinity
take_pending env b h it c = emit_if env.has_journal (claim_rows h b it) (
    emit_if (persists env it) (poll_rows h b it.status it) (
      modify_beacon b
        (λ x. with_current (if contains h x.current then x.current else x.current ++ h ∷ []) x)
        (modify_item h (claim_poll env.now b)
          (record c { bindings = bind_affinity env b it c.bindings }))))

-- A poll that may take work: first what is assigned to the beacon, then what it may claim.
unfoldable pub take_work : Env → Text → Beacon → Coordinator → Coordinator × Option Text
unfolding is_mine can_claim take_assigned take_pending
take_work env b bcn c = elim (find (is_mine b) c.queue) [
  | some (h, it) ↦ (take_assigned env b h it c, some h)
  | none ↦ elim (find (can_claim env b bcn) c.queue) [
    | some (h, it) ↦ (take_pending env b h it c, some h)
    | none ↦ (c, none)
  ]
]

unfoldable pub poll_for_work : Env → Text → Coordinator → Coordinator × Option Text
unfolding take_work
poll_for_work env b c = elim (lookup b c.beacons) [
  | none ↦ (c, none)
  | some bcn ↦
      let seen = modify_beacon b (λ x. record x { last_heartbeat = env.now }) c in
      if leb bcn.max_concurrent (length bcn.current) then (seen, none) else take_work env b bcn seen
]
