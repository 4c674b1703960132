-- ===== src/Coordinator/Routing.antt =====
-- Delivery over the push channel and the freeing of slots: `_pushAssignedWorkItem`,
-- `_runningCountForBeacon`, `_beaconSatisfiesAffinity`, `_tryPushToWebSocketBeacon`,
-- `_removeWorkItemFromBeacon` and `_dispatchPendingWorkItems`
-- (source/services/Ultravisor-Beacon-Coordinator.cjs).
use ultravisor.Base.{
  ℕ, ◌+◌, ◌==◌, Bool, true, false, not, ◌&&◌, ◌||◌, Option, none, some, List, [], ◌∷◌, ◌++◌,
  if◌then◌else◌, ltb, leb, length, contains, remove, or_num, is_some,
}
use ultravisor.Base.Dict.{Dict, lookup, insert, keys}
use ultravisor.Base.Count.{count}
use ultravisor.Work.{
  Text, WorkItem, Beacon, Binding, running, assigned, pending, online, is_pending, is_assigned,
  is_running, is_offline,
}
use ultravisor.Coordinator.State.{
  Env, Coordinator, Effect, journal_claim, journal_affinity, push_frame, emit, emit_if, modify_item,
  modify_beacon, with_current,
}

abbrev pub runs_on : Text → WorkItem → Bool
runs_on b it = elim it.assigned_beacon [ none ↦ false | some a ↦ a == b && is_running it.status ]

unfoldable pub running_count : Text → Dict WorkItem → ℕ
running_count b queue = count (runs_on b) queue

unfoldable pub satisfies_affinity : WorkItem → Beacon → Bool
satisfies_affinity it bcn =
    not it.require_affinity_match || it.affinity_key == 0 || bcn.name == it.affinity_key

-- The body of `_pushAssignedWorkItem` once the handler and the designated beacon are known.
unfoldable pub push_to_assigned :
    (Text → WorkItem → Bool) → Text → WorkItem → Text → Beacon → Coordinator → Coordinator
push_to_assigned handler h it b bcn c =
    let delivered =
      emit (push_frame b h ∷ []) (modify_item h (λ i. record i { status = running }) c) in
    let refused =
      emit (push_frame b h ∷ []) (modify_item h (λ i. record i { status = assigned }) c) in
    if is_offline bcn.status || leb (or_num bcn.max_concurrent 1) (running_count b c.queue)
    then c
    else (if handler b (record it { status = running }) then delivered else refused)

unfoldable pub push_assigned : Env → Text → Coordinator → Coordinator
unfolding push_to_assigned
push_assigned env h c = elim env.push_handler [
  | none ↦ c
  | some handler ↦ elim (lookup h c.queue) [
    | none ↦ c
    | some it ↦ elim it.assigned_beacon [
      | none ↦ c
      | some b ↦ elim (lookup b c.beacons) [
        | none ↦ c
        | some bcn ↦ push_to_assigned handler h it b bcn c
      ]
    ]
  ]
]

-- The tests that a beacon has to pass in the loop of `_tryPushToWebSocketBeacon`.
unfoldable pub can_push : Env → Text → Beacon → WorkItem → Bool
unfolding satisfies_affinity
can_push env b bcn it =
    not (is_offline bcn.status)
    && ltb (length bcn.current) bcn.max_concurrent
    && satisfies_affinity it bcn
    && contains it.capability bcn.capabilities
    && env.fleet_allows b it

unfoldable pub claim_push : ℕ → Text → WorkItem → WorkItem
claim_push now b it = record it {
  status = running;
  assigned_beacon = some b;
  claimed_at = some now;
  dispatched_at = some now;
  last_event_at = some now;
}

unfoldable pub revert_push : WorkItem → WorkItem
revert_push it = record it { status = pending; assigned_beacon = none; claimed_at = none }

-- An affinity key without a binding is bound to the beacon that takes the item.
unfoldable pub bind_affinity : Env → Text → WorkItem → Dict Binding → Dict Binding
bind_affinity env b it bindings =
    let binding : Binding = record {
      beacon = b;
      run = it.run_hash;
      created = env.now;
      expires = env.now + or_num env.affinity_ttl_ms 3600000;
    } in
    if it.affinity_key == 0 || is_some (lookup it.affinity_key bindings)
    then bindings
    else insert it.affinity_key binding bindings

-- The journal rows of a claim.
abbrev pub claim_rows : Text → Text → WorkItem → List Effect
claim_rows h b it =
    journal_claim h b ∷ (if it.affinity_key == 0 then [] else journal_affinity it.affinity_key ∷ [])

-- One beacon of the loop: the item is claimed for it and pushed, and the claim is taken back where
-- the push fails.
unfoldable pub try_push_to :
    Env
    → (Text → WorkItem → Bool)
    → Text
    → WorkItem
    → Text
    → Beacon
    → Coordinator
    → Coordinator × Bool
unfolding claim_push revert_push bind_affinity
try_push_to env handler h it b bcn c =
    let bound = record c { bindings = bind_affinity env b it c.bindings } in
    let delivered = emit_if env.has_journal (claim_rows h b it) (
      emit (push_frame b h ∷ []) (
        modify_beacon b (λ x. with_current (x.current ++ h ∷ []) x)
          (modify_item h (claim_push env.now b) bound))) in
    let refused = emit (push_frame b h ∷ []) (
      modify_beacon b (λ x. with_current (remove h (x.current ++ h ∷ [])) x)
        (modify_item h (λ i. revert_push (claim_push env.now b i)) bound)) in
    if handler b (claim_push env.now b it) then (delivered, true) else (refused, false)

unfoldable pub try_push_one :
    Env → (Text → WorkItem → Bool) → Text → Text → Coordinator → Coordinator × Bool
unfolding try_push_to can_push
try_push_one env handler h b c = elim (lookup h c.queue) [
  | none ↦ (c, false)
  | some it ↦ elim (lookup b c.beacons) [
    | none ↦ (c, false)
    | some bcn ↦ if can_push env b bcn it then try_push_to env handler h it b bcn c else (c, false)
  ]
]

unfoldable pub try_push_loop :
    Env → (Text → WorkItem → Bool) → Text → List Text → Coordinator → Coordinator × Bool
unfolding try_push_one
try_push_loop env handler h [] c = (c, false)
try_push_loop env handler h (b ∷ bs) c =
    let (c', done) = try_push_one env handler h b c in
    let rest = try_push_loop env handler h bs c' in if done then (c', true) else rest

unfoldable pub try_push : Env → Text → Coordinator → Coordinator × Bool
unfolding try_push_loop
try_push env h c = elim env.push_handler [
  | none ↦ (c, false)
  | some handler ↦ try_push_loop env handler h (keys c.beacons) c
]

-- One item of the walk in `_dispatchPendingWorkItems`.
unfoldable pub dispatch_one : Env → Text → Coordinator → Coordinator
unfolding push_assigned try_push
dispatch_one env h c = elim (lookup h c.queue) [
  | none ↦ c
  | some it ↦
      if is_assigned it.status && is_some it.assigned_beacon
      then push_assigned env h c
      else (if is_pending it.status && not (is_some it.assigned_beacon)
          then (try_push env h c).0
          else c)
]

unfoldable pub dispatch_loop : Env → List Text → Coordinator → Coordinator
unfolding dispatch_one
dispatch_loop env [] c = c
dispatch_loop env (h ∷ hs) c = dispatch_loop env hs (dispatch_one env h c)

unfoldable pub dispatch_pending : Env → Coordinator → Coordinator
unfolding dispatch_loop
dispatch_pending env c = if is_some env.push_handler then dispatch_loop env (keys c.queue) c else c

unfoldable pub free_slot : Text → Beacon → Beacon
free_slot h bcn =
    let left = remove h bcn.current in
    record bcn {
      current = left;
      status = if ltb (length left) bcn.max_concurrent then online else bcn.status;
    }

unfoldable pub remove_from_beacon : Env → Option Text → Text → Coordinator → Coordinator
unfolding free_slot dispatch_pending
remove_from_beacon env none h c = c
remove_from_beacon env (some b) h c =
    if is_some (lookup b c.beacons)
    then dispatch_pending env (modify_beacon b (free_slot h) c)
    else c
