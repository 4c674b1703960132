-- ===== src/Coordinator/Timeouts.antt =====
-- `_checkTimeouts` (source/services/Ultravisor-Beacon-Coordinator.cjs). The retry loop walks the keys
-- that were there before the first loop, and reads a field of each entry without a test: an entry
-- that the first loop deleted makes it throw, which the second component of the result says.
use ultravisor.Base.{
  ℕ, ◌-◌, Bool, true, false, not, ◌&&◌, ◌||◌, none, some, List, [], ◌∷◌, if◌then◌else◌, ltb, leb,
  or_num,
}
use ultravisor.Base.Dict.{Dict, lookup, keys, delete}
use ultravisor.Work.{
  Text, WorkItem, Beacon, pending, offline, is_running, is_assigned, is_retry_scheduled, is_offline,
  timed_out,
}
use ultravisor.Coordinator.State.{Env, Coordinator, journal_affinity_clear, emit_if, modify_item}
use ultravisor.Coordinator.Routing.{try_push}
use ultravisor.Coordinator.Finish.{fail_work_item}

-- Running or assigned for longer than its timeout.
unfoldable pub is_overdue : ℕ → WorkItem → Bool
is_overdue now it =
    (is_running it.status || is_assigned it.status)
    && elim it.claimed_at [ none ↦ false | some t ↦ ltb it.timeout_ms (now - t) ]

-- The first loop deletes no item but the one that it looks at, so that every key is found.
unfoldable pub expire_one : Env → Text → Coordinator → Coordinator
unfolding is_overdue
expire_one env h c = elim (lookup h c.queue) [
  | none ↦ c
  | some it ↦ if is_overdue env.now it then (fail_work_item env h timed_out c).0 else c
]

unfoldable pub expire_loop : Env → List Text → Coordinator → Coordinator
unfolding expire_one
expire_loop env [] c = c
expire_loop env (h ∷ hs) c = expire_loop env hs (expire_one env h c)

unfoldable pub is_due : ℕ → WorkItem → Bool
is_due now it =
    is_retry_scheduled it.status && elim it.retry_after [ none ↦ false | some t ↦ leb t now ]

abbrev pub back_in_queue : WorkItem → WorkItem
back_in_queue it = record it { status = pending; retry_after = none }

unfoldable pub retry_one : Env → Text → WorkItem → Coordinator → Coordinator
unfolding is_due
retry_one env h it c =
    if is_due env.now it then (try_push env h (modify_item h back_in_queue c)).0 else c

-- The retry loop: whether it threw.
unfoldable pub retry_loop : Env → List Text → Coordinator → Coordinator × Bool
unfolding retry_one
retry_loop env [] c = (c, false)
retry_loop env (h ∷ hs) c = elim (lookup h c.queue) [
  | none ↦ (c, true)
  | some it ↦ retry_loop env hs (retry_one env h it c)
]

unfoldable pub lapse : Env → Beacon → Beacon
lapse env bcn =
    if ltb (or_num env.heartbeat_timeout_ms 60000) (env.now - bcn.last_heartbeat)
      && not (is_offline bcn.status)
    then record bcn { status = offline }
    else bcn

unfoldable pub lapse_all : Env → Dict Beacon → Dict Beacon
unfolding lapse
lapse_all env [] = []
lapse_all env ((b, bcn) ∷ m) = (b, lapse env bcn) ∷ lapse_all env m

unfoldable pub expire_binding : Env → Text → Coordinator → Coordinator
expire_binding env k c = elim (lookup k c.bindings) [
  | none ↦ c
  | some bind ↦
      if ltb bind.expires env.now
      then emit_if env.has_journal (journal_affinity_clear k ∷ [])
          (record c { bindings = delete k c.bindings })
      else c
]

unfoldable pub expire_bindings : Env → List Text → Coordinator → Coordinator
unfolding expire_binding
expire_bindings env [] c = c
expire_bindings env (k ∷ ks) c = expire_bindings env ks (expire_binding env k c)

-- The last two loops of the pass.
unfoldable pub sweep : Env → Coordinator → Coordinator
unfolding lapse_all expire_bindings
sweep env c = expire_bindings env (keys c.bindings) (record c { beacons = lapse_all env c.beacons })

unfoldable pub check_timeouts : Env → Coordinator → Coordinator × Bool
unfolding expire_loop retry_loop sweep
check_timeouts env c =
    let hashes = keys c.queue in
    let (c', threw) = retry_loop env hashes (expire_loop env hashes c) in
    if threw then (c', true) else (sweep env c', false)
