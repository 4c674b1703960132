-- ===== src/Coordinator/Enqueue.antt =====
-- `enqueueWorkItem` (source/services/Ultravisor-Beacon-Coordinator.cjs).
use ultravisor.Base.{
  ℕ, suc, ◌==◌, Bool, false, Option, none, some, List, [], ◌∷◌, ◌++◌, if◌then◌else◌, ltb, or_num,
  or_else, is_some, ◌&&◌,
}
use ultravisor.Base.Int.{ℤ, pos}
use ultravisor.Base.Dict.{Dict, lookup, insert, delete}
use ultravisor.Work.{
  Text, WorkItem, Binding, pending, assigned, is_pending, is_assigned, unknown, shell, execute,
  unknown_health,
}
use ultravisor.Defaults.{Settings, Row, apply_to_work_item}
use ultravisor.Coordinator.State.{
  Env, Coordinator, Effect, journal_enqueue, journal_affinity, persist_upsert, persist_event,
  broadcast, enqueued, emit_if, persists, modify_beacon, with_current,
}
use ultravisor.Coordinator.Routing.{push_assigned, try_push}
use ultravisor.Coordinator.Registry.{find_by_name}

pub record WorkItemInfo : Type 0 where
  pub run_hash : Text
  pub run_id : Text
  pub node_hash : Text
  pub operation_hash : Text
  pub capability : Text
  pub action : Text
  pub settings : Settings
  pub affinity_key : Text
  pub require_affinity_match : Bool
  pub timeout_ms : ℕ
  pub enqueued_at : Option ℕ
  pub priority : Option ℤ

-- The literal of the new work item.
unfoldable pub new_item : Env → WorkItemInfo → WorkItem
new_item env info = record {
  run_hash = info.run_hash;
  run_id = info.run_id;
  node_hash = info.node_hash;
  operation_hash = info.operation_hash;
  capability = or_num info.capability shell;
  action = or_num info.action execute;
  affinity_key = info.affinity_key;
  require_affinity_match = info.require_affinity_match;
  assigned_beacon = none;
  status = pending;
  timeout_ms = or_num info.timeout_ms (or_num env.default_timeout_ms 300000);
  created_at = env.now;
  enqueued_at = or_else info.enqueued_at env.now;
  assigned_at = none;
  dispatched_at = none;
  started_at = none;
  claimed_at = none;
  completed_at = none;
  canceled_at = none;
  cancel_requested = false;
  cancel_reason = 0;
  last_event_at = some env.now;
  queue_wait_ms = 0;
  priority = or_else info.priority (or_else info.settings.priority_setting (pos 0));
  health_label = unknown_health;
  attempt_number = 0;
  max_attempts = or_num info.settings.max_retries 1;
  retry_backoff_ms = or_num info.settings.retry_backoff 5000;
  retry_after = none;
  last_error = 0;
  prior_status = none;
  stalled_at = none;
  stalled_since_ms = none;
  stall_finalized = false;
}

-- The action defaults are applied where their service is there; it gives the resolved row.
unfoldable pub with_defaults : Option (Text → Text → Row) → Settings → WorkItem → WorkItem
unfolding apply_to_work_item
with_defaults none s it = it
with_defaults (some resolve) s it = apply_to_work_item s (resolve it.capability it.action) it

abbrev pub assign_to : ℕ → Text → WorkItem → WorkItem
assign_to now b it = record it {
  assigned_beacon = some b;
  status = assigned;
  claimed_at = some now;
}

abbrev pub pre_assign : Env → Text → WorkItem → Text → Coordinator → Coordinator × WorkItem
pre_assign env h it b c =
    (modify_beacon b (λ x. with_current (x.current ++ h ∷ []) x) c, assign_to env.now b it)

-- The sticky binding of the key: used while it lasts, deleted where it has expired.
unfoldable pub route_sticky : Env → Text → WorkItem → Binding → Coordinator → Coordinator × WorkItem
route_sticky env h it bind c =
    if is_some (lookup bind.beacon c.beacons)
    then (if ltb env.now bind.expires
        then pre_assign env h it bind.beacon c
        else (record c { bindings = delete it.affinity_key c.bindings }, it))
    else (c, it)

-- The affinity block of `enqueueWorkItem`: the beacons and bindings afterwards, and the item to
-- store. A beacon of that name comes first, then, unless the name is required, the binding.
unfoldable pub route : Env → Text → WorkItem → Coordinator → Coordinator × WorkItem
unfolding route_sticky
route env h it c =
    if it.affinity_key == 0 then (c, it) else elim (find_by_name it.affinity_key c.beacons) [
      | some (b, named) ↦ pre_assign env h it b c
      | none ↦
          if it.require_affinity_match then (c, it) else elim (lookup it.affinity_key c.bindings) [
            | none ↦ (c, it)
            | some bind ↦ route_sticky env h it bind c
          ]
    ]

-- The journal rows of an enqueue; a pre-assigned item repeats its binding, if there is one.
abbrev pub enqueue_rows : Text → WorkItem → Dict Binding → List Effect
enqueue_rows h it bindings =
    journal_enqueue h it.status
    ∷ (if is_assigned it.status && is_some (lookup it.affinity_key bindings)
        then journal_affinity it.affinity_key ∷ []
        else [])

-- The item is stored and told to the journal, the persistence bridge and the scheduler.
unfoldable pub store_item : Env → Text → WorkItem → Coordinator → Coordinator
store_item env h it c = emit_if env.has_scheduler (broadcast h enqueued ∷ []) (
    emit_if (persists env it)
      (persist_upsert h it.status ∷ persist_event h enqueued none it.status ∷ [])
      (emit_if env.has_journal (enqueue_rows h it c.bindings)
        (record c { queue = insert h it c.queue })))

-- The first delivery of the stored item.
unfoldable pub deliver : Env → Text → WorkItem → Coordinator → Coordinator
unfolding push_assigned try_push
deliver env h it c =
    if is_pending it.status
    then (try_push env h c).0
    else (if is_assigned it.status then push_assigned env h c else c)

unfoldable pub enqueue_as :
    Env → Option (Text → Text → Row) → Text → WorkItemInfo → Coordinator → Coordinator
unfolding new_item with_defaults route store_item deliver
enqueue_as env defaults h info c =
    let it = with_defaults defaults info.settings (new_item env info) in
    let (routed, stored) = route env h it c in deliver env h stored (store_item env h stored routed)

unfoldable pub enqueue_work_item :
    Env → Option (Text → Text → Row) → WorkItemInfo → Coordinator → Coordinator × Text
unfolding enqueue_as
enqueue_work_item env defaults info c =
    let counter = suc c.counter in
    let h =
      env.work_item_hash (or_num info.run_hash unknown) (or_num info.node_hash unknown) env.now
        counter in
    (enqueue_as env defaults h info (record c { counter = counter }), h)
