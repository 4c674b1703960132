-- ===== src/Scheduler/Dispatch.antt =====
-- `_dispatchTick`, `_dispatchItemToBeacon` and `_markCanceled`
-- (source/services/Ultravisor-Beacon-Scheduler.cjs). The payload that the dispatch stamps on the
-- item's settings is left out.
use ultravisor.Base.{
  ℕ, suc, ◌-◌, Bool, true, false, none, some, List, [], ◌∷◌, ◌++◌, if◌then◌else◌, contains, or_num,
  or_else, is_some,
}
use ultravisor.Base.Dict.{Dict}
use ultravisor.Work.{
  Text, Status, WorkItem, Beacon, queued, pending, dispatched, canceled, canceled_before_dispatch,
}
use ultravisor.Coordinator.State.{
  Env, Coordinator, persist_update, persist_event, persist_attempt, push_frame, broadcast,
  canceled_event, emit, emit_if, persists, modify_item, modify_beacon, with_current,
}
use ultravisor.Coordinator.State.{EventType}
use ultravisor.Scheduler.Order.{sort}
use ultravisor.Scheduler.Pick.{pick_beacon}

abbrev pub awaits_dispatch : Status → Bool
awaits_dispatch queued = true
awaits_dispatch pending = true
awaits_dispatch _ = false

unfoldable pub to_dispatched : ℕ → Text → WorkItem → WorkItem
to_dispatched now b it = record it {
  status = dispatched;
  assigned_beacon = some b;
  assigned_at = some (or_else it.assigned_at now);
  dispatched_at = some now;
  last_event_at = some now;
  queue_wait_ms = now - it.enqueued_at;
  attempt_number = suc it.attempt_number;
}

abbrev pub list_hash : Text → Beacon → Beacon
list_hash h x = with_current (if contains h x.current then x.current else x.current ++ h ∷ []) x

unfoldable pub dispatch_item : Env → Text → WorkItem → Text → Coordinator → Coordinator
unfolding to_dispatched
dispatch_item env h it b c = emit (broadcast h EventType.dispatched ∷ []) (
    emit_if (is_some env.push_handler) (push_frame b h ∷ []) (
      emit_if (persists env it)
        (persist_update h dispatched
          ∷ persist_event h EventType.dispatched (some it.status) dispatched
          ∷ persist_attempt h (suc it.attempt_number) b
          ∷ [])
        (modify_beacon b (list_hash h) (modify_item h (to_dispatched env.now b) c))))

unfoldable pub to_canceled : ℕ → Text → WorkItem → WorkItem
to_canceled now reason it = record it {
  status = canceled;
  canceled_at = some (or_else it.canceled_at now);
  cancel_reason = or_num it.cancel_reason reason;
  last_event_at = some now;
}

unfoldable pub mark_canceled : Env → Text → WorkItem → Text → Coordinator → Coordinator
unfolding to_canceled
mark_canceled env h it reason c = emit (broadcast h canceled_event ∷ []) (
    emit_if (persists env it)
      (persist_update h canceled ∷ persist_event h canceled_event (some it.status) canceled ∷ [])
      (modify_item h (to_canceled env.now reason) c))

-- The items that wait, in the order of the queue.
unfoldable pub waiting : Dict WorkItem → List (Text × WorkItem)
waiting [] = []
waiting ((h, it) ∷ m) =
    let rest = waiting m in if awaits_dispatch it.status then (h, it) ∷ rest else rest

-- One item of the tick.
unfoldable pub tick_one : Env → Text → WorkItem → Coordinator → Coordinator
unfolding mark_canceled dispatch_item pick_beacon
tick_one env h it c =
    if it.cancel_requested
    then mark_canceled env h it canceled_before_dispatch c
    else elim (pick_beacon it c.beacons) [ none ↦ c | some (b, bcn) ↦ dispatch_item env h it b c ]

unfoldable pub tick_loop : Env → List (Text × WorkItem) → Coordinator → Coordinator
unfolding tick_one
tick_loop env [] c = c
tick_loop env ((h, it) ∷ items) c = tick_loop env items (tick_one env h it c)

unfoldable pub dispatch_tick : Env → Coordinator → Coordinator
unfolding tick_loop waiting sort
dispatch_tick env c = tick_loop env (sort (waiting c.queue)) c
