-- ===== src/Coordinator/Requests.antt =====
-- `updateProgress`, `clearAffinityBinding`, `dispatchAndWait`, `dispatchAndStream` and the timeouts of
-- the last two (source/services/Ultravisor-Beacon-Coordinator.cjs).
use ultravisor.Base.{
  Bool, true, false, ◌||◌, Option, none, some, [], ◌∷◌, if◌then◌else◌, contains, remove, or_else,
  is_some,
}
use ultravisor.Base.Dict.{lookup, delete}
use ultravisor.Work.{Text, WorkItem, is_running, is_assigned}
use ultravisor.Defaults.{Row}
use ultravisor.Coordinator.State.{
  Env, Coordinator, persist_progress, stream_progress, journal_affinity_clear, answer_stream,
  answer_direct, emit, emit_if, persists, modify_item,
}
use ultravisor.Coordinator.Routing.{remove_from_beacon}
use ultravisor.Coordinator.Enqueue.{WorkItemInfo, enqueue_work_item}
use ultravisor.Coordinator.Finish.{drop_item}

unfoldable pub hear_from : Env → WorkItem → WorkItem
hear_from env it = record it {
  last_event_at = some env.now;
  started_at = some (or_else it.started_at env.now);
}

-- Progress counts only for an item that is running or assigned.
unfoldable pub update_progress : Env → Text → Coordinator → Coordinator × Bool
unfolding hear_from
update_progress env h c = elim (lookup h c.queue) [
  | none ↦ (c, false)
  | some it ↦
      if is_running it.status || is_assigned it.status
      then (
        emit_if (contains h c.streams) (stream_progress h ∷ [])
            (emit_if (persists env it) (persist_progress h ∷ []) (modify_item h (hear_from env) c)),
        true,
      )
      else (c, false)
]

unfoldable pub clear_affinity : Env → Text → Coordinator → Coordinator × Bool
clear_affinity env key c =
    if is_some (lookup key c.bindings)
    then (
      emit_if env.has_journal (journal_affinity_clear key ∷ [])
          (record c { bindings = delete key c.bindings }),
      true,
    )
    else (c, false)

-- A dispatch outside of any operation.
abbrev pub standalone : WorkItemInfo → WorkItemInfo
standalone info = record info { run_hash = 0; node_hash = 0; operation_hash = 0 }

unfoldable pub dispatch_and_wait :
    Env → Option (Text → Text → Row) → WorkItemInfo → Coordinator → Coordinator × Text
unfolding enqueue_work_item
dispatch_and_wait env defaults info c =
    let (c', h) = enqueue_work_item env defaults (standalone info) c in
    (record c' { direct = h ∷ c'.direct }, h)

unfoldable pub dispatch_and_stream :
    Env → Option (Text → Text → Row) → WorkItemInfo → Coordinator → Coordinator × Text
unfolding enqueue_work_item
dispatch_and_stream env defaults info c =
    let (c', h) = enqueue_work_item env defaults (standalone info) c in
    (record c' { streams = h ∷ c'.streams }, h)

-- What both timers do with the item, if it is still there.
unfoldable pub abandon_item : Env → Text → Coordinator → Coordinator
unfolding remove_from_beacon
abandon_item env h c = elim (lookup h c.queue) [
  | none ↦ c
  | some it ↦ drop_item h (remove_from_beacon env it.assigned_beacon h c)
]

unfoldable pub on_wait_timeout : Env → Text → Coordinator → Coordinator
unfolding abandon_item
on_wait_timeout env h c =
    if contains h c.direct
    then emit (answer_direct h false ∷ [])
        (abandon_item env h (record c { direct = remove h c.direct }))
    else c

unfoldable pub on_stream_timeout : Env → Text → Coordinator → Coordinator
unfolding abandon_item
on_stream_timeout env h c =
    if contains h c.streams
    then emit (answer_stream h false ∷ [])
        (abandon_item env h (record c { streams = remove h c.streams }))
    else c
