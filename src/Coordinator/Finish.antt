-- ===== src/Coordinator/Finish.antt =====
-- `completeWorkItem`, `failWorkItem`, `stallWorkItem`, their answers to waiting callers, and the
-- callbacks of the engine calls that they end in (source/services/Ultravisor-Beacon-Coordinator.cjs).
-- An engine call is an effect; what its callback does with the queue is a step of its own, since
-- other calls may come in between.
use ultravisor.Base.{
  ℕ, suc, ◌+◌, ◌-◌, ◌*◌, ◌==◌, Bool, true, false, none, some, List, [], ◌∷◌, if◌then◌else◌, ltb,
  contains, remove, or_num,
}
use ultravisor.Base.Dict.{lookup, delete}
use ultravisor.Work.{
  Text, Status, WorkItem, complete, error, timeout, retry_scheduled, stalled, unknown_error,
}
use ultravisor.Coordinator.State.{
  Env, Coordinator, Effect, journal_complete, journal_fail, journal_retry, journal_stalled,
  persist_update, persist_event, persist_outcome, broadcast, completed_event, failed_event,
  answer_stream, answer_direct, record_task_error, resume_operation, stall_operation, emit, emit_if,
  persists, modify_item,
}
use ultravisor.Coordinator.Routing.{remove_from_beacon}

-- What the callback of a report is called with; `deferred` leaves it to the engine's callback.
pub data Reply : Type 0 where
  done deferred not_found no_engine : Reply
  already_finalized : Status → Reply

abbrev pub is_finalized : Status → Bool
is_finalized complete = true
is_finalized error = true
is_finalized timeout = true
is_finalized _ = false

abbrev pub drop_item : Text → Coordinator → Coordinator
drop_item h c = record c { queue = delete h c.queue }

-- `_resolveStreamDispatch`, `_resolveDirectDispatch`, and what follows where neither answers: a
-- standalone item is done with, and one of an operation resumes it.
unfoldable pub settle : Env → Text → WorkItem → Bool → Coordinator → Coordinator × Reply
settle env h it success c =
    if contains h c.streams
    then (
      emit (answer_stream h success ∷ []) (drop_item h (record c { streams = remove h c.streams })),
      done,
    )
    else (if contains h c.direct
        then (
          emit (answer_direct h success ∷ [])
              (drop_item h (record c { direct = remove h c.direct })),
          done,
        )
        else (if it.run_hash == 0
            then (drop_item h c, done)
            else (if env.has_engine
                then (
                  emit (resume_operation it.run_hash it.node_hash success ∷ []) (
                      emit_if (if success then false else env.has_manifest)
                        (record_task_error it.run_hash it.node_hash ∷ []) c),
                  deferred,
                )
                else (c, no_engine))))

unfoldable pub mark_complete : ℕ → WorkItem → WorkItem
mark_complete now it = record it {
  status = complete;
  completed_at = some now;
  last_event_at = some now;
}

-- The rows that a final report leaves with the persistence bridge.
abbrev pub final_rows : Text → Status → WorkItem → List Effect
final_rows h final it =
    persist_update h final
    ∷ persist_event h (elim final [ complete ↦ completed_event | _ ↦ failed_event ])
        (some it.status) final
    ∷ persist_outcome h (or_num it.attempt_number 1) final
    ∷ []

unfoldable pub complete_item : Env → Text → WorkItem → Coordinator → Coordinator × Reply
unfolding mark_complete settle
complete_item env h it c =
    let marked = emit_if env.has_scheduler (broadcast h completed_event ∷ []) (
      emit_if (persists env it) (final_rows h complete it) (
        emit_if env.has_journal (journal_complete h ∷ [])
          (modify_item h (mark_complete env.now) c))) in
    settle env h it true (remove_from_beacon env it.assigned_beacon h marked)

unfoldable pub complete_work_item : Env → Text → Coordinator → Coordinator × Reply
unfolding complete_item
complete_work_item env h c = elim (lookup h c.queue) [
  | none ↦ (c, not_found)
  | some it ↦
      if is_finalized it.status then (c, already_finalized it.status) else complete_item env h it c
]

-- The retry branch sets the beacon to null before it frees the slot of "the" beacon.
unfoldable pub schedule_retry : ℕ → Text → WorkItem → WorkItem
schedule_retry now message it = record it {
  attempt_number = suc it.attempt_number;
  last_error = or_num message unknown_error;
  status = retry_scheduled;
  retry_after = some (now + it.retry_backoff_ms * suc it.attempt_number);
  claimed_at = none;
  assigned_beacon = none;
}

unfoldable pub retry_item : Env → Text → Text → WorkItem → Coordinator → Coordinator × Reply
unfolding schedule_retry
retry_item env h message it c =
    let later = schedule_retry env.now message it in
    (
      emit_if env.has_journal
          (journal_retry h later.attempt_number (it.retry_backoff_ms * later.attempt_number) ∷ [])
          (remove_from_beacon env later.assigned_beacon h
            (modify_item h (schedule_retry env.now message) c)),
      done,
    )

unfoldable pub mark_error : ℕ → Text → WorkItem → WorkItem
mark_error now message it = record it {
  status = error;
  completed_at = some now;
  last_event_at = some now;
  last_error = or_num message unknown_error;
}

-- What the error branch does before it frees the slot.
unfoldable pub fail_marked : Env → Text → Text → WorkItem → Coordinator → Coordinator
unfolding mark_error
fail_marked env h message it c = emit_if env.has_scheduler (broadcast h failed_event ∷ []) (
    emit_if (persists env it) (final_rows h error it) (
      emit_if env.has_journal (journal_fail h ∷ []) (modify_item h (mark_error env.now message) c)))

unfoldable pub fail_item : Env → Text → Text → WorkItem → Coordinator → Coordinator × Reply
unfolding fail_marked settle
fail_item env h message it c =
    settle env h it false
      (remove_from_beacon env it.assigned_beacon h (fail_marked env h message it c))

abbrev pub has_attempts : WorkItem → Bool
has_attempts it = ltb it.attempt_number (it.max_attempts - 1)

unfoldable pub fail_work_item : Env → Text → Text → Coordinator → Coordinator × Reply
unfolding retry_item fail_item
fail_work_item env h message c = elim (lookup h c.queue) [
  | none ↦ (c, not_found)
  | some it ↦
      if is_finalized it.status
      then (c, already_finalized it.status)
      else (if has_attempts it then retry_item env h message it c else fail_item env h message it c)
]

abbrev pub mark_stall_finalized : WorkItem → WorkItem
mark_stall_finalized it = record it { stall_finalized = true }

-- The flag, the journal and the persisted marker, in front of the freeing of the slot.
unfoldable pub stall_marked : Env → Text → WorkItem → Coordinator → Coordinator
stall_marked env h it c =
    emit_if (persists env it) (persist_update h stalled ∷ [])
      (emit_if env.has_journal (journal_stalled h ∷ []) (modify_item h mark_stall_finalized c))

unfoldable pub stall_item : Env → Text → WorkItem → Coordinator → Coordinator × Reply
unfolding stall_marked
stall_item env h it c =
    let freed = remove_from_beacon env it.assigned_beacon h (stall_marked env h it c) in
    if it.run_hash == 0
    then (drop_item h freed, done)
    else (if env.has_engine
        then (emit (stall_operation it.run_hash it.node_hash ∷ []) freed, deferred)
        else (drop_item h freed, done))

unfoldable pub stall_work_item : Env → Text → Coordinator → Coordinator × Reply
unfolding stall_item
stall_work_item env h c = elim (lookup h c.queue) [
  | none ↦ (c, not_found)
  | some it ↦ if it.stall_finalized then (c, done) else stall_item env h it c
]

-- The callback of `resumeOperation`: an item whose operation did not resume stays in the queue.
unfoldable pub on_resumed : Text → Bool → Coordinator → Coordinator
on_resumed h resumed c = if resumed then drop_item h c else c

-- The callback of `stallOperation` drops the item either way.
unfoldable pub on_stalled : Text → Coordinator → Coordinator
on_stalled h c = drop_item h c
