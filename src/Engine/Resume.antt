-- ===== src/Engine/Resume.antt =====
-- What comes from outside to a waiting run (`resumeOperation`, `stallOperation`,
-- `forceErrorOnWaitingTask`, source/services/Ultravisor-ExecutionEngine.cjs).
use ultravisor.Base.{ℕ, ◌==◌, not, Option, none, some, List, [], ◌∷◌, ◌++◌, if◌then◌else◌}
use ultravisor.Base.Dict.{lookup, modify, delete}
use ultravisor.Work.{Text}
use ultravisor.Status.{in_progress, error, stalled, is_waiting, is_terminal_run}
use ultravisor.Engine.Names.{Name, is_empty}
use ultravisor.Engine.Graph.{Event}
use ultravisor.Engine.Context.{
  Context, Waiting, set_address, merge_outputs, set_output, change_last, with_outcome,
  input_value_key, stalled_key, error_key, force_errored_key, yes,
}
use ultravisor.Engine.Execute.{Services, enqueue_downstream, error_name}
use ultravisor.Engine.Rollup.{finalize}
use ultravisor.Engine.Runs.{
  Runs, RunReply, no_run, not_waiting, node_not_waiting, refuse, accept, process_and_finalize,
}

-- A value with its fields, where it is an object.
pub data Value : Type 0 where
  plain : Text → Value
  object : Text → List (Text × Text) → Value

abbrev pub value_text : Value → Text
value_text (plain t) = t
value_text (object t fields) = t

abbrev pub value_fields : Value → List (Text × Text)
value_fields (plain t) = (input_value_key, t) ∷ []
value_fields (object t fields) = fields

-- 'ValueInputComplete'
abbrev pub value_input_complete : Name
value_input_complete =
    86 ∷ 97 ∷ 108 ∷ 117 ∷ 101 ∷ 73 ∷ 110 ∷ 112 ∷ 117 ∷ 116 ∷ 67 ∷ 111 ∷ 109 ∷ 112 ∷ 108 ∷ 101 ∷ 116
    ∷ 101 ∷ []

abbrev pub resume_event_of : Waiting → Name
resume_event_of w = if is_empty w.resume_event then value_input_complete else w.resume_event

-- The waiting task's value is written, and the events behind it are enqueued.
unfoldable pub take_value : Services → Text → Waiting → Value → Context → Context
unfolding merge_outputs enqueue_downstream
take_value env h w v c =
    let address = w.output_address in
    let calls =
      if address == 0 then c.calls else c.calls ++ set_address address (value_text v) h ∷ [] in
    let merged = merge_outputs env.stored h (value_fields v) (record c { calls = calls }) in
    enqueue_downstream h (resume_event_of w)
      (record merged { waiting = delete h merged.waiting; status = in_progress })

unfoldable pub resume_operation : ℕ → Services → Text → Text → Value → Runs → Option RunReply
unfolding take_value process_and_finalize is_waiting
resume_operation fuel env run h v runs = elim (lookup run runs) [
  | none ↦ some (refuse no_run runs)
  | some c ↦
      if not (is_waiting c.status)
      then some (refuse not_waiting runs)
      else elim (lookup h c.waiting) [
        | none ↦ some (refuse node_not_waiting runs)
        | some w ↦ process_and_finalize fuel env run (take_value env h w v c) runs
      ]
]

unfoldable pub without_events_at : Text → List Event → List Event
without_events_at h [] = []
without_events_at h (e ∷ es) =
    let rest = without_events_at h es in if e.at_node == h then rest else e ∷ rest

-- The beacon and the time of the stall are left out.
unfoldable pub mark_stall : Text → Context → Context
unfolding change_last without_events_at
mark_stall h c =
    let marked = set_output h stalled_key yes c in
    record marked {
      manifests = modify h (change_last (with_outcome stalled)) marked.manifests;
      waiting = delete h marked.waiting;
      pending = without_events_at h marked.pending;
    }

unfoldable pub stall_operation : Text → Text → Runs → RunReply
unfolding mark_stall finalize is_terminal_run
stall_operation run h runs = elim (lookup run runs) [
  | none ↦ refuse no_run runs
  | some c ↦
      if is_terminal_run c.status
      then accept run c runs
      else accept run (finalize (mark_stall h c)) runs
]

-- 'Force-errored while waiting'
abbrev pub forced_message : Text
forced_message = 8

unfoldable pub mark_forced : Text → Context → Context
unfolding change_last enqueue_downstream
mark_forced h c =
    let marked = set_output h force_errored_key yes (set_output h error_key forced_message c) in
    enqueue_downstream h error_name (record marked {
      manifests = modify h (change_last (with_outcome error)) marked.manifests;
      waiting = delete h marked.waiting;
      status = in_progress;
    })

unfoldable pub force_error : ℕ → Services → Text → Text → Runs → Option RunReply
unfolding mark_forced process_and_finalize is_waiting
force_error fuel env run h runs = elim (lookup run runs) [
  | none ↦ some (refuse no_run runs)
  | some c ↦
      if not (is_waiting c.status)
      then some (refuse not_waiting runs)
      else elim (lookup h c.waiting) [
        | none ↦ some (refuse node_not_waiting runs)
        | some w ↦ process_and_finalize fuel env run (mark_forced h c) runs
      ]
]
