-- ===== src/Engine/Checkpoint.antt =====
-- A finished run from its failed node on (`retryFromCheckpoint`,
-- source/services/Ultravisor-ExecutionEngine.cjs). The settings of the work item that it dispatches
-- again are left out; the coordinator is there.
use ultravisor.Base.{
  ◌==◌, Bool, true, false, ◌||◌, Option, none, some, List, [], ◌∷◌, ◌++◌, if◌then◌else◌,
}
use ultravisor.Base.Dict.{Dict, lookup, insert, modify, delete}
use ultravisor.Work.{Text}
use ultravisor.Status.{RunStatus, waiting, error, stalled, retrying, is_waiting, is_in_progress}
use ultravisor.Engine.Names.{Name}
use ultravisor.Engine.Graph.{Graph, Registry}
use ultravisor.Engine.Context.{
  Context, Execution, Waiting, RunError, Output, enqueue_work, stalled_key, beacon_error_key,
}
use ultravisor.Engine.Rollup.{is_set}
use ultravisor.Engine.Runs.{
  Runs, RunReply, no_run, still_active, no_failed_node, no_operation, refuse, accept,
  rebuild_graph_context,
}

abbrev pub is_bad_outcome : RunStatus → Bool
is_bad_outcome error = true
is_bad_outcome stalled = true
is_bad_outcome _ = false

unfoldable pub last_is_bad : List Execution → Bool
last_is_bad [] = false
last_is_bad (e ∷ []) = is_bad_outcome e.outcome
last_is_bad (e ∷ d ∷ es) = last_is_bad (d ∷ es)

unfoldable pub failed_in_manifests : Dict (List Execution) → Option Text
unfolding last_is_bad
failed_in_manifests [] = none
failed_in_manifests ((h, es) ∷ rest) =
    let later = failed_in_manifests rest in if last_is_bad es then some h else later

unfoldable pub failed_in_outputs : Dict Output → Option Text
unfolding is_set
failed_in_outputs [] = none
failed_in_outputs ((h, o) ∷ rest) =
    let later = failed_in_outputs rest in
    if is_set beacon_error_key o || is_set stalled_key o then some h else later

-- A node that the caller names, else the first that failed.
unfoldable pub retry_target : Option Text → Context → Option Text
unfolding failed_in_manifests failed_in_outputs
retry_target (some h) c = some h
retry_target none c = elim (failed_in_manifests c.manifests) [
  | some h ↦ some h
  | none ↦ failed_in_outputs c.outputs
]

-- `e.NodeHash !== tmpTargetNode`
unfoldable pub without_errors_of : Text → List RunError → List RunError
without_errors_of h [] = []
without_errors_of h (e ∷ es) =
    let rest = without_errors_of h es in
    elim e.node [ none ↦ e ∷ rest | some n ↦ if n == h then rest else e ∷ rest ]

-- 'Complete'
abbrev pub complete_event : Name
complete_event = 67 ∷ 111 ∷ 109 ∷ 112 ∷ 108 ∷ 101 ∷ 116 ∷ 101 ∷ []

unfoldable pub reset_node : Text → Context → Context
unfolding without_errors_of
reset_node h c =
    let again : Execution = record { trigger = []; outcome = retrying; fired = [] } in
    let w : Waiting = record { output_address = 0; resume_event = complete_event } in
    record c {
      outputs = delete h c.outputs;
      manifests = modify h (λ es. es ++ again ∷ []) c.manifests;
      waiting = insert h w c.waiting;
      status = waiting;
      live = true;
      errors = without_errors_of h c.errors;
    }

-- The work item of a node that the graph has.
unfoldable pub dispatch_again : Text → Context → Context
dispatch_again h c = elim (lookup h c.nodes) [
  | none ↦ c
  | some n ↦ record c { calls = c.calls ++ enqueue_work h ∷ [] }
]

unfoldable pub retry_from_checkpoint :
    (Text → Option Graph) → Registry → Text → Option Text → Runs → RunReply
unfolding retry_target reset_node dispatch_again rebuild_graph_context is_waiting is_in_progress
retry_from_checkpoint operations registry run chosen runs = elim (lookup run runs) [
  | none ↦ refuse no_run runs
  | some c ↦
      if is_in_progress c.status || is_waiting c.status
      then refuse still_active runs
      else elim (retry_target chosen c) [
        | none ↦ refuse no_failed_node runs
        | some h ↦ elim (operations c.operation) [
          | none ↦ refuse no_operation runs
          | some g ↦
              accept run (dispatch_again h (reset_node h (rebuild_graph_context registry g c))) runs
        ]
      ]
]
