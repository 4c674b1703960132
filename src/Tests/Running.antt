-- ===== src/Tests/Running.antt =====
-- The engine's theorems at a graph with one task (source/services/Ultravisor-ExecutionEngine.cjs).
use ultravisor.Base.{ℕ, ◌≡◌, ◌⊎◌, ◌&&◌, refl, true, false, List, [], ◌∷◌, none, some, inl, arith}
use ultravisor.Base.Dict.{lookup, insert, modify}
use ultravisor.Work.{Text}
use ultravisor.Status.{waiting, complete, stalled, failed, is_waiting, is_terminal_run}
use ultravisor.Engine.Names.{extract_port_name, includes, after_last, strip, set_label}
use ultravisor.Engine.Graph.{
  conns_at, start_type, find_start, build_connection_map, build_node_map, build_label_map,
  conn_map_from, infer_kind, node_map_from, labels_from, labels_of_ports, all_downstream,
}
use ultravisor.Engine.Context.{Context, Execution, Waiting}
use ultravisor.Engine.Execute.{Services}
use ultravisor.Engine.Runs.{
  Runs, RunReply, refuse, not_waiting, is_nothing_waiting, execute_operation, process_and_finalize,
  prepared, load_graph, enqueue_all, load_manifest, from_disk, after_restart, resume_waiting_runs,
}
use ultravisor.Engine.Weights.{weigh, weigh_targets}
use ultravisor.Engine.Termination.{IsRanked, budget}
use ultravisor.Engine.Outcome.{EndsWell}
use ultravisor.Engine.Resume.{
  Value, plain, take_value, resume_operation, force_error, stall_operation,
}
use ultravisor.Engine.Outcome.{waiting_run_ends}
use ultravisor.Engine.Kept.{Begins}
use ultravisor.Engine.Reach.{Reaches}
use ultravisor.Engine.Reached.{execute_operation_reach}
use ultravisor.Engine.Connections.{
  conns_where, is_event_from, is_state_to, build_connection_map_lem,
}
use ultravisor.Engine.Failure.{throw_ends_run}
use ultravisor.Engine.Steps.{Reachable, at_first, after, loads, executes, restarts}
use ultravisor.Engine.Invariant.{operations_rest}
use ultravisor.Engine.Checkpoint.{retry_from_checkpoint}
use ultravisor.Engine.Failed.{HasFailed}
use ultravisor.Engine.Retries.{
  retry_from_checkpoint-stall_operation, resume_operation-retry_from_checkpoint,
}
use ultravisor.Engine.Totality.{begun, execute_operation_ends}
use ultravisor.Tests.Graphs.{
  done_name, line_graph, plain_definition, finishing, rank, start_node, given, executed, run_of,
  throwing, asking, asked, node,
}

line_graph-IsRanked :
    IsRanked 0 rank (begun finishing 1 line_graph (node 10 start_type)).connections
unfolding IsRanked budget prepared load_graph enqueue_all build_connection_map conn_map_from
    infer_kind includes after_last strip weigh_targets lookup insert build_node_map build_label_map
    node_map_from labels_from labels_of_ports set_label
line_graph-IsRanked h = ground arith

execute_operation_ends_example :
    (a : RunReply) × (d : Context) × (execute_operation 7 finishing 100 1 (some line_graph) []
      ≡ some a)
    × EndsWell 100 true a d
unfolding prepared load_graph enqueue_all build_connection_map conn_map_from infer_kind includes
    after_last strip build_node_map build_label_map node_map_from labels_from labels_of_ports
    find_start all_downstream lookup insert weigh
execute_operation_ends_example =
    execute_operation_ends 7 finishing 100 1 line_graph [] start_node 0 rank refl
      (λ type h ev c. tt) line_graph-IsRanked (omega arith)

build_connection_map_lem_example :
    (conns_at 10 (build_connection_map finishing.registry line_graph).event_sources
      ≡ conns_where
          (is_event_from finishing.registry
            (build_node_map line_graph)
            (build_label_map line_graph)
            10)
          line_graph.connections)
    × (conns_at 10 (build_connection_map finishing.registry line_graph).state_targets
        ≡ conns_where
            (is_state_to finishing.registry
              (build_node_map line_graph)
              (build_label_map line_graph)
              10)
            line_graph.connections)
build_connection_map_lem_example = build_connection_map_lem finishing.registry line_graph 10

execute_operation_reach_example : Reaches finishing.registry line_graph 10 20
unfolding executed run_of lookup insert modify extract_port_name
execute_operation_reach_example =
    execute_operation_reach 7 finishing 100 1 line_graph [] start_node (executed finishing)
      (run_of finishing) 20
      (record { trigger = 8 ∷ []; outcome = complete; fired = done_name } ∷ []) refl refl refl refl

throw_ends_run_example :
    (d : Context) × (lookup 100 (executed throwing).runs ≡ some d)
    × ((d.status ≡ failed) ⊎ (d.status ≡ stalled))
    × (d.live ≡ false)
    × ((n : ℕ) (h : Text) (v : Value)
        → (resume_operation n throwing 100 h v (executed throwing).runs
            ≡ some (refuse not_waiting (executed throwing).runs))
          × (force_error n throwing 100 h (executed throwing).runs
              ≡ some (refuse not_waiting (executed throwing).runs)))
unfolding executed lookup insert modify extract_port_name
throw_ends_run_example =
    throw_ends_run 7 throwing 100 (begun throwing 1 line_graph start_node) []
      (record { at_node = 20; event = 8 ∷ [] }) [] (executed throwing) refl refl
      (5, plain_definition, 66, refl, refl) refl

unfoldable pub resumed : RunReply
unfolding executed resume_operation
resumed = given (resume_operation 7 asking 100 20 (plain 70) (executed asking).runs)

waiting_run_ends_example :
    (d : Context) × EndsWell 100 (run_of asking).live resumed d
    × Begins (run_of asking).errors d.errors
unfolding executed run_of resumed lookup insert modify extract_port_name
waiting_run_ends_example =
    waiting_run_ends 7 asking 100 20 (plain 70) (executed asking).runs (run_of asking) asked resumed
      refl refl refl (inl refl)

-- The run waits, the process ends, and another one loads its manifest and resumes it.
unfoldable restarted : Runs
unfolding resume_waiting_runs load_manifest run_of
restarted =
    resume_waiting_runs (λ h. some line_graph) asking.registry
      (load_manifest 100 (run_of asking) [])

unfoldable restarted_run : Context
unfolding after_restart from_disk run_of
restarted_run = after_restart (λ h. some line_graph) asking.registry (from_disk (run_of asking))

restarted-Reachable : Reachable asking (λ h. some line_graph) restarted
unfolding restarted executed run_of lookup insert modify extract_port_name
restarted-Reachable =
    after (load_manifest 100 (run_of asking) []) restarted
      (loads (executed asking).runs [] 100 (run_of asking)
        (after [] (executed asking).runs at_first
          (executes 7 100 1 (some line_graph) [] (executed asking) refl))
        refl at_first)
      (restarts (load_manifest 100 (run_of asking) []))

operations_rest_example :
    (restarted_run.pending ≡ [])
    × (is_terminal_run restarted_run.status && restarted_run.live ≡ false)
    × (is_waiting restarted_run.status && is_nothing_waiting restarted_run ≡ false)
unfolding restarted restarted_run executed run_of lookup insert modify extract_port_name
operations_rest_example =
    operations_rest asking (λ h. some line_graph) restarted 100 restarted_run restarted-Reachable
      refl

-- What the task has recorded when it waits.
abbrev first_execution : Execution
first_execution = record { trigger = 8 ∷ []; outcome = complete; fired = done_name }

unfoldable stalled_retry : RunReply
unfolding executed retry_from_checkpoint stall_operation
stalled_retry =
    retry_from_checkpoint (λ h. some line_graph) asking.registry 100 none
      (stall_operation 100 20 (executed asking).runs).runs

retry_from_checkpoint-stall_operation_example :
    (stalled_retry.refusal ≡ none)
    × ((k : Text) × (d : Context) × (w : Waiting) × (lookup 100 stalled_retry.runs ≡ some d)
        × (d.status ≡ waiting)
        × (lookup k d.waiting ≡ some w)
        × (lookup k d.outputs ≡ none)
        × ((k ≡ 20)
            ⊎ ((fs : List Execution) × (lookup k (run_of asking).manifests ≡ some fs)
                × HasFailed fs)))
unfolding stalled_retry executed run_of lookup insert modify extract_port_name is_terminal_run
retry_from_checkpoint-stall_operation_example =
    retry_from_checkpoint-stall_operation (λ h. some line_graph) asking.registry 100 20
      (executed asking).runs (run_of asking) line_graph first_execution [] refl refl refl (refl, tt)
      refl

unfoldable pub retried_runs : Runs
unfolding executed retry_from_checkpoint stall_operation
retried_runs =
    (retry_from_checkpoint (λ h. some line_graph) asking.registry 100 none
      (stall_operation 100 20 (executed asking).runs).runs).runs

resume_operation-retry_from_checkpoint_example :
    (h : Text) × (w : Waiting) × (d : Context) × (lookup 100 retried_runs ≡ some d)
    × (lookup h d.waiting ≡ some w)
    × ((fuel : ℕ) (env : Services) (v : Value)
        → resume_operation fuel env 100 h v retried_runs
          ≡ process_and_finalize fuel env 100 (take_value env h w v d) retried_runs)
unfolding retried_runs executed lookup insert modify extract_port_name
resume_operation-retry_from_checkpoint_example =
    resume_operation-retry_from_checkpoint (λ h. some line_graph) asking.registry 100 none
      (stall_operation 100 20 (executed asking).runs).runs retried_runs refl
