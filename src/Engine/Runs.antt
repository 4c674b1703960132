-- ===== src/Engine/Runs.antt =====
-- The runs and their beginning (`executeOperation`, `startOperationAsync`, `_rebuildGraphContext`,
-- `resumeWaitingRuns`, source/services/Ultravisor-ExecutionEngine.cjs; `abandonRun`,
-- `abandonStaleRuns`, source/services/Ultravisor-ExecutionManifest.cjs). The hash of a new run is an
-- argument; the initial values of the states are left out.
use ultravisor.Base.{
  ℕ, Bool, true, false, ◌&&◌, not, Option, none, some, [], ◌∷◌, ◌++◌, if◌then◌else◌,
}
use ultravisor.Base.Dict.{Dict, lookup, insert}
use ultravisor.Work.{Text}
use ultravisor.Status.{in_progress, error, abandoned, is_waiting, is_in_progress, is_terminal_run}
use ultravisor.Engine.Graph.{
  Graph, Registry, build_node_map, build_label_map, build_connection_map, find_start,
  all_downstream, conns_at,
}
use ultravisor.Engine.Context.{Context, new_context, push_error}
use ultravisor.Engine.Execute.{Services, process_queue}
use ultravisor.Engine.Rollup.{finalize}

abbrev pub Runs : Type 0
Runs = Dict Context

pub data Refusal : Type 0 where
  no_graph no_start no_run not_waiting node_not_waiting still_active no_failed_node no_operation :
      Refusal

-- What the callback gets, with the runs as they are then.
pub record RunReply : Type 0 where
  pub refusal : Option Refusal
  pub runs : Runs

abbrev pub refuse : Refusal → Runs → RunReply
refuse r runs = record { refusal = some r; runs = runs }

abbrev pub accept : Text → Context → Runs → RunReply
accept run c runs = record { refusal = none; runs = insert run c runs }

unfoldable pub load_graph : Registry → Graph → Context → Context
unfolding build_node_map build_label_map build_connection_map
load_graph registry g c = record c {
  nodes = build_node_map g;
  labels = build_label_map g;
  connections = build_connection_map registry g;
}

unfoldable pub enqueue_all : Text → Context → Context
unfolding all_downstream
enqueue_all h c = record c {
  pending = c.pending ++ all_downstream c.labels (conns_at h c.connections.event_sources);
}

-- The run with its graph, in progress.
unfoldable pub prepared : Registry → Text → Graph → Context
unfolding load_graph
prepared registry operation g = record (load_graph registry g (new_context operation)) {
  status = in_progress;
}

-- The queue is processed and the run finalized.
unfoldable pub process_and_finalize : ℕ → Services → Text → Context → Runs → Option RunReply
unfolding process_queue finalize
process_and_finalize fuel env run c runs = elim (process_queue fuel env c) [
  | none ↦ none
  | some ran ↦ some (accept run (finalize ran) runs)
]

unfoldable pub execute_operation :
    ℕ → Services → Text → Text → Option Graph → Runs → Option RunReply
unfolding prepared enqueue_all process_and_finalize finalize find_start
execute_operation fuel env run operation none runs = some (refuse no_graph runs)
execute_operation fuel env run operation (some g) runs =
    let c = prepared env.registry operation g in
    elim (find_start g.nodes) [
      | none ↦ some (refuse no_start (insert run (finalize (record c { status = error })) runs))
      | some start ↦ process_and_finalize fuel env run (enqueue_all start.hash c) runs
    ]

-- `startOperationAsync` answers with the run before its queue is processed.
unfoldable pub start_operation_async : Services → Text → Text → Option Graph → Runs → RunReply
unfolding prepared enqueue_all finalize find_start
start_operation_async env run operation none runs = refuse no_graph runs
start_operation_async env run operation (some g) runs =
    let c = prepared env.registry operation g in
    elim (find_start g.nodes) [
      | none ↦ refuse no_start (insert run (finalize (record c { status = error })) runs)
      | some start ↦ accept run (enqueue_all start.hash c) runs
    ]

-- What `startOperationAsync` leaves for the next tick.
unfoldable pub next_tick : ℕ → Services → Text → RunReply → Option RunReply
unfolding process_and_finalize
next_tick fuel env run a = elim a.refusal [
  | some r ↦ some a
  | none ↦ elim (lookup run a.runs) [
    | none ↦ some a
    | some c ↦ process_and_finalize fuel env run c a.runs
  ]
]

abbrev pub is_nothing_waiting : Context → Bool
is_nothing_waiting c = elim c.waiting [ [] ↦ true | w ∷ ws ↦ false ]

unfoldable pub rebuild_graph_context : Registry → Graph → Context → Context
unfolding load_graph
rebuild_graph_context registry g c = record (load_graph registry g c) { live = true }

-- What `loadRecentManifests` makes of a manifest file: `_writeManifest` keeps the waiting tasks only
-- of a run that waits, and no pending events; the graph is not in the file, and what the run has
-- called belongs to the process that wrote it.
unfoldable pub from_disk : Context → Context
unfolding is_waiting
from_disk c = record c {
  live = false;
  nodes = [];
  labels = [];
  connections = record { event_sources = []; state_targets = [] };
  pending = [];
  waiting = if is_waiting c.status then c.waiting else [];
  calls = [];
}

-- One run of the loop of `loadRecentManifests`: a run in memory is skipped.
unfoldable pub load_manifest : Text → Context → Runs → Runs
unfolding from_disk
load_manifest run c runs = elim (lookup run runs) [
  | some d ↦ runs
  | none ↦ insert run (from_disk c) runs
]

-- 'Operation was running when server stopped. Execution cannot be resumed.'
abbrev pub server_stopped : Text
server_stopped = 9

-- One run of the loop of `resumeWaitingRuns`.
unfoldable pub after_restart : (Text → Option Graph) → Registry → Context → Context
unfolding is_waiting is_in_progress rebuild_graph_context
after_restart operations registry c =
    if is_waiting c.status && not c.live
    then (if is_nothing_waiting c then c else elim (operations c.operation) [
      | none ↦ c
      | some g ↦ rebuild_graph_context registry g c
    ])
    else (if is_in_progress c.status && not c.live
        then push_error none server_stopped (record c { status = error })
        else c)

unfoldable pub each_run : (Context → Context) → Runs → Runs
each_run f [] = []
each_run f ((k, c) ∷ runs) = (k, f c) ∷ each_run f runs

unfoldable pub resume_waiting_runs : (Text → Option Graph) → Registry → Runs → Runs
unfolding each_run after_restart
resume_waiting_runs operations registry runs = each_run (after_restart operations registry) runs

unfoldable pub abandon : Context → Context
unfolding is_terminal_run
abandon c =
    if is_terminal_run c.status
    then c
    else record c { status = abandoned; waiting = []; pending = []; live = false }

unfoldable pub abandon_run : Text → Runs → Option Runs
unfolding abandon
abandon_run run runs = elim (lookup run runs) [
  | none ↦ none
  | some c ↦ some (insert run (abandon c) runs)
]

unfoldable pub abandon_stale : Context → Context
unfolding abandon is_waiting is_in_progress
abandon_stale c =
    if is_waiting c.status && not c.live
    then abandon c
    else (if is_in_progress c.status && not c.live then abandon c else c)

unfoldable pub abandon_stale_runs : Runs → Runs
unfolding each_run abandon_stale
abandon_stale_runs runs = each_run abandon_stale runs
