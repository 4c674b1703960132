-- ===== src/Engine/Totality.antt =====
-- An operation on a ranked graph is executed to its end, at once or from the next tick on
-- (`executeOperation`, `startOperationAsync`, source/services/Ultravisor-ExecutionEngine.cjs).
use ultravisor.Base.{
  ℕ, ◌*◌, ◌+◌, ◌≤◌, ◌≡◌, refl, ap, sym, ◌∙◌, true, [], ◌∷◌, Option, none, some, inl, inr, arith,
  Option-cases,
}
use ultravisor.Base.Dict.{insert}
use ultravisor.Work.{Text}
use ultravisor.Engine.Graph.{Graph, Node, find_start}
use ultravisor.Engine.Context.{Context}
use ultravisor.Engine.Execute.{Services, process_queue}
use ultravisor.Engine.Rollup.{finalize}
use ultravisor.Engine.Runs.{
  Runs, RunReply, accept, process_and_finalize, execute_operation, start_operation_async, next_tick,
  prepared, enqueue_all, load_graph,
}
use ultravisor.Engine.Weights.{weigh}
use ultravisor.Engine.Termination.{IsShort, IsRanked, process_queue_ends}
use ultravisor.Engine.Outcome.{EndsWell, process_and_finalize-EndsWell, lookup-accept}

-- The run as its queue begins.
abbrev pub begun : Services → Text → Graph → Node → Context
begun env operation g start = enqueue_all start.hash (prepared env.registry operation g)

-- An operation with a start node and a ranked graph whose tasks fire at most `m` events while they run
-- is executed to its end where the fuel is enough for the events behind the start node: the run has an
-- empty queue, the status that its records show, and is live only if it waits.
pub execute_operation_ends :
    (fuel : ℕ) (env : Services) (run operation : Text) (g : Graph) (runs : Runs) (start : Node)
    (m : ℕ) (w : Text → ℕ)
    → find_start g.nodes ≡ some start
    → IsShort m env
    → IsRanked m w (begun env operation g start).connections
    → 3 * weigh w (begun env operation g start).pending + 1 ≤ fuel
    → (a : RunReply) × (d : Context) × (execute_operation fuel env run operation (some g) runs
        ≡ some a)
      × EndsWell run true a d
unfolding execute_operation process_and_finalize prepared load_graph enqueue_all
execute_operation_ends fuel env run operation g runs start m w e short ranked enough =
    let c : Context = begun env operation g start in
    let (ran, q, empty) = process_queue_ends env m w c fuel short ranked enough in
    let a : RunReply = accept run (finalize ran) runs in
    let done : process_and_finalize fuel env run c runs ≡ some a =
      rw (q, process_and_finalize) refl in
    let (d, ends, grown) = process_and_finalize-EndsWell fuel env run c runs a refl done in
    (a, d, rw (e, execute_operation) done, ends)

insert-insert :
    (k : Text) (c d : Context) (runs : Runs) → insert k d (insert k c runs) ≡ insert k d runs
unfolding insert
insert-insert k c d [] = ground arith
insert-insert k c d ((j, x) ∷ runs) = ground (arith, insert-insert k c d runs)

process_and_finalize_again :
    (fuel : ℕ) (env : Services) (run : Text) (c : Context) (runs : Runs)
    → process_and_finalize fuel env run c (insert run c runs)
      ≡ process_and_finalize fuel env run c runs
unfolding process_and_finalize
process_and_finalize_again fuel env run c runs = elim (Option-cases (process_queue fuel env c)) [
  | inl e ↦ rw (e, process_and_finalize) refl
  | inr (ran, e) ↦
      rw (e, process_and_finalize)
        (ap (λ rs. some (record { refusal = none; runs = rs }))
          (insert-insert run c (finalize ran) runs))
]

next_tick-accept :
    (fuel : ℕ) (env : Services) (run : Text) (c : Context) (runs : Runs)
    → next_tick fuel env run (accept run c runs) ≡ process_and_finalize fuel env run c runs
unfolding next_tick
next_tick-accept fuel env run c runs =
    rw (lookup-accept run c runs, next_tick) (process_and_finalize_again fuel env run c runs)

-- To start an operation and process its queue on the next tick is to execute it.
pub next_tick-start_operation_async :
    (fuel : ℕ) (env : Services) (run operation : Text) (g : Option Graph) (runs : Runs)
    → next_tick fuel env run (start_operation_async env run operation g runs)
      ≡ execute_operation fuel env run operation g runs
unfolding next_tick start_operation_async execute_operation
next_tick-start_operation_async fuel env run operation none runs = refl
next_tick-start_operation_async fuel env run operation (some g) runs =
    elim (Option-cases (find_start g.nodes)) [
      | inl e ↦ rw (e, start_operation_async, execute_operation) refl
      | inr (start, e) ↦
          let begins : start_operation_async env run operation (some g) runs
              ≡ accept run (begun env operation g start) runs =
            rw (e, start_operation_async) refl in
          let runs_it : execute_operation fuel env run operation (some g) runs
              ≡ process_and_finalize fuel env run (begun env operation g start) runs =
            rw (e, execute_operation) refl in
          ap (next_tick fuel env run) begins
          ∙ (next_tick-accept fuel env run (begun env operation g start) runs)
          ∙ sym runs_it
    ]
