-- ===== src/Engine/Invariant.antt =====
-- The runs over all sequences of operations on them (source/services/Ultravisor-ExecutionEngine.cjs,
-- source/services/Ultravisor-ExecutionManifest.cjs).
use ultravisor.Base.{
  ℕ, ◌&&◌, ◌||◌, ◌≡◌, refl, subst, Bool, true, false, [], Option, none, some, inl, inr, Bool-cases,
  Option-cases,
}
use ultravisor.Base.Dict.{lookup, insert}
use ultravisor.Work.{Text}
use ultravisor.Status.{error, normalize, status_code, is_waiting, is_in_progress, is_terminal_run}
use ultravisor.Engine.Graph.{Graph, find_start}
use ultravisor.Engine.Context.{Context, merge_outputs}
use ultravisor.Engine.Execute.{Services, enqueue_downstream}
use ultravisor.Engine.Rollup.{finalize, rolled_status}
use ultravisor.Engine.Runs.{
  Runs, RunReply, is_nothing_waiting, refuse, execute_operation, resume_waiting_runs, abandon_run,
  abandon_stale_runs, after_restart, abandon, abandon_stale, prepared, enqueue_all, load_graph,
  load_manifest, from_disk, Refusal, no_start, no_graph, no_run, not_waiting, node_not_waiting,
}
use ultravisor.Engine.Resume.{
  Value, resume_operation, stall_operation, force_error, mark_stall, take_value, mark_forced,
}
use ultravisor.Engine.Checkpoint.{retry_from_checkpoint, retry_target}
use ultravisor.Engine.Settled.{
  finalize-mark_stall, reset_node-IsSettled, from_disk-IsSettled, in_progress-not_waiting,
  after_restart-IsSettled, abandon-IsSettled, abandon_stale-IsSettled,
}
use ultravisor.Engine.Steps.{
  Step, executes, resumes, forces, stalls, retries, restarts, abandons, abandons_stale, Reachable,
  at_first, after, loads, loads_checkpoint, AllSettled, insert-AllSettled, each_run-AllSettled,
  process_and_finalize-AllSettled,
}

refused-AllSettled :
    (r : Refusal) (runs : Runs) (a : RunReply)
    → some (refuse r runs) ≡ some a
    → AllSettled runs
    → AllSettled a.runs
refused-AllSettled r runs a h all =
    let is : refuse r runs ≡ a = cc h in subst (λ (a : RunReply). AllSettled a.runs) is all

module _ (env : Services) (operations : Text → Option Graph) where
  executes-AllSettled :
      (fuel : ℕ) (run operation : Text) (g : Option Graph) (runs : Runs) (a : RunReply)
      → execute_operation fuel env run operation g runs ≡ some a
      → AllSettled runs
      → AllSettled a.runs
  unfolding execute_operation prepared load_graph enqueue_all is_waiting normalize status_code
      finalize rolled_status
  executes-AllSettled fuel run operation none runs a h all =
      refused-AllSettled no_graph runs a h all
  executes-AllSettled fuel run operation (some g) runs a h all =
      elim (Option-cases (find_start g.nodes)) [
        | inl e ↦
            let c : Context = record (prepared env.registry operation g) { status = error } in
            let is : refuse no_start (insert run (finalize c) runs) ≡ a =
              cc (rw (e, execute_operation) at h) in
            subst (λ (a : RunReply). AllSettled a.runs) is
              (insert-AllSettled run (finalize c) runs (refl, λ t. refl, λ t. cc) all)
        | inr (start, e) ↦
            process_and_finalize-AllSettled fuel env run
              (enqueue_all start.hash (prepared env.registry operation g)) runs a refl
              (rw (e, execute_operation) at h) all
      ]

  resumes-AllSettled :
      (fuel : ℕ) (run h : Text) (v : Value) (runs : Runs) (a : RunReply)
      → resume_operation fuel env run h v runs ≡ some a
      → AllSettled runs
      → AllSettled a.runs
  unfolding resume_operation take_value merge_outputs enqueue_downstream is_waiting normalize
      status_code
  resumes-AllSettled fuel run h v runs a r all = elim (Option-cases (lookup run runs)) [
    | inl e ↦ refused-AllSettled no_run runs a (rw (e, resume_operation) at r) all
    | inr (c, e) ↦ elim (Bool-cases (is_waiting c.status)) [
      | inr t ↦ refused-AllSettled not_waiting runs a (rw t at (rw (e, resume_operation) at r)) all
      | inl t ↦ elim (Option-cases (lookup h c.waiting)) [
        | inl q ↦
            refused-AllSettled node_not_waiting runs a
              (rw q at (rw t at (rw (e, resume_operation) at r))) all
        | inr (w, q) ↦
            process_and_finalize-AllSettled fuel env run (take_value env h w v c) runs a refl
              (rw q at (rw t at (rw (e, resume_operation) at r))) all
      ]
    ]
  ]

  forces-AllSettled :
      (fuel : ℕ) (run h : Text) (runs : Runs) (a : RunReply)
      → force_error fuel env run h runs ≡ some a
      → AllSettled runs
      → AllSettled a.runs
  unfolding force_error mark_forced enqueue_downstream is_waiting normalize status_code
  forces-AllSettled fuel run h runs a r all = elim (Option-cases (lookup run runs)) [
    | inl e ↦ refused-AllSettled no_run runs a (rw (e, force_error) at r) all
    | inr (c, e) ↦ elim (Bool-cases (is_waiting c.status)) [
      | inr t ↦ refused-AllSettled not_waiting runs a (rw t at (rw (e, force_error) at r)) all
      | inl t ↦ elim (Option-cases (lookup h c.waiting)) [
        | inl q ↦
            refused-AllSettled node_not_waiting runs a
              (rw q at (rw t at (rw (e, force_error) at r))) all
        | inr (w, q) ↦
            process_and_finalize-AllSettled fuel env run (mark_forced h c) runs a refl
              (rw q at (rw t at (rw (e, force_error) at r))) all
      ]
    ]
  ]

  stalls-AllSettled :
      (run h : Text) (runs : Runs) → AllSettled runs → AllSettled (stall_operation run h runs).runs
  unfolding stall_operation
  stalls-AllSettled run h runs all = elim (Option-cases (lookup run runs)) [
    | inl e ↦ rw (e, stall_operation) all
    | inr (c, e) ↦ elim (Bool-cases (is_terminal_run c.status)) [
      | inl t ↦ rw (e, stall_operation) (rw t (insert-AllSettled run c runs (all run c e) all))
      | inr t ↦
          let (status, settled) = finalize-mark_stall h c (all run c e).0 in
          rw (e, stall_operation)
            (rw t (insert-AllSettled run (finalize (mark_stall h c)) runs settled all))
    ]
  ]

  retries-AllSettled :
      (run : Text) (chosen : Option Text) (runs : Runs)
      → AllSettled runs
      → AllSettled (retry_from_checkpoint operations env.registry run chosen runs).runs
  unfolding retry_from_checkpoint
  retries-AllSettled run chosen runs all = elim (Option-cases (lookup run runs)) [
    | inl e ↦ rw (e, retry_from_checkpoint) all
    | inr (c, e) ↦ elim (Bool-cases (is_in_progress c.status || is_waiting c.status)) [
      | inl t ↦ rw (e, retry_from_checkpoint) (rw t all)
      | inr t ↦ elim (Option-cases (retry_target chosen c)) [
        | inl q ↦ rw (e, retry_from_checkpoint) (rw t (rw q all))
        | inr (h, q) ↦ elim (Option-cases (operations c.operation)) [
          | inl o ↦ rw (e, retry_from_checkpoint) (rw t (rw q (rw o all)))
          | inr (g, o) ↦
              rw (e, retry_from_checkpoint)
                (rw t (
                  rw q (
                    rw o (
                      insert-AllSettled run _ runs
                        (reset_node-IsSettled h env.registry g c (all run c e).0) all))))
        ]
      ]
    ]
  ]

  Step-AllSettled :
      (runs next : Runs) → Step env operations runs next → AllSettled runs → AllSettled next
  unfolding resume_waiting_runs abandon_run abandon_stale_runs
  Step-AllSettled runs next (executes fuel run operation g _ a h) all =
      executes-AllSettled fuel run operation g runs a h all
  Step-AllSettled runs next (resumes fuel run h v _ a r) all =
      resumes-AllSettled fuel run h v runs a r all
  Step-AllSettled runs next (forces fuel run h _ a r) all =
      forces-AllSettled fuel run h runs a r all
  Step-AllSettled runs next (stalls run h _) all = stalls-AllSettled run h runs all
  Step-AllSettled runs next (retries run chosen _) all = retries-AllSettled run chosen runs all
  Step-AllSettled runs next (restarts _) all =
      each_run-AllSettled (after_restart operations env.registry) runs
        (after_restart-IsSettled operations env.registry) all
  Step-AllSettled runs next (abandons run _ _ h) all = elim (Option-cases (lookup run runs)) [
    | inl e ↦ cc (rw (e, abandon_run) at h)
    | inr (c, e) ↦
        subst AllSettled (cc (rw (e, abandon_run) at h))
          (insert-AllSettled run (abandon c) runs (abandon-IsSettled c (all run c e)) all)
  ]
  Step-AllSettled runs next (abandons_stale _) all =
      each_run-AllSettled abandon_stale runs abandon_stale-IsSettled all

  load_manifest-AllSettled :
      (run : Text) (c : Context) (runs : Runs)
      → (is_waiting c.status ≡ true → is_nothing_waiting c ≡ false)
      → AllSettled runs
      → AllSettled (load_manifest run c runs)
  unfolding load_manifest
  load_manifest-AllSettled run c runs s all = elim (Option-cases (lookup run runs)) [
    | inl e ↦
        rw (e, load_manifest)
          (insert-AllSettled run (from_disk c) runs (from_disk-IsSettled c s) all)
    | inr (d, e) ↦ rw (e, load_manifest) all
  ]

  runs-AllSettled : (runs : Runs) → Reachable env operations runs → AllSettled runs
  unfolding lookup
  runs-AllSettled runs at_first = λ run c h. cc
  runs-AllSettled runs (after before _ r s) =
      Step-AllSettled before runs s (runs-AllSettled before r)
  runs-AllSettled runs (loads written before run c w there r) =
      load_manifest-AllSettled run c before (runs-AllSettled written w run c there).2
        (runs-AllSettled before r)
  runs-AllSettled runs (loads_checkpoint before run c going r) =
      load_manifest-AllSettled run c before (λ t. cc (in_progress-not_waiting c.status going, t))
        (runs-AllSettled before r)

  and_false : (a b : Bool) → (a ≡ true → b ≡ false) → a && b ≡ false
  and_false true b h = h refl
  and_false false b h = refl

  -- Between the operations on them that come to their end, in any order and from no runs on, restarts
  -- included, after which runs are loaded from manifests that an earlier process wrote at their rest
  -- or as a checkpoint in the middle, each run has an empty queue; if its status is terminal it is not live, and if it waits it has a
  -- waiting task.
  pub operations_rest :
      (runs : Runs) (run : Text) (c : Context)
      → Reachable env operations runs
      → lookup run runs ≡ some c
      → (c.pending ≡ [])
        × (is_terminal_run c.status && c.live ≡ false)
        × (is_waiting c.status && is_nothing_waiting c ≡ false)
  operations_rest runs run c r there =
      let (empty, dead, waits) = runs-AllSettled runs r run c there in
      (
        empty,
        and_false (is_terminal_run c.status) c.live dead,
        and_false (is_waiting c.status) (is_nothing_waiting c) waits,
      )
