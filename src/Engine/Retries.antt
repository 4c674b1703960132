-- ===== src/Engine/Retries.antt =====
-- A run that is stalled, tried again and resumed (`stallOperation`, `retryFromCheckpoint`,
-- `resumeOperation`, source/services/Ultravisor-ExecutionEngine.cjs).
use ultravisor.Base.{
  ℕ, ◌||◌, ◌⊎◌, ◌≡◌, refl, ap, sym, subst, ◌∙◌, true, false, List, [], ◌∷◌, Option, none, some, inl,
  inr, arith, Bool-cases, Option-cases, or_else,
}
use ultravisor.Base.Dict.{lookup, insert, delete, lookup-insert, lookup-delete, IsUnique}
use ultravisor.Work.{Text}
use ultravisor.Status.{
  waiting, stalled, is_waiting, is_in_progress, is_terminal_run, normalize, status_code,
}
use ultravisor.Engine.Graph.{Graph, Registry}
use ultravisor.Engine.Context.{Context, Execution, Output, Waiting, stalled_key, yes}
use ultravisor.Engine.Execute.{Services}
use ultravisor.Engine.Rollup.{any_set, finalize, rolled_status}
use ultravisor.Engine.Runs.{Runs, RunReply, accept, rebuild_graph_context, process_and_finalize}
use ultravisor.Engine.Resume.{Value, take_value, resume_operation, stall_operation, mark_stall}
use ultravisor.Engine.Checkpoint.{
  retry_from_checkpoint, retry_target, reset_node, dispatch_again, complete_event,
}
use ultravisor.Engine.Failed.{HasFailed, retry_target_found}
use ultravisor.Engine.Outcome.{lookup-accept}
use ultravisor.Engine.Settled.{any_set-insert, is_set-insert}

finalize_stalled : (h : Text) (c : Context) → (finalize (mark_stall h c)).status ≡ stalled
unfolding finalize mark_stall rolled_status
finalize_stalled h c =
    let o : Output = insert stalled_key yes (or_else (lookup h c.outputs) []) in
    let marked : any_set stalled_key (insert h o c.outputs) ≡ true =
      any_set-insert stalled_key h o c.outputs (is_set-insert stalled_key yes _ refl) in
    rw marked refl

-- What the retry leaves: the node waits, and so does its run.
again : Registry → Graph → Text → Context → Context
again registry g h c = dispatch_again h (reset_node h (rebuild_graph_context registry g c))

again_waits :
    (registry : Registry) (g : Graph) (h : Text) (c : Context)
    → ((again registry g h c).status ≡ waiting)
      × ((w : Waiting) × (lookup h (again registry g h c).waiting ≡ some w))
unfolding again dispatch_again reset_node rebuild_graph_context
again_waits registry g h c =
    let w : Waiting = record { output_address = 0; resume_event = complete_event } in
    let is : lookup h (insert h w c.waiting) ≡ some w =
      ground (arith, lookup-insert h h w c.waiting) in
    elim (Option-cases (lookup h (rebuild_graph_context registry g c).nodes)) [
      | inl e ↦ rw (e, dispatch_again) (refl, (w, is))
      | inr (n, e) ↦ rw (e, dispatch_again) (refl, (w, is))
    ]

again_drops :
    (registry : Registry) (g : Graph) (h : Text) (c : Context)
    → lookup h (again registry g h c).outputs ≡ none
unfolding again dispatch_again reset_node rebuild_graph_context
again_drops registry g h c =
    let gone : lookup h (delete h c.outputs) ≡ none = ground (arith, lookup-delete h h c.outputs) in
    elim (Option-cases (lookup h (rebuild_graph_context registry g c).nodes)) [
      | inl e ↦ rw (e, dispatch_again) gone
      | inr (n, e) ↦ rw (e, dispatch_again) gone
    ]

retry_accepted :
    (operations : Text → Option Graph) (registry : Registry) (run k : Text) (runs : Runs)
    (d : Context) (g : Graph)
    → lookup run runs ≡ some d
    → d.status ≡ stalled
    → retry_target none d ≡ some k
    → operations d.operation ≡ some g
    → retry_from_checkpoint operations registry run none runs
      ≡ accept run (again registry g k d) runs
unfolding retry_from_checkpoint is_waiting is_in_progress normalize status_code again
retry_accepted operations registry run k runs d g there status target has =
    rw (there, retry_from_checkpoint) (rw status (rw target (rw has refl)))

-- A run that is stalled at a node that it has started, while it is not at an end, can be tried again,
-- where its operation is still there and its manifest has one entry for each node. The retry waits at
-- a node, whose output it has dropped: at the one of the stall, or at one whose last execution had
-- ended with an error or a stall already.
pub retry_from_checkpoint-stall_operation :
    (operations : Text → Option Graph) (registry : Registry) (run h : Text) (runs : Runs)
    (c : Context) (g : Graph) (e : Execution) (es : List Execution)
    → lookup run runs ≡ some c
    → is_terminal_run c.status ≡ false
    → operations c.operation ≡ some g
    → IsUnique c.manifests
    → lookup h c.manifests ≡ some (e ∷ es)
    → let r =
        retry_from_checkpoint operations registry run none (stall_operation run h runs).runs in
      (r.refusal ≡ none)
      × ((k : Text) × (d : Context) × (w : Waiting) × (lookup run r.runs ≡ some d)
          × (d.status ≡ waiting)
          × (lookup k d.waiting ≡ some w)
          × (lookup k d.outputs ≡ none)
          × ((k ≡ h) ⊎ ((fs : List Execution) × (lookup k c.manifests ≡ some fs) × HasFailed fs)))
unfolding stall_operation
retry_from_checkpoint-stall_operation operations registry run h runs c g e es there going has u
      started =
    let d : Context = finalize (mark_stall h c) in
    let (k, target, failed_there) = retry_target_found h c e es u started in
    let after : stall_operation run h runs ≡ accept run d runs =
      rw (there, stall_operation) (rw going refl) in
    let again_d : Context = again registry g k d in
    let is =
      retry_accepted operations registry run k (accept run d runs).runs d g
        (lookup-accept run d runs) (finalize_stalled h c) target has in
    let (status, (w, waits)) = again_waits registry g k d in
    rw (after, is)
      (
        refl,
        (
          k,
          again_d,
          w,
          lookup-accept run again_d (accept run d runs).runs,
          status,
          waits,
          again_drops registry g k d,
          failed_there,
        ),
      )

retried :
    (operations : Text → Option Graph) (registry : Registry) (run : Text) (chosen : Option Text)
    (runs : Runs)
    → (retry_from_checkpoint operations registry run chosen runs).refusal ≡ none
    → (h : Text) × (g : Graph) × (c : Context) × (retry_from_checkpoint operations registry run
          chosen runs
        ≡ accept run (again registry g h c) runs)
unfolding retry_from_checkpoint again
retried operations registry run chosen runs ok = elim (Option-cases (lookup run runs)) [
  | inl e ↦ cc (rw (e, retry_from_checkpoint) at ok)
  | inr (c, e) ↦ elim (Bool-cases (is_in_progress c.status || is_waiting c.status)) [
    | inl t ↦ cc (rw t at (rw (e, retry_from_checkpoint) at ok))
    | inr t ↦ elim (Option-cases (retry_target chosen c)) [
      | inl q ↦ cc (rw q at (rw t at (rw (e, retry_from_checkpoint) at ok)))
      | inr (h, q) ↦ elim (Option-cases (operations c.operation)) [
        | inl o ↦ cc (rw o at (rw q at (rw t at (rw (e, retry_from_checkpoint) at ok))))
        | inr (g, o) ↦ (h, g, c, rw (e, retry_from_checkpoint) (rw t (rw q (rw o refl))))
      ]
    ]
  ]
]

-- After a retry that is not refused the run has a waiting node at which it can be resumed: to resume
-- it there takes the value and processes the queue.
pub resume_operation-retry_from_checkpoint :
    (operations : Text → Option Graph) (registry : Registry) (run : Text) (chosen : Option Text)
    (runs next : Runs)
    → retry_from_checkpoint operations registry run chosen runs
      ≡ record { refusal = none; runs = next }
    → (h : Text) × (w : Waiting) × (d : Context) × (lookup run next ≡ some d)
      × (lookup h d.waiting ≡ some w)
      × ((fuel : ℕ) (env : Services) (v : Value)
          → resume_operation fuel env run h v next
            ≡ process_and_finalize fuel env run (take_value env h w v d) next)
unfolding resume_operation is_waiting normalize status_code
resume_operation-retry_from_checkpoint operations registry run chosen runs next ok =
    let (h, g, c, is) =
      retried operations registry run chosen runs (ap (λ (a : RunReply). a.refusal) ok) in
    let d : Context = again registry g h c in
    let (status, (w, node)) = again_waits registry g h c in
    let same : insert run d runs ≡ next = ap (λ (a : RunReply). a.runs) (sym is ∙ ok) in
    let there : lookup run next ≡ some d =
      subst (λ rs. lookup run rs ≡ some d) same (lookup-accept run d runs) in
    (h, w, d, there, node, λ fuel env v. rw (there, resume_operation) (rw status (rw node refl)))
