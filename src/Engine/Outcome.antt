-- ===== src/Engine/Outcome.antt =====
-- How a run ends (`executeOperation`, `resumeOperation`, `forceErrorOnWaitingTask`,
-- source/services/Ultravisor-ExecutionEngine.cjs; `finalizeExecution`,
-- source/services/Ultravisor-ExecutionManifest.cjs).
use ultravisor.Base.{
  ℕ, ◌≡◌, refl, ap, sym, ◌∙◌, ◌⊎◌, Bool, true, false, [], none, some, inl, inr, arith, Option-cases,
  List-cases, if◌then◌else◌,
}
use ultravisor.Base.Dict.{lookup, lookup-insert}
use ultravisor.Work.{Text}
use ultravisor.Status.{RunStatus, waiting, complete, stalled, failed, is_waiting}
use ultravisor.Engine.Context.{Context, Waiting, stalled_key, merge_outputs}
use ultravisor.Engine.Execute.{Services, queue, exec, process_queue, pause, enqueue_downstream}
use ultravisor.Engine.Rollup.{any_set, has_error, rolled_status, finalize}
use ultravisor.Engine.Runs.{Runs, RunReply, accept, is_nothing_waiting, process_and_finalize}
use ultravisor.Engine.Resume.{Value, resume_operation, force_error, take_value, mark_forced}
use ultravisor.Engine.Frame.{exec-queue_empty}
use ultravisor.Engine.Kept.{exec-Kept, Begins, Begins-refl}

-- The status by what the records of a finished run show.
unfoldable pub shown_status : Context → RunStatus
unfolding any_set has_error
shown_status d =
    if any_set stalled_key d.outputs
    then stalled
    else (if has_error d then failed else (if is_nothing_waiting d then complete else waiting))

-- The run stands under its hash with an empty queue, its status as its records show, and is live
-- exactly if it waits and was live before.
abbrev pub EndsWell : Text → Bool → RunReply → Context → Type 0
EndsWell run was_live a d =
    (a.refusal ≡ none)
    × (lookup run a.runs ≡ some d)
    × (d.pending ≡ [])
    × (d.status ≡ shown_status d)
    × (d.live ≡ (if is_waiting d.status then was_live else false))

pause_status :
    (c : Context)
    → is_waiting c.status ≡ false
    → (if is_waiting (pause c).status then (pause c).status else complete)
      ≡ (if is_nothing_waiting c then complete else waiting)
unfolding is_waiting
pause_status c h = elim (List-cases c.waiting) [
  | inl e ↦ let q : is_nothing_waiting c ≡ true = rw e refl in simp (e, q, h) refl
  | inr (w, ws, e) ↦ let q : is_nothing_waiting c ≡ false = rw e refl in simp (e, q) refl
]

pause-rolled_status :
    (c : Context) → is_waiting c.status ≡ false → rolled_status (pause c) ≡ shown_status c
unfolding rolled_status shown_status has_error
pause-rolled_status c h =
    ap (λ s. if any_set stalled_key c.outputs then stalled else (if has_error c then failed else s))
      (pause_status c h)

process_queue-some :
    (fuel : ℕ) (env : Services) (c d : Context)
    → process_queue fuel env c ≡ some d
    → (ran : Context) × (exec fuel env queue c ≡ some ran) × (pause ran ≡ d)
unfolding process_queue
process_queue-some fuel env c d h = elim (Option-cases (exec fuel env queue c)) [
  | inl e ↦ cc (rw (e, process_queue) at h)
  | inr (ran, e) ↦ (ran, e, cc (rw (e, process_queue) at h))
]

pub process_and_finalize-some :
    (fuel : ℕ) (env : Services) (run : Text) (c : Context) (runs : Runs) (a : RunReply)
    → process_and_finalize fuel env run c runs ≡ some a
    → (ran : Context) × (exec fuel env queue c ≡ some ran)
      × (accept run (finalize (pause ran)) runs ≡ a)
unfolding process_and_finalize
process_and_finalize-some fuel env run c runs a h = elim (Option-cases (process_queue fuel env c)) [
  | inl e ↦ cc (rw (e, process_and_finalize) at h)
  | inr (d, e) ↦
      let (ran, q, same) = process_queue-some fuel env c d e in
      let is : accept run (finalize d) runs ≡ a = cc (rw (e, process_and_finalize) at h) in
      (ran, q, ap (λ d. accept run (finalize d) runs) same ∙ is)
]

pub lookup-accept :
    (run : Text) (c : Context) (runs : Runs) → lookup run (accept run c runs).runs ≡ some c
lookup-accept run c runs = ground (arith, lookup-insert run run c runs)

-- The run that an answer has under the hash is the one that it was made with.
pub accept_ended :
    (run : Text) (runs : Runs) {c d : Context} {a : RunReply}
    → accept run c runs ≡ a
    → lookup run a.runs ≡ some d
    → c ≡ d
accept_ended run runs {c} {d} same there =
    let is : some c ≡ some d =
      sym (lookup-accept run c runs) ∙ ap (λ a. lookup run a.runs) same ∙ there in
    cc is

pub process_and_finalize-EndsWell :
    (fuel : ℕ) (env : Services) (run : Text) (c : Context) (runs : Runs) (a : RunReply)
    → is_waiting c.status ≡ false
    → process_and_finalize fuel env run c runs ≡ some a
    → (d : Context) × EndsWell run c.live a d × Begins c.errors d.errors
unfolding finalize shown_status has_error
process_and_finalize-EndsWell fuel env run c runs a idle h =
    let (ran, e, same) = process_and_finalize-some fuel env run c runs a h in
    let (s, l, o, n, p, q, b) =
      exec-Kept env c fuel queue c ran (refl, refl, refl, refl, refl, refl, Begins-refl c.errors)
        e in
    let d : Context = finalize (pause ran) in
    let shown : d.status ≡ shown_status ran = pause-rolled_status ran (ap is_waiting s ∙ idle) in
    (
      d,
      (
        ap (λ a. a.refusal) (sym same),
        ap (λ a. lookup run a.runs) (sym same) ∙ lookup-accept run d runs,
        exec-queue_empty fuel env c ran e,
        shown,
        ap (λ l. if is_waiting d.status then l else false) l,
      ),
      b,
    )

resume_operation-EndsWell :
    (fuel : ℕ) (env : Services) (run h : Text) (v : Value) (runs : Runs) (c : Context) (w : Waiting)
    (a : RunReply)
    → lookup run runs ≡ some c
    → is_waiting c.status ≡ true
    → lookup h c.waiting ≡ some w
    → resume_operation fuel env run h v runs ≡ some a
    → (d : Context) × EndsWell run c.live a d × Begins c.errors d.errors
unfolding resume_operation take_value is_waiting merge_outputs enqueue_downstream
resume_operation-EndsWell fuel env run h v runs c w a there waits node done =
    process_and_finalize-EndsWell fuel env run (take_value env h w v c) runs a refl
      (rw node at (rw waits at (rw (there, resume_operation) at done)))

force_error-EndsWell :
    (fuel : ℕ) (env : Services) (run h : Text) (runs : Runs) (c : Context) (w : Waiting)
    (a : RunReply)
    → lookup run runs ≡ some c
    → is_waiting c.status ≡ true
    → lookup h c.waiting ≡ some w
    → force_error fuel env run h runs ≡ some a
    → (d : Context) × EndsWell run c.live a d × Begins c.errors d.errors
unfolding force_error mark_forced is_waiting enqueue_downstream
force_error-EndsWell fuel env run h runs c w a there waits node done =
    process_and_finalize-EndsWell fuel env run (mark_forced h c) runs a refl
      (rw node at (rw waits at (rw (there, force_error) at done)))

-- Where a run waits at a node and takes a value for it, or an error that is forced on it, then, when
-- it comes to rest again, its queue is empty, its status is what its records show, it is live only if it
-- waits and was live before, and it has the errors that it had, with more or none after them.
pub waiting_run_ends :
    (fuel : ℕ) (env : Services) (run h : Text) (v : Value) (runs : Runs) (c : Context) (w : Waiting)
    (a : RunReply)
    → lookup run runs ≡ some c
    → is_waiting c.status ≡ true
    → lookup h c.waiting ≡ some w
    → (resume_operation fuel env run h v runs ≡ some a) ⊎ (force_error fuel env run h runs ≡ some a)
    → (d : Context) × EndsWell run c.live a d × Begins c.errors d.errors
waiting_run_ends fuel env run h v runs c w a there waits node (inl done) =
    resume_operation-EndsWell fuel env run h v runs c w a there waits node done
waiting_run_ends fuel env run h v runs c w a there waits node (inr done) =
    force_error-EndsWell fuel env run h runs c w a there waits node done
