-- ===== src/Engine/Failure.antt =====
-- A task that throws, and what follows for its run (`fHandleTaskError`,
-- source/services/Ultravisor-ExecutionEngine.cjs; `finalizeExecution`,
-- source/services/Ultravisor-ExecutionManifest.cjs).
use ultravisor.Base.{
  ℕ, zero, suc, ◌≡◌, refl, ap, subst, ◌∙◌, ◌⊎◌, Bool, true, false, List, [], ◌∷◌, ◌++◌, some, inl,
  inr, arith, Bool-cases, Option-cases, List-cases, or_else,
}
use ultravisor.Base.Dict.{lookup, insert, lookup-insert}
use ultravisor.Work.{Text}
use ultravisor.Status.{stalled, failed, is_waiting, in_progress}
use ultravisor.Engine.Names.{Name}
use ultravisor.Engine.Graph.{Definition, Event}
use ultravisor.Engine.Context.{
  Context, Execution, stalled_key, record_start, record_error, executions, has_executions,
}
use ultravisor.Engine.Execute.{
  Services, one, queue, exec, pause, throws, task_at, task_error, behaviour_of, enqueue_downstream,
}
use ultravisor.Engine.Rollup.{any_set, has_error, finalize}
use ultravisor.Engine.Runs.{Runs, RunReply, refuse, process_and_finalize, not_waiting}
use ultravisor.Engine.Resume.{Value, resume_operation, force_error}
use ultravisor.Engine.Kept.{exec-Kept, Begins, Begins-refl}
use ultravisor.Engine.Outcome.{
  shown_status, process_and_finalize-EndsWell, process_and_finalize-some, accept_ended,
}

abbrev pub has_errors : Context → Bool
has_errors c = elim c.errors [ [] ↦ false | e ∷ es ↦ true ]

-- Errors that are there stay.
has_errors-Begins :
    (c d : Context) → has_errors c ≡ true → Begins c.errors d.errors → has_errors d ≡ true
has_errors-Begins c d h (more, b) = elim (List-cases c.errors) [
  | inl e ↦ cc (rw e at h)
  | inr (x, xs, e) ↦ rw b (rw e refl)
]

-- The event's task, as it is started, throws.
abbrev pub Throws : Services → Event → Context → Type 0
Throws env ev c =
    (type : Text) × (t : Definition) × (message : Text) × (task_at env ev.at_node c
      ≡ some (type, t))
    × (behaviour_of env type ev (record_start ev.at_node ev.event c) ≡ throws message)

ends_in {ℓ} :
    {A : Type ℓ} (es : List A) (e : A) → (elim (es ++ e ∷ []) [ [] ↦ false | x ∷ xs ↦ true ]) ≡ true
ends_in [] e = refl
ends_in (x ∷ xs) e = refl

has_executions-record_start :
    (h : Text) (ev : Name) (c : Context) → has_executions h (record_start h ev c) ≡ true
unfolding record_start
has_executions-record_start h ev c =
    let e : Execution = record { trigger = ev; outcome = in_progress; fired = [] } in
    let is : lookup h (insert h (executions h c ++ e ∷ []) c.manifests)
        ≡ some (executions h c ++ e ∷ []) =
      ground (arith, lookup-insert h h (executions h c ++ e ∷ []) c.manifests) in
    ap (λ o. elim (or_else o []) [ [] ↦ false | x ∷ xs ↦ true ]) is ∙ ends_in (executions h c) e

task_error-has_errors :
    (h message : Text) (c : Context)
    → has_executions h c ≡ true
    → has_errors (task_error h message c) ≡ true
unfolding task_error record_error enqueue_downstream
task_error-has_errors h message c e = rw (e, task_error) (ends_in c.errors _)

one-has_errors :
    (n : ℕ) (env : Services) (ev : Event) (c d : Context)
    → Throws env ev c
    → exec n env (one ev) c ≡ some d
    → has_errors d ≡ true
unfolding exec
one-has_errors zero env ev c d t h = cc
one-has_errors (suc zero) env ev c d (type, t, message, at, bad) h = cc (rw (at, exec) at h)
one-has_errors (suc (suc n)) env ev c d (type, t, message, at, bad) h =
    let started : Context = record_start ev.at_node ev.event c in
    let is : task_error ev.at_node message started ≡ d = cc (rw bad at (rw (at, exec) at h)) in
    subst (λ d. has_errors d ≡ true) is
      (task_error-has_errors ev.at_node message started
        (has_executions-record_start ev.at_node ev.event c))

queue-has_errors :
    (n : ℕ) (env : Services) (ev : Event) (evs : List Event) (c d : Context)
    → c.pending ≡ ev ∷ evs
    → Throws env ev (record c { pending = evs })
    → exec n env queue c ≡ some d
    → has_errors d ≡ true
unfolding exec
queue-has_errors zero env ev evs c d e t h = cc
queue-has_errors (suc n) env ev evs c d e t h =
    let rest : Context = record c { pending = evs } in
    elim (Option-cases (exec n env (one ev) rest)) [
      | inl q ↦ cc (rw q at (rw (e, exec) at h))
      | inr (ran, q) ↦
          let (s, l, o, m, p, r, b) =
            exec-Kept env ran n queue ran d
              (refl, refl, refl, refl, refl, refl, Begins-refl ran.errors)
              (rw q at (rw (e, exec) at h)) in
          has_errors-Begins ran d (one-has_errors n env ev rest ran t q) b
    ]

shown_status_failed :
    (d : Context) → has_errors d ≡ true → (shown_status d ≡ failed) ⊎ (shown_status d ≡ stalled)
unfolding shown_status has_error
shown_status_failed d h = elim (Bool-cases (any_set stalled_key d.outputs)) [
  | inl s ↦ inr (rw s refl)
  | inr s ↦ elim (List-cases d.errors) [
    | inl e ↦ cc (rw e at h)
    | inr (x, xs, e) ↦ inl (rw s (rw e refl))
  ]
]

-- Where the first event of the queue starts a task that throws, and the run comes to rest, as a graph
-- with a loop may not let it, it is then failed, or stalled, and not live, also if the graph handles the error or other tasks of it wait, which then can be
-- neither resumed nor forced to an error.
pub throw_ends_run :
    (fuel : ℕ) (env : Services) (run : Text) (c : Context) (runs : Runs) (ev : Event)
    (evs : List Event) (a : RunReply)
    → is_waiting c.status ≡ false
    → c.pending ≡ ev ∷ evs
    → Throws env ev (record c { pending = evs })
    → process_and_finalize fuel env run c runs ≡ some a
    → (d : Context) × (lookup run a.runs ≡ some d)
      × ((d.status ≡ failed) ⊎ (d.status ≡ stalled))
      × (d.live ≡ false)
      × ((n : ℕ) (h : Text) (v : Value)
          → (resume_operation n env run h v a.runs ≡ some (refuse not_waiting a.runs))
            × (force_error n env run h a.runs ≡ some (refuse not_waiting a.runs)))
unfolding resume_operation force_error is_waiting finalize
throw_ends_run fuel env run c runs ev evs a idle e t h =
    let (d, (ok, there, empty, shown, live), b) =
      process_and_finalize-EndsWell fuel env run c runs a idle h in
    let (ran, q, same) = process_and_finalize-some fuel env run c runs a h in
    let alike : finalize (pause ran) ≡ d = accept_ended run runs same there in
    let bad_end : has_errors d ≡ true =
      subst (λ d. has_errors d ≡ true) alike (queue-has_errors fuel env ev evs c ran e t q) in
    let bad : (d.status ≡ failed) ⊎ (d.status ≡ stalled) = elim (shown_status_failed d bad_end) [
      | inl e ↦ inl (shown ∙ e)
      | inr e ↦ inr (shown ∙ e)
    ] in
    let idle_now : is_waiting d.status ≡ false = elim bad [
      | inl e ↦ rw e refl
      | inr e ↦ rw e refl
    ] in
    (
      d,
      there,
      bad,
      live ∙ rw idle_now refl,
      λ n h v. (
        rw (there, resume_operation) (rw idle_now refl),
        rw (there, force_error) (rw idle_now refl),
      ),
    )
