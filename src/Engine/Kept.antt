-- ===== src/Engine/Kept.antt =====
-- What the event loop leaves alone in a run, and its errors, which only grow
-- (`_processEventQueue`, source/services/Ultravisor-ExecutionEngine.cjs).
use ultravisor.Base.{
  ℕ, ◌≡◌, ap, sym, ◌∙◌, List, [], ◌∷◌, ◌++◌, some, inl, inr, Bool-cases, Option-cases, List-cases,
}
use mathlib.Core.List.{append-nil, append_assoc}
use ultravisor.Work.{Text}
use ultravisor.Engine.Names.{is_empty}
use ultravisor.Engine.Graph.{Definition, Event}
use ultravisor.Engine.Context.{
  Context, RunError, record_error, record_complete, merge_outputs, has_executions, record_start,
}
use ultravisor.Engine.Execute.{
  Services, Result, Job, one, running, each, queue, exec, downstream_of, is_error_event,
  enqueue_downstream, task_error, task_waits, fire, completed, task_completes, task_result,
}
use ultravisor.Engine.Frame.{AllAt, JobAt, exec-keeps}

-- Lists of errors: the second begins with the first.
abbrev pub Begins : List RunError → List RunError → Type 0
Begins es fs = (more : List RunError) × (fs ≡ es ++ more)

pub Begins-refl : (es : List RunError) → Begins es es
Begins-refl es = ([], sym (append-nil es))

pub Begins-push : (es fs : List RunError) (e : RunError) → Begins es fs → Begins es (fs ++ e ∷ [])
Begins-push es fs e b = (b.0 ++ e ∷ [], ap (λ xs. xs ++ e ∷ []) b.1 ∙ append_assoc es b.0 (e ∷ []))

-- Status, liveness and graph of a run stay, and its errors grow.
abbrev pub Kept : Context → Context → Type 0
Kept c d =
    (d.status ≡ c.status)
    × (d.live ≡ c.live)
    × (d.operation ≡ c.operation)
    × (d.nodes ≡ c.nodes)
    × (d.labels ≡ c.labels)
    × (d.connections ≡ c.connections)
    × Begins c.errors d.errors

module _ (env : Services) (c0 : Context) where
  enqueue_downstream-Kept :
      (h : Text) (ev : List ℕ) (c : Context) → Kept c0 c → Kept c0 (enqueue_downstream h ev c)
  unfolding enqueue_downstream
  enqueue_downstream-Kept h ev c k = k

  task_error-Kept : (h message : Text) (c : Context) → Kept c0 c → Kept c0 (task_error h message c)
  unfolding task_error record_error enqueue_downstream
  task_error-Kept h message c (s, l, o, n, p, q, b) = elim (Bool-cases (has_executions h c)) [
    | inl e ↦ rw (e, task_error) (s, l, o, n, p, q, Begins-push c0.errors c.errors _ b)
    | inr e ↦ rw (e, task_error) (s, l, o, n, p, q, b)
  ]

  fire-Kept :
      (h : Text) (d : Definition) (r : Result) (c : Context) → Kept c0 c → Kept c0 (fire h d r c)
  unfolding fire enqueue_downstream
  fire-Kept h d r c (s, l, o, n, p, q, b) = elim (List-cases (downstream_of h r.fires_event c)) [
    | inr (e, es, t) ↦ rw (t, fire) (s, l, o, n, p, q, b)
    | inl t ↦ elim (Bool-cases (is_error_event r.fires_event d.event_outputs)) [
      | inl u ↦ rw (t, fire) (rw u (s, l, o, n, p, q, Begins-push c0.errors c.errors _ b))
      | inr u ↦ rw (t, fire) (rw u (s, l, o, n, p, q, b))
    ]
  ]

  task_completes-Kept :
      (h : Text) (d : Definition) (r : Result) (c : Context)
      → Kept c0 c
      → Kept c0 (task_completes env h d r c)
  unfolding task_completes completed merge_outputs record_complete
  task_completes-Kept h d r c k = elim (Bool-cases (is_empty r.fires_event)) [
    | inl t ↦ rw (t, task_completes) k
    | inr t ↦ rw (t, task_completes) (fire-Kept h d r (completed env h r c) k)
  ]

  task_result-Kept :
      (h : Text) (d : Definition) (r : Result) (c : Context)
      → Kept c0 c
      → Kept c0 (task_result env h d r c)
  unfolding task_result task_waits record_complete
  task_result-Kept h d r c k = elim (Option-cases r.wait) [
    | inr (w, e) ↦ rw (e, task_result) k
    | inl e ↦ rw (e, task_result) (task_completes-Kept h d r c k)
  ]

  all_anywhere : (evs : List Event) → AllAt (λ h. Unit) evs
  all_anywhere [] = tt
  all_anywhere (e ∷ es) = (tt, all_anywhere es)

  job_anywhere : (job : Job) → JobAt (λ h. Unit) job
  job_anywhere (one ev) = tt
  job_anywhere (running h d b) = tt
  job_anywhere (each evs) = all_anywhere evs
  job_anywhere queue = tt

  pub exec-Kept :
      (n : ℕ) (job : Job) (c d : Context) → Kept c0 c → exec n env job c ≡ some d → Kept c0 d
  unfolding record_start merge_outputs
  exec-Kept n job c d k =
      exec-keeps env (Kept c0) (λ h. Unit) (λ c ev evs e k. (tt, k)) (λ h ev c q k. k)
        (λ h message c q. task_error-Kept h message c) (λ h d r c q. task_result-Kept h d r c)
        (λ h outs c q k. k) (λ h ev c q k. all_anywhere (downstream_of h ev c)) n job c d
        (job_anywhere job) k
