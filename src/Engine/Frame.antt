-- ===== src/Engine/Frame.antt =====
-- What holds of a run through the event loop (`_processEventQueue`, `_executeTaskForEvent`,
-- source/services/Ultravisor-ExecutionEngine.cjs), by induction on its fuel.
use ultravisor.Base.{
  ℕ, zero, suc, ◌≡◌, subst, List, [], ◌∷◌, some, inl, inr, Option-cases, List-cases,
}
use ultravisor.Work.{Text}
use ultravisor.Engine.Names.{Name}
use ultravisor.Engine.Graph.{Definition, Event}
use ultravisor.Engine.Context.{Context, record_start, merge_outputs}
use ultravisor.Engine.Execute.{
  Services, Result, throws, no_result, result, fires, Job, one, running, each, queue, exec, task_at,
  task_error, task_result, downstream_of, behaviour_of,
}

-- What the processing of the queue leaves, it leaves with an empty queue.
pub exec-queue_empty :
    (n : ℕ) (env : Services) (c d : Context) → exec n env queue c ≡ some d → d.pending ≡ []
unfolding exec
exec-queue_empty zero env c d h = cc
exec-queue_empty (suc n) env c d h = elim (List-cases c.pending) [
  | inl e ↦ cc (rw (e, exec) at h)
  | inr (ev, evs, e) ↦ elim (Option-cases (exec n env (one ev) (record c { pending = evs }))) [
    | inl q ↦ cc (rw (e, exec) at h)
    | inr (ran, q) ↦ exec-queue_empty n env ran d (rw q at (rw (e, exec) at h))
  ]
]

abbrev pub AllAt : (Text → Type 0) → List Event → Type 0
AllAt Q [] = Unit
AllAt Q (e ∷ es) = Q e.at_node × AllAt Q es

abbrev pub JobAt : (Text → Type 0) → Job → Type 0
JobAt Q (one ev) = Q ev.at_node
JobAt Q (running h d b) = Q h
JobAt Q (each evs) = AllAt Q evs
JobAt Q queue = Unit

-- A property `P` of the run that each thing which the loop does keeps, at nodes that are `Q`.
module _ (env : Services) (P : Context → Type 0) (Q : Text → Type 0)
    (dequeues : (c : Context) (ev : Event) (evs : List Event)
      → c.pending ≡ ev ∷ evs
      → P c
      → Q ev.at_node × P (record c { pending = evs }))
    (starts : (h : Text) (ev : Name) (c : Context) → Q h → P c → P (record_start h ev c))
    (fails : (h message : Text) (c : Context) → Q h → P c → P (task_error h message c))
    (ends : (h : Text) (d : Definition) (r : Result) (c : Context)
      → Q h
      → P c
      → P (task_result env h d r c))
    (merges : (h : Text) (outs : List (Text × Text)) (c : Context)
      → Q h
      → P c
      → P (merge_outputs env.stored h outs c))
    (follows : (h : Text) (ev : Name) (c : Context)
      → Q h
      → P c
      → AllAt Q (downstream_of h ev c)) where
  pub exec-keeps :
      (n : ℕ) (job : Job) (c d : Context) → JobAt Q job → P c → exec n env job c ≡ some d → P d
  unfolding exec
  exec-keeps zero job c d j p h = cc
  exec-keeps (suc n) (one ev) c d j p h = elim (Option-cases (task_at env ev.at_node c)) [
    | inl e ↦ subst P (cc (rw (e, exec) at h)) p
    | inr ((type, t), e) ↦
        exec-keeps n
          (running ev.at_node t (behaviour_of env type ev (record_start ev.at_node ev.event c)))
          (record_start ev.at_node ev.event c) d j (starts ev.at_node ev.event c j p)
          (rw (e, exec) at h)
  ]
  exec-keeps (suc n) (running i t (throws message)) c d j p h =
      subst P (cc h) (fails i message c j p)
  exec-keeps (suc n) (running i t no_result) c d j p h = subst P (cc h) p
  exec-keeps (suc n) (running i t (result r)) c d j p h = subst P (cc h) (ends i t r c j p)
  exec-keeps (suc n) (running i t (fires ev outs k)) c d j p h =
      let merged : Context = merge_outputs env.stored i outs c in
      elim (Option-cases (exec n env (each (downstream_of i ev c)) merged)) [
        | inl e ↦ cc (rw (e, exec) at h)
        | inr (later, e) ↦
            exec-keeps n (running i t (k later)) later d j
              (exec-keeps n (each (downstream_of i ev c)) merged later (follows i ev c j p)
                (merges i outs c j p) e)
              (rw (e, exec) at h)
      ]
  exec-keeps (suc n) (each []) c d j p h = subst P (cc h) p
  exec-keeps (suc n) (each (ev ∷ evs)) c d j p h = elim (Option-cases (exec n env (one ev) c)) [
    | inl e ↦ cc (rw (e, exec) at h)
    | inr (ran, e) ↦ elim (Option-cases (exec n env queue ran)) [
      | inl q ↦ cc (rw q at (rw (e, exec) at h))
      | inr (drained, q) ↦
          exec-keeps n (each evs) drained d j.1
            (exec-keeps n queue ran drained tt (exec-keeps n (one ev) c ran j.0 p e) q)
            (rw q at (rw (e, exec) at h))
    ]
  ]
  exec-keeps (suc n) queue c d j p h = elim (List-cases c.pending) [
    | inl e ↦ subst P (cc (rw (e, exec) at h)) p
    | inr (ev, evs, e) ↦
        let rest : Context = record c { pending = evs } in
        let (at, kept) = dequeues c ev evs e p in
        elim (Option-cases (exec n env (one ev) rest)) [
          | inl q ↦ cc (rw q at (rw (e, exec) at h))
          | inr (ran, q) ↦
              exec-keeps n queue ran d tt (exec-keeps n (one ev) rest ran at kept q)
                (rw q at (rw (e, exec) at h))
        ]
  ]
