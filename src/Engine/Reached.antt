-- ===== src/Engine/Reached.antt =====
-- Only the tasks that the start node leads to are run (`executeOperation`, `_processEventQueue`,
-- source/services/Ultravisor-ExecutionEngine.cjs).
use ultravisor.Base.{
  ℕ, ◌==◌, ◌≡◌, refl, ap, sym, subst, ◌∙◌, List, [], ◌∷◌, ◌++◌, some, inl, inr, Bool-cases,
  Option-cases, List-cases, ==_iff,
}
use ultravisor.Base.Dict.{lookup, lookup-insert}
use ultravisor.Work.{Text}
use ultravisor.Engine.Names.{Name, is_empty}
use ultravisor.Engine.Graph.{
  Graph, Node, Registry, Conn, Definition, ConnectionMap, conns_at, build_connection_map,
  find_start,
}
use ultravisor.Engine.Context.{
  Context, Execution, record_start, record_error, record_complete, merge_outputs, has_executions,
  executions,
}
use ultravisor.Engine.Execute.{
  Services, Result, queue, exec, downstream_of, is_error_event, enqueue_downstream, task_error,
  task_waits, fire, completed, task_completes, task_result, error_name,
}
use ultravisor.Engine.Rollup.{finalize}
use ultravisor.Engine.Runs.{Runs, RunReply, prepared, enqueue_all, execute_operation, load_graph}
use ultravisor.Engine.Frame.{AllAt, exec-keeps}
use ultravisor.Engine.Connections.{build_connection_map_lem}
use ultravisor.Engine.Outcome.{process_and_finalize-some, accept_ended}
use ultravisor.Engine.Reach.{
  IsIn, Leads, Reaches, directly, onward, IsIn-conns_where, AllAt-append, AllAt-downstream,
  AllAt-all_downstream, Recorded, Recorded-modify,
}

module _ (env : Services) (Q : Text → Type 0) (conns : ConnectionMap)
    (closed : (h : Text) (c : Conn)
      → Q h
      → IsIn c (conns_at h conns.event_sources)
      → Q c.target) where
  -- The graph is the run's; what waits in the queue and what has a record is `Q`.
  abbrev pub Inside : Context → Type 0
  Inside c = (c.connections ≡ conns) × AllAt Q c.pending × Recorded Q c.manifests

  downstream_of-AllAt :
      (h : Text) (ev : Name) (c : Context)
      → Q h
      → c.connections ≡ conns
      → AllAt Q (downstream_of h ev c)
  unfolding downstream_of
  downstream_of-AllAt h ev c q same =
      AllAt-downstream Q c.labels ev (conns_at h c.connections.event_sources)
        (λ d i. closed h d q (subst (λ m. IsIn d (conns_at h m.event_sources)) same i))

  enqueue_downstream-Inside :
      (h : Text) (ev : Name) (c : Context) → Q h → Inside c → Inside (enqueue_downstream h ev c)
  unfolding enqueue_downstream
  enqueue_downstream-Inside h ev c q (same, all, recorded) = (
    same,
    AllAt-append Q c.pending (downstream_of h ev c) all (downstream_of-AllAt h ev c q same),
    recorded,
  )

  record_start-Inside :
      (h : Text) (ev : Name) (c : Context) → Q h → Inside c → Inside (record_start h ev c)
  unfolding record_start
  record_start-Inside h ev c q (same, all, recorded) = (
    same,
    all,
    λ k es e. elim (Bool-cases (h == k)) [
      | inl t ↦ subst Q ((==_iff h k).0 t) q
      | inr t ↦
          recorded k es
            (sym (lookup-insert h k (executions h c ++ _ ∷ []) c.manifests ∙ rw t refl) ∙ e)
    ],
  )

  task_error-Inside :
      (h message : Text) (c : Context) → Q h → Inside c → Inside (task_error h message c)
  unfolding task_error record_error enqueue_downstream downstream_of
  task_error-Inside h message c q (same, all, recorded) = elim (Bool-cases (has_executions h c)) [
    | inl e ↦
        rw (e, task_error)
          (
            same,
            AllAt-append Q c.pending (downstream_of h error_name c) all
                (downstream_of-AllAt h error_name c q same),
            Recorded-modify Q h _ c.manifests recorded,
          )
    | inr e ↦ rw (e, task_error) (enqueue_downstream-Inside h _ c q (same, all, recorded))
  ]

  fire-Inside :
      (h : Text) (d : Definition) (r : Result) (c : Context)
      → Q h
      → Inside c
      → Inside (fire h d r c)
  unfolding fire
  fire-Inside h d r c q i =
      let on : Inside (enqueue_downstream h r.fires_event c) =
        enqueue_downstream-Inside h r.fires_event c q i in
      elim (List-cases (downstream_of h r.fires_event c)) [
        | inr (e, es, t) ↦ rw (t, fire) on
        | inl t ↦ elim (Bool-cases (is_error_event r.fires_event d.event_outputs)) [
          | inl u ↦ rw (t, fire) (rw u on)
          | inr u ↦ rw (t, fire) (rw u on)
        ]
      ]

  task_completes-Inside :
      (h : Text) (d : Definition) (r : Result) (c : Context)
      → Q h
      → Inside c
      → Inside (task_completes env h d r c)
  unfolding task_completes completed merge_outputs record_complete
  task_completes-Inside h d r c q (same, all, recorded) =
      let done : Inside (completed env h r c) =
        (same, all, Recorded-modify Q h _ c.manifests recorded) in
      elim (Bool-cases (is_empty r.fires_event)) [
        | inl t ↦ rw (t, task_completes) done
        | inr t ↦ rw (t, task_completes) (fire-Inside h d r (completed env h r c) q done)
      ]

  task_result-Inside :
      (h : Text) (d : Definition) (r : Result) (c : Context)
      → Q h
      → Inside c
      → Inside (task_result env h d r c)
  unfolding task_result task_waits record_complete
  task_result-Inside h d r c q (same, all, recorded) = elim (Option-cases r.wait) [
    | inr (w, e) ↦ rw (e, task_result) (same, all, Recorded-modify Q h _ c.manifests recorded)
    | inl e ↦ rw (e, task_result) (task_completes-Inside h d r c q (same, all, recorded))
  ]

  pub exec-Inside : (n : ℕ) (c d : Context) → Inside c → exec n env queue c ≡ some d → Inside d
  unfolding merge_outputs
  exec-Inside n c d i =
      exec-keeps env Inside Q
        (λ c ev evs e i.
          let all : AllAt Q (ev ∷ evs) = subst (AllAt Q) e i.1 in (all.0, (i.0, all.1, i.2)))
        record_start-Inside task_error-Inside task_result-Inside (λ h outs c q i. i)
        (λ h ev c q i. downstream_of-AllAt h ev c q i.0) n queue c d tt i

-- Every node with a record in a run that an operation leaves, the graph's start node leads to by event
-- connections.
pub execute_operation_reach :
    (fuel : ℕ) (env : Services) (run operation : Text) (g : Graph) (runs : Runs) (start : Node)
    (a : RunReply) (d : Context) (h : Text) (es : List Execution)
    → find_start g.nodes ≡ some start
    → execute_operation fuel env run operation (some g) runs ≡ some a
    → lookup run a.runs ≡ some d
    → lookup h d.manifests ≡ some es
    → Reaches env.registry g start.hash h
unfolding execute_operation prepared load_graph enqueue_all finalize lookup
execute_operation_reach fuel env run operation g runs start a d h es e ran there has =
    let reg : Registry = env.registry in
    let c : Context = prepared reg operation g in
    let conns : ConnectionMap = build_connection_map reg g in
    let leads : (a : Text) (c : Conn)
        → IsIn c (conns_at a conns.event_sources)
        → Leads reg g a c.target =
      λ a c i.
        let (j, t) =
          IsIn-conns_where _ c g.connections
            (subst (IsIn c) (build_connection_map_lem reg g a).0 i) in
        (c, j, t, refl) in
    let (f, q, same) =
      process_and_finalize-some fuel env run (enqueue_all start.hash c) runs a
        (rw (e, execute_operation) at ran) in
    let inside : Inside env (Reaches reg g start.hash) conns
        (λ h c r i. onward h c.target r (leads h c i)) f =
      exec-Inside env (Reaches reg g start.hash) conns
        (λ h c r i. onward h c.target r (leads h c i)) fuel (enqueue_all start.hash c) f
        (
          refl,
          AllAt-all_downstream _ c.labels (conns_at start.hash conns.event_sources)
              (λ d i. directly d.target (leads start.hash d i)),
          λ k fs l. cc,
        )
        q in
    inside.2 h es (ap (λ x. lookup h x.manifests) (accept_ended run runs same there) ∙ has)
