-- ===== src/Engine/Weights.antt =====
-- What the end of a task leaves in a run (source/services/Ultravisor-ExecutionEngine.cjs): the
-- connections stay, and the queue gets no more than the targets of the node's connections.
use ultravisor.Base.{
  ℕ, ◌+◌, ◌≤◌, ◌≡◌, refl, List, [], ◌∷◌, ◌++◌, inl, inr, arith, Bool-cases, Option-cases,
  List-cases,
}
use ultravisor.Work.{Text}
use ultravisor.Engine.Names.{Name, Labels, same_name, extract_port_name, is_empty}
use ultravisor.Engine.Graph.{Conn, ConnectionMap, Definition, Event, conns_at, downstream}
use ultravisor.Engine.Context.{
  Context, record_error, record_complete, merge_outputs, has_executions,
}
use ultravisor.Engine.Execute.{
  Services, Result, enqueue_downstream, downstream_of, is_error_event, task_error, error_name,
  task_waits, completed, fire, task_completes, task_result,
}

module _ (w : Text → ℕ) where
  unfoldable pub weigh : List Event → ℕ
  weigh [] = 0
  weigh (e ∷ es) = w e.at_node + weigh es

  unfoldable pub weigh_targets : List Conn → ℕ
  weigh_targets [] = 0
  weigh_targets (c ∷ cs) = w c.target + weigh_targets cs

  pub weigh-append : (es fs : List Event) → weigh (es ++ fs) ≡ weigh es + weigh fs
  unfolding weigh
  weigh-append [] fs = omega arith
  weigh-append (e ∷ es) fs = omega (arith, weigh-append es fs)

  pub weigh-downstream :
      (labels : Labels) (ev : Name) (cs : List Conn)
      → weigh (downstream labels ev cs) ≤ weigh_targets cs
  unfolding weigh weigh_targets downstream
  weigh-downstream labels ev [] = omega arith
  weigh-downstream labels ev (c ∷ cs) =
      elim (Bool-cases (same_name (extract_port_name c.source_port labels) ev)) [
        | inl e ↦ rw e (omega (arith, weigh-downstream labels ev cs))
        | inr e ↦ rw e (omega (arith, weigh-downstream labels ev cs))
      ]

  -- The connections behind a node.
  abbrev pub behind : Text → ConnectionMap → ℕ
  behind h m = weigh_targets (conns_at h m.event_sources)

  -- What a task's end keeps of the context.
  abbrev pub Adds : Text → Context → Context → Type 0
  Adds h c d =
      (d.connections ≡ c.connections) × (weigh d.pending ≤ weigh c.pending + behind h c.connections)

  enqueue_downstream-Adds :
      (h : Text) (ev : Name) (c : Context) → Adds h c (enqueue_downstream h ev c)
  unfolding enqueue_downstream downstream_of
  enqueue_downstream-Adds h ev c = (refl, omega (arith, weigh-append, weigh-downstream))

  pub task_error-Adds : (h message : Text) (c : Context) → Adds h c (task_error h message c)
  unfolding task_error record_error enqueue_downstream downstream_of
  task_error-Adds h message c = elim (Bool-cases (has_executions h c)) [
    | inl e ↦ rw (e, task_error) (refl, omega (arith, weigh-append, weigh-downstream))
    | inr e ↦ rw (e, task_error) (enqueue_downstream-Adds h error_name c)
  ]

  fire-Adds : (h : Text) (d : Definition) (r : Result) (c : Context) → Adds h c (fire h d r c)
  unfolding fire enqueue_downstream
  fire-Adds h d r c = elim (List-cases (downstream_of h r.fires_event c)) [
    | inr (e, es, q) ↦ rw (q, fire) (enqueue_downstream-Adds h r.fires_event c)
    | inl q ↦ elim (Bool-cases (is_error_event r.fires_event d.event_outputs)) [
      | inl t ↦ rw (q, fire) (rw t (enqueue_downstream-Adds h r.fires_event c))
      | inr t ↦ rw (q, fire) (rw t (enqueue_downstream-Adds h r.fires_event c))
    ]
  ]

  task_completes-Adds :
      (env : Services) (h : Text) (d : Definition) (r : Result) (c : Context)
      → Adds h c (task_completes env h d r c)
  unfolding task_completes completed merge_outputs record_complete
  task_completes-Adds env h d r c = elim (Bool-cases (is_empty r.fires_event)) [
    | inl t ↦ rw (t, task_completes) (refl, omega arith)
    | inr t ↦ rw (t, task_completes) (fire-Adds h d r (completed env h r c))
  ]

  pub task_result-Adds :
      (env : Services) (h : Text) (d : Definition) (r : Result) (c : Context)
      → Adds h c (task_result env h d r c)
  unfolding task_result task_waits record_complete
  task_result-Adds env h d r c = elim (Option-cases r.wait) [
    | inr (w, e) ↦ rw (e, task_result) (refl, omega arith)
    | inl e ↦ rw (e, task_result) (task_completes-Adds env h d r c)
  ]
