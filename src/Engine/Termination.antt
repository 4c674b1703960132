-- ===== src/Engine/Termination.antt =====
-- The event loop ends (`_processEventQueue`, `_executeTaskForEvent`,
-- source/services/Ultravisor-ExecutionEngine.cjs) where the event connections are ranked: a node's
-- weight is more than that of all events which its task can cause.
use ultravisor.Base.{
  ℕ, zero, suc, ◌+◌, ◌*◌, ◌≤◌, ◌≡◌, refl, ◌∙◌, ap, List, [], ◌∷◌, Option, some, inl, inr, arith,
  Bool-cases, Option-cases, List-cases,
}
use ultravisor.Work.{Text}
use ultravisor.Engine.Names.{Name}
use ultravisor.Engine.Graph.{ConnectionMap, Definition, Event, conns_at}
use ultravisor.Engine.Context.{Context, record_start, merge_outputs}
use ultravisor.Engine.Execute.{
  Services, Behaviour, throws, no_result, result, fires, one, running, each, queue, exec, task_at,
  task_error, task_result, downstream_of, behaviour_of, process_queue, pause,
}
use ultravisor.Engine.Frame.{exec-queue_empty}
use ultravisor.Engine.Weights.{weigh, behind, weigh-downstream, task_error-Adds, task_result-Adds}

-- The task fires at most this many events while it runs.
abbrev pub FiresAtMost : ℕ → Behaviour → Type 0
FiresAtMost m (throws message) = Unit
FiresAtMost m no_result = Unit
FiresAtMost m (result r) = Unit
FiresAtMost zero (fires ev outs k) = ⊥
FiresAtMost (suc m) (fires ev outs k) = (c : Context) → FiresAtMost m (k c)

abbrev pub IsShort : ℕ → Services → Type 0
IsShort m env = (type h : Text) (ev : Name) (c : Context) → FiresAtMost m (env.execute type h ev c)

-- What a task can put into the queue: the events behind it for each event that it fires while it
-- runs, which counts for one more, and at its end.
unfoldable pub budget : ℕ → ℕ → ℕ
budget zero s = s
budget (suc i) s = suc (s + budget i s)

budget_le : (i s : ℕ) → s ≤ budget i s
unfolding budget
budget_le zero s = omega arith
budget_le (suc i) s = omega (arith, budget_le i s)

-- A node weighs more than what its task can put into the queue.
unfoldable pub IsRanked : ℕ → (Text → ℕ) → ConnectionMap → Type 0
unfolding budget
IsRanked m w conns = (h : Text) → suc (budget m (behind w h conns)) ≤ w h

module _ (env : Services) (w : Text → ℕ) (conns : ConnectionMap) where
  -- The queue keeps the connections and weighs at most this.
  abbrev Ends : Option Context → ℕ → Type 0
  Ends o bound =
      (d : Context) × (o ≡ some d) × (d.connections ≡ conns) × (weigh w d.pending ≤ bound)

  abbrev EndsOne : ℕ → Type 0
  EndsOne n =
      (c : Context) (ev : Event)
      → c.connections ≡ conns
      → 3 * (weigh w c.pending + w ev.at_node) ≤ n
      → (d : Context) × (exec n env (one ev) c ≡ some d)
        × (d.connections ≡ conns)
        × (weigh w d.pending + 1 ≤ weigh w c.pending + w ev.at_node)

  abbrev EndsRunning : ℕ → Type 0
  unfolding budget
  EndsRunning n =
      (c : Context) (i : ℕ) (h : Text) (t : Definition) (b : Behaviour)
      → FiresAtMost i b
      → c.connections ≡ conns
      → 3 * (weigh w c.pending + budget i (behind w h conns)) + 2 ≤ n
      → Ends (exec n env (running h t b) c) (weigh w c.pending + budget i (behind w h conns))

  abbrev EndsEach : ℕ → Type 0
  EndsEach n =
      (c : Context) (evs : List Event)
      → c.connections ≡ conns
      → 3 * (weigh w c.pending + weigh w evs) + 1 ≤ n
      → Ends (exec n env (each evs) c) (weigh w c.pending + weigh w evs)

  abbrev EndsQueue : ℕ → Type 0
  EndsQueue n =
      (c : Context)
      → c.connections ≡ conns
      → 3 * weigh w c.pending + 1 ≤ n
      → Ends (exec n env queue c) 0

  queue-Ends : (n : ℕ) → EndsOne n → EndsQueue n → EndsQueue (suc n)
  unfolding exec weigh
  queue-Ends n at_one at_queue c ready fuel = elim (List-cases c.pending) [
    | inl e ↦
        (c, rw (e, exec) (ap (λ es. some (record c { pending = es })) e), ready, rw e (omega arith))
    | inr (ev, evs, e) ↦
        let rest : Context = record c { pending = evs } in
        let (d, q, same, le) = at_one rest ev ready (omega (arith, ap (weigh w) e)) in
        let (f, q2, same2, le2) = at_queue d same (omega (arith, ap (weigh w) e)) in
        (f, rw (e, exec) (rw (q, exec) q2), same2, le2)
  ]

  each-Ends : (n : ℕ) → EndsOne n → EndsQueue n → EndsEach n → EndsEach (suc n)
  unfolding exec weigh
  each-Ends n at_one at_queue at_each c [] ready fuel = (c, refl, ready, omega arith)
  each-Ends n at_one at_queue at_each c (ev ∷ evs) ready fuel =
      let (d, q, same, le) = at_one c ev ready (omega arith) in
      let (f, q2, same2, le2) = at_queue d same (omega arith) in
      let (g, q3, same3, le3) = at_each f evs same2 (omega arith) in
      (g, rw (q, exec) (rw (q2, exec) q3), same3, omega arith)

  within :
      (c d : Context) (i : ℕ) (h : Text)
      → c.connections ≡ conns
      → weigh w d.pending ≤ weigh w c.pending + behind w h c.connections
      → weigh w d.pending ≤ weigh w c.pending + budget i (behind w h conns)
  within c d i h ready le =
      let same : behind w h c.connections ≡ behind w h conns = ap (behind w h) ready in
      omega (arith, budget_le i (behind w h conns))

  few_behind :
      (c : Context) (h : Text) (ev : Name)
      → c.connections ≡ conns
      → weigh w (downstream_of h ev c) ≤ behind w h conns
  unfolding downstream_of
  few_behind c h ev ready =
      let same : behind w h c.connections ≡ behind w h conns = ap (behind w h) ready in
      omega (arith, weigh-downstream w c.labels ev (conns_at h c.connections.event_sources))

  running-Ends : (n : ℕ) → EndsEach n → EndsRunning n → EndsRunning (suc n)
  unfolding exec budget merge_outputs downstream_of
  running-Ends n at_each at_running c i h t (throws message) short ready fuel =
      let (same, le) = task_error-Adds w h message c in
      (task_error h message c, refl, same ∙ ready, within c (task_error h message c) i h ready le)
  running-Ends n at_each at_running c i h t no_result short ready fuel =
      (c, refl, ready, omega arith)
  running-Ends n at_each at_running c i h t (result r) short ready fuel =
      let (same, le) = task_result-Adds w env h t r c in
      (task_result env h t r c, refl, same ∙ ready, within c (task_result env h t r c) i h ready le)
  running-Ends n at_each at_running c zero h t (fires ev outs k) short ready fuel = elim short [ ]
  running-Ends n at_each at_running c (suc i) h t (fires ev outs k) short ready fuel =
      let merged : Context = merge_outputs env.stored h outs c in
      let few : weigh w (downstream_of h ev c) ≤ behind w h conns = few_behind c h ev ready in
      let (d, q, same, le) = at_each merged (downstream_of h ev c) ready (omega arith) in
      let (f, q2, same2, le2) = at_running d i h t (k d) (short d) same (omega arith) in
      (f, rw (q, exec) q2, same2, omega arith)

  behaviour_of-FiresAtMost :
      (m : ℕ) (type : Text) (ev : Event) (c : Context)
      → IsShort m env
      → FiresAtMost m (behaviour_of env type ev c)
  behaviour_of-FiresAtMost m type ev c short = elim (Bool-cases (env.instantiates type)) [
    | inl e ↦ simp e (short type ev.at_node ev.event c)
    | inr e ↦ simp e tt
  ]

  one-Ends : (m n : ℕ) → IsShort m env → IsRanked m w conns → EndsRunning n → EndsOne (suc n)
  unfolding exec record_start IsRanked
  one-Ends m n short ranked at_running c ev ready fuel =
      elim (Option-cases (task_at env ev.at_node c)) [
        | inl e ↦ (c, rw (e, exec) refl, ready, omega (arith, ranked ev.at_node))
        | inr ((type, t), e) ↦
            let started : Context = record_start ev.at_node ev.event c in
            let b : Behaviour = behaviour_of env type ev started in
            let (d, q, same, le) =
              at_running started m ev.at_node t b (behaviour_of-FiresAtMost m type ev started short)
                ready (omega (arith, ranked ev.at_node)) in
            (d, rw (e, exec) q, same, omega (arith, ranked ev.at_node))
      ]

  -- Each form of work ends where the fuel is enough for it.
  all-Ends :
      (m : ℕ)
      → IsShort m env
      → IsRanked m w conns
      → (n : ℕ) → EndsOne n × EndsRunning n × EndsEach n × EndsQueue n
  unfolding IsRanked
  all-Ends m short ranked zero = (
    λ c ev ready fuel. absurd (omega (arith, ranked ev.at_node)),
    λ c i h t b few ready fuel. absurd (omega arith),
    λ c evs ready fuel. absurd (omega arith),
    λ c ready fuel. absurd (omega arith),
  )
  all-Ends m short ranked (suc n) =
      let (at_one, at_running, at_each, at_queue) = all-Ends m short ranked n in
      (
        one-Ends m n short ranked at_running,
        running-Ends n at_each at_running,
        each-Ends n at_one at_queue at_each,
        queue-Ends n at_one at_queue,
      )

-- The queue of a run whose event connections are ranked, by weights that exceed for each node what
-- its task can put into the queue, is processed to its end, with fuel three times the weight of the
-- events in it and one more, where each task fires at most `m` events while it runs; the queue is
-- empty then.
pub process_queue_ends :
    (env : Services) (m : ℕ) (w : Text → ℕ) (c : Context) (fuel : ℕ)
    → IsShort m env
    → IsRanked m w c.connections
    → 3 * weigh w c.pending + 1 ≤ fuel
    → (d : Context) × (process_queue fuel env c ≡ some d) × (d.pending ≡ [])
unfolding process_queue weigh
process_queue_ends env m w c fuel short ranked enough =
    let (at_one, at_running, at_each, at_queue) =
      all-Ends env w c.connections m short ranked fuel in
    let (d, q, same, le) = at_queue c refl enough in
    (pause d, rw (q, process_queue) refl, exec-queue_empty fuel env c d q)
