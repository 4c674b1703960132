-- ===== src/Engine/Execute.antt =====
-- The event loop (`_processEventQueue`, `_executeTaskForEvent` with the events that a task fires
-- while it runs, `_drainEventsForSubgraph`, `_enqueueDownstreamEvents`,
-- source/services/Ultravisor-ExecutionEngine.cjs). A task is what it does with its callbacks, as a
-- function of the run's context, from which its settings are resolved. Fuel bounds the depth of the
-- calls; `none` is its end.
use ultravisor.Base.{
  ℕ, zero, suc, ◌==◌, Bool, true, false, ◌&&◌, Option, none, some, List, [], ◌∷◌, ◌++◌,
  if◌then◌else◌,
}
use ultravisor.Base.Dict.{lookup, insert}
use ultravisor.Work.{Text}
use ultravisor.Status.{waiting}
use ultravisor.Engine.Names.{Name, same_name, is_empty}
use ultravisor.Engine.Graph.{
  Definition, EventOutput, Registry, Event, start_type, end_type, definition_of, conns_at,
  downstream,
}
use ultravisor.Engine.Context.{
  Context, Waiting, Call, set_address, merge_outputs, record_start, record_complete, record_error,
  push_error,
}

pub record Result : Type 0 where
  pub wait : Option Waiting
  pub outputs : List (Text × Text)
  pub writes : List (Text × Text)
  -- `EventToFire`, empty where there is none.
  pub fires_event : Name
  pub log_message : Text

-- What a task does: it throws or answers with an error, answers with nothing or with a result, or
-- fires an event with outputs and goes on once the events behind it have been processed.
pub data Behaviour : Type 0 where
  throws : Text → Behaviour
  no_result : Behaviour
  result : Result → Behaviour
  fires : Name → List (Text × Text) → (Context → Behaviour) → Behaviour

pub record Services : Type 0 where
  pub registry : Registry
  pub instantiates : Text → Bool
  pub execute : Text → Text → Name → Context → Behaviour
  pub stored : Text → Text → Text

unfoldable pub downstream_of : Text → Name → Context → List Event
unfolding downstream
downstream_of h ev c = downstream c.labels ev (conns_at h c.connections.event_sources)

unfoldable pub enqueue_downstream : Text → Name → Context → Context
unfolding downstream_of
enqueue_downstream h ev c = record c { pending = c.pending ++ downstream_of h ev c }

unfoldable pub is_error_event : Name → List EventOutput → Bool
unfolding same_name
is_error_event ev [] = false
is_error_event ev (o ∷ os) =
    let later = is_error_event ev os in
    if same_name o.event_name ev && o.is_error then true else later

abbrev pub error_name : Name
error_name = 69 ∷ 114 ∷ 114 ∷ 111 ∷ 114 ∷ []

-- `fHandleTaskError`
unfoldable pub task_error : Text → Text → Context → Context
unfolding record_error enqueue_downstream
task_error h message c = enqueue_downstream h error_name (record_error h message c)

unfoldable pub task_waits : Text → Waiting → Result → Context → Context
unfolding record_complete
task_waits h w r c = record_complete h r.fires_event (record c { waiting = insert h w c.waiting })

unfoldable pub writes_of : Text → List (Text × Text) → List Call
writes_of h [] = []
writes_of h ((address, v) ∷ ws) = set_address address v h ∷ writes_of h ws

-- An error event without a connection behind it is an error of the run.
unfoldable pub fire : Text → Definition → Result → Context → Context
unfolding enqueue_downstream is_error_event
fire h d r c =
    let bad = is_error_event r.fires_event d.event_outputs in
    let handled = enqueue_downstream h r.fires_event c in
    elim (downstream_of h r.fires_event c) [
      | [] ↦ if bad then push_error (some h) r.log_message handled else handled
      | e ∷ es ↦ handled
    ]

-- The outputs, the state writes and the record of the end.
unfoldable pub completed : Services → Text → Result → Context → Context
unfolding merge_outputs writes_of record_complete
completed env h r c =
    let merged = merge_outputs env.stored h r.outputs c in
    record_complete h r.fires_event (record merged { calls = merged.calls ++ writes_of h r.writes })

unfoldable pub task_completes : Services → Text → Definition → Result → Context → Context
unfolding completed fire
task_completes env h d r c =
    let done = completed env h r c in if is_empty r.fires_event then done else fire h d r done

unfoldable pub task_result : Services → Text → Definition → Result → Context → Context
unfolding task_waits task_completes
task_result env h d r c = elim r.wait [
  | some w ↦ task_waits h w r c
  | none ↦ task_completes env h d r c
]

-- The task that an event starts: none for a missing node, a start or end node, a missing registry
-- or an unknown type.
unfoldable pub task_at : Services → Text → Context → Option (Text × Definition)
task_at env h c = elim (lookup h c.nodes) [
  | none ↦ none
  | some n ↦
      if n.node_type == end_type
      then none
      else (if n.node_type == start_type then none else elim env.registry [
        | none ↦ none
        | some get ↦ elim (get (definition_of n)) [
          | none ↦ none
          | some d ↦ some (definition_of n, d)
        ]
      ])
]

-- A type that cannot be instantiated answers nothing.
abbrev pub behaviour_of : Services → Text → Event → Context → Behaviour
behaviour_of env type ev c =
    if env.instantiates type then env.execute type ev.at_node ev.event c else no_result

-- What is left to do: an event, the rest of a running task, a list of events each with what it leaves
-- in the queue, or the queue.
pub data Job : Type 0 where
  one : Event → Job
  running : Text → Definition → Behaviour → Job
  each : List Event → Job
  queue : Job

unfoldable pub exec : ℕ → Services → Job → Context → Option Context
unfolding task_error task_result task_at downstream_of merge_outputs record_start
exec zero env job c = none
exec (suc n) env (one ev) c = elim (task_at env ev.at_node c) [
  | none ↦ some c
  | some (type, d) ↦
      let started = record_start ev.at_node ev.event c in
      exec n env (running ev.at_node d (behaviour_of env type ev started)) started
]
exec (suc n) env (running h d (throws message)) c = some (task_error h message c)
exec (suc n) env (running h d no_result) c = some c
exec (suc n) env (running h d (result r)) c = some (task_result env h d r c)
exec (suc n) env (running h d (fires ev outs k)) c =
    elim (exec n env (each (downstream_of h ev c)) (merge_outputs env.stored h outs c)) [
      | none ↦ none
      | some later ↦ exec n env (running h d (k later)) later
    ]
exec (suc n) env (each []) c = some c
exec (suc n) env (each (ev ∷ evs)) c = elim (exec n env (one ev) c) [
  | none ↦ none
  | some ran ↦ elim (exec n env queue ran) [
    | none ↦ none
    | some drained ↦ exec n env (each evs) drained
  ]
]
exec (suc n) env queue c = elim c.pending [
  | [] ↦ some c
  | ev ∷ evs ↦ elim (exec n env (one ev) (record c { pending = evs })) [
    | none ↦ none
    | some ran ↦ exec n env queue ran
  ]
]

-- At the end of the queue a run with waiting tasks waits.
abbrev pub pause : Context → Context
pause c = record c { status = elim c.waiting [ [] ↦ c.status | w ∷ ws ↦ waiting ] }

unfoldable pub process_queue : ℕ → Services → Context → Option Context
unfolding exec
process_queue fuel env c = elim (exec fuel env queue c) [
  | none ↦ none
  | some ran ↦ some (pause ran)
]
