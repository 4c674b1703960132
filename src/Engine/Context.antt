-- ===== src/Engine/Context.antt =====
-- The context of a run and its records (`createExecutionContext`, `recordTaskStart`,
-- `recordTaskComplete`, `recordTaskError`, source/services/Ultravisor-ExecutionManifest.cjs;
-- `mergeAndLift`, source/services/Ultravisor-OutputStore.cjs). Times, logs and the event log are left
-- out. A value is its number; 0 is every value that counts as false.
use ultravisor.Base.{Bool, true, false, Option, some, List, [], ◌∷◌, ◌++◌, if◌then◌else◌, or_else}
use ultravisor.Base.Dict.{Dict, lookup, insert, modify}
use ultravisor.Work.{Text}
use ultravisor.Status.{RunStatus, queued, in_progress, complete, error}
use ultravisor.Engine.Names.{Name, Labels}
use ultravisor.Engine.Graph.{Node, ConnectionMap, Event}

abbrev pub Output : Type 0
Output = Dict Text

-- Keys of a task's outputs.
abbrev pub stalled_key : Text
stalled_key = 1

abbrev pub beacon_error_key : Text
beacon_error_key = 2

abbrev pub error_key : Text
error_key = 3

abbrev pub force_errored_key : Text
force_errored_key = 4

abbrev pub input_value_key : Text
input_value_key = 5

abbrev pub yes : Text
yes = 1

pub record Waiting : Type 0 where
  pub output_address : Text
  -- Empty for the default, 'ValueInputComplete'.
  pub resume_event : Name

pub record Execution : Type 0 where
  pub trigger : Name
  pub outcome : RunStatus
  pub fired : Name

-- `node` is `none` for an error of the run itself.
pub record RunError : Type 0 where
  pub node : Option Text
  pub message : Text

-- Calls on the state manager (address, value, node) and on the coordinator, in their order.
pub data Call : Type 0 where
  set_address : Text → Text → Text → Call
  enqueue_work : Text → Call

pub record Context : Type 0 where
  pub operation : Text
  pub status : RunStatus
  pub live : Bool
  pub nodes : Dict Node
  pub labels : Labels
  pub connections : ConnectionMap
  pub pending : List Event
  pub waiting : Dict Waiting
  pub outputs : Dict Output
  pub manifests : Dict (List Execution)
  pub errors : List RunError
  pub calls : List Call

abbrev pub new_context : Text → Context
new_context operation = record {
  operation = operation;
  status = queued;
  live = true;
  nodes = [];
  labels = [];
  connections = record { event_sources = []; state_targets = [] };
  pending = [];
  waiting = [];
  outputs = [];
  manifests = [];
  errors = [];
  calls = [];
}

-- The fields of a result, each as it is stored (a large value as a reference to a file).
unfoldable pub merge_fields : (Text → Text → Text) → List (Text × Text) → Output → Output
merge_fields stored [] o = o
merge_fields stored ((k, v) ∷ fields) o = merge_fields stored fields (insert k (stored k v) o)

unfoldable pub merge_outputs : (Text → Text → Text) → Text → List (Text × Text) → Context → Context
unfolding merge_fields
merge_outputs stored h fields c = record c {
  outputs = insert h (merge_fields stored fields (or_else (lookup h c.outputs) [])) c.outputs;
}

abbrev pub set_output : Text → Text → Text → Context → Context
set_output h k v c = record c {
  outputs = insert h (insert k v (or_else (lookup h c.outputs) [])) c.outputs;
}

abbrev pub executions : Text → Context → List Execution
executions h c = or_else (lookup h c.manifests) []

unfoldable pub record_start : Text → Name → Context → Context
record_start h trigger c =
    let e : Execution = record { trigger = trigger; outcome = in_progress; fired = [] } in
    record c { manifests = insert h (executions h c ++ e ∷ []) c.manifests }

-- A change of the last execution.
unfoldable pub change_last : (Execution → Execution) → List Execution → List Execution
change_last f [] = []
change_last f (e ∷ []) = f e ∷ []
change_last f (e ∷ d ∷ es) = e ∷ change_last f (d ∷ es)

abbrev pub with_outcome : RunStatus → Execution → Execution
with_outcome s e = record e { outcome = s }

unfoldable pub record_complete : Text → Name → Context → Context
unfolding change_last
record_complete h fired c = record c {
  manifests =
      modify h (change_last (λ e. record e { outcome = complete; fired = fired })) c.manifests;
}

abbrev pub has_executions : Text → Context → Bool
has_executions h c = elim (executions h c) [ [] ↦ false | e ∷ es ↦ true ]

abbrev pub push_error : Option Text → Text → Context → Context
push_error node message c = record c {
  errors = c.errors ++ record { node = node; message = message } ∷ [];
}

unfoldable pub record_error : Text → Text → Context → Context
unfolding change_last
record_error h message c =
    if has_executions h c
    then push_error (some h) message
        (record c { manifests = modify h (change_last (with_outcome error)) c.manifests })
    else c
