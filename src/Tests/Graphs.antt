-- ===== src/Tests/Graphs.antt =====
-- A graph with one task between its start and its end, and what its execution leaves
-- (source/services/Ultravisor-ExecutionEngine.cjs).
use ultravisor.Base.{ℕ, ◌==◌, true, [], ◌∷◌, ◌++◌, Option, none, some, if◌then◌else◌}
use ultravisor.Base.Dict.{lookup}
use ultravisor.Work.{Text}
use ultravisor.Engine.Names.{Name, event_in, event_out}
use ultravisor.Engine.Graph.{Graph, Node, Conn, Definition, start_type, end_type}
use ultravisor.Engine.Context.{Context, Waiting}
use ultravisor.Engine.Execute.{Services, Behaviour, Result, result, throws}
use ultravisor.Engine.Runs.{RunReply, refuse, no_run, execute_operation, prepared}

abbrev pub done_name : Name
done_name = 9 ∷ []

abbrev pub link : Text → Text → Conn
link a b = record {
  source = a;
  target = b;
  source_port = event_out ++ done_name;
  target_port = event_in ++ 8 ∷ [];
  kind = none;
}

abbrev pub node : Text → Text → Node
node h type = record { hash = h; node_type = type; definition = 0; ports = [] }

-- Start (10), a task (20), end (30).
abbrev pub line_graph : Graph
line_graph = record {
  nodes = node 10 start_type ∷ node 20 5 ∷ node 30 end_type ∷ [];
  connections = link 10 20 ∷ link 20 30 ∷ [];
}

abbrev pub plain_definition : Definition
plain_definition = record {
  event_outputs = [];
  state_outputs = [];
  event_inputs = [];
  settings_inputs = [];
}

abbrev pub services : (Text → Text → Name → Context → Behaviour) → Services
services task = record {
  registry = some (λ t. some plain_definition);
  instantiates = λ t. true;
  execute = task;
  stored = λ k v. v;
}

abbrev pub answer : Option Waiting → Result
answer w = record {
  wait = w;
  outputs = (7, 70) ∷ [];
  writes = [];
  fires_event = done_name;
  log_message = 0;
}

abbrev pub finishing : Services
finishing = services (λ type h ev c. result (answer none))

abbrev pub rank : Text → ℕ
rank h = if h == 10 then 3 else (if h == 20 then 2 else 1)

abbrev pub start_node : Node
start_node = node 10 start_type

-- What an execution leaves.
abbrev pub given : Option RunReply → RunReply
given none = refuse no_run []
given (some a) = a

unfoldable pub executed : Services → RunReply
unfolding execute_operation
executed env = given (execute_operation 7 env 100 1 (some line_graph) [])

unfoldable pub run_of : Services → Context
unfolding executed prepared
run_of env = elim (lookup 100 (executed env).runs) [
  | none ↦ prepared none 1 line_graph
  | some c ↦ c
]

-- The task throws.
abbrev pub throwing : Services
throwing = services (λ type h ev c. throws 66)

-- The task waits for its value.
abbrev pub asking : Services
asking = services (λ type h ev c.
    result (answer (some (record { output_address = 0; resume_event = done_name }))))

abbrev pub asked : Waiting
asked = record { output_address = 0; resume_event = done_name }
