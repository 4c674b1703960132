-- ===== src/Engine/Graph.antt =====
-- Graphs, their maps and the events that follow a node (`_buildNodeMap`, `_buildPortLabelMap`,
-- `_inferConnectionType`, `_buildConnectionMap`, `_findStartNode`, `_getDownstreamEvents`,
-- `_enqueueAllDownstreamEvents`, source/services/Ultravisor-ExecutionEngine.cjs). Of a node the
-- settings are left out, of a task type's definition what no branch reads.
use ultravisor.Base.{
  ◌==◌, Bool, false, ◌||◌, Option, none, some, List, [], ◌∷◌, ◌++◌, if◌then◌else◌, or_num, or_else,
}
use ultravisor.Base.Dict.{Dict, lookup, insert}
use ultravisor.Work.{Text}
use ultravisor.Engine.Names.{
  Name, Labels, same_name, includes, event_in, event_out, state_in, state_out, label_of_port,
  set_label, extract_port_name, is_empty,
}

abbrev pub start_type : Text
start_type = 1

abbrev pub end_type : Text
end_type = 2

pub record Port : Type 0 where
  pub port_hash : Name
  pub label : Name

pub record Node : Type 0 where
  pub hash : Text
  pub node_type : Text
  -- `DefinitionHash`, 0 where it is missing.
  pub definition : Text
  pub ports : List Port

-- `ConnectionType` in lower case.
pub data Kind : Type 0 where
  event_kind state_kind other_kind : Kind

pub record Conn : Type 0 where
  pub source : Text
  pub target : Text
  pub source_port : Name
  pub target_port : Name
  pub kind : Option Kind

pub record Graph : Type 0 where
  pub nodes : List Node
  pub connections : List Conn

pub record EventOutput : Type 0 where
  pub event_name : Name
  pub is_error : Bool

-- A task type as the registry describes it.
pub record Definition : Type 0 where
  pub event_outputs : List EventOutput
  pub state_outputs : List Name
  pub event_inputs : List Name
  pub settings_inputs : List Name

-- `none` where the registry is missing.
abbrev pub Registry : Type 0
Registry = Option (Text → Option Definition)

abbrev pub definition_of : Node → Text
definition_of n = or_num n.definition n.node_type

unfoldable pub node_map_from : List Node → Dict Node → Dict Node
node_map_from [] m = m
node_map_from (n ∷ ns) m = node_map_from ns (insert n.hash n m)

unfoldable pub build_node_map : Graph → Dict Node
unfolding node_map_from
build_node_map g = node_map_from g.nodes []

abbrev pub label_or : Port → Name
label_or p = if is_empty p.label then p.port_hash else p.label

unfoldable pub labels_of_ports : List Port → Labels → Labels
labels_of_ports [] m = m
labels_of_ports (p ∷ ps) m = labels_of_ports ps (set_label p.port_hash (label_or p) m)

unfoldable pub labels_from : List Node → Labels → Labels
unfolding labels_of_ports
labels_from [] m = m
labels_from (n ∷ ns) m = labels_from ns (labels_of_ports n.ports m)

unfoldable pub build_label_map : Graph → Labels
unfolding labels_from
build_label_map g = labels_from g.nodes []

unfoldable pub has_name : Name → List Name → Bool
unfolding same_name
has_name x [] = false
has_name x (y ∷ ys) = same_name y x || has_name x ys

unfoldable pub has_output : Name → List EventOutput → Bool
unfolding same_name
has_output x [] = false
has_output x (o ∷ os) = same_name o.event_name x || has_output x os

-- The label of a port, the empty text where it has none.
abbrev pub known_label : Name → Labels → Name
known_label h labels = or_else (label_of_port h labels) []

abbrev pub define : Registry → Option Node → Option Definition
define none n = none
define (some get) none = none
define (some get) (some n) = get (definition_of n)

unfoldable pub kind_by_source : Option Definition → Name → Option Kind
unfolding has_name has_output
kind_by_source none label = none
kind_by_source (some d) label =
    if has_output label d.event_outputs
    then some event_kind
    else (if has_name label d.state_outputs then some state_kind else none)

unfoldable pub kind_by_target : Option Definition → Name → Option Kind
unfolding has_name
kind_by_target none label = none
kind_by_target (some d) label =
    if has_name label d.event_inputs
    then some event_kind
    else (if has_name label d.settings_inputs then some state_kind else none)

abbrev pub is_terminus : Option Node → Bool
is_terminus none = false
is_terminus (some n) = n.node_type == start_type || n.node_type == end_type

abbrev pub first_kind : Option Kind → Kind → Kind
first_kind none k = k
first_kind (some k) other = k

-- Markers in the port hashes, then the start and end nodes, then the two task types.
unfoldable pub infer_kind : Registry → Dict Node → Labels → Conn → Kind
unfolding kind_by_source kind_by_target includes
infer_kind registry nodes labels c =
    let source = lookup c.source nodes in
    let target = lookup c.target nodes in
    if includes event_out c.source_port || includes event_in c.target_port
    then event_kind
    else (if includes state_out c.source_port || includes state_in c.target_port
        then state_kind
        else (if is_terminus source || is_terminus target
            then event_kind
            else first_kind
                (kind_by_source (define registry source) (known_label c.source_port labels))
                (first_kind
                  (kind_by_target (define registry target) (known_label c.target_port labels))
                  event_kind)))

pub record ConnectionMap : Type 0 where
  pub event_sources : Dict (List Conn)
  pub state_targets : Dict (List Conn)

abbrev pub conns_at : Text → Dict (List Conn) → List Conn
conns_at k m = or_else (lookup k m) []

abbrev pub push_conn : Text → Conn → Dict (List Conn) → Dict (List Conn)
push_conn k c m = insert k (conns_at k m ++ c ∷ []) m

abbrev pub kind_of : Registry → Dict Node → Labels → Conn → Kind
kind_of registry nodes labels c = elim c.kind [
  | some k ↦ k
  | none ↦ infer_kind registry nodes labels c
]

abbrev pub add_conn : Kind → Conn → ConnectionMap → ConnectionMap
add_conn event_kind c m = record m { event_sources = push_conn c.source c m.event_sources }
add_conn state_kind c m = record m { state_targets = push_conn c.target c m.state_targets }
add_conn other_kind c m = m

unfoldable pub conn_map_from :
    Registry → Dict Node → Labels → List Conn → ConnectionMap → ConnectionMap
unfolding infer_kind
conn_map_from registry nodes labels [] m = m
conn_map_from registry nodes labels (c ∷ cs) m =
    conn_map_from registry nodes labels cs (add_conn (kind_of registry nodes labels c) c m)

unfoldable pub build_connection_map : Registry → Graph → ConnectionMap
unfolding conn_map_from build_node_map build_label_map
build_connection_map registry g =
    conn_map_from registry (build_node_map g) (build_label_map g) g.connections
      (record { event_sources = []; state_targets = [] })

unfoldable pub find_start : List Node → Option Node
find_start [] = none
find_start (n ∷ ns) =
    let later = find_start ns in if n.node_type == start_type then some n else later

-- An event that waits in the queue.
pub record Event : Type 0 where
  pub at_node : Text
  pub event : Name

abbrev pub event_for : Labels → Conn → Event
event_for labels c = record { at_node = c.target; event = extract_port_name c.target_port labels }

-- The events of the connections whose source port has the event's name.
unfoldable pub downstream : Labels → Name → List Conn → List Event
unfolding same_name
downstream labels ev [] = []
downstream labels ev (c ∷ cs) =
    let later = downstream labels ev cs in
    if same_name (extract_port_name c.source_port labels) ev
    then event_for labels c ∷ later
    else later

unfoldable pub all_downstream : Labels → List Conn → List Event
all_downstream labels [] = []
all_downstream labels (c ∷ cs) = event_for labels c ∷ all_downstream labels cs
