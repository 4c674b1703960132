-- ===== src/Persist/Bootstrap.antt =====
-- The bootstrap of a persistence beacon, `_runBootstrap`, one reply after the other, among the other
-- calls on the bridge (source/services/Ultravisor-QueuePersistenceBridge.cjs).
use ultravisor.Base.{ℕ, suc, true, Option, none, some, List, [], ◌∷◌, or_num}
use ultravisor.Base.Dict.{Dict, lookup, insert, delete}
use ultravisor.Work.{Text}
use ultravisor.Persist.Bridge.{
  Peer, Bridge, set_assignment, start_bootstrap, open_endpoints, note_endpoint, end_bootstrap,
}

-- `QUEUE_TABLES`
abbrev pub queue_tables : List Text
queue_tables = 21 ∷ 22 ∷ 23 ∷ []

-- Where a bootstrap is: it waits for `EnsureSchema`, `Introspect` or `UpdateProxyConfig`, or for the
-- endpoint of a table, with the tables that follow.
pub data Stage : Type 0 where
  ensures introspects configures : Stage
  enables : Text → List Text → Stage

-- What a call of `_mestDispatch` gives: its `EndpointBase`, where it has one, or a reason.
pub data MeshReply : Type 0 where
  mesh_ok mesh_error : Text → MeshReply

-- The bridge with the bootstraps that are in flight.
pub record Mesh : Type 0 where
  pub bridge : Bridge
  pub stages : Dict Stage

abbrev pub at_stage : Text → Stage → Mesh → Mesh
at_stage b stage m = record m { stages = insert b stage m.stages }

abbrev pub ends : ℕ → Text → Option Text → Mesh → Mesh
ends now b reason m = record {
  bridge = end_bootstrap now b reason m.bridge;
  stages = delete b m.stages;
}

-- `/1.0/` and the table's name.
abbrev pub default_base : Text → Text
default_base table = suc table

-- The message of a `TypeError`.
abbrev pub type_error : Text
type_error = 16

abbrev pub next_table : ℕ → Text → List Text → Mesh → Mesh
next_table now b [] m = ends now b none m
next_table now b (t ∷ ts) m = at_stage b (enables t ts) m

-- The reply to the call that the bootstrap waits for.
unfoldable pub continue_bootstrap : ℕ → Text → Stage → MeshReply → Mesh → Mesh
unfolding note_endpoint end_bootstrap
continue_bootstrap now b stage (mesh_error e) m = ends now b (some e) m
continue_bootstrap now b ensures (mesh_ok base) m = at_stage b introspects m
continue_bootstrap now b introspects (mesh_ok base) m = at_stage b configures m
continue_bootstrap now b configures (mesh_ok base) m =
    next_table now b queue_tables (record m { bridge = open_endpoints b m.bridge })
continue_bootstrap now b (enables t ts) (mesh_ok base) m =
    elim (note_endpoint b t (or_num base (default_base t)) m.bridge) [
      | none ↦ ends now b (some type_error) m
      | some g ↦ next_table now b ts (record m { bridge = g })
    ]

pub data MeshStep : Type 0 where
  assigns : ℕ → Text → Text → MeshStep
  connects : List Peer → Text → MeshStep
  replies : ℕ → Text → MeshReply → MeshStep

unfoldable pub mesh_step : MeshStep → Mesh → Mesh
unfolding set_assignment start_bootstrap continue_bootstrap
mesh_step (assigns now b c) m = record m { bridge = set_assignment now b c m.bridge }
mesh_step (connects peers b) m =
    let (g, started) = start_bootstrap peers b m.bridge in
    elim started [ none ↦ m | some c ↦ at_stage b ensures (record m { bridge = g }) ]
mesh_step (replies now b r) m = elim (lookup b m.stages) [
  | none ↦ m
  | some stage ↦ continue_bootstrap now b stage r m
]

unfoldable pub mesh_steps : List MeshStep → Mesh → Mesh
unfolding mesh_step
mesh_steps [] m = m
mesh_steps (s ∷ ss) m = mesh_steps ss (mesh_step s m)

abbrev pub new_mesh : Mesh
new_mesh = record {
  bridge = record {
    has_schema = true;
    assignment = none;
    bootstrapped = [];
    in_flight = [];
    endpoints = [];
    last_error = none;
    bootstrapped_at = none;
  };
  stages = [];
}
