-- ===== src/Engine/Connections.antt =====
-- The connection map against the graph (`_buildConnectionMap`,
-- source/services/Ultravisor-ExecutionEngine.cjs).
use ultravisor.Base.{
  ◌==◌, ◌&&◌, ◌≡◌, refl, sym, ◌∙◌, Bool, true, false, List, [], ◌∷◌, ◌++◌, inl, inr, arith,
  Bool-cases, if◌then◌else◌,
}
use ultravisor.Base.Dict.{Dict, lookup, lookup-insert}
use mathlib.Core.List.{append-nil, append_assoc}
use ultravisor.Work.{Text}
use ultravisor.Engine.Names.{Labels}
use ultravisor.Engine.Graph.{
  Graph, Node, Registry, Conn, Kind, event_kind, state_kind, other_kind, ConnectionMap, conns_at,
  push_conn, kind_of, add_conn, conn_map_from, build_connection_map, build_node_map,
  build_label_map,
}

abbrev pub is_event : Kind → Bool
is_event event_kind = true
is_event state_kind = false
is_event other_kind = false

abbrev pub is_state : Kind → Bool
is_state event_kind = false
is_state state_kind = true
is_state other_kind = false

-- The connections that pass a test, in their order.
unfoldable pub conns_where : (Conn → Bool) → List Conn → List Conn
conns_where p [] = []
conns_where p (c ∷ cs) = let rest = conns_where p cs in if p c then c ∷ rest else rest

conns_at-push_conn :
    (k j : Text) (c : Conn) (m : Dict (List Conn))
    → conns_at j (push_conn k c m) ≡ (if k == j then conns_at j m ++ c ∷ [] else conns_at j m)
conns_at-push_conn k j c m = ground (arith, lookup-insert k j (conns_at k m ++ c ∷ []) m)

pushed :
    (k h : Text) (c : Conn) (m : Dict (List Conn)) (rest : List Conn)
    → conns_at h (push_conn k c m) ++ rest ≡ conns_at h m ++ (if k == h then c ∷ rest else rest)
pushed k h c m rest = elim (Bool-cases (k == h)) [
  | inl e ↦
      let is : conns_at h (push_conn k c m) ≡ conns_at h m ++ c ∷ [] =
        conns_at-push_conn k h c m ∙ rw e refl in
      rw (e, is) (append_assoc (conns_at h m) (c ∷ []) rest)
  | inr e ↦
      let is : conns_at h (push_conn k c m) ≡ conns_at h m =
        conns_at-push_conn k h c m ∙ rw e refl in
      rw (e, is) refl
]

added_event :
    (k : Kind) (h : Text) (c : Conn) (m : ConnectionMap) (rest : List Conn)
    → conns_at h (add_conn k c m).event_sources ++ rest
      ≡ conns_at h m.event_sources ++ (if is_event k && c.source == h then c ∷ rest else rest)
added_event event_kind h c m rest = pushed c.source h c m.event_sources rest
added_event state_kind h c m rest = refl
added_event other_kind h c m rest = refl

added_state :
    (k : Kind) (h : Text) (c : Conn) (m : ConnectionMap) (rest : List Conn)
    → conns_at h (add_conn k c m).state_targets ++ rest
      ≡ conns_at h m.state_targets ++ (if is_state k && c.target == h then c ∷ rest else rest)
added_state event_kind h c m rest = refl
added_state state_kind h c m rest = pushed c.target h c m.state_targets rest
added_state other_kind h c m rest = refl

module _ (registry : Registry) (nodes : Dict Node) (labels : Labels) where
  abbrev pub is_event_from : Text → Conn → Bool
  is_event_from h c = is_event (kind_of registry nodes labels c) && c.source == h

  abbrev pub is_state_to : Text → Conn → Bool
  is_state_to h c = is_state (kind_of registry nodes labels c) && c.target == h

  event_sources_from :
      (h : Text) (cs : List Conn) (m : ConnectionMap)
      → conns_at h (conn_map_from registry nodes labels cs m).event_sources
        ≡ conns_at h m.event_sources ++ conns_where (is_event_from h) cs
  unfolding conn_map_from conns_where
  event_sources_from h [] m = sym (append-nil (conns_at h m.event_sources))
  event_sources_from h (c ∷ cs) m =
      event_sources_from h cs (add_conn (kind_of registry nodes labels c) c m)
      ∙ added_event (kind_of registry nodes labels c) h c m (conns_where (is_event_from h) cs)

  state_targets_from :
      (h : Text) (cs : List Conn) (m : ConnectionMap)
      → conns_at h (conn_map_from registry nodes labels cs m).state_targets
        ≡ conns_at h m.state_targets ++ conns_where (is_state_to h) cs
  unfolding conn_map_from conns_where
  state_targets_from h [] m = sym (append-nil (conns_at h m.state_targets))
  state_targets_from h (c ∷ cs) m =
      state_targets_from h cs (add_conn (kind_of registry nodes labels c) c m)
      ∙ added_state (kind_of registry nodes labels c) h c m (conns_where (is_state_to h) cs)

-- Under a node's hash the map has the graph's event connections that leave the node and its state
-- connections that enter it, each list in the graph's order.
pub build_connection_map_lem :
    (registry : Registry) (g : Graph) (h : Text)
    → (conns_at h (build_connection_map registry g).event_sources
        ≡ conns_where
            (is_event_from registry (build_node_map g) (build_label_map g) h)
            g.connections)
      × (conns_at h (build_connection_map registry g).state_targets
          ≡ conns_where
              (is_state_to registry (build_node_map g) (build_label_map g) h)
              g.connections)
unfolding build_connection_map conns_where lookup
build_connection_map_lem registry g h = (
  event_sources_from registry (build_node_map g) (build_label_map g) h g.connections _,
  state_targets_from registry (build_node_map g) (build_label_map g) h g.connections _,
)
