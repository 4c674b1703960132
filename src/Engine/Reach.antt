-- ===== src/Engine/Reach.antt =====
-- Which tasks the event loop can start (`_processEventQueue`, `_executeTaskForEvent`,
-- source/services/Ultravisor-ExecutionEngine.cjs).
use ultravisor.Base.{
  ◌≡◌, refl, ap, ◌∙◌, ◌⊎◌, Bool, true, List, [], ◌∷◌, ◌++◌, some, inl, inr, arith, Bool-cases,
  Option-cases,
}
use ultravisor.Base.Dict.{Dict, lookup, modify, lookup-modify}
use ultravisor.Work.{Text}
use ultravisor.Engine.Names.{Name, Labels, same_name, extract_port_name}
use ultravisor.Engine.Graph.{
  Graph, Registry, Conn, Event, build_node_map, build_label_map, downstream, all_downstream,
}
use ultravisor.Engine.Context.{Execution}
use ultravisor.Engine.Frame.{AllAt}
use ultravisor.Engine.Connections.{is_event_from, conns_where}

abbrev pub IsIn : {A : Type 0} → A → List A → Type 0
IsIn x [] = ⊥
IsIn x (y ∷ ys) = (x ≡ y) ⊎ IsIn x ys

-- An event connection of the graph from a node to a node.
abbrev pub Leads : Registry → Graph → Text → Text → Type 0
Leads registry g a b =
    (c : Conn) × IsIn c g.connections
    × (is_event_from registry (build_node_map g) (build_label_map g) a c ≡ true)
    × (c.target ≡ b)

-- The nodes that event connections lead to from a node, in one step or more.
pub data Reaches (registry : Registry) (g : Graph) (s : Text) : Text → Type 0 where
  directly : (b : Text) → Leads registry g s b → Reaches registry g s b
  onward : (a b : Text) → Reaches registry g s a → Leads registry g a b → Reaches registry g s b

pub IsIn-conns_where :
    (p : Conn → Bool) (c : Conn) (cs : List Conn)
    → IsIn c (conns_where p cs)
    → IsIn c cs × (p c ≡ true)
unfolding conns_where
IsIn-conns_where p c [] i = absurd i
IsIn-conns_where p c (d ∷ cs) i = elim (Bool-cases (p d)) [
  | inl e ↦ elim (rw e at i) [
    | inl q ↦ (inl q, ap p q ∙ e)
    | inr j ↦ let (k, t) = IsIn-conns_where p c cs j in (inr k, t)
  ]
  | inr e ↦ let (k, t) = IsIn-conns_where p c cs (rw e at i) in (inr k, t)
]

module _ (Q : Text → Type 0) where
  pub AllAt-append : (es fs : List Event) → AllAt Q es → AllAt Q fs → AllAt Q (es ++ fs)
  AllAt-append [] fs a b = b
  AllAt-append (e ∷ es) fs (q, a) b = (q, AllAt-append es fs a b)

  pub AllAt-downstream :
      (labels : Labels) (ev : Name) (cs : List Conn)
      → ((c : Conn) → IsIn c cs → Q c.target)
      → AllAt Q (downstream labels ev cs)
  unfolding downstream
  AllAt-downstream labels ev [] f = tt
  AllAt-downstream labels ev (c ∷ cs) f =
      let rest : AllAt Q (downstream labels ev cs) =
        AllAt-downstream labels ev cs (λ d i. f d (inr i)) in
      elim (Bool-cases (same_name (extract_port_name c.source_port labels) ev)) [
        | inl e ↦ rw e (f c (inl refl), rest)
        | inr e ↦ rw e rest
      ]

  pub AllAt-all_downstream :
      (labels : Labels) (cs : List Conn)
      → ((c : Conn) → IsIn c cs → Q c.target)
      → AllAt Q (all_downstream labels cs)
  unfolding all_downstream
  AllAt-all_downstream labels [] f = tt
  AllAt-all_downstream labels (c ∷ cs) f =
      (f c (inl refl), AllAt-all_downstream labels cs (λ d i. f d (inr i)))

  -- The nodes with a record.
  abbrev pub Recorded : Dict (List Execution) → Type 0
  Recorded m = (h : Text) (es : List Execution) → lookup h m ≡ some es → Q h

  pub Recorded-modify :
      (k : Text) (f : List Execution → List Execution) (m : Dict (List Execution))
      → Recorded m
      → Recorded (modify k f m)
  Recorded-modify k f m r h es e = elim (Option-cases (lookup h m)) [
    | inl q ↦ ground (arith, lookup-modify k h f m)
    | inr (old, q) ↦ r h old q
  ]
