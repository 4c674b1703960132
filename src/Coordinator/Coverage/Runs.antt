-- ===== src/Coordinator/Coverage/Runs.antt =====
-- Slot coverage in every state that the steps of Coordinator.Step lead to, and what it gives when a
-- beacon leaves (source/services/Ultravisor-Beacon-Coordinator.cjs).
use ultravisor.Base.{false, some, none, [], ◌≡◌, inl, inr, arith, Option-cases}
use ultravisor.Base.Dict.{lookup, lookup-delete}
use ultravisor.Work.{Text, WorkItem, is_held}
use ultravisor.Coordinator.State.{Env, Coordinator, lists}
use ultravisor.Coordinator.Registry.{deregister_beacon}
use ultravisor.Coordinator.Step.{Call, deregister, step}
use ultravisor.Coordinator.Coverage.Moves.{IsCovered}
use ultravisor.Coordinator.Coverage.Timer.{IsProper, step-IsCovered}

-- The coordinator after its constructor.
abbrev pub initial : Coordinator
initial = record {
  beacons = [];
  queue = [];
  bindings = [];
  direct = [];
  streams = [];
  counter = 0;
  log = [];
}

-- The states that sequences of proper calls lead to, each call in surroundings of its own.
pub data Reachable : Coordinator → Type 0 where
  start : Reachable initial
  after :
      (env : Env) (call : Call) {c : Coordinator}
      → IsProper env c call
      → Reachable c
      → Reachable (step env call c)

initial-IsCovered : IsCovered initial
unfolding lookup
initial-IsCovered h it b e = cc

pub Reachable-IsCovered : {c : Coordinator} → Reachable c → IsCovered c
Reachable-IsCovered start = initial-IsCovered
Reachable-IsCovered (after env call {c} p r) = step-IsCovered env call c p (Reachable-IsCovered r)

deregister_beacon-gone :
    (b : Text) (c : Coordinator) → lookup b (deregister_beacon b c).0.beacons ≡ none
unfolding deregister_beacon
deregister_beacon-gone b c = elim (Option-cases (lookup b c.beacons)) [
  | inl e ↦ rw (e, deregister_beacon) e
  | inr (bcn, e) ↦ ground (arith, e, lookup-delete b b c.beacons)
]

-- In every state that proper calls of the coordinator lead to from the start, without those of the
-- scheduler, which may leave an item with another status on a beacon, the deregistration of a beacon
-- leaves it unregistered, and no item assigned to it or running on it.
pub deregister_beacon-orphans :
    (env : Env) (b h : Text) (it : WorkItem) (c : Coordinator)
    → Reachable c
    → lookup h (step env (deregister b) c).queue ≡ some it
    → it.assigned_beacon ≡ some b
    → (lookup b (step env (deregister b) c).beacons ≡ none) × (is_held it.status ≡ false)
unfolding step lists
deregister_beacon-orphans env b h it c r there of_b =
    let covered : IsCovered (step env (deregister b) c) =
      Reachable-IsCovered (after env (deregister b) tt r) in
    (deregister_beacon-gone b c, ground (arith, covered h it b there, deregister_beacon-gone b c))
