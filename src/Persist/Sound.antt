-- ===== src/Persist/Sound.antt =====
-- Any interleaving of assignments, connections and replies
-- (source/services/Ultravisor-QueuePersistenceBridge.cjs).
use ultravisor.Base.{
  ℕ, ◌==◌, true, ◌||◌, Option, none, some, List, [], ◌∷◌, ◌≡◌, refl, subst, arith, or_num, contains,
  is_some, Bool-cases, Option-cases, inl, inr,
}
use ultravisor.Base.Dict.{Dict, lookup}
use ultravisor.Work.{Text}
use ultravisor.Persist.Bridge.{
  Peer, Bridge, start_bootstrap, note_endpoint, endpoint_base, get_persistence_beacon,
}
use ultravisor.Persist.Bootstrap.{
  queue_tables, Stage, ensures, introspects, configures, enables, MeshReply, mesh_ok, mesh_error,
  Mesh, at_stage, default_base, continue_bootstrap, MeshStep, assigns, connects, replies, mesh_step,
  mesh_steps, new_mesh, type_error,
}
use ultravisor.Persist.Endpoints.{
  has_tables, is_ready, IsSound, set_assignment-IsSound, at_stage-IsSound, ends-IsSound,
  opened-IsSound, noted-IsSound,
}

continue_bootstrap-IsSound :
    (b c : Text) (now : ℕ) (stage : Stage) (r : MeshReply) (m : Mesh)
    → lookup c m.stages ≡ some stage
    → IsSound b m
    → IsSound b (continue_bootstrap now c stage r m)
unfolding continue_bootstrap note_endpoint
continue_bootstrap-IsSound b c now stage (mesh_error e) m there h = ends-IsSound b c now e m h
continue_bootstrap-IsSound b c now ensures (mesh_ok base) m there h =
    at_stage-IsSound b c introspects m (λ e. refl) h
continue_bootstrap-IsSound b c now introspects (mesh_ok base) m there h =
    at_stage-IsSound b c configures m (λ e. refl) h
continue_bootstrap-IsSound b c now configures (mesh_ok base) m there h = opened-IsSound b c m h
continue_bootstrap-IsSound b c now (enables t ts) (mesh_ok base) m there h =
    elim (Option-cases (lookup c m.bridge.endpoints)) [
      | inl e ↦ rw (e, continue_bootstrap) (ends-IsSound b c now type_error m h)
      | inr (known, e) ↦
          rw (e, continue_bootstrap)
            (noted-IsSound b c now t (or_num base (default_base t)) ts known m e there h)
    ]

start_bootstrap-keeps :
    (peers : List Peer) (c : Text) (g : Bridge)
    → ((start_bootstrap peers c g).0.bootstrapped ≡ g.bootstrapped)
      × ((start_bootstrap peers c g).0.endpoints ≡ g.endpoints)
unfolding start_bootstrap
start_bootstrap-keeps peers c g =
    elim (Bool-cases (c == 0 || contains c g.bootstrapped || contains c g.in_flight)) [
      | inl k ↦ rw (k, start_bootstrap) (refl, refl)
      | inr k ↦
          rw (k, start_bootstrap)
            (elim (Option-cases (get_persistence_beacon peers g)) [
              | inl e ↦ rw (e, start_bootstrap) (refl, refl)
              | inr ((a, x), e) ↦
                  rw (e, start_bootstrap)
                    (elim (Bool-cases (a == c)) [
                      | inl same ↦ rw (same, start_bootstrap) (refl, refl)
                      | inr other ↦ rw (other, start_bootstrap) (refl, refl)
                    ])
            ])
    ]

started-IsSound :
    (b c : Text) (m : Mesh) (r : Bridge × Option Text)
    → r.0.bootstrapped ≡ m.bridge.bootstrapped
    → r.0.endpoints ≡ m.bridge.endpoints
    → IsSound b m
    → IsSound b (elim r.1 [ none ↦ m | some x ↦ at_stage c ensures (record m { bridge = r.0 }) ])
started-IsSound b c m (g, none) boot same h = h
started-IsSound b c m (g, some x) boot same h =
    at_stage-IsSound b c ensures (record m { bridge = g }) (λ e. refl) (rw boot (rw same h))

connects-IsSound :
    (b c : Text) (peers : List Peer) (m : Mesh)
    → IsSound b m
    → IsSound b (mesh_step (connects peers c) m)
unfolding mesh_step
connects-IsSound b c peers m h =
    let (boot, same) = start_bootstrap-keeps peers c m.bridge in
    started-IsSound b c m (start_bootstrap peers c m.bridge) boot same h

mesh_step-IsSound : (b : Text) (s : MeshStep) (m : Mesh) → IsSound b m → IsSound b (mesh_step s m)
unfolding mesh_step
mesh_step-IsSound b (assigns now c k) m h = set_assignment-IsSound b now c k m h
mesh_step-IsSound b (connects peers c) m h = connects-IsSound b c peers m h
mesh_step-IsSound b (replies now c r) m h = elim (Option-cases (lookup c m.stages)) [
  | inl e ↦ rw (e, mesh_step) h
  | inr (stage, e) ↦ rw (e, mesh_step) (continue_bootstrap-IsSound b c now stage r m e h)
]

mesh_steps-IsSound :
    (b : Text) (ss : List MeshStep) (m : Mesh) → IsSound b m → IsSound b (mesh_steps ss m)
unfolding mesh_steps
mesh_steps-IsSound b [] m h = h
mesh_steps-IsSound b (s ∷ ss) m h =
    mesh_steps-IsSound b ss (mesh_step s m) (mesh_step-IsSound b s m h)

is_some-has_tables :
    (q : Text) (qs : List Text) (known : Dict Text)
    → has_tables qs known ≡ true
    → contains q qs ≡ true
    → is_some (lookup q known) ≡ true
unfolding has_tables contains
is_some-has_tables q [] known h c = cc
is_some-has_tables q (x ∷ qs) known h c = elim (Bool-cases (x == q)) [
  | inl e ↦
      let same : x ≡ q = ground arith in
      subst (λ y. is_some (lookup y known) ≡ true) same (ground arith)
  | inr e ↦ is_some-has_tables q qs known (ground arith) (ground arith)
]

is_some-is_ready :
    (q : Text) (known : Option (Dict Text))
    → is_ready true known ≡ true
    → contains q queue_tables ≡ true
    → is_some (elim known [ none ↦ none | some k ↦ lookup q k ]) ≡ true
is_some-is_ready q none h c = cc
is_some-is_ready q (some k) h c = is_some-has_tables q queue_tables k h c

new_mesh-IsSound : (b : Text) → IsSound b new_mesh
unfolding contains lookup
new_mesh-IsSound b = (refl, refl)

-- After any sequence of assignments, connections of beacons and replies to bootstraps, which may
-- interleave, from an unassigned bridge on, a beacon that counts as bootstrapped has an endpoint for
-- each of the queue's tables.
pub endpoint_base-mesh_steps :
    (b q : Text) (ss : List MeshStep)
    → contains b (mesh_steps ss new_mesh).bridge.bootstrapped ≡ true
    → contains q queue_tables ≡ true
    → is_some (endpoint_base b q (mesh_steps ss new_mesh).bridge) ≡ true
unfolding endpoint_base
endpoint_base-mesh_steps b q ss boot queued =
    let m = mesh_steps ss new_mesh in
    let sound : IsSound b m = mesh_steps-IsSound b ss new_mesh (new_mesh-IsSound b) in
    is_some-is_ready q (lookup b m.bridge.endpoints)
      (subst (λ x. is_ready x (lookup b m.bridge.endpoints) ≡ true) boot sound.0) queued
