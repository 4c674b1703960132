-- ===== src/Tests/Flushing.antt =====
-- The theorems on the persistence bridge at a beacon that fails at first, and at one that is assigned.
use ultravisor.Base.{ℕ, ltb, true, List, [], ◌∷◌, ◌≡◌, refl, take}
use ultravisor.Base.{none, some, contains}
use ultravisor.Persist.Bridge.{
  Assignment, Bridge, by_proxy, is_bootstrapped, set_assignment, persistence_state, start_bootstrap,
  backend_of, endpoint_base,
}
use ultravisor.Persist.Reassign.{set_assignment_keeps}
use ultravisor.Base.{is_some}
use ultravisor.Base.Dict.{lookup, insert, delete}
use ultravisor.Persist.Bridge.{
  drop_previous, get_persistence_beacon, note_endpoint, end_bootstrap, without,
}
use ultravisor.Persist.Bootstrap.{
  mesh_ok, mesh_error, MeshStep, assigns, connects, replies, continue_bootstrap, mesh_step,
  mesh_steps, new_mesh,
}
use ultravisor.Persist.Sound.{endpoint_base-mesh_steps}
use ultravisor.Persist.Flush.{Stored, Dispatch, flush_queue, flush_limit}
use ultravisor.Persist.Backlog.{are_delivered, are_ascending}
use ultravisor.Persist.Catchup.{Step, adds, flushes, perform_all, perform, new_backlog}
use ultravisor.Persist.Complete.{all_delivered, perform_all_lem}

abbrev stored_at : ℕ → List ℕ → Stored
stored_at now events = record { hash = now; enqueued_at = now; created_at = now; events = events }

abbrev works : Dispatch
works n k = true

-- The third call fails.
abbrev fails_late : Dispatch
fails_late n k = ltb n 2

abbrev steps : List Step
steps =
    adds (stored_at 10 (1 ∷ []))
    ∷ adds (stored_at 20 (2 ∷ 3 ∷ []))
    ∷ flushes fails_late
    ∷ adds (stored_at 30 [])
    ∷ []

flushes_example :
    (are_delivered
        (perform_all steps new_backlog).flush.mark
        (perform_all steps new_backlog).flush.taken
        (perform_all steps new_backlog).store
      ≡ true)
    × (all_delivered
          (flush_queue works
            (perform_all steps new_backlog).store
            (perform_all steps new_backlog).flush).taken
          (take flush_limit (perform_all steps new_backlog).store)
        ≡ true)
unfolding perform_all perform are_ascending
flushes_example = perform_all_lem steps works refl (λ n k. refl)

abbrev assigned_60 : Assignment
assigned_60 = record { beacon = 60; connection = 1; assigned_at = 1000 }

-- The beacon 60 has been bootstrapped for the connection 1.
abbrev bridge : Bridge
bridge = record {
  has_schema = true;
  assignment = some assigned_60;
  bootstrapped = 60 ∷ [];
  in_flight = [];
  endpoints = (60, (5, 71) ∷ []) ∷ [];
  last_error = none;
  bootstrapped_at = some 2000;
}

set_assignment_keeps_example :
    (persistence_state (set_assignment 3000 60 2 bridge) ≡ is_bootstrapped)
    × (start_bootstrap [] 60 (set_assignment 3000 60 2 bridge)
        ≡ (set_assignment 3000 60 2 bridge, none))
    × (backend_of [] true (set_assignment 3000 60 2 bridge) ≡ by_proxy)
    × (endpoint_base 60 5 (set_assignment 3000 60 2 bridge) ≡ endpoint_base 60 5 bridge)
unfolding contains
set_assignment_keeps_example =
    set_assignment_keeps 3000 [] true 60 2 5 assigned_60 bridge refl refl refl refl refl

-- The first bootstrap of the beacon 60 fails, the second one is completed.
abbrev mesh_calls : List MeshStep
mesh_calls =
    assigns 1000 60 1
    ∷ connects [] 60
    ∷ replies 1100 60 (mesh_ok 0)
    ∷ replies 1200 60 (mesh_error 9)
    ∷ connects [] 60
    ∷ replies 2100 60 (mesh_ok 0)
    ∷ replies 2200 60 (mesh_ok 0)
    ∷ replies 2300 60 (mesh_ok 0)
    ∷ replies 2400 60 (mesh_ok 71)
    ∷ replies 2500 60 (mesh_ok 72)
    ∷ replies 2600 60 (mesh_ok 73)
    ∷ []

endpoint_base_example : is_some (endpoint_base 60 22 (mesh_steps mesh_calls new_mesh).bridge) ≡ true
unfolding mesh_steps mesh_step set_assignment drop_previous start_bootstrap get_persistence_beacon
    continue_bootstrap note_endpoint end_bootstrap without contains lookup insert delete
endpoint_base_example = endpoint_base-mesh_steps 60 22 mesh_calls refl refl
