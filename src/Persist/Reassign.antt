-- ===== src/Persist/Reassign.antt =====
-- An assignment of the same beacon with another connection
-- (source/services/Ultravisor-QueuePersistenceBridge.cjs).
use ultravisor.Base.{ℕ, ◌==◌, Bool, true, false, none, some, List, ◌≡◌, refl, arith, contains}
use ultravisor.Work.{Text}
use ultravisor.Persist.Bridge.{
  Peer, Assignment, Bridge, by_proxy, is_bootstrapped, drop_previous, set_assignment,
  persistence_state, start_bootstrap, endpoint_base, backend_of, is_meadow_proxy_mode,
  get_persistence_beacon,
}

drop_previous-same :
    (b : Text) (a : Assignment) (g : Bridge)
    → g.assignment ≡ some a
    → a.beacon ≡ b
    → drop_previous b g ≡ g
unfolding drop_previous
drop_previous-same b a g was same = rw (was, drop_previous) (rw same (ground arith))

-- The bridge with another assignment and its reports cleared.
abbrev reassigned : Assignment → Bridge → Bridge
reassigned a g = record g { assignment = some a; last_error = none; bootstrapped_at = none }

set_assignment-same :
    (now : ℕ) (b c : Text) (a : Assignment) (g : Bridge)
    → g.assignment ≡ some a
    → a.beacon ≡ b
    → (b == 0) ≡ false
    → set_assignment now b c g
      ≡ reassigned (record { beacon = b; connection = c; assigned_at = now }) g
unfolding set_assignment
set_assignment-same now b c a g was same real =
    rw (drop_previous-same b a g was same) (rw real refl)

start_bootstrap-known :
    (peers : List Peer) (b : Text) (g : Bridge)
    → contains b g.bootstrapped ≡ true
    → start_bootstrap peers b g ≡ (g, none)
unfolding start_bootstrap
start_bootstrap-known peers b g there = rw there (ground arith)

backend_of-reassigned :
    (peers : List Peer) (has_store : Bool) (a : Assignment) (g : Bridge)
    → g.has_schema ≡ true
    → contains a.beacon g.bootstrapped ≡ true
    → backend_of peers has_store (reassigned a g) ≡ by_proxy
unfolding backend_of is_meadow_proxy_mode get_persistence_beacon
backend_of-reassigned peers has_store a g schema there = rw schema (rw there refl)

-- To assign a beacon again, which is assigned and bootstrapped, with another connection has no
-- effect on where calls go: its state is given as bootstrapped, no bootstrap is started for the new
-- connection, and calls go through the beacon to the endpoints that the old one has.
pub set_assignment_keeps :
    (now : ℕ) (peers : List Peer) (has_store : Bool) (b c table : Text) (a : Assignment)
    (g : Bridge)
    → g.assignment ≡ some a
    → a.beacon ≡ b
    → (b == 0) ≡ false
    → g.has_schema ≡ true
    → contains b g.bootstrapped ≡ true
    → (persistence_state (set_assignment now b c g) ≡ is_bootstrapped)
      × (start_bootstrap peers b (set_assignment now b c g) ≡ (set_assignment now b c g, none))
      × (backend_of peers has_store (set_assignment now b c g) ≡ by_proxy)
      × (endpoint_base b table (set_assignment now b c g) ≡ endpoint_base b table g)
unfolding persistence_state endpoint_base
set_assignment_keeps now peers has_store b c table a g was same real schema there =
    let again : Assignment = record { beacon = b; connection = c; assigned_at = now } in
    rw (set_assignment-same now b c a g was same real) (
      rw there refl,
      start_bootstrap-known peers b (reassigned again g) there,
      backend_of-reassigned peers has_store again g schema there,
      refl,
    )
