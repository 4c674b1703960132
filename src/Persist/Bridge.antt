-- ===== src/Persist/Bridge.antt =====
-- Where a call of the persistence bridge goes, its assignment and its bootstrap
-- (source/services/Ultravisor-QueuePersistenceBridge.cjs). The files in which the assignment is
-- kept are left out. What a call to a beacon gives is an argument; the steps of a bootstrap before
-- and after its calls are functions of their own, since other operations may come between them.
use ultravisor.Base.{
  ℕ, ◌==◌, Bool, false, ◌&&◌, ◌||◌, Option, none, some, List, [], ◌∷◌, ◌++◌, if◌then◌else◌,
  contains, or_else,
}
use ultravisor.Base.Dict.{Dict, lookup, insert, delete}
use ultravisor.Work.{Text, queue_persistence, meadow_proxy}

-- A registered beacon: whether it is online or busy, and its tag `PersistenceConnectionID`.
pub record Peer : Type 0 where
  pub id : Text
  pub is_up : Bool
  pub capabilities : List Text
  pub connection : Option Text

pub record Assignment : Type 0 where
  pub beacon : Text
  pub connection : Text
  pub assigned_at : ℕ

pub record Bridge : Type 0 where
  pub has_schema : Bool
  pub assignment : Option Assignment
  pub bootstrapped : List Text
  pub in_flight : List Text
  pub endpoints : Dict (Dict Text)
  pub last_error : Option Text
  pub bootstrapped_at : Option ℕ

-- The beacon with the capability `QueuePersistence`.
unfoldable pub get_beacon_id : List Peer → Option Text
get_beacon_id [] = none
get_beacon_id (p ∷ ps) =
    if contains queue_persistence p.capabilities then some p.id else get_beacon_id ps

unfoldable pub find_tagged : List Peer → Option (Text × Text)
find_tagged [] = none
find_tagged (p ∷ ps) =
    let rest = find_tagged ps in
    if p.is_up && contains meadow_proxy p.capabilities
    then elim p.connection [ none ↦ rest | some c ↦ some (p.id, c) ]
    else rest

-- The assigned beacon, whether it is up or not, or else a tagged one.
unfoldable pub get_persistence_beacon : List Peer → Bridge → Option (Text × Text)
unfolding find_tagged
get_persistence_beacon peers g =
    if g.has_schema
    then elim g.assignment [ some a ↦ some (a.beacon, a.connection) | none ↦ find_tagged peers ]
    else none

unfoldable pub is_meadow_proxy_mode : List Peer → Bridge → Bool
unfolding get_persistence_beacon
is_meadow_proxy_mode peers g = elim (get_persistence_beacon peers g) [
  | none ↦ false
  | some (b, c) ↦ contains b g.bootstrapped
]

pub data Backend : Type 0 where
  by_proxy by_beacon by_store no_backend : Backend

-- The branches of `_writeOrLocal` and of `_readOrLocal`.
unfoldable pub backend_of : List Peer → Bool → Bridge → Backend
unfolding is_meadow_proxy_mode get_beacon_id
backend_of peers has_store g =
    if is_meadow_proxy_mode peers g then by_proxy else elim (get_beacon_id peers) [
      | some b ↦ by_beacon
      | none ↦ if has_store then by_store else no_backend
    ]

unfoldable pub without : Text → List Text → List Text
without b [] = []
without b (x ∷ xs) = let rest = without b xs in if x == b then rest else x ∷ rest

-- What was known of the beacon that was assigned before goes if it is another one.
unfoldable pub drop_previous : Text → Bridge → Bridge
unfolding without
drop_previous b g = elim g.assignment [
  | none ↦ g
  | some a ↦ if a.beacon == b then g else record g {
    bootstrapped = without a.beacon g.bootstrapped;
    endpoints = delete a.beacon g.endpoints;
  }
]

-- A beacon of 0 clears the assignment. That a bootstrap is tried at once is `start_bootstrap`.
unfoldable pub set_assignment : ℕ → Text → Text → Bridge → Bridge
unfolding drop_previous
set_assignment now b c g = record (drop_previous b g) {
  assignment =
      if b == 0 then none else some (record { beacon = b; connection = c; assigned_at = now });
  last_error = none;
  bootstrapped_at = none;
}

pub data State : Type 0 where
  unassigned in_error is_bootstrapped is_bootstrapping waiting_for_beacon : State

unfoldable pub persistence_state : Bridge → State
persistence_state g = elim g.assignment [
  | none ↦ unassigned
  | some a ↦ elim g.last_error [
    | some e ↦ in_error
    | none ↦
        if contains a.beacon g.bootstrapped
        then is_bootstrapped
        else (if contains a.beacon g.in_flight then is_bootstrapping else waiting_for_beacon)
  ]
]

-- The connection that a bootstrap is started for, if one is.
unfoldable pub start_bootstrap : List Peer → Text → Bridge → Bridge × Option Text
unfolding get_persistence_beacon
start_bootstrap peers b g =
    if b == 0 || contains b g.bootstrapped || contains b g.in_flight
    then (g, none)
    else elim (get_persistence_beacon peers g) [
      | none ↦ (g, none)
      | some (a, c) ↦
          if a == b then (record g { in_flight = g.in_flight ++ b ∷ [] }, some c) else (g, none)
    ]

-- `this._EndpointBaseByBeacon[b] || {}`
abbrev pub open_endpoints : Text → Bridge → Bridge
open_endpoints b g = record g {
  endpoints = insert b (or_else (lookup b g.endpoints) []) g.endpoints;
}

-- It throws where the beacon's endpoints are gone, which ends the bootstrap.
unfoldable pub note_endpoint : Text → Text → Text → Bridge → Option Bridge
note_endpoint b table base g = elim (lookup b g.endpoints) [
  | none ↦ none
  | some known ↦ some (record g { endpoints = insert b (insert table base known) g.endpoints })
]

-- With the reason where it fails.
unfoldable pub end_bootstrap : ℕ → Text → Option Text → Bridge → Bridge
unfolding without
end_bootstrap now b none g = record g {
  in_flight = without b g.in_flight;
  bootstrapped = g.bootstrapped ++ b ∷ [];
  bootstrapped_at = some now;
  last_error = none;
}
end_bootstrap now b (some e) g = record g { in_flight = without b g.in_flight; last_error = some e }

-- `none` stands for the path without a connection.
unfoldable pub endpoint_base : Text → Text → Bridge → Option Text
endpoint_base b table g = elim (lookup b g.endpoints) [
  | none ↦ none
  | some known ↦ lookup table known
]
