-- ===== src/Admission/Sample.antt =====
-- `_sample` (source/services/Ultravisor-AdmissionPolicy.cjs). The observer's records are an argument:
-- of each, the fields that the sample reads; a text that is empty or missing is `none`.
use ultravisor.Base.{
  ℕ, suc, ◌-◌, Bool, true, not, ◌&&◌, Option, none, some, List, [], ◌∷◌, if◌then◌else◌, ltb,
}
use ultravisor.Base.Dict.{Dict}
use ultravisor.Work.{WorkItem}
use ultravisor.Scheduler.Health.{is_upcoming, is_active}

pub record Seen : Type 0 where
  pub deregistered : Bool
  pub alive : Bool
  -- `LastHeartbeatAt || LastWSCloseAt || RegisteredAt`
  pub last_seen : Option ℕ

pub record Sample : Type 0 where
  pub queued_depth : ℕ
  pub in_flight : ℕ
  pub alive_beacons : ℕ
  pub total_beacons : ℕ

abbrev pub recent_ms : ℕ
recent_ms = 300000

-- Neither deregistered nor, unless alive, unseen for five minutes.
unfoldable pub is_current : ℕ → Seen → Bool
is_current now r =
    not r.deregistered
    && (elim r.last_seen [ none ↦ true | some t ↦ not (not r.alive && ltb recent_ms (now - t)) ])

unfoldable pub queued_in : Dict WorkItem → ℕ
queued_in [] = 0
queued_in ((h, it) ∷ m) = let rest = queued_in m in if is_upcoming it.status then suc rest else rest

unfoldable pub flying_in : Dict WorkItem → ℕ
flying_in [] = 0
flying_in ((h, it) ∷ m) = let rest = flying_in m in if is_active it.status then suc rest else rest

unfoldable pub current_in : ℕ → List Seen → ℕ
unfolding is_current
current_in now [] = 0
current_in now (r ∷ rs) =
    let rest = current_in now rs in if is_current now r then suc rest else rest

unfoldable pub alive_in : ℕ → List Seen → ℕ
unfolding is_current
alive_in now [] = 0
alive_in now (r ∷ rs) =
    let rest = alive_in now rs in if is_current now r && r.alive then suc rest else rest

unfoldable pub sample : ℕ → Dict WorkItem → List Seen → Sample
unfolding queued_in flying_in current_in alive_in
sample now queue fleet = record {
  queued_depth = queued_in queue;
  in_flight = flying_in queue;
  alive_beacons = alive_in now fleet;
  total_beacons = current_in now fleet;
}
