-- ===== src/Fleet/Delivery.antt =====
-- The fleet's filter in the coordinator: what a poll hands out while the fleet manager answers for
-- the beacon (`pollForWork`, source/services/Ultravisor-Beacon-Coordinator.cjs, with
-- `checkDispatchAllowed`, source/services/Ultravisor-FleetManager.cjs).
use ultravisor.Base.{arith, ◌==◌, true, false, Bool, ◌||◌, Option, some, ◌≡◌, ◌≢◌, ◌∙◌, ap, subst}
use ultravisor.Base.Dict.{lookup}
use ultravisor.Work.{Text, WorkItem, Beacon}
use ultravisor.Coordinator.State.{Env, Coordinator}
use ultravisor.Coordinator.Poll.{is_mine, poll_for_work}
use ultravisor.Coordinator.Polling.{MayTake, own, free, poll_sound}
use ultravisor.Fleet.Push.{FilePath}
use ultravisor.Fleet.Installs.{ModelTable}
use ultravisor.Fleet.Filter.{
  Disk, ModelSettings, Fleet, scan_fleet, extract_model_key, check_model, check_dispatch_allowed,
  worker_management,
}
use ultravisor.Fleet.Consent.{
  History, perform_all, has_consent, any_enabled, check_model-perform_all,
}

-- What the fleet manager reads besides its own state.
pub record Surroundings : Type 0 where
  pub text_of : FilePath → Text
  pub disk : Disk
  pub settings : WorkItem → ModelSettings
  -- Whether `checkDispatchAllowed` throws, which it does on settings that are no texts.
  pub throws : Text → WorkItem → Bool

-- The coordinator catches what the filter throws, and then allows the item.
abbrev pub fleet_env : Surroundings → Fleet → Env → Env
fleet_env s f env = record env {
  fleet_allows = λ b it.
      s.throws b it
      || (check_dispatch_allowed s.text_of s.disk env.now b it.capability (s.settings it)
          f).1.allowed;
}

-- The model that the item needs, as the filter sees it.
abbrev pub needs : Surroundings → Fleet → Env → WorkItem → Option Text
needs s f env it =
    let scanned = scan_fleet s.disk env.now f in
    extract_model_key s.text_of (s.settings it) scanned.cache.models f.catalogs

fleet_allows-check_model :
    (s : Surroundings) (f : Fleet) (env : Env) (b m : Text) (it : WorkItem)
    → s.throws b it ≡ false
    → (it.capability == worker_management) ≡ false
    → needs s f env it ≡ some m
    → (fleet_env s f env).fleet_allows b it ≡ (check_model b m f.models).allowed
unfolding check_dispatch_allowed
fleet_allows-check_model s f env b m it caught other key = ground arith

MayTake-refused :
    (env : Env) (b : Text) (bcn : Beacon) (it : WorkItem)
    → MayTake env b bcn it
    → is_mine b it ≡ false
    → env.fleet_allows b it ≢ false
MayTake-refused env b bcn it (own mine) foreign = λ refused. cc
MayTake-refused env b bcn it (free p a c allowed) foreign = λ refused. cc

-- An item that needs a model, is not the worker's own management and is not assigned to the beacon
-- is not what a poll gives the beacon, as long as no row has the model enabled there and nothing
-- since has given consent, where the store is open and the fleet's filter does not throw on the item.
pub poll-has_consent :
    (s : Surroundings) (f : Fleet) (env : Env) (b m h : Text) (bcn : Beacon) (it : WorkItem)
    (c : Coordinator) (ops : History) (t : ModelTable)
    → f.models ≡ perform_all ops t
    → t.ready ≡ true
    → any_enabled b m t.rows ≡ false
    → has_consent b m ops ≡ false
    → lookup b c.beacons ≡ some bcn
    → lookup h c.queue ≡ some it
    → needs s f env it ≡ some m
    → s.throws b it ≡ false
    → (it.capability == worker_management) ≡ false
    → is_mine b it ≡ false
    → (poll_for_work (fleet_env s f env) b c).1 ≢ some h
poll-has_consent s f env b m h bcn it c ops t now_is ready no_row quiet there queued key caught
      other foreign =
    λ given.
      let taken = (poll_sound (fleet_env s f env) b h bcn c there given).1 in
      let same : taken.before ≡ it = cc (taken.was_there) in
      let may : MayTake (fleet_env s f env) b bcn it =
        subst (λ x. MayTake (fleet_env s f env) b bcn x) same taken.may_take in
      MayTake-refused (fleet_env s f env) b bcn it may foreign (
        fleet_allows-check_model s f env b m it caught other key
        ∙ ap (λ x. (check_model b m x).allowed) now_is
        ∙ check_model-perform_all b m ops t ready no_row quiet)
