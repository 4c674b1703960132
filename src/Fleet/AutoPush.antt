-- ===== src/Fleet/AutoPush.antt =====
-- The runtimes that a beacon is sent when it connects: `onBeaconConnected` and
-- `_autoPushRuntimeToBeacon` (source/services/Ultravisor-FleetManager.cjs).
use ultravisor.Base.{
  ◌==◌, Bool, true, false, ◌&&◌, ◌||◌, Option, none, some, List, [], ◌∷◌, if◌then◌else◌, contains,
}
use ultravisor.Work.{Text, Beacon}
use ultravisor.Fleet.Push.{FilePath, Scan, PushEnd, pushed, push_directory}
use ultravisor.Fleet.Runtimes.{
  RuntimeTable, RuntimePatch, RuntimeInstallation, pushing, runtime_installed, runtime_error,
  get_runtime, upsert_runtime,
}
use ultravisor.Fleet.Manager.{Hub, error_text}

pub record Runtime : Type 0 where
  pub name : Text
  pub source_dir : FilePath
  pub push_action : Text
  pub finalize_action : Text
  pub auto_push : Bool
  pub capabilities : List Text

abbrev pub no_runtime_patch : RuntimePatch
no_runtime_patch = record {
  beacon_name = none;
  expected_hash = none;
  installed_hash = none;
  status = none;
  last_error = none;
  installed_at = none;
}

abbrev pub is_current : Text → Option RuntimeInstallation → Bool
is_current hash none = false
is_current hash (some r) =
    r.installed_hash == hash && elim r.status [ runtime_installed ↦ true | _ ↦ false ]

unfoldable pub end_push : Hub → Text → Text → Scan → PushEnd → RuntimeTable → RuntimeTable
unfolding upsert_runtime error_text
end_push hub b n scan pushed t =
    upsert_runtime b n
      (record no_runtime_patch {
        installed_hash = some scan.hash;
        status = some runtime_installed;
        installed_at = some hub.now;
      })
      t
end_push hub b n scan end t =
    upsert_runtime b n
      (record no_runtime_patch {
        status = some runtime_error;
        last_error = some (error_text hub end);
      })
      t

unfoldable pub auto_push_runtime : Hub → Text → Text → Runtime → RuntimeTable → RuntimeTable
unfolding get_runtime upsert_runtime push_directory end_push
auto_push_runtime hub b name r t =
    let scan : Scan = hub.scan r.source_dir in
    let outcome =
      push_directory (hub.chunks r.source_dir) (hub.dispatch b)
        (record {
          source_dir = r.source_dir;
          push_action = r.push_action;
          finalize_action = r.finalize_action;
          prefix = [];
        })
        scan in
    let started =
      upsert_runtime b r.name
        (record no_runtime_patch {
          beacon_name = some name;
          expected_hash = some scan.hash;
          status = some pushing;
        })
        t in
    if is_current scan.hash (get_runtime b r.name t)
    then t
    else end_push hub b r.name scan outcome.1 started

unfoldable pub matches_capabilities : List Text → List Text → Bool
matches_capabilities [] filter = false
matches_capabilities (c ∷ cs) filter = contains c filter || matches_capabilities cs filter

abbrev pub passes_filter : Beacon → List Text → Bool
passes_filter bcn [] = true
passes_filter bcn (c ∷ cs) = matches_capabilities bcn.capabilities (c ∷ cs)

-- The runtimes that a beacon is sent when it connects, one after the other.
unfoldable pub push_runtimes : Hub → Text → Beacon → List Runtime → RuntimeTable → RuntimeTable
unfolding auto_push_runtime matches_capabilities
push_runtimes hub b bcn [] t = t
push_runtimes hub b bcn (r ∷ rs) t = push_runtimes hub b bcn rs (
    if r.auto_push && passes_filter bcn r.capabilities
    then auto_push_runtime hub b bcn.name r t
    else t)
