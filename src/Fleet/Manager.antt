-- ===== src/Fleet/Manager.antt =====
-- The operations on the fleet (source/services/Ultravisor-FleetManager.cjs): `installModel`,
-- `uninstallModel`, `enableModel`, `disableModel` and `_discoverInstalledModelsOnBeacon`. The parts of
-- an installation before, during and after the push are functions of their own, since other
-- operations may come between them.
use ultravisor.Base.{
  ℕ, ◌==◌, Bool, true, false, ◌||◌, Option, none, some, List, [], ◌∷◌, if◌then◌else◌, or_num,
  is_some, contains,
}
use ultravisor.Base.Dict.{Dict, lookup}
use ultravisor.Work.{Text, Beacon}
use ultravisor.Fleet.Push.{
  FilePath, Chunk, Scan, Reply, response, no_response, rejected, success_text, unknown_text,
  PushEnd, pushed, finalize_failed, threw, Progress, Dispatch, push_directory,
}
use ultravisor.Fleet.Installs.{
  Patch, Installation, no_patch, ModelTable, installing, installed, error, uninstalling, operator,
  discovered, get_model_installation, upsert_model, update_model_status, set_model_enabled,
  delete_model,
}
use ultravisor.Fleet.Models.{AvailableModel}
use ultravisor.Fleet.Filter.{Disk, Fleet, scan_fleet, worker_management}

-- What an operation reads from outside: the clock, the coordinator's beacons, the disk, the scan and
-- the chunks of a directory, the replies of a beacon, the number of a text, and the message that is
-- composed for a failed push.
pub record Hub : Type 0 where
  pub now : ℕ
  pub beacons : Dict Beacon
  pub disk : Disk
  pub scan : FilePath → Scan
  pub chunks : FilePath → FilePath → FilePath → List Chunk
  pub dispatch : Text → Dispatch
  pub text_of : FilePath → Text
  pub path_of : Text → FilePath
  pub describe : PushEnd → Text

unfoldable pub error_text : Hub → PushEnd → Text
error_text hub (threw e) = e
error_text hub (finalize_failed e) = or_num e unknown_text
error_text hub end = or_num (hub.describe end) unknown_text

abbrev pub install_patch : Hub → Text → AvailableModel → Scan → Patch
install_patch hub name av scan = record no_patch {
  beacon_name = some name;
  model_name = some av.model_name;
  source_dir = some (hub.text_of av.source_dir);
  expected_hash = some scan.hash;
  total_bytes = some scan.total_bytes;
  progress_bytes = some 0;
  status = some installing;
  source = some operator;
}

unfoldable pub start_install :
    Hub → Text → Text → Text → AvailableModel → Scan → ModelTable → ModelTable
start_install hub b name m av scan t = upsert_model b m (install_patch hub name av scan) t

unfoldable pub report_progress : Text → Text → ℕ → ModelTable → ModelTable
report_progress b m n t = upsert_model b m (record no_patch { progress_bytes = some n }) t

unfoldable pub report_all : Text → Text → List ℕ → ModelTable → ModelTable
unfolding report_progress
report_all b m [] t = t
report_all b m (n ∷ ns) t = report_all b m ns (report_progress b m n t)

unfoldable pub note_failure : Text → Text → Text → ModelTable → ModelTable
note_failure b m e t = update_model_status b m error (record no_patch { last_error = some e }) t

abbrev pub success_patch : ℕ → Bool → Text → ℕ → Patch
success_patch now enable hash bytes = record no_patch {
  installed_hash = some hash;
  installed_bytes = some bytes;
  progress_bytes = some bytes;
  installed_at = some now;
  enabled = if enable then some true else none;
}

unfoldable pub note_success : ℕ → Text → Text → Bool → Text → ℕ → ModelTable → ModelTable
note_success now b m enable hash bytes t =
    update_model_status b m installed (success_patch now enable hash bytes) t

unfoldable pub end_install :
    Hub → Text → Text → Bool → Scan → Progress × PushEnd → ModelTable → ModelTable
unfolding note_failure note_success error_text
end_install hub b m enable scan (p, pushed) t = note_success hub.now b m enable scan.hash p.bytes t
end_install hub b m enable scan (p, end) t = note_failure b m (error_text hub end) t

pub data InstallReply : Type 0 where
  no_beacon no_model : InstallReply
  install_threw : Text → InstallReply
  installation : Option Installation → InstallReply

abbrev pub reply_of : Text → Text → PushEnd → ModelTable → InstallReply
reply_of b m (threw e) t = install_threw e
reply_of b m _ t = installation (get_model_installation b m t)

unfoldable pub install_available :
    Hub → Text → Text → Text → Bool → AvailableModel → ModelTable → ModelTable × InstallReply
unfolding start_install report_all end_install push_directory
install_available hub b name m enable av t =
    let scan : Scan = hub.scan av.source_dir in
    let outcome =
      push_directory (hub.chunks av.source_dir) (hub.dispatch b)
        (record {
          source_dir = av.source_dir;
          push_action = av.push_action;
          finalize_action = av.finalize_action;
          prefix = hub.path_of m;
        })
        scan in
    let started = start_install hub b name m av scan t in
    let after =
      end_install hub b m enable scan outcome (report_all b m outcome.0.reports started) in
    (after, reply_of b m outcome.1 after)

unfoldable pub install_model : Hub → Text → Text → Bool → Fleet → Fleet × InstallReply
unfolding install_available
install_model hub b m enable f = elim (lookup b hub.beacons) [
  | none ↦ (f, no_beacon)
  | some bcn ↦
      let scanned = scan_fleet hub.disk hub.now f in
      elim (lookup m scanned.cache.models) [
        | none ↦ (scanned, no_model)
        | some av ↦
            let (t, r) = install_available hub b bcn.name m enable av f.models in
            (record scanned { models = t }, r)
      ]
]

unfoldable pub start_uninstall : Text → Text → ModelTable → ModelTable
start_uninstall b m t = update_model_status b m uninstalling no_patch t

unfoldable pub end_uninstall : Text → Text → Reply → ModelTable → ModelTable
unfolding delete_model note_failure
end_uninstall b m (response r) t =
    if r.exit_code == 0 || r.status == success_text
    then delete_model b m t
    else note_failure b m (or_num r.output_error unknown_text) t
end_uninstall b m no_response t = delete_model b m t
end_uninstall b m (rejected e) t = note_failure b m e t

unfoldable pub enable_model : Text → Text → ModelTable → ModelTable
enable_model b m t = set_model_enabled b m true t

unfoldable pub disable_model : Text → Text → ModelTable → ModelTable
disable_model b m t = set_model_enabled b m false t

-- A model in the inventory of a beacon. Its key is the last part of its path.
pub record Reported : Type 0 where
  pub key : Text
  pub display_name : Text
  pub name : Text
  pub path : Text
  pub bytes : ℕ

abbrev pub discovered_patch : ℕ → Text → Reported → Patch
discovered_patch now name r = record no_patch {
  beacon_name = some name;
  model_name = some (or_num r.display_name (or_num r.name r.key));
  source_dir = some r.path;
  status = some installed;
  enabled = some true;
  installed_bytes = some r.bytes;
  installed_hash = some 0;
  installed_at = some now;
  source = some discovered;
}

unfoldable pub discover_one : ℕ → Text → Text → Reported → ModelTable → ModelTable
discover_one now b name r t =
    if r.key == 0 || is_some (get_model_installation b r.key t)
    then t
    else upsert_model b r.key (discovered_patch now name r) t

unfoldable pub discover_models : ℕ → Text → Text → List Reported → ModelTable → ModelTable
unfolding discover_one
discover_models now b name [] t = t
discover_models now b name (r ∷ rs) t = discover_models now b name rs (discover_one now b name r t)

-- `none` where the inventory could not be read.
unfoldable pub discover : ℕ → Text → Beacon → Option (List Reported) → ModelTable → ModelTable
unfolding discover_models
discover now b bcn inventory t =
    if contains worker_management bcn.capabilities
    then elim inventory [ none ↦ t | some rs ↦ discover_models now b bcn.name rs t ]
    else t
