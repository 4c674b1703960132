-- ===== src/Fleet/Filter.antt =====
-- Which beacon may have an item: `scanAvailableModels`, `_extractModelKey` and
-- `checkDispatchAllowed` (source/services/Ultravisor-FleetManager.cjs), which the coordinator asks
-- when it polls or pushes. The fields of an item's `Settings` that name a model are an argument.
use ultravisor.Base.{
  ℕ, ◌+◌, ◌==◌, Bool, true, false, not, ◌&&◌, ◌||◌, Option, none, some, List, [], ◌∷◌,
  if◌then◌else◌, ltb, length, drop,
}
use ultravisor.Base.Dict.{Dict}
use ultravisor.Work.{Text}
use ultravisor.Fleet.Push.{FilePath, slash, is_empty}
use ultravisor.Fleet.Installs.{
  InstallStatus, ModelTable, get_model_installation, is_installed, is_model_enabled_on,
}
use ultravisor.Fleet.Models.{Node, Catalog, AvailableModel, backslash, starts_with, walk}

-- `LabsWorkerManagement`
abbrev pub worker_management : Text
worker_management = 13

abbrev pub default_cache_ms : ℕ
default_cache_ms = 30000

pub record ModelCache : Type 0 where
  pub models : Dict AvailableModel
  pub last_scan : ℕ

-- The disk, and the names that a walk passes over.
pub record Disk : Type 0 where
  pub root : FilePath → Option Node
  pub skips : FilePath → Bool

unfoldable pub scan_catalogs : Disk → List Catalog → Dict AvailableModel → Dict AvailableModel
scan_catalogs disk [] into = into
scan_catalogs disk (c ∷ cs) into =
    scan_catalogs disk cs
      (elim (disk.root c.root) [ none ↦ into | some x ↦ walk disk.skips c c.root x into ])

unfoldable pub scan_available : Disk → List Catalog → ℕ → ℕ → ModelCache → ModelCache
unfolding scan_catalogs
scan_available disk catalogs cache_ms now cache =
    if not (is_empty cache.models) && ltb now (cache.last_scan + cache_ms)
    then cache
    else record { models = scan_catalogs disk catalogs []; last_scan = now }

pub record ModelSettings : Type 0 where
  -- `ModelKey`, `model_key`
  pub key : Text
  pub other_key : Text
  -- `model_path`, `ModelPath`, `weights_path`
  pub path : FilePath
  pub other_path : FilePath
  pub weights_path : FilePath

abbrev pub or_path : FilePath → FilePath → FilePath
or_path [] q = q
or_path (c ∷ cs) q = c ∷ cs

abbrev pub settings_path : ModelSettings → FilePath
settings_path s = or_path s.path (or_path s.other_path s.weights_path)

unfoldable pub match_source : FilePath → Dict AvailableModel → Option Text
match_source path [] = none
match_source path ((k, m) ∷ rest) =
    let later = match_source path rest in if starts_with m.source_dir path then some k else later

abbrev pub is_separator : ℕ → Bool
is_separator c = c == slash || c == backslash

unfoldable pub skip_separators : FilePath → FilePath
skip_separators [] = []
skip_separators (c ∷ cs) = let rest = skip_separators cs in if is_separator c then rest else c ∷ cs

unfoldable pub first_segment : FilePath → FilePath
first_segment [] = []
first_segment (c ∷ cs) = let rest = first_segment cs in if is_separator c then [] else c ∷ rest

unfoldable pub after_segment : FilePath → FilePath
after_segment [] = []
after_segment (c ∷ cs) = let rest = after_segment cs in if is_separator c then cs else rest

-- `tmpSecond || tmpFirst || null`
unfoldable pub segment_key : (FilePath → Text) → FilePath → Option Text
unfolding first_segment after_segment
segment_key text_of rel = elim (or_path (first_segment (after_segment rel)) (first_segment rel)) [
  | [] ↦ none
  | c ∷ cs ↦ some (text_of (c ∷ cs))
]

unfoldable pub match_catalog : (FilePath → Text) → FilePath → List Catalog → Option Text
unfolding skip_separators segment_key
match_catalog text_of path [] = none
match_catalog text_of path (c ∷ cs) =
    let later = match_catalog text_of path cs in
    if starts_with c.root path
    then segment_key text_of (skip_separators (drop (length c.root) path))
    else later

unfoldable pub key_of_path :
    (FilePath → Text) → FilePath → Dict AvailableModel → List Catalog → Option Text
unfolding match_source match_catalog
key_of_path text_of [] models catalogs = none
key_of_path text_of (c ∷ cs) models catalogs = elim (match_source (c ∷ cs) models) [
  | some k ↦ some k
  | none ↦ match_catalog text_of (c ∷ cs) catalogs
]

unfoldable pub extract_model_key :
    (FilePath → Text) → ModelSettings → Dict AvailableModel → List Catalog → Option Text
unfolding key_of_path
extract_model_key text_of s models catalogs =
    if not (s.key == 0)
    then some s.key
    else (if not (s.other_key == 0)
        then some s.other_key
        else key_of_path text_of (settings_path s) models catalogs)

pub data Reason : Type 0 where
  store_offline not_installed is_disabled : Reason
  has_status : InstallStatus → Reason

pub record Verdict : Type 0 where
  pub allowed : Bool
  pub reason : Option Reason
  pub model : Option Text

unfoldable pub deny_reason : Text → Text → ModelTable → Reason
unfolding get_model_installation
deny_reason b m t = elim (get_model_installation b m t) [
  | none ↦ not_installed
  | some r ↦ if is_installed r.status then is_disabled else has_status r.status
]

unfoldable pub check_model : Text → Text → ModelTable → Verdict
unfolding is_model_enabled_on deny_reason
check_model b m t =
    if not t.ready
    then record { allowed = true; reason = some store_offline; model = some m }
    else (if is_model_enabled_on b m t
        then record { allowed = true; reason = none; model = some m }
        else record { allowed = false; reason = some (deny_reason b m t); model = some m })

-- What the fleet manager keeps. A store that is missing is one that is not ready.
pub record Fleet : Type 0 where
  pub catalogs : List Catalog
  pub cache : ModelCache
  pub models : ModelTable

abbrev pub scan_fleet : Disk → ℕ → Fleet → Fleet
scan_fleet disk now f = record f {
  cache = scan_available disk f.catalogs default_cache_ms now f.cache;
}

abbrev pub check_key : Text → Option Text → ModelTable → Verdict
check_key b none t = record { allowed = true; reason = none; model = none }
check_key b (some m) t = check_model b m t

unfoldable pub check_dispatch_allowed :
    (FilePath → Text) → Disk → ℕ → Text → Text → ModelSettings → Fleet → Fleet × Verdict
unfolding scan_available extract_model_key check_model
check_dispatch_allowed text_of disk now b capability s f =
    let scanned = scan_fleet disk now f in
    if capability == worker_management
    then (f, record { allowed = true; reason = none; model = none })
    else (
      scanned,
      check_key b (extract_model_key text_of s scanned.cache.models f.catalogs) f.models,
    )
