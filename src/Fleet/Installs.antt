-- ===== src/Fleet/Installs.antt =====
-- The rows of the fleet store (source/services/persistence/Ultravisor-Beacon-FleetStore.cjs): which
-- models a beacon has. A table is the list of its rows by ascending ID, and the SQL
-- statements are functions on it. Where a statement says `LIMIT 1`, the first row that fits is
-- taken. GUIDs and the times of creation and update are left out.
use ultravisor.Base.{
  ℕ, ◌==◌, Bool, true, false, not, ◌&&◌, ◌||◌, Option, none, some, List, [], ◌∷◌, ◌++◌,
  if◌then◌else◌, or_else, is_some,
}
use ultravisor.Work.{Text}

-- `VALID_MODEL_STATUSES`
pub data InstallStatus : Type 0 where
  queued installing installed error uninstalling uninstalled : InstallStatus

pub data Source : Type 0 where
  operator discovered : Source

pub record Installation : Type 0 where
  pub beacon : Text
  pub beacon_name : Text
  pub model : Text
  pub model_name : Text
  pub source_dir : Text
  pub expected_hash : Text
  pub installed_hash : Text
  pub installed_bytes : ℕ
  pub status : InstallStatus
  pub enabled : Bool
  pub progress_bytes : ℕ
  pub total_bytes : ℕ
  pub last_error : Option Text
  pub installed_at : Option ℕ
  pub source : Source
  pub deleted : Bool

-- The fields of `pInst` that are there.
pub record Patch : Type 0 where
  pub beacon_name : Option Text
  pub model_name : Option Text
  pub source_dir : Option Text
  pub expected_hash : Option Text
  pub installed_hash : Option Text
  pub installed_bytes : Option ℕ
  pub status : Option InstallStatus
  pub enabled : Option Bool
  pub progress_bytes : Option ℕ
  pub total_bytes : Option ℕ
  pub last_error : Option Text
  pub installed_at : Option ℕ
  pub source : Option Source

abbrev pub no_patch : Patch
no_patch = record {
  beacon_name = none;
  model_name = none;
  source_dir = none;
  expected_hash = none;
  installed_hash = none;
  installed_bytes = none;
  status = none;
  enabled = none;
  progress_bytes = none;
  total_bytes = none;
  last_error = none;
  installed_at = none;
  source = none;
}

pub record ModelTable : Type 0 where
  pub ready : Bool
  pub rows : List Installation

-- `COALESCE(?, Column)`
abbrev pub coalesce {ℓ} : {A : Type ℓ} → Option A → A → A
coalesce = or_else

-- `x || null` on a text.
abbrev pub drop_empty : Option Text → Option Text
drop_empty none = none
drop_empty (some e) = if e == 0 then none else some e

abbrev pub coalesce_null {ℓ} : {A : Type ℓ} → Option A → Option A → Option A
coalesce_null none old = old
coalesce_null (some a) old = some a

-- `BeaconID = ? AND ModelKey = ? AND Deleted = 0`
abbrev pub is_row : Text → Text → Installation → Bool
is_row b m r = r.beacon == b && r.model == m && not r.deleted

unfoldable pub find_row : (Installation → Bool) → List Installation → Option Installation
find_row p [] = none
find_row p (r ∷ rs) = if p r then some r else find_row p rs

-- An update of the row that `find_row` gives, by its ID.
unfoldable pub update_first :
    (Installation → Bool) → (Installation → Installation) → List Installation → List Installation
update_first p f [] = []
update_first p f (r ∷ rs) = if p r then f r ∷ rs else r ∷ update_first p f rs

unfoldable pub update_all :
    (Installation → Bool) → (Installation → Installation) → List Installation → List Installation
update_all p f [] = []
update_all p f (r ∷ rs) = (if p r then f r else r) ∷ update_all p f rs

unfoldable pub apply_patch : Patch → Installation → Installation
apply_patch p r = record r {
  beacon_name = coalesce p.beacon_name r.beacon_name;
  model_name = coalesce p.model_name r.model_name;
  source_dir = coalesce p.source_dir r.source_dir;
  expected_hash = coalesce p.expected_hash r.expected_hash;
  installed_hash = coalesce p.installed_hash r.installed_hash;
  installed_bytes = coalesce p.installed_bytes r.installed_bytes;
  status = coalesce p.status r.status;
  enabled = coalesce p.enabled r.enabled;
  progress_bytes = coalesce p.progress_bytes r.progress_bytes;
  total_bytes = coalesce p.total_bytes r.total_bytes;
  last_error = p.last_error;
  installed_at = coalesce_null p.installed_at r.installed_at;
  source = coalesce p.source r.source;
}

unfoldable pub new_row : Text → Text → Patch → Installation
new_row b m p = record {
  beacon = b;
  beacon_name = or_else p.beacon_name 0;
  model = m;
  model_name = or_else p.model_name 0;
  source_dir = or_else p.source_dir 0;
  expected_hash = or_else p.expected_hash 0;
  installed_hash = or_else p.installed_hash 0;
  installed_bytes = or_else p.installed_bytes 0;
  status = or_else p.status queued;
  enabled = or_else p.enabled false;
  progress_bytes = or_else p.progress_bytes 0;
  total_bytes = or_else p.total_bytes 0;
  last_error = drop_empty p.last_error;
  installed_at = p.installed_at;
  source = or_else p.source operator;
  deleted = false;
}

unfoldable pub get_model_installation : Text → Text → ModelTable → Option Installation
unfolding find_row
get_model_installation b m t = if t.ready then find_row (is_row b m) t.rows else none

-- Without a beacon or a key it throws, which changes nothing.
unfoldable pub upsert_model : Text → Text → Patch → ModelTable → ModelTable
unfolding find_row update_first apply_patch new_row
upsert_model b m p t =
    if not t.ready || b == 0 || m == 0
    then t
    else (if is_some (find_row (is_row b m) t.rows)
        then record t { rows = update_first (is_row b m) (apply_patch p) t.rows }
        else record t { rows = t.rows ++ new_row b m p ∷ [] })

abbrev pub with_status : InstallStatus → Patch → Patch
with_status s p = record p { status = some s }

unfoldable pub update_model_status : Text → Text → InstallStatus → Patch → ModelTable → ModelTable
update_model_status b m s p t = upsert_model b m (with_status s p) t

unfoldable pub set_model_enabled : Text → Text → Bool → ModelTable → ModelTable
set_model_enabled b m on t = upsert_model b m (record no_patch { enabled = some on }) t

unfoldable pub delete_model : Text → Text → ModelTable → ModelTable
unfolding update_all
delete_model b m t =
    if t.ready
    then record t {
      rows =
          update_all (is_row b m) (λ r. record r { deleted = true; status = uninstalled }) t.rows;
    }
    else t

abbrev pub is_installed : InstallStatus → Bool
is_installed installed = true
is_installed _ = false

abbrev pub is_dispatchable : Text → Text → Installation → Bool
is_dispatchable b m r = is_row b m r && is_installed r.status && r.enabled

unfoldable pub is_model_enabled_on : Text → Text → ModelTable → Bool
unfolding find_row
is_model_enabled_on b m t = t.ready && is_some (find_row (is_dispatchable b m) t.rows)
