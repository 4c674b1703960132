-- ===== src/Fleet/Runtimes.antt =====
-- The rows for runtimes in the fleet store
-- (source/services/persistence/Ultravisor-Beacon-FleetStore.cjs).
use ultravisor.Base.{
  ℕ, ◌==◌, Bool, false, not, ◌&&◌, ◌||◌, Option, none, some, List, [], ◌∷◌, if◌then◌else◌, or_else,
}
use ultravisor.Work.{Text}
use ultravisor.Fleet.Installs.{coalesce, coalesce_null, drop_empty}

-- `VALID_RUNTIME_STATUSES`
pub data RuntimeStatus : Type 0 where
  pending pushing runtime_installed runtime_error : RuntimeStatus

pub record RuntimeInstallation : Type 0 where
  pub beacon : Text
  pub beacon_name : Text
  pub runtime : Text
  pub expected_hash : Text
  pub installed_hash : Text
  pub status : RuntimeStatus
  pub last_error : Option Text
  pub installed_at : Option ℕ
  pub deleted : Bool

pub record RuntimePatch : Type 0 where
  pub beacon_name : Option Text
  pub expected_hash : Option Text
  pub installed_hash : Option Text
  pub status : Option RuntimeStatus
  pub last_error : Option Text
  pub installed_at : Option ℕ

pub record RuntimeTable : Type 0 where
  pub ready : Bool
  pub rows : List RuntimeInstallation

abbrev pub is_runtime_row : Text → Text → RuntimeInstallation → Bool
is_runtime_row b n r = r.beacon == b && r.runtime == n && not r.deleted

unfoldable pub find_runtime : Text → Text → List RuntimeInstallation → Option RuntimeInstallation
find_runtime b n [] = none
find_runtime b n (r ∷ rs) = if is_runtime_row b n r then some r else find_runtime b n rs

abbrev pub patch_runtime : RuntimePatch → RuntimeInstallation → RuntimeInstallation
patch_runtime p r = record r {
  beacon_name = coalesce p.beacon_name r.beacon_name;
  expected_hash = coalesce p.expected_hash r.expected_hash;
  installed_hash = coalesce p.installed_hash r.installed_hash;
  status = coalesce p.status r.status;
  last_error = p.last_error;
  installed_at = coalesce_null p.installed_at r.installed_at;
}

abbrev pub new_runtime : Text → Text → RuntimePatch → RuntimeInstallation
new_runtime b n p = record {
  beacon = b;
  beacon_name = or_else p.beacon_name 0;
  runtime = n;
  expected_hash = or_else p.expected_hash 0;
  installed_hash = or_else p.installed_hash 0;
  status = or_else p.status pending;
  last_error = drop_empty p.last_error;
  installed_at = p.installed_at;
  deleted = false;
}

unfoldable pub update_runtime :
    Text → Text → RuntimePatch → List RuntimeInstallation → List RuntimeInstallation
update_runtime b n p [] = new_runtime b n p ∷ []
update_runtime b n p (r ∷ rs) =
    if is_runtime_row b n r then patch_runtime p r ∷ rs else r ∷ update_runtime b n p rs

unfoldable pub get_runtime : Text → Text → RuntimeTable → Option RuntimeInstallation
unfolding find_runtime
get_runtime b n t = if t.ready then find_runtime b n t.rows else none

-- Without a beacon or a name it throws, which changes nothing.
unfoldable pub upsert_runtime : Text → Text → RuntimePatch → RuntimeTable → RuntimeTable
unfolding update_runtime
upsert_runtime b n p t =
    if not t.ready || b == 0 || n == 0 then t else record t { rows = update_runtime b n p t.rows }
