-- ===== src/Defaults/Resolve.antt =====
-- `resolve` and `invalidate` (source/services/Ultravisor-Beacon-ActionDefaults.cjs). A row's field
-- that is null is 0 here: the code takes both for absent.
use ultravisor.Base.{ℕ, ◌-◌, ◌==◌, Bool, Option, none, some, [], if◌then◌else◌, ltb}
use ultravisor.Base.Dict.{Dict, lookup, insert}
use ultravisor.Work.{Text}

-- The fields of HARD_DEFAULTS, as a row of the table holds them and as they are resolved.
pub record Row : Type 0 where
  pub timeout_ms : ℕ
  pub max_attempts : ℕ
  pub retry_backoff_ms : ℕ
  pub default_priority : ℕ
  pub expected_wait_p95_ms : ℕ
  pub heartbeat_expected_ms : ℕ
  pub min_samples_for_baseline : ℕ

abbrev pub hard_defaults : Row
hard_defaults = record {
  timeout_ms = 300000;
  max_attempts = 1;
  retry_backoff_ms = 5000;
  default_priority = 0;
  expected_wait_p95_ms = 0;
  heartbeat_expected_ms = 60000;
  min_samples_for_baseline = 20;
}

-- `_fableSettingFallback`: the two settings that have a legacy name, 0 where there is none.
pub record Legacy : Type 0 where
  pub legacy_timeout_ms : ℕ
  pub legacy_heartbeat_ms : ℕ

-- A field: from the specific row, else from the wildcard row, else from the setting, else the
-- hard default.
unfoldable pub field_value : ℕ → ℕ → ℕ → ℕ → ℕ
field_value specific wildcard setting hard =
    if specific == 0
    then (if wildcard == 0 then (if setting == 0 then hard else setting) else wildcard)
    else specific

abbrev pub field_of : (Row → ℕ) → Option Row → ℕ
field_of f none = 0
field_of f (some r) = f r

-- The wildcard row is read only where there is no specific row, and for a named action.
unfoldable pub wildcard_row : (Text → Text → Option Row) → Text → Text → Option Row
wildcard_row get_row cap action = elim (get_row cap action) [
  | some r ↦ none
  | none ↦ if action == 0 then none else get_row cap 0
]

unfoldable pub resolve_row : (Text → Text → Option Row) → Legacy → Text → Text → Row
unfolding field_value wildcard_row
resolve_row get_row legacy cap action =
    let specific = get_row cap action in
    let wildcard = wildcard_row get_row cap action in
    record {
      timeout_ms =
          field_value (field_of (λ r. r.timeout_ms) specific)
            (field_of (λ r. r.timeout_ms) wildcard) legacy.legacy_timeout_ms 300000;
      max_attempts =
          field_value (field_of (λ r. r.max_attempts) specific)
            (field_of (λ r. r.max_attempts) wildcard) 0 1;
      retry_backoff_ms =
          field_value (field_of (λ r. r.retry_backoff_ms) specific)
            (field_of (λ r. r.retry_backoff_ms) wildcard) 0 5000;
      default_priority =
          field_value (field_of (λ r. r.default_priority) specific)
            (field_of (λ r. r.default_priority) wildcard) 0 0;
      expected_wait_p95_ms =
          field_value (field_of (λ r. r.expected_wait_p95_ms) specific)
            (field_of (λ r. r.expected_wait_p95_ms) wildcard) 0 0;
      heartbeat_expected_ms =
          field_value (field_of (λ r. r.heartbeat_expected_ms) specific)
            (field_of (λ r. r.heartbeat_expected_ms) wildcard) legacy.legacy_heartbeat_ms 60000;
      min_samples_for_baseline =
          field_value (field_of (λ r. r.min_samples_for_baseline) specific)
            (field_of (λ r. r.min_samples_for_baseline) wildcard) 0 20;
    }

pub record CacheEntry : Type 0 where
  pub at : ℕ
  pub value : Row

abbrev pub cache_ttl_ms : ℕ
cache_ttl_ms = 10000

unfoldable pub is_fresh : ℕ → CacheEntry → Bool
is_fresh now e = ltb (now - e.at) cache_ttl_ms

-- `resolve`: the cache afterwards and the value.
unfoldable pub resolve :
    (Text → Text → Text)
    → (Text → Text → Option Row)
    → Legacy
    → ℕ
    → Text
    → Text
    → Dict CacheEntry
    → Dict CacheEntry × Row
unfolding resolve_row is_fresh
resolve cache_key get_row legacy now cap action cache =
    let row = resolve_row get_row legacy cap action in
    let miss = insert (cache_key cap action) (record { at = now; value = row }) cache in
    elim (lookup (cache_key cap action) cache) [
      | none ↦ (miss, row)
      | some e ↦ if is_fresh now e then (cache, e.value) else (miss, row)
    ]

unfoldable pub invalidate : Dict CacheEntry → Dict CacheEntry
invalidate cache = []
