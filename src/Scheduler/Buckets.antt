-- ===== src/Scheduler/Buckets.antt =====
-- `bucketFor`, `listBuckets` and the counts of `summarize`
-- (source/services/Ultravisor-Beacon-Scheduler.cjs).
use ultravisor.Base.{
  ℕ, suc, ◌==◌, min, max, Bool, true, false, Option, none, some, List, [], ◌∷◌, if◌then◌else◌, take,
  or_num,
}
use ultravisor.Base.Dict.{Dict}
use ultravisor.Work.{
  Text, Status, WorkItem, HealthLabel, unhealthy, queued, pending, assigned, completed, complete,
  failed, error, timeout, canceled, stalled, dispatched, running, retry_scheduled,
}

pub data Bucket : Type 0 where
  upcoming in_progress stuck finished errored : Bucket

abbrev pub is_unhealthy : HealthLabel → Bool
is_unhealthy unhealthy = true
is_unhealthy _ = false

unfoldable pub active_bucket : HealthLabel → Bucket
active_bucket label = if is_unhealthy label then stuck else in_progress

unfoldable pub bucket_of : Status → HealthLabel → Bucket
unfolding active_bucket
bucket_of queued label = upcoming
bucket_of pending label = upcoming
bucket_of assigned label = upcoming
bucket_of completed label = finished
bucket_of complete label = finished
bucket_of failed label = errored
bucket_of error label = errored
bucket_of timeout label = errored
bucket_of canceled label = errored
bucket_of stalled label = stuck
bucket_of dispatched label = active_bucket label
bucket_of running label = active_bucket label
bucket_of retry_scheduled label = upcoming

unfoldable pub bucket_for : WorkItem → Bucket
unfolding bucket_of
bucket_for it = bucket_of it.status it.health_label

abbrev pub bucket_code : Bucket → ℕ
bucket_code upcoming = 0
bucket_code in_progress = 1
bucket_code stuck = 2
bucket_code finished = 3
bucket_code errored = 4

abbrev pub same_bucket : Bucket → Bucket → Bool
same_bucket a b = bucket_code a == bucket_code b

-- The `Buckets` object of the summary.
pub record Counts : Type 0 where
  pub n_upcoming : ℕ
  pub n_in_progress : ℕ
  pub n_stuck : ℕ
  pub n_finished : ℕ
  pub n_errored : ℕ

abbrev pub no_counts : Counts
no_counts = record { n_upcoming = 0; n_in_progress = 0; n_stuck = 0; n_finished = 0; n_errored = 0 }

unfoldable pub add_count : Bucket → Counts → Counts
add_count upcoming n = record n { n_upcoming = suc n.n_upcoming }
add_count in_progress n = record n { n_in_progress = suc n.n_in_progress }
add_count stuck n = record n { n_stuck = suc n.n_stuck }
add_count finished n = record n { n_finished = suc n.n_finished }
add_count errored n = record n { n_errored = suc n.n_errored }

unfoldable pub count_buckets : Dict WorkItem → Counts → Counts
unfolding bucket_for add_count
count_buckets [] n = n
count_buckets ((h, it) ∷ m) n = count_buckets m (add_count (bucket_for it) n)

-- The queue's entries of one bucket (of all for `none`), in its order.
unfoldable pub entries : Option Bucket → Dict WorkItem → List (Text × WorkItem)
unfolding bucket_for
entries o [] = []
entries o ((h, it) ∷ m) =
    let rest = entries o m in
    elim o [
      | none ↦ (h, it) ∷ rest
      | some b ↦ if same_bucket (bucket_for it) b then (h, it) ∷ rest else rest
    ]

-- `Math.max(1, Math.min(parseInt(limit) || 500, 5000))`
abbrev pub clamp_limit : ℕ → ℕ
clamp_limit limit = max 1 (min (or_num limit 500) 5000)

unfoldable pub list_buckets : Option Bucket → ℕ → Dict WorkItem → List (Text × WorkItem)
unfolding entries
list_buckets o limit queue = take (clamp_limit limit) (entries o queue)
