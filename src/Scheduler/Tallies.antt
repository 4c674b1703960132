-- ===== src/Scheduler/Tallies.antt =====
-- The counts of the summary and the listing of a bucket
-- (source/services/Ultravisor-Beacon-Scheduler.cjs).
use ultravisor.Base.{
  ℕ, suc, ◌+◌, if◌then◌else◌, min, some, [], ◌∷◌, ◌≡◌, refl, arith, length, length-take, min,
}
use ultravisor.Base.Dict.{Dict}
use ultravisor.Work.{WorkItem}
use ultravisor.Scheduler.Buckets.{
  Bucket, upcoming, in_progress, stuck, finished, errored, bucket_for, same_bucket, Counts,
  no_counts, add_count, count_buckets, entries, clamp_limit, list_buckets,
}

abbrev pub count_at : Bucket → Counts → ℕ
count_at upcoming n = n.n_upcoming
count_at in_progress n = n.n_in_progress
count_at stuck n = n.n_stuck
count_at finished n = n.n_finished
count_at errored n = n.n_errored

count_at-add_count :
    (b x : Bucket) (n : Counts)
    → count_at b (add_count x n) ≡ (if same_bucket x b then suc (count_at b n) else count_at b n)
unfolding add_count
count_at-add_count upcoming upcoming n = refl
count_at-add_count upcoming in_progress n = refl
count_at-add_count upcoming stuck n = refl
count_at-add_count upcoming finished n = refl
count_at-add_count upcoming errored n = refl
count_at-add_count in_progress upcoming n = refl
count_at-add_count in_progress in_progress n = refl
count_at-add_count in_progress stuck n = refl
count_at-add_count in_progress finished n = refl
count_at-add_count in_progress errored n = refl
count_at-add_count stuck upcoming n = refl
count_at-add_count stuck in_progress n = refl
count_at-add_count stuck stuck n = refl
count_at-add_count stuck finished n = refl
count_at-add_count stuck errored n = refl
count_at-add_count finished upcoming n = refl
count_at-add_count finished in_progress n = refl
count_at-add_count finished stuck n = refl
count_at-add_count finished finished n = refl
count_at-add_count finished errored n = refl
count_at-add_count errored upcoming n = refl
count_at-add_count errored in_progress n = refl
count_at-add_count errored stuck n = refl
count_at-add_count errored finished n = refl
count_at-add_count errored errored n = refl

count_at-count_buckets :
    (b : Bucket) (m : Dict WorkItem) (n : Counts)
    → count_at b (count_buckets m n) ≡ count_at b n + length (entries (some b) m)
unfolding count_buckets entries
count_at-count_buckets b [] n = ground arith
count_at-count_buckets b ((h, it) ∷ m) n = ground (
  arith,
  count_at-count_buckets b m (add_count (bucket_for it) n),
  count_at-add_count b (bucket_for it) n,
)

-- The summary's count of a bucket and the listing of it agree: the listing has as many entries as
-- the summary counts, cut at the limit that is asked for (500 where none is, and between 1 and
-- 5000).
pub length-list_buckets :
    (b : Bucket) (limit : ℕ) (m : Dict WorkItem)
    → length (list_buckets (some b) limit m)
      ≡ min (clamp_limit limit) (count_at b (count_buckets m no_counts))
unfolding list_buckets
length-list_buckets b limit m = ground (
  arith,
  length-take (clamp_limit limit) (entries (some b) m),
  count_at-count_buckets b m no_counts,
  count_zero b,
)
  where
    count_zero : (x : Bucket) → count_at x no_counts ≡ 0
    count_zero upcoming = refl
    count_zero in_progress = refl
    count_zero stuck = refl
    count_zero finished = refl
    count_zero errored = refl

abbrev pub total : Counts → ℕ
total n = n.n_upcoming + n.n_in_progress + n.n_stuck + n.n_finished + n.n_errored

total-add_count : (b : Bucket) (n : Counts) → total (add_count b n) ≡ suc (total n)
unfolding add_count
total-add_count upcoming n = omega arith
total-add_count in_progress n = omega arith
total-add_count stuck n = omega arith
total-add_count finished n = omega arith
total-add_count errored n = omega arith

total_from : (m : Dict WorkItem) (n : Counts) → total (count_buckets m n) ≡ length m + total n
unfolding count_buckets
total_from [] n = omega arith
total_from ((h, it) ∷ m) n =
    omega (arith, total_from m (add_count (bucket_for it) n), total-add_count (bucket_for it) n)

-- The five counts of the summary add up to the number of items in the queue.
pub total-count_buckets : (m : Dict WorkItem) → total (count_buckets m no_counts) ≡ length m
total-count_buckets m = omega (arith, total_from m no_counts)
