-- ===== src/Defaults/Apply.antt =====
-- `applyToWorkItem` (source/services/Ultravisor-Beacon-ActionDefaults.cjs). A setting is what
-- `parseInt` makes of it: `none` for NaN, and for a duration 0 as well, which `||` passes over.
use ultravisor.Base.{ℕ, Option, none, some, or_num}
use ultravisor.Base.Int.{ℤ, pos}
use ultravisor.Work.{WorkItem}
use ultravisor.Defaults.Resolve.{Row}

-- The request's settings that the queue reads; the second of each pair is the capitalised key.
pub record Settings : Type 0 where
  pub timeout : ℕ
  pub timeout_upper : ℕ
  pub max_retries : ℕ
  pub max_attempts_upper : ℕ
  pub retry_backoff : ℕ
  pub retry_backoff_upper : ℕ
  pub priority_setting : Option ℤ
  pub priority_upper : Option ℤ

-- The priority of a work item is never null once `enqueueWorkItem` has built it: the third
-- argument is what the item holds before.
unfoldable pub priority_or_default : Settings → Row → Option ℤ → ℤ
priority_or_default s r (some p) = p
priority_or_default s r none = elim s.priority_setting [
  | some p ↦ p
  | none ↦ elim s.priority_upper [ some p ↦ p | none ↦ pos r.default_priority ]
]

unfoldable pub apply_to_work_item : Settings → Row → WorkItem → WorkItem
unfolding priority_or_default
apply_to_work_item s r it = record it {
  timeout_ms = or_num it.timeout_ms (or_num s.timeout (or_num s.timeout_upper r.timeout_ms));
  max_attempts =
      or_num it.max_attempts (or_num s.max_retries (or_num s.max_attempts_upper r.max_attempts));
  retry_backoff_ms =
      or_num it.retry_backoff_ms
        (or_num s.retry_backoff (or_num s.retry_backoff_upper r.retry_backoff_ms));
  priority = priority_or_default s r (some it.priority);
}
