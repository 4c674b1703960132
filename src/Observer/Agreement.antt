-- ===== src/Observer/Agreement.antt =====
-- The observer and the scheduler on stalls (`classifyWorkItem`,
-- source/services/observer/ObserverPolicy.cjs; `_maybeMarkStalled`,
-- source/services/Ultravisor-Beacon-Scheduler.cjs).
use ultravisor.Base.{
  ℕ, ◌*◌, ◌-◌, ◌≡◌, refl, ap, ◌∙◌, Bool, true, false, ◌||◌, ◌&&◌, Option, some, inl, inr, arith,
  if◌then◌else◌, ltb, or_num, is_some, Bool-cases, Option-cases,
}
use ultravisor.Work.{
  Status, queued, pending, assigned, dispatched, running, retry_scheduled, stalled, completed,
  complete, failed, error, timeout, canceled, Text, WorkItem,
}
use ultravisor.Defaults.{Row}
use ultravisor.Scheduler.Health.{last_heard, is_silent, should_stall, baseline}
use ultravisor.Observer.Policy.{
  Liveness, default_limits, ItemLabel, item_healthy, item_stalled, silent, fine, ItemReason,
  classify_silence, classify_work_item, is_dead, is_working,
}

tenths : (w a : ℕ) → ltb (w * 20) (10 * a) ≡ ltb (w * 2) a
tenths w a = ground arith

label_if :
    (t : Bool) (a b : ItemLabel × ItemReason) → (if t then a else b).0 ≡ (if t then a.0 else b.0)
label_if true a b = refl
label_if false a b = refl

classify_silence_lem :
    (now expected : ℕ) (it : WorkItem)
    → (classify_silence now default_limits expected it).0
      ≡ (if is_silent now (or_num expected 60000) it then item_stalled else item_healthy)
unfolding classify_silence is_silent
classify_silence_lem now expected it = elim (Option-cases (last_heard it)) [
  | inl e ↦ rw (e, classify_silence, is_silent) refl
  | inr (t, e) ↦
      rw (e, classify_silence, is_silent)
        (label_if (ltb (or_num expected 60000 * 20) (10 * (now - t))) (item_stalled, silent)
            (item_healthy, fine)
          ∙ ap (λ b. if b then item_stalled else item_healthy)
              (tenths (or_num expected 60000) (now - t)))
]

or_yes : (a : Bool) → item_stalled ≡ (if a || true then item_stalled else item_healthy)
or_yes true = refl
or_yes false = refl

or_no :
    (a : Bool)
    → (if a then item_stalled else item_healthy)
      ≡ (if a || false then item_stalled else item_healthy)
or_no true = refl
or_no false = refl

-- What the observer says of an item whose status has been read.
abbrev Agrees : ℕ → ℕ → WorkItem → Option Liveness → Type 0
Agrees now expected it b = (classify_work_item now default_limits expected (some it) b).0 ≡ (
    if should_stall now (or_num expected 60000) it || (is_dead b && is_working it.status)
    then item_stalled
    else item_healthy)

by_status :
    (now expected : ℕ) (it : WorkItem) (b : Option Liveness) (s : Status)
    → it.status ≡ s
    → Agrees now expected it b
unfolding classify_work_item should_stall
by_status now expected it b queued e = elim (Bool-cases (is_dead b)) [
  | inl d ↦ simp (e, d) refl
  | inr d ↦ simp (e, d) refl
]
by_status now expected it b retry_scheduled e = elim (Bool-cases (is_dead b)) [
  | inl d ↦ simp (e, d) refl
  | inr d ↦ simp (e, d) refl
]
by_status now expected it b stalled e = elim (Bool-cases (is_dead b)) [
  | inl d ↦ simp (e, d) refl
  | inr d ↦ simp (e, d) refl
]
by_status now expected it b completed e = elim (Bool-cases (is_dead b)) [
  | inl d ↦ simp (e, d) refl
  | inr d ↦ simp (e, d) refl
]
by_status now expected it b complete e = elim (Bool-cases (is_dead b)) [
  | inl d ↦ simp (e, d) refl
  | inr d ↦ simp (e, d) refl
]
by_status now expected it b failed e = elim (Bool-cases (is_dead b)) [
  | inl d ↦ simp (e, d) refl
  | inr d ↦ simp (e, d) refl
]
by_status now expected it b error e = elim (Bool-cases (is_dead b)) [
  | inl d ↦ simp (e, d) refl
  | inr d ↦ simp (e, d) refl
]
by_status now expected it b timeout e = elim (Bool-cases (is_dead b)) [
  | inl d ↦ simp (e, d) refl
  | inr d ↦ simp (e, d) refl
]
by_status now expected it b canceled e = elim (Bool-cases (is_dead b)) [
  | inl d ↦ simp (e, d) refl
  | inr d ↦ simp (e, d) refl
]
by_status now expected it b dispatched e = elim (Bool-cases (is_dead b)) [
  | inl d ↦ simp (e, d) (or_yes (is_silent now (or_num expected 60000) it))
  | inr d ↦
      simp (e, d)
        (classify_silence_lem now expected it ∙ or_no (is_silent now (or_num expected 60000) it))
]
by_status now expected it b running e = elim (Bool-cases (is_dead b)) [
  | inl d ↦ simp (e, d) (or_yes (is_silent now (or_num expected 60000) it))
  | inr d ↦
      simp (e, d)
        (classify_silence_lem now expected it ∙ or_no (is_silent now (or_num expected 60000) it))
]
by_status now expected it b pending e = elim (Bool-cases (is_dead b)) [
  | inl d ↦ elim (Bool-cases (is_some it.dispatched_at)) [
    | inl a ↦
        simp (e, d, a)
          (classify_silence_lem now expected it ∙ or_no (is_silent now (or_num expected 60000) it))
    | inr a ↦ simp (e, d, a) refl
  ]
  | inr d ↦ elim (Bool-cases (is_some it.dispatched_at)) [
    | inl a ↦
        simp (e, d, a)
          (classify_silence_lem now expected it ∙ or_no (is_silent now (or_num expected 60000) it))
    | inr a ↦ simp (e, d, a) refl
  ]
]
by_status now expected it b assigned e = elim (Bool-cases (is_dead b)) [
  | inl d ↦ elim (Bool-cases (is_some it.dispatched_at)) [
    | inl a ↦
        simp (e, d, a)
          (classify_silence_lem now expected it ∙ or_no (is_silent now (or_num expected 60000) it))
    | inr a ↦ simp (e, d, a) refl
  ]
  | inr d ↦ elim (Bool-cases (is_some it.dispatched_at)) [
    | inl a ↦
        simp (e, d, a)
          (classify_silence_lem now expected it ∙ or_no (is_silent now (or_num expected 60000) it))
    | inr a ↦ simp (e, d, a) refl
  ]
]

-- Where the item's own heartbeat field, or a minute if it has none, is the window of its action's row
-- that the scheduler uses, the observer under the default limits calls an item stalled exactly if the
-- scheduler would mark it as stalled, or its beacon is dead and it is dispatched or running.
pub classify_work_item_lem :
    (now expected : ℕ) (resolve : Option (Text → Text → Row)) (it : WorkItem) (b : Option Liveness)
    → (baseline resolve it).heartbeat_ms ≡ or_num expected 60000
    → (classify_work_item now default_limits expected (some it) b).0 ≡ (
        if should_stall now (baseline resolve it).heartbeat_ms it
          || (is_dead b && is_working it.status)
        then item_stalled
        else item_healthy)
classify_work_item_lem now expected resolve it b same =
    rw same (by_status now expected it b it.status refl)
