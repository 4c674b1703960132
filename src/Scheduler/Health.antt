-- ===== src/Scheduler/Health.antt =====
-- `_healthTick`, `_maybeMarkStalled`, `_maybeRecoverStalled`, and the label that `computeHealth`
-- gives (source/services/Ultravisor-Beacon-Scheduler.cjs). A score is 1 minus a fraction; the
-- fractions are compared exactly, without the rounding of floating point.
use ultravisor.Base.{
  ℕ, ◌-◌, ◌*◌, min, Bool, true, false, not, ◌&&◌, Option, none, some, List, [], ◌∷◌, if◌then◌else◌,
  ltb, leb, or_num, or_else, is_some,
}
use ultravisor.Base.Dict.{lookup, keys}
use ultravisor.Work.{
  Text, Status, WorkItem, HealthLabel, unknown_health, healthy, uncertain, unhealthy, queued,
  pending, assigned, completed, complete, failed, error, timeout, canceled, stalled, dispatched,
  running, is_stalled,
}
use ultravisor.Defaults.{Row}
use ultravisor.Coordinator.State.{
  Env, Coordinator, persist_update, persist_event, persist_health, broadcast, stalled_event,
  unstalled, emit, emit_if, persists, modify_item,
}
use ultravisor.Coordinator.Finish.{stall_work_item}

abbrev pub is_terminal : Status → Bool
is_terminal completed = true
is_terminal complete = true
is_terminal failed = true
is_terminal error = true
is_terminal timeout = true
is_terminal canceled = true
is_terminal _ = false

-- The row of the item's action, or the three values used where the service is missing.
pub record Baseline : Type 0 where
  pub heartbeat_ms : ℕ
  pub wait_p95_ms : ℕ

unfoldable pub baseline : Option (Text → Text → Row) → WorkItem → Baseline
baseline none it = record { heartbeat_ms = 60000; wait_p95_ms = 0 }
baseline (some resolve) it =
    let row = resolve it.capability it.action in
    record {
      heartbeat_ms = or_num row.heartbeat_expected_ms 60000;
      wait_p95_ms = row.expected_wait_p95_ms;
    }

-- Dispatched and running items, and those that went back to the queue after a dispatch.
abbrev pub can_stall : Status → Option ℕ → Bool
can_stall dispatched at = true
can_stall running at = true
can_stall pending at = is_some at
can_stall assigned at = is_some at
can_stall _ at = false

abbrev pub last_heard : WorkItem → Option ℕ
last_heard it = elim it.last_event_at [ some t ↦ some t | none ↦ it.dispatched_at ]

-- Silent for more than two heartbeat windows.
unfoldable pub is_silent : ℕ → ℕ → WorkItem → Bool
is_silent now heartbeat it = elim (last_heard it) [
  | none ↦ false
  | some t ↦ ltb (heartbeat * 2) (now - t)
]

abbrev pub silence : ℕ → WorkItem → ℕ
silence now it = elim (last_heard it) [ none ↦ 0 | some t ↦ now - t ]

unfoldable pub to_stalled : ℕ → WorkItem → WorkItem
to_stalled now it = record it {
  prior_status = some it.status;
  status = stalled;
  stalled_at = some now;
  stalled_since_ms = some (silence now it);
}

unfoldable pub should_stall : ℕ → ℕ → WorkItem → Bool
unfolding is_silent
should_stall now heartbeat it = can_stall it.status it.dispatched_at && is_silent now heartbeat it

unfoldable pub mark_stalled : Env → ℕ → Text → WorkItem → Coordinator → Coordinator
unfolding to_stalled should_stall
mark_stalled env heartbeat h it c =
    if should_stall env.now heartbeat it
    then (stall_work_item env h (
        emit (broadcast h stalled_event ∷ []) (
          emit_if (persists env it)
            (persist_update h stalled ∷ persist_event h stalled_event (some it.status) stalled ∷ [])
            (modify_item h (to_stalled env.now) c)))).0
    else c

unfoldable pub to_recovered : WorkItem → WorkItem
to_recovered it = record it {
  status = or_else it.prior_status running;
  prior_status = none;
  stalled_at = none;
  stalled_since_ms = none;
}

-- Heard from within two heartbeat windows.
unfoldable pub should_recover : ℕ → ℕ → WorkItem → Bool
should_recover now heartbeat it = elim (last_heard it) [
  | none ↦ false
  | some t ↦ leb (now - t) (heartbeat * 2)
]

unfoldable pub recover_stalled : Env → ℕ → Text → WorkItem → Coordinator → Coordinator
unfolding to_recovered should_recover
recover_stalled env heartbeat h it c =
    let prior = or_else it.prior_status running in
    if should_recover env.now heartbeat it
    then emit (broadcast h unstalled ∷ []) (
        emit_if (persists env it)
          (persist_update h prior ∷ persist_event h unstalled (some stalled) prior ∷ [])
          (modify_item h to_recovered c))
    else c

-- What a dimension takes off the score: `part` of `whole`, at most all of it.
pub record Burn : Type 0 where
  pub part : ℕ
  pub whole : ℕ

unfoldable pub burn : ℕ → ℕ → Burn
burn part whole = record { part = min part whole; whole = whole }

-- The weaker of two links; the first stays where they are equal.
unfoldable pub weaker : Burn → Burn → Burn
weaker a b = if ltb (a.part * b.whole) (b.part * a.whole) then b else a

abbrev pub is_upcoming : Status → Bool
is_upcoming queued = true
is_upcoming pending = true
is_upcoming assigned = true
is_upcoming _ = false

abbrev pub is_active : Status → Bool
is_active dispatched = true
is_active running = true
is_active _ = false

-- 0.6 and 0.3 as thresholds on the score.
unfoldable pub label_of : Burn → HealthLabel
label_of b =
    if leb (10 * b.part) (4 * b.whole)
    then healthy
    else (if leb (10 * b.part) (7 * b.whole) then uncertain else unhealthy)

unfoldable pub retry_burn : WorkItem → Burn
unfolding burn
retry_burn it = burn it.attempt_number (or_num it.max_attempts 1)

unfoldable pub upcoming_label : ℕ → Baseline → WorkItem → HealthLabel
unfolding burn weaker label_of retry_burn
upcoming_label now base it =
    if ltb 0 base.wait_p95_ms
    then label_of (weaker (retry_burn it) (burn (now - it.enqueued_at) (base.wait_p95_ms * 3)))
    else (if leb it.attempt_number 1 then unknown_health else label_of (retry_burn it))

abbrev pub started : ℕ → WorkItem → ℕ
started now it = or_else it.started_at (or_else it.dispatched_at now)

unfoldable pub active_label : ℕ → Baseline → WorkItem → HealthLabel
unfolding burn weaker label_of retry_burn
active_label now base it =
    let begun = started now it in
    let near_timeout = burn (now - begun) (or_num it.timeout_ms 300000) in
    let stale = burn (now - or_else it.last_event_at begun) (base.heartbeat_ms * 2) in
    if ltb (now - begun) 2000 && not (is_some it.last_event_at)
    then unknown_health
    else label_of (weaker (weaker (retry_burn it) near_timeout) stale)

unfoldable pub compute_label : ℕ → Baseline → WorkItem → HealthLabel
unfolding upcoming_label active_label
compute_label now base it =
    if is_upcoming it.status
    then upcoming_label now base it
    else (if is_active it.status then active_label now base it else label_of (retry_burn it))

abbrev pub with_label : HealthLabel → WorkItem → WorkItem
with_label label it = record it { health_label = label }

-- One item of the tick. The broadcast of a changed label is left out.
unfoldable pub health_one : Env → Option (Text → Text → Row) → Text → Coordinator → Coordinator
unfolding mark_stalled recover_stalled compute_label baseline
health_one env defaults h c = elim (lookup h c.queue) [
  | none ↦ c
  | some it ↦
      let base = baseline defaults it in
      let labelled = with_label (compute_label env.now base it) in
      if is_terminal it.status
      then c
      else (if is_stalled it.status
          then recover_stalled env base.heartbeat_ms h it c
          else mark_stalled env base.heartbeat_ms h (labelled it)
              (emit_if (persists env it) (persist_health h ∷ []) (modify_item h labelled c)))
]

unfoldable pub health_loop :
    Env → Option (Text → Text → Row) → List Text → Coordinator → Coordinator
unfolding health_one
health_loop env defaults [] c = c
health_loop env defaults (h ∷ hs) c = health_loop env defaults hs (health_one env defaults h c)

unfoldable pub health_tick : Env → Option (Text → Text → Row) → Coordinator → Coordinator
unfolding health_loop
health_tick env defaults c = health_loop env defaults (keys c.queue) c
