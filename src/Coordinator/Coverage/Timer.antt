-- ===== src/Coordinator/Coverage/Timer.antt =====
-- Slot coverage through the timeout pass, and through every call.
use ultravisor.Base.{
  Bool, true, false, ◌||◌, Option, none, some, List, [], ◌∷◌, ◌≡◌, refl, inl, inr, arith, is_some,
  Bool-cases, Option-cases, ltb, or_num,
}
use ultravisor.Base.Dict.{Dict, lookup, keys}
use ultravisor.Work.{Text, WorkItem, Beacon, is_held, is_running, is_assigned}
use ultravisor.Coordinator.State.{Env, Coordinator, lists}
use ultravisor.Defaults.{Row}
use ultravisor.Coordinator.Registry.{unnamed}
use ultravisor.Coordinator.Enqueue.{WorkItemInfo}
use ultravisor.Coordinator.Finish.{on_resumed, on_stalled}
use ultravisor.Coordinator.Requests.{
  update_progress, clear_affinity, hear_from, standalone, dispatch_and_wait, dispatch_and_stream,
}
use ultravisor.Coordinator.Timeouts.{
  is_overdue, expire_one, expire_loop, is_due, back_in_queue, retry_one, retry_loop, lapse,
  lapse_all, expire_binding, expire_bindings, sweep, check_timeouts,
}
use ultravisor.Coordinator.Step.{
  Call, register, deregister, beat, poll, enqueue, wait_for, stream, report_done, report_stalled,
  report_progress, report_error, resumed, stall_finished, clear, timer, step,
}
use ultravisor.Coordinator.Coverage.Moves.{IsCovered, Covered-modify, Covered-mono, Covered-delete}
use ultravisor.Coordinator.Coverage.Push.{try_push-IsCovered}
use ultravisor.Coordinator.Coverage.Steps.{
  Covered-idle, complete_work_item-IsCovered, fail_work_item-IsCovered, stall_work_item-IsCovered,
}
use ultravisor.Coordinator.Coverage.Claims.{poll_for_work-IsCovered}
use ultravisor.Coordinator.Coverage.Members.{
  register_beacon-IsCovered, deregister_beacon-IsCovered, heartbeat-IsCovered,
}
use ultravisor.Coordinator.Coverage.Arrivals.{enqueue_work_item-IsCovered}

expire_one-IsCovered :
    (env : Env) (h : Text) (c : Coordinator) → IsCovered c → IsCovered (expire_one env h c)
unfolding expire_one
expire_one-IsCovered env h c v = elim (Option-cases (lookup h c.queue)) [
  | inl e ↦ rw (e, expire_one) v
  | inr (it, e) ↦
      rw (e, expire_one)
        (elim (Bool-cases (is_overdue env.now it)) [
          | inl t ↦ rw t (fail_work_item-IsCovered env h _ c v)
          | inr t ↦ rw t v
        ])
]

pub expire_loop-IsCovered :
    (env : Env) (hs : List Text) (c : Coordinator) → IsCovered c → IsCovered (expire_loop env hs c)
unfolding expire_loop
expire_loop-IsCovered env [] c v = v
expire_loop-IsCovered env (h ∷ hs) c v =
    expire_loop-IsCovered env hs (expire_one env h c) (expire_one-IsCovered env h c v)

retry_one-IsCovered :
    (env : Env) (h : Text) (it : WorkItem) (c : Coordinator)
    → IsCovered c
    → IsCovered (retry_one env h it c)
unfolding retry_one
retry_one-IsCovered env h it c v = elim (Bool-cases (is_due env.now it)) [
  | inl t ↦
      rw t
        (try_push-IsCovered env h _ (Covered-idle h back_in_queue c.beacons c.queue (λ _. refl) v))
  | inr t ↦ rw t v
]

pub retry_loop-IsCovered :
    (env : Env) (hs : List Text) (c : Coordinator) → IsCovered c → IsCovered (retry_loop env hs c).0
unfolding retry_loop
retry_loop-IsCovered env [] c v = v
retry_loop-IsCovered env (h ∷ hs) c v = elim (Option-cases (lookup h c.queue)) [
  | inl e ↦ rw (e, retry_loop) v
  | inr (it, e) ↦
      rw (e, retry_loop)
        (retry_loop-IsCovered env hs (retry_one env h it c) (retry_one-IsCovered env h it c v))
]

lists-lapse_all :
    (env : Env) (b h : Text) (m : Dict Beacon) → lists b h (lapse_all env m) ≡ lists b h m
unfolding lists lapse_all lapse lookup
lists-lapse_all env b h [] = refl
lists-lapse_all env b h ((k, bcn) ∷ m) = ground (arith, lists-lapse_all env b h m)

expire_binding-IsCovered :
    (env : Env) (k : Text) (c : Coordinator) → IsCovered c → IsCovered (expire_binding env k c)
unfolding expire_binding
expire_binding-IsCovered env k c v = elim (Option-cases (lookup k c.bindings)) [
  | inl e ↦ rw (e, expire_binding) v
  | inr (bind, e) ↦
      rw (e, expire_binding)
        (elim (Bool-cases (ltb bind.expires env.now)) [ inl t ↦ rw t v | inr t ↦ rw t v ])
]

expire_bindings-IsCovered :
    (env : Env) (ks : List Text) (c : Coordinator)
    → IsCovered c
    → IsCovered (expire_bindings env ks c)
unfolding expire_bindings
expire_bindings-IsCovered env [] c v = v
expire_bindings-IsCovered env (k ∷ ks) c v =
    expire_bindings-IsCovered env ks (expire_binding env k c) (expire_binding-IsCovered env k c v)

sweep-IsCovered : (env : Env) (c : Coordinator) → IsCovered c → IsCovered (sweep env c)
unfolding sweep
sweep-IsCovered env c v =
    expire_bindings-IsCovered env (keys c.bindings) _
      (Covered-mono c.beacons _ c.queue (λ b h l. rw (lists-lapse_all env b h c.beacons) l) v)

check_timeouts-IsCovered :
    (env : Env) (c : Coordinator) → IsCovered c → IsCovered (check_timeouts env c).0
unfolding check_timeouts
check_timeouts-IsCovered env c v =
    let hs = keys c.queue in
    let mid = expire_loop env hs c in
    let later = retry_loop-IsCovered env hs mid (expire_loop-IsCovered env hs c v) in
    elim (Bool-cases (retry_loop env hs mid).1) [
      | inl t ↦ rw t later
      | inr t ↦ rw t (sweep-IsCovered env _ later)
    ]

progress-IsCovered :
    (env : Env) (h : Text) (c : Coordinator) → IsCovered c → IsCovered (update_progress env h c).0
unfolding update_progress hear_from
progress-IsCovered env h c v = elim (Option-cases (lookup h c.queue)) [
  | inl e ↦ rw (e, update_progress) v
  | inr (it, e) ↦
      rw (e, update_progress)
        (elim (Bool-cases (is_running it.status || is_assigned it.status)) [
          | inl t ↦ rw t (
              Covered-modify h (hear_from env) c.beacons c.queue
                (λ i b f held at. v h i b f held at) v)
          | inr t ↦ rw t v
        ])
]

clear_affinity-IsCovered :
    (env : Env) (key : Text) (c : Coordinator)
    → IsCovered c
    → IsCovered (clear_affinity env key c).0
unfolding clear_affinity
clear_affinity-IsCovered env key c v = elim (Bool-cases (is_some (lookup key c.bindings))) [
  | inl t ↦ rw t v
  | inr t ↦ rw t v
]

on_resumed-IsCovered :
    (h : Text) (ok : Bool) (c : Coordinator) → IsCovered c → IsCovered (on_resumed h ok c)
unfolding on_resumed
on_resumed-IsCovered h true c v = Covered-delete h c.beacons c.queue v
on_resumed-IsCovered h false c v = v

dispatch_and_wait-IsCovered :
    (env : Env) (defaults : Option (Text → Text → Row)) (info : WorkItemInfo) (c : Coordinator)
    → IsCovered c
    → IsCovered (dispatch_and_wait env defaults info c).0
unfolding dispatch_and_wait
dispatch_and_wait-IsCovered env defaults info c v =
    enqueue_work_item-IsCovered env defaults (standalone info) c v

dispatch_and_stream-IsCovered :
    (env : Env) (defaults : Option (Text → Text → Row)) (info : WorkItemInfo) (c : Coordinator)
    → IsCovered c
    → IsCovered (dispatch_and_stream env defaults info c).0
unfolding dispatch_and_stream
dispatch_and_stream-IsCovered env defaults info c v =
    enqueue_work_item-IsCovered env defaults (standalone info) c v

-- When a call is made as its callers make it: a new beacon ID is not in use, and a stall is reported
-- for an item that the scheduler has taken out of its assigned or running status.
abbrev pub IsProper : Env → Coordinator → Call → Type 0
IsProper env c (register info session) =
    lookup (env.beacon_id (or_num info.info_name unnamed) env.now) c.beacons ≡ none
IsProper env c (report_stalled h) =
    (it : WorkItem) → lookup h c.queue ≡ some it → is_held it.status ≡ false
IsProper env c _ = Unit {0}

-- Every proper call keeps slot coverage: afterwards too, each item that is assigned to a beacon or
-- running on it belongs to a registered beacon that has it in its current work list.
pub step-IsCovered :
    (env : Env) (call : Call) (c : Coordinator)
    → IsProper env c call
    → IsCovered c
    → IsCovered (step env call c)
unfolding step on_stalled
step-IsCovered env (register info session) c p v = register_beacon-IsCovered env info session c p v
step-IsCovered env (deregister b) c p v = deregister_beacon-IsCovered b c v
step-IsCovered env (beat b) c p v = heartbeat-IsCovered env b c v
step-IsCovered env (poll b) c p v = poll_for_work-IsCovered env b c v
step-IsCovered env (enqueue defaults info) c p v = enqueue_work_item-IsCovered env defaults info c v
step-IsCovered env (wait_for defaults info) c p v =
    dispatch_and_wait-IsCovered env defaults info c v
step-IsCovered env (stream defaults info) c p v =
    dispatch_and_stream-IsCovered env defaults info c v
step-IsCovered env (report_done h) c p v = complete_work_item-IsCovered env h c v
step-IsCovered env (report_error h message) c p v = fail_work_item-IsCovered env h message c v
step-IsCovered env (report_stalled h) c p v = stall_work_item-IsCovered env h c p v
step-IsCovered env (report_progress h) c p v = progress-IsCovered env h c v
step-IsCovered env (resumed h ok) c p v = on_resumed-IsCovered h ok c v
step-IsCovered env (stall_finished h) c p v = Covered-delete h c.beacons c.queue v
step-IsCovered env (clear key) c p v = clear_affinity-IsCovered env key c v
step-IsCovered env timer c p v = check_timeouts-IsCovered env c v
