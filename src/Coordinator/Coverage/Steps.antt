-- ===== src/Coordinator/Coverage/Steps.antt =====
-- Slot coverage through reports, polls, registration and the timeout pass.
use ultravisor.Base.{Bool, true, false, some, ◌≡◌, refl, inl, inr, arith, Bool-cases, Option-cases}
use ultravisor.Base.Dict.{Dict, lookup, modify, lookup-modify}
use ultravisor.Work.{Text, WorkItem, Beacon, is_held}
use ultravisor.Coordinator.State.{Env, Coordinator}
use ultravisor.Coordinator.Routing.{remove_from_beacon}
use ultravisor.Coordinator.Finish.{
  settle, mark_complete, complete_item, complete_work_item, schedule_retry, retry_item,
  has_attempts, mark_stall_finalized, stall_marked, mark_error, fail_item, fail_work_item,
  stall_item, stall_work_item, is_finalized,
}
use ultravisor.Coordinator.Coverage.Moves.{Covered, IsCovered, Covered-modify, Covered-delete}
use ultravisor.Coordinator.Coverage.Push.{remove_from_beacon-IsCovered}

settle-IsCovered :
    (env : Env) (h : Text) (it : WorkItem) (success : Bool) (c : Coordinator)
    → IsCovered c
    → IsCovered (settle env h it success c).0
unfolding settle
settle-IsCovered env h it success c v = ground (arith, v, Covered-delete h c.beacons c.queue v)

-- A change after which the item holds no slot.
pub Covered-idle :
    (h : Text) (f : WorkItem → WorkItem) (beacons : Dict Beacon) (queue : Dict WorkItem)
    → ((it : WorkItem) → is_held (f it).status ≡ false)
    → Covered beacons queue
    → Covered beacons (modify h f queue)
Covered-idle h f beacons queue idle v =
    Covered-modify h f beacons queue (λ it b _ held _. ground (arith, idle it)) v

pub idle-modify :
    (h : Text) (f : WorkItem → WorkItem) (queue : Dict WorkItem)
    → ((it : WorkItem) → is_held (f it).status ≡ false)
    → (it : WorkItem) → lookup h (modify h f queue) ≡ some it
    → is_held it.status ≡ false
idle-modify h f queue idle it e = elim (Option-cases (lookup h queue)) [
  | inl g ↦ ground (arith, lookup-modify h h f queue)
  | inr (it0, g) ↦ ground (arith, lookup-modify h h f queue, idle it0)
]

complete_item-IsCovered :
    (env : Env) (h : Text) (it : WorkItem) (c : Coordinator)
    → IsCovered c
    → IsCovered (complete_item env h it c).0
unfolding complete_item mark_complete
complete_item-IsCovered env h it c v = settle-IsCovered env h it true _ (
    remove_from_beacon-IsCovered env it.assigned_beacon h _
      (idle-modify h (mark_complete env.now) c.queue (λ _. refl))
      (Covered-idle h (mark_complete env.now) c.beacons c.queue (λ _. refl) v))

pub complete_work_item-IsCovered :
    (env : Env) (h : Text) (c : Coordinator)
    → IsCovered c
    → IsCovered (complete_work_item env h c).0
unfolding complete_work_item
complete_work_item-IsCovered env h c v = elim (Option-cases (lookup h c.queue)) [
  | inl e ↦ rw (e, complete_work_item) v
  | inr (it, e) ↦
      rw (e, complete_work_item)
        (elim (Bool-cases (is_finalized it.status)) [
          | inl t ↦ rw t v
          | inr t ↦ rw t (complete_item-IsCovered env h it c v)
        ])
]

retry_item-IsCovered :
    (env : Env) (h message : Text) (it : WorkItem) (c : Coordinator)
    → IsCovered c
    → IsCovered (retry_item env h message it c).0
unfolding retry_item remove_from_beacon schedule_retry
retry_item-IsCovered env h message it c v =
    Covered-idle h (schedule_retry env.now message) c.beacons c.queue (λ _. refl) v

fail_item-IsCovered :
    (env : Env) (h message : Text) (it : WorkItem) (c : Coordinator)
    → IsCovered c
    → IsCovered (fail_item env h message it c).0
unfolding fail_item mark_error
fail_item-IsCovered env h message it c v = settle-IsCovered env h it false _ (
    remove_from_beacon-IsCovered env it.assigned_beacon h _
      (idle-modify h (mark_error env.now message) c.queue (λ _. refl))
      (Covered-idle h (mark_error env.now message) c.beacons c.queue (λ _. refl) v))

pub fail_work_item-IsCovered :
    (env : Env) (h message : Text) (c : Coordinator)
    → IsCovered c
    → IsCovered (fail_work_item env h message c).0
unfolding fail_work_item
fail_work_item-IsCovered env h message c v = elim (Option-cases (lookup h c.queue)) [
  | inl e ↦ rw (e, fail_work_item) v
  | inr (it, e) ↦
      rw (e, fail_work_item)
        (elim (Bool-cases (is_finalized it.status)) [
          | inl t ↦ rw t v
          | inr t ↦ rw t (elim (Bool-cases (has_attempts it)) [
            | inl u ↦ rw u (retry_item-IsCovered env h message it c v)
            | inr u ↦ rw u (fail_item-IsCovered env h message it c v)
          ])
        ])
]

stall_item-IsCovered :
    (env : Env) (h : Text) (it : WorkItem) (c : Coordinator)
    → ((i : WorkItem) → lookup h c.queue ≡ some i → is_held i.status ≡ false)
    → IsCovered c
    → IsCovered (stall_item env h it c).0
unfolding stall_item
stall_item-IsCovered env h it c idle v =
    let freed =
      remove_from_beacon-IsCovered env it.assigned_beacon h (stall_marked env h it c)
        (λ i e. still_idle i e)
        (Covered-modify h mark_stall_finalized c.beacons c.queue
          (λ i b e held at. ground (arith, idle i)) v) in
    ground (arith, freed, Covered-delete h _ _ freed)
  where
    still_idle :
        (i : WorkItem)
        → lookup h (modify h mark_stall_finalized c.queue) ≡ some i
        → is_held i.status ≡ false
    still_idle i e = elim (Option-cases (lookup h c.queue)) [
      | inl g ↦ ground (arith, lookup-modify h h mark_stall_finalized c.queue)
      | inr (i0, g) ↦ ground (arith, lookup-modify h h mark_stall_finalized c.queue, idle i0)
    ]

pub stall_work_item-IsCovered :
    (env : Env) (h : Text) (c : Coordinator)
    → ((it : WorkItem) → lookup h c.queue ≡ some it → is_held it.status ≡ false)
    → IsCovered c
    → IsCovered (stall_work_item env h c).0
unfolding stall_work_item
stall_work_item-IsCovered env h c idle v = elim (Option-cases (lookup h c.queue)) [
  | inl e ↦ rw (e, stall_work_item) v
  | inr (it, e) ↦
      rw (e, stall_work_item)
        (elim (Bool-cases it.stall_finalized) [
          | inl t ↦ rw t v
          | inr t ↦ rw t (stall_item-IsCovered env h it c idle v)
        ])
]
