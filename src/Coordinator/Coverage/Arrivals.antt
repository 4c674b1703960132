-- ===== src/Coordinator/Coverage/Arrivals.antt =====
-- Slot coverage through enqueues: a pre-assigned item is listed before it is stored.
use ultravisor.Base.{
  ◌==◌, true, Option, none, some, [], ◌∷◌, ◌++◌, ◌≡◌, refl, ◌⊎◌, inl, inr, arith, Bool-cases,
  Option-cases, ltb, contains-append_last,
}
use ultravisor.Base.Dict.{lookup, modify, keys, find_in-some, lookup-insert}
use ultravisor.Work.{Text, Status, WorkItem, Beacon, Binding, is_held, is_assigned, is_pending}
use ultravisor.Defaults.{Row}
use ultravisor.Coordinator.State.{Env, Coordinator, lists, with_current}
use ultravisor.Coordinator.Registry.{find_by_name}
use ultravisor.Coordinator.Enqueue.{
  WorkItemInfo, new_item, with_defaults, assign_to, route_sticky, route, store_item, deliver,
  enqueue_as, enqueue_work_item,
}
use ultravisor.Coordinator.Coverage.Moves.{
  IsCovered, Covered-mono, Covered-insert, lists-modify, lists-add_self,
}
use ultravisor.Coordinator.Coverage.Push.{push_assigned-IsCovered, try_push-IsCovered}

-- What the affinity block leaves: coverage, and an item that is pending or listed.
record Routed (h : Text) (c : Coordinator) (it : WorkItem) : Type 0 where
  covered : IsCovered c
  ready : (is_pending it.status ≡ true) ⊎ (is_assigned it.status ≡ true)
  listed :
      (b : Text)
      → is_held it.status ≡ true
      → it.assigned_beacon ≡ some b
      → lists b h c.beacons ≡ true

unrouted :
    (h : Text) (c : Coordinator) (it : WorkItem)
    → is_pending it.status ≡ true
    → IsCovered c
    → Routed h c it
unrouted h c it p v = record { covered = v; ready = inl p; listed = λ b held at. ground arith }

pre_assigned :
    (env : Env) (h b : Text) (c : Coordinator) (it : WorkItem) (bcn : Beacon)
    → lookup b c.beacons ≡ some bcn
    → IsCovered c
    → Routed h
        (record c { beacons = modify b (λ x. with_current (x.current ++ h ∷ []) x) c.beacons })
        (assign_to env.now b it)
pre_assigned env h b c it bcn there v = record {
  covered =
      Covered-mono c.beacons _ c.queue
        (λ k j.
          lists-modify b k j _ c.beacons
            (λ x l. ground (arith, contains-append_last j h x.current)))
        v;
  ready = inr refl;
  listed = λ k held at. ground (arith, lists-add_self b h c.beacons bcn there);
}

route_sticky-Routed :
    (env : Env) (h : Text) (it : WorkItem) (bind : Binding) (c : Coordinator)
    → is_pending it.status ≡ true
    → IsCovered c
    → Routed h (route_sticky env h it bind c).0 (route_sticky env h it bind c).1
unfolding route_sticky
route_sticky-Routed env h it bind c p v = elim (Option-cases (lookup bind.beacon c.beacons)) [
  | inl e ↦ rw e (unrouted h c it p v)
  | inr (bcn, e) ↦ rw e (elim (Bool-cases (ltb env.now bind.expires)) [
    | inl t ↦ rw t (pre_assigned env h bind.beacon c it bcn e v)
    | inr t ↦ rw t (unrouted h _ it p v)
  ])
]

route-Routed :
    (env : Env) (h : Text) (it : WorkItem) (c : Coordinator)
    → is_pending it.status ≡ true
    → IsCovered c
    → Routed h (route env h it c).0 (route env h it c).1
unfolding route find_by_name
route-Routed env h it c p v = elim (Bool-cases (it.affinity_key == 0)) [
  | inl t ↦ rw t (unrouted h c it p v)
  | inr t ↦ rw t (elim (Option-cases (find_by_name it.affinity_key c.beacons)) [
    | inr ((b, named), e) ↦
        let there =
          find_in-some (λ bcn. bcn.name == it.affinity_key) (keys c.beacons) c.beacons e in
        rw e (pre_assigned env h b c it named there.0 v)
    | inl e ↦ rw e (elim (Bool-cases it.require_affinity_match) [
      | inl u ↦ simp u (unrouted h c it p v)
      | inr u ↦ simp u (elim (Option-cases (lookup it.affinity_key c.bindings)) [
        | inl g ↦ rw g (unrouted h c it p v)
        | inr (bind, g) ↦ rw g (route_sticky-Routed env h it bind c p v)
      ])
    ])
  ])
]

held_of_assigned : (s : Status) → is_assigned s ≡ true → is_held s ≡ true
held_of_assigned s h = ground arith

deliver-IsCovered :
    (env : Env) (h : Text) (it : WorkItem) (c : Coordinator)
    → lookup h c.queue ≡ some it
    → IsCovered c
    → IsCovered (deliver env h it c)
unfolding deliver
deliver-IsCovered env h it c found v = elim (Bool-cases (is_pending it.status)) [
  | inl t ↦ rw t (try_push-IsCovered env h c v)
  | inr t ↦ rw t (elim (Bool-cases (is_assigned it.status)) [
    | inl u ↦
        rw u (push_assigned-IsCovered env h c (λ i e. ground (arith, held_of_assigned it.status)) v)
    | inr u ↦ rw u v
  ])
]

with_defaults-pending :
    (env : Env) (defaults : Option (Text → Text → Row)) (info : WorkItemInfo)
    → is_pending (with_defaults defaults info.settings (new_item env info)).status ≡ true
unfolding with_defaults new_item
with_defaults-pending env none info = refl
with_defaults-pending env (some d) info = refl

enqueue_as-IsCovered :
    (env : Env) (defaults : Option (Text → Text → Row)) (h : Text) (info : WorkItemInfo)
    (c : Coordinator)
    → IsCovered c
    → IsCovered (enqueue_as env defaults h info c)
unfolding enqueue_as store_item
enqueue_as-IsCovered env defaults h info c v =
    let it = with_defaults defaults info.settings (new_item env info) in
    let r = route-Routed env h it c (with_defaults-pending env defaults info) v in
    let stored = (route env h it c).1 in
    let routed = (route env h it c).0 in
    deliver-IsCovered env h stored (store_item env h stored routed)
      (ground (arith, lookup-insert h h stored routed.queue))
      (Covered-insert h stored routed.beacons routed.queue r.listed r.covered)

pub enqueue_work_item-IsCovered :
    (env : Env) (defaults : Option (Text → Text → Row)) (info : WorkItemInfo) (c : Coordinator)
    → IsCovered c
    → IsCovered (enqueue_work_item env defaults info c).0
unfolding enqueue_work_item
enqueue_work_item-IsCovered env defaults info c v = enqueue_as-IsCovered env defaults _ info _ v
