-- ===== src/Coordinator/Coverage/Push.antt =====
-- Slot coverage through delivery over the push channel and the freeing of slots.
use ultravisor.Base.{
  ◌==◌, Bool, true, false, ◌&&◌, Option, none, some, List, [], ◌∷◌, ◌++◌, ◌≡◌, refl, inl, inr,
  arith, contains, is_some, not, Bool-cases, Option-cases, contains-append_last, contains-remove_ne,
}
use ultravisor.Base.Dict.{Dict, lookup, modify, keys, lookup-modify}
use ultravisor.Work.{
  Text, WorkItem, Beacon, Status, is_held, is_assigned, is_pending, running, assigned,
}
use ultravisor.Coordinator.State.{Env, Coordinator, lists, with_current}
use ultravisor.Coordinator.Routing.{
  push_to_assigned, push_assigned, can_push, claim_push, revert_push, try_push_to, try_push_one,
  try_push_loop, try_push, dispatch_one, dispatch_loop, dispatch_pending, free_slot,
  remove_from_beacon,
}
use ultravisor.Coordinator.Coverage.Moves.{
  Covered, IsCovered, Covered-modify, Covered-mono, Covered-strike, lists-add_self, lists-modify,
}

-- Taking a slot lists the item, and forgets nothing.
pub Covered-take :
    (b h : Text) (f : WorkItem → WorkItem) (bcn : Beacon) (beacons : Dict Beacon)
    (queue : Dict WorkItem)
    → lookup b beacons ≡ some bcn
    → ((it : WorkItem) → (f it).assigned_beacon ≡ some b)
    → Covered beacons queue
    → Covered (modify b (λ x. with_current (x.current ++ h ∷ []) x) beacons) (modify h f queue)
Covered-take b h f bcn beacons queue there to v =
    Covered-modify h f _ queue (λ it k found held at. same_beacon k (to it) at)
      (Covered-mono beacons _ queue
        (λ k j.
          lists-modify b k j _ beacons (λ x c. ground (arith, contains-append_last j h x.current)))
        v)
  where
    same_beacon :
        (k : Text) {it : WorkItem}
        → (f it).assigned_beacon ≡ some b
        → (f it).assigned_beacon ≡ some k
        → lists k h (modify b (λ x. with_current (x.current ++ h ∷ []) x) beacons) ≡ true
    same_beacon k p q = ground (arith, lists-add_self b h beacons bcn there)

push_to_assigned-IsCovered :
    (handler : Text → WorkItem → Bool) (h : Text) (it : WorkItem) (b : Text) (bcn : Beacon)
    (c : Coordinator)
    → lookup h c.queue ≡ some it
    → is_held it.status ≡ true
    → IsCovered c
    → IsCovered (push_to_assigned handler h it b bcn c)
unfolding push_to_assigned
push_to_assigned-IsCovered handler h it b bcn c found held v = ground (
  arith,
  Covered-modify h (λ i. record i { status = running }) c.beacons c.queue
      (λ i k e _ at. v h i k e (ground arith) at) v,
  Covered-modify h (λ i. record i { status = assigned }) c.beacons c.queue
      (λ i k e _ at. v h i k e (ground arith) at) v,
)

pub push_assigned-IsCovered :
    (env : Env) (h : Text) (c : Coordinator)
    → ((it : WorkItem) → lookup h c.queue ≡ some it → is_held it.status ≡ true)
    → IsCovered c
    → IsCovered (push_assigned env h c)
unfolding push_assigned
push_assigned-IsCovered env h c held v = elim (Option-cases env.push_handler) [
  | inl e ↦ rw (e, push_assigned) v
  | inr (handler, e) ↦
      rw (e, push_assigned)
        (elim (Option-cases (lookup h c.queue)) [
          | inl f ↦ rw (f, push_assigned) v
          | inr (it, f) ↦
              rw (f, push_assigned)
                (elim (Option-cases it.assigned_beacon) [
                  | inl g ↦ rw (g, push_assigned) v
                  | inr (b, g) ↦
                      rw (g, push_assigned)
                        (elim (Option-cases (lookup b c.beacons)) [
                          | inl k ↦ rw (k, push_assigned) v
                          | inr (bcn, k) ↦
                              rw (k, push_assigned)
                                (push_to_assigned-IsCovered handler h it b bcn c f (held it f) v)
                        ])
                ])
        ])
]

try_push_to-IsCovered :
    (env : Env) (handler : Text → WorkItem → Bool) (h : Text) (it : WorkItem) (b : Text)
    (bcn : Beacon) (c : Coordinator)
    → lookup b c.beacons ≡ some bcn
    → IsCovered c
    → IsCovered (try_push_to env handler h it b bcn c).0
unfolding try_push_to claim_push revert_push
try_push_to-IsCovered env handler h it b bcn c there v =
    elim (Bool-cases (handler b (claim_push env.now b it))) [
      | inl e ↦
          rw e (Covered-take b h (claim_push env.now b) bcn c.beacons c.queue there (λ i. refl) v)
      | inr e ↦ rw e (
          Covered-strike b h _ c.beacons _
            (λ j x ne l. ground (
              arith,
              contains-remove_ne j h (x.current ++ h ∷ []),
              contains-append_last j h x.current,
            ))
            (λ i f. idle i f)
            (Covered-modify h _ c.beacons c.queue (λ i k _ held _. ground arith) v))
    ]
  where
    idle :
        (i : WorkItem)
        → lookup h (modify h (λ x. revert_push (claim_push env.now b x)) c.queue) ≡ some i
        → is_held i.status ≡ false
    idle i f = elim (Option-cases (lookup h c.queue)) [
      | inl e ↦
          ground (arith, lookup-modify h h (λ x. revert_push (claim_push env.now b x)) c.queue)
      | inr (i0, e) ↦
          ground (arith, lookup-modify h h (λ x. revert_push (claim_push env.now b x)) c.queue)
    ]

try_push_one-IsCovered :
    (env : Env) (handler : Text → WorkItem → Bool) (h b : Text) (c : Coordinator)
    → IsCovered c
    → IsCovered (try_push_one env handler h b c).0
unfolding try_push_one
try_push_one-IsCovered env handler h b c v = elim (Option-cases (lookup h c.queue)) [
  | inl e ↦ rw (e, try_push_one) v
  | inr (it, e) ↦
      rw (e, try_push_one)
        (elim (Option-cases (lookup b c.beacons)) [
          | inl f ↦ rw (f, try_push_one) v
          | inr (bcn, f) ↦
              rw (f, try_push_one)
                (elim (Bool-cases (can_push env b bcn it)) [
                  | inl t ↦ rw t (try_push_to-IsCovered env handler h it b bcn c f v)
                  | inr t ↦ rw t v
                ])
        ])
]

try_push_loop-IsCovered :
    (env : Env) (handler : Text → WorkItem → Bool) (h : Text) (bs : List Text) (c : Coordinator)
    → IsCovered c
    → IsCovered (try_push_loop env handler h bs c).0
unfolding try_push_loop
try_push_loop-IsCovered env handler h [] c v = v
try_push_loop-IsCovered env handler h (b ∷ bs) c v =
    let here = try_push_one-IsCovered env handler h b c v in
    elim (Bool-cases (try_push_one env handler h b c).1) [
      | inl e ↦ rw e here
      | inr e ↦ rw e (try_push_loop-IsCovered env handler h bs _ here)
    ]

pub try_push-IsCovered :
    (env : Env) (h : Text) (c : Coordinator) → IsCovered c → IsCovered (try_push env h c).0
unfolding try_push
try_push-IsCovered env h c v = elim (Option-cases env.push_handler) [
  | inl e ↦ rw (e, try_push) v
  | inr (handler, e) ↦ rw (e, try_push) (try_push_loop-IsCovered env handler h (keys c.beacons) c v)
]

assigned-held : (s : Status) → is_assigned s ≡ true → is_held s ≡ true
assigned-held s h = ground arith

pub dispatch_one-IsCovered :
    (env : Env) (h : Text) (c : Coordinator) → IsCovered c → IsCovered (dispatch_one env h c)
unfolding dispatch_one
dispatch_one-IsCovered env h c v = elim (Option-cases (lookup h c.queue)) [
  | inl e ↦ rw (e, dispatch_one) v
  | inr (it, e) ↦
      rw (e, dispatch_one)
        (elim (Bool-cases (is_assigned it.status && is_some it.assigned_beacon)) [
          | inl t ↦
              rw t
                (push_assigned-IsCovered env h c (λ i f. ground (arith, assigned-held it.status)) v)
          | inr t ↦
              rw t (elim (Bool-cases (is_pending it.status && not (is_some it.assigned_beacon))) [
                | inl u ↦ rw u (try_push-IsCovered env h c v)
                | inr u ↦ rw u v
              ])
        ])
]

dispatch_loop-IsCovered :
    (env : Env) (hs : List Text) (c : Coordinator)
    → IsCovered c
    → IsCovered (dispatch_loop env hs c)
unfolding dispatch_loop
dispatch_loop-IsCovered env [] c v = v
dispatch_loop-IsCovered env (h ∷ hs) c v =
    dispatch_loop-IsCovered env hs (dispatch_one env h c) (dispatch_one-IsCovered env h c v)

pub dispatch_pending-IsCovered :
    (env : Env) (c : Coordinator) → IsCovered c → IsCovered (dispatch_pending env c)
unfolding dispatch_pending
dispatch_pending-IsCovered env c v = elim (Bool-cases (is_some env.push_handler)) [
  | inl e ↦ rw e (dispatch_loop-IsCovered env (keys c.queue) c v)
  | inr e ↦ rw e v
]

free_slot-keeps :
    (k h : Text) (bcn : Beacon)
    → (k == h) ≡ false
    → contains h bcn.current ≡ true
    → contains h (free_slot k bcn).current ≡ true
unfolding free_slot
free_slot-keeps k h bcn ne l = rw (contains-remove_ne h k bcn.current ne) l

pub remove_from_beacon-IsCovered :
    (env : Env) (o : Option Text) (h : Text) (c : Coordinator)
    → ((it : WorkItem) → lookup h c.queue ≡ some it → is_held it.status ≡ false)
    → IsCovered c
    → IsCovered (remove_from_beacon env o h c)
unfolding remove_from_beacon
remove_from_beacon-IsCovered env none h c idle v = v
remove_from_beacon-IsCovered env (some b) h c idle v =
    elim (Bool-cases (is_some (lookup b c.beacons))) [
      | inl e ↦ rw e (
          dispatch_pending-IsCovered env _ (
            Covered-strike b h (free_slot h) c.beacons c.queue
              (λ j bcn ne l. free_slot-keeps h j bcn ne l) idle v))
      | inr e ↦ rw e v
    ]
