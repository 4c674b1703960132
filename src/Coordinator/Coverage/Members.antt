-- ===== src/Coordinator/Coverage/Members.antt =====
-- Slot coverage through registration, deregistration and heartbeats.
use ultravisor.Base.{
  ◌==◌, true, false, none, some, List, [], ◌∷◌, ◌≡◌, refl, inl, inr, arith, contains, Bool-cases,
  Option-cases, or_num,
}
use ultravisor.Base.Dict.{
  Dict, lookup, modify, delete, insert, lookup-modify, lookup-delete, lookup-insert,
}
use ultravisor.Work.{Text, WorkItem, Beacon, is_held}
use ultravisor.Coordinator.State.{Env, Coordinator, lists}
use ultravisor.Coordinator.Registry.{
  BeaconInfo, unnamed, find_by_name, reclaim, register_beacon, release, release_all,
  deregister_beacon, beat, heartbeat,
}
use ultravisor.Coordinator.Coverage.Moves.{IsCovered, Covered-mono, lists-modify}

lists-insert_fresh :
    (b k h : Text) (new : Beacon) (m : Dict Beacon)
    → lookup b m ≡ none
    → lists k h m ≡ true
    → lists k h (insert b new m) ≡ true
unfolding lists
lists-insert_fresh b k h new m fresh l = ground (arith, lookup-insert b k new m)

pub register_beacon-IsCovered :
    (env : Env) (info : BeaconInfo) (session : Text) (c : Coordinator)
    → lookup (env.beacon_id (or_num info.info_name unnamed) env.now) c.beacons ≡ none
    → IsCovered c
    → IsCovered (register_beacon env info session c)
unfolding register_beacon reclaim
register_beacon-IsCovered env info session c fresh v =
    elim (Option-cases (find_by_name (or_num info.info_name unnamed) c.beacons)) [
      | inr ((b, old), e) ↦
          rw (e, register_beacon)
            (Covered-mono c.beacons _ c.queue
              (λ k j. lists-modify b k j (reclaim env.now info session) c.beacons (λ x l. l)) v)
      | inl e ↦
          rw (e, register_beacon)
            (Covered-mono c.beacons _ c.queue (λ k j. lists-insert_fresh _ k j _ c.beacons fresh) v)
    ]

release_idle : (it : WorkItem) → is_held (release it).status ≡ false
unfolding release
release_idle it = ground arith

-- What still holds a slot after the release was not among the released, and has not changed.
release_all-held :
    (hs : List Text) (queue : Dict WorkItem) (h : Text) (it : WorkItem)
    → lookup h (release_all hs queue) ≡ some it
    → is_held it.status ≡ true
    → (lookup h queue ≡ some it) × (contains h hs ≡ false)
unfolding release_all contains
release_all-held [] queue h it e held = (e, refl)
release_all-held (k ∷ ks) queue h it e held =
    let rest = release_all-held ks (modify k release queue) h it e held in
    elim (Bool-cases (k == h)) [
      | inr ne ↦ (ground (arith, lookup-modify k h release queue, rest), ground (arith, rest))
      | inl same ↦ elim (Option-cases (lookup h queue)) [
        | inl g ↦ ground (arith, lookup-modify k h release queue, rest)
        | inr (i0, g) ↦ ground (arith, lookup-modify k h release queue, rest, release_idle i0)
      ]
    ]

lists-delete_ne :
    (b k h : Text) (m : Dict Beacon) → (b == k) ≡ false → lists k h (delete b m) ≡ lists k h m
unfolding lists
lists-delete_ne b k h m ne = ground (arith, lookup-delete b k m)

lists-current :
    (b h : Text) (m : Dict Beacon) (bcn : Beacon)
    → lookup b m ≡ some bcn
    → lists b h m ≡ contains h bcn.current
unfolding lists
lists-current b h m bcn e = rw (e, lists)

-- No item is left behind on a beacon that is gone.
pub deregister_beacon-IsCovered :
    (b : Text) (c : Coordinator) → IsCovered c → IsCovered (deregister_beacon b c).0
unfolding deregister_beacon
deregister_beacon-IsCovered b c v = elim (Option-cases (lookup b c.beacons)) [
  | inl e ↦ rw (e, deregister_beacon) v
  | inr (bcn, e) ↦
      rw (e, deregister_beacon)
        (λ h it k found held at.
          let kept = release_all-held bcn.current c.queue h it found held in
          let listed = v h it k kept.0 held at in
          elim (Bool-cases (b == k)) [
            | inl same ↦ ground (arith, kept.1, listed, lists-current b h c.beacons bcn e)
            | inr ne ↦ rw (lists-delete_ne b k h c.beacons ne) listed
          ])
]

pub heartbeat-IsCovered :
    (env : Env) (b : Text) (c : Coordinator) → IsCovered c → IsCovered (heartbeat env b c).0
unfolding heartbeat beat
heartbeat-IsCovered env b c v =
    Covered-mono c.beacons _ c.queue (λ k j. lists-modify b k j (beat env.now) c.beacons (λ x l. l))
      v
