-- ===== src/Scheduler/Picking.antt =====
-- What `_pickBeacon` chooses (source/services/Ultravisor-Beacon-Scheduler.cjs).
use ultravisor.Base.{
  ℕ, ◌==◌, ◌≤◌, ◌≢◌, subst, ap, sym, ◌∙◌, true, false, Option, none, some, List, [], ◌∷◌, ◌≡◌, refl,
  ◌⊎◌, inl, inr, arith, ltb, length, contains, Bool-cases, Option-cases,
}
use ultravisor.Base.Dict.{Dict, lookup, keys, find_in-some, find_in-none, contains-keys}
use ultravisor.Work.{Text, WorkItem, Beacon}
use ultravisor.Coordinator.Registry.{find_by_name}
use ultravisor.Coordinator.Routing.{satisfies_affinity}
use ultravisor.Scheduler.Pick.{
  can_take, better, least_loaded, if_can_take, pick_free, pick_for, pick_beacon,
}

-- The best so far is a beacon of the map that can take the item.
abbrev IsFit : WorkItem → Dict Beacon → Option (Text × Beacon) → Type 0
IsFit it beacons none = Unit {0}
IsFit it beacons (some (b, bcn)) = (lookup b beacons ≡ some bcn) × (can_take bcn it ≡ true)

better-IsFit :
    (it : WorkItem) (b : Text) (bcn : Beacon) (beacons : Dict Beacon)
    (best : Option (Text × Beacon))
    → lookup b beacons ≡ some bcn
    → IsFit it beacons best
    → IsFit it beacons (better it b bcn best)
unfolding better
better-IsFit it b bcn beacons none there fit = elim (Bool-cases (can_take bcn it)) [
  | inl t ↦ rw t (there, t)
  | inr t ↦ rw t tt
]
better-IsFit it b bcn beacons (some (k, old)) there fit = elim (Bool-cases (can_take bcn it)) [
  | inl t ↦ elim (Bool-cases (ltb (length bcn.current) (length old.current))) [
    | inl u ↦ rw (t, u) (there, t)
    | inr u ↦ rw (t, u) fit
  ]
  | inr t ↦ rw t fit
]

least_loaded-IsFit :
    (it : WorkItem) (bs : List Text) (beacons : Dict Beacon) (best : Option (Text × Beacon))
    → IsFit it beacons best
    → IsFit it beacons (least_loaded it bs beacons best)
unfolding least_loaded
least_loaded-IsFit it [] beacons best fit = fit
least_loaded-IsFit it (b ∷ bs) beacons best fit = elim (Option-cases (lookup b beacons)) [
  | inl e ↦ rw (e, least_loaded) (least_loaded-IsFit it bs beacons best fit)
  | inr (bcn, e) ↦
      rw (e, least_loaded)
        (least_loaded-IsFit it bs beacons (better it b bcn best)
          (better-IsFit it b bcn beacons best e fit))
]

if_can_take-IsFit :
    (it : WorkItem) (b : Text) (bcn : Beacon) (beacons : Dict Beacon)
    → lookup b beacons ≡ some bcn
    → IsFit it beacons (if_can_take it b bcn)
if_can_take-IsFit it b bcn beacons there = elim (Bool-cases (can_take bcn it)) [
  | inl t ↦ rw t (there, t)
  | inr t ↦ rw t tt
]

pick_free-IsFit : (it : WorkItem) (beacons : Dict Beacon) → IsFit it beacons (pick_free it beacons)
unfolding pick_free find_by_name
pick_free-IsFit it beacons = elim (Bool-cases (it.affinity_key == 0)) [
  | inl t ↦ simp t (least_loaded-IsFit it (keys beacons) beacons none tt)
  | inr t ↦ simp t (elim (Option-cases (find_by_name it.affinity_key beacons)) [
    | inl f ↦ rw f (least_loaded-IsFit it (keys beacons) beacons none tt)
    | inr ((b, bcn), f) ↦ rw f (
        if_can_take-IsFit it b bcn beacons
          (find_in-some (λ x. x.name == it.affinity_key) (keys beacons) beacons f).0)
  ])
]

pub pick_for-IsFit :
    (o : Option Text) (it : WorkItem) (beacons : Dict Beacon)
    → IsFit it beacons (pick_for o it beacons)
unfolding pick_for
pick_for-IsFit none it beacons = pick_free-IsFit it beacons
pick_for-IsFit (some b) it beacons = elim (Option-cases (lookup b beacons)) [
  | inl f ↦ rw (f, pick_for) tt
  | inr (bcn, f) ↦ rw (f, pick_for) (if_can_take-IsFit it b bcn beacons f)
]

assigned_only :
    (a : Text) (it : WorkItem) (beacons : Dict Beacon) (b : Text) (bcn : Beacon)
    → pick_for (some a) it beacons ≡ some (b, bcn)
    → a ≡ b
unfolding pick_for
assigned_only a it beacons b bcn e = elim (Option-cases (lookup a beacons)) [
  | inl f ↦ ground arith
  | inr (x, f) ↦ elim (Bool-cases (can_take x it)) [ inl t ↦ ground arith | inr t ↦ ground arith ]
]

-- A picked beacon is registered and can take the item: it is online, offers the item's capability
-- and has a free slot; and an item that is assigned already goes to that beacon only.
pub pick_beacon_sound :
    (it : WorkItem) (beacons : Dict Beacon) (b : Text) (bcn : Beacon)
    → pick_beacon it beacons ≡ some (b, bcn)
    → (lookup b beacons ≡ some bcn)
      × (can_take bcn it ≡ true)
      × ((it.assigned_beacon ≡ none) ⊎ (it.assigned_beacon ≡ some b))
unfolding pick_beacon
pick_beacon_sound it beacons b bcn e =
    let fit : IsFit it beacons (some (b, bcn)) =
      subst (IsFit it beacons) e (pick_for-IsFit it.assigned_beacon it beacons) in
    (
      fit.0,
      fit.1,
      elim (Option-cases it.assigned_beacon) [
        | inl free ↦ inl free
        | inr (a, at) ↦
            let same =
              assigned_only a it beacons b bcn (ap (λ o. pick_for o it beacons) (sym at) ∙ e) in
            inr (at ∙ ap some same)
      ],
    )

-- The load of the best so far is at most this.
abbrev IsLeast : WorkItem → Option (Text × Beacon) → ℕ → Type 0
IsLeast it none n = ⊥
IsLeast it (some (b, bcn)) n = length bcn.current ≤ n

better-IsLeast :
    (it : WorkItem) (b : Text) (bcn : Beacon) (best : Option (Text × Beacon)) (n : ℕ)
    → IsLeast it best n
    → IsLeast it (better it b bcn best) n
unfolding better
better-IsLeast it b bcn none n h = absurd h
better-IsLeast it b bcn (some (k, old)) n h = ground arith

better_self-IsLeast :
    (it : WorkItem) (b : Text) (bcn : Beacon) (best : Option (Text × Beacon))
    → can_take bcn it ≡ true
    → IsLeast it (better it b bcn best) (length bcn.current)
unfolding better
better_self-IsLeast it b bcn none fit = rw fit (omega arith)
better_self-IsLeast it b bcn (some (k, old)) fit = ground arith

least_loaded_keeps :
    (it : WorkItem) (bs : List Text) (beacons : Dict Beacon) (best : Option (Text × Beacon)) (n : ℕ)
    → IsLeast it best n
    → IsLeast it (least_loaded it bs beacons best) n
unfolding least_loaded
least_loaded_keeps it [] beacons best n h = h
least_loaded_keeps it (b ∷ bs) beacons best n h = elim (Option-cases (lookup b beacons)) [
  | inl e ↦ rw (e, least_loaded) (least_loaded_keeps it bs beacons best n h)
  | inr (bcn, e) ↦
      rw (e, least_loaded)
        (least_loaded_keeps it bs beacons (better it b bcn best) n
          (better-IsLeast it b bcn best n h))
]

least_loaded-IsLeast :
    (it : WorkItem) (bs : List Text) (beacons : Dict Beacon) (best : Option (Text × Beacon))
    (k : Text) (other : Beacon)
    → contains k bs ≡ true
    → lookup k beacons ≡ some other
    → can_take other it ≡ true
    → IsLeast it (least_loaded it bs beacons best) (length other.current)
unfolding least_loaded contains
least_loaded-IsLeast it [] beacons best k other there e fit = cc
least_loaded-IsLeast it (b ∷ bs) beacons best k other there e fit = elim (Bool-cases (b == k)) [
  | inl same ↦
      let here : lookup b beacons ≡ some other = ground arith in
      rw (here, least_loaded)
        (least_loaded_keeps it bs beacons (better it b other best) _
          (better_self-IsLeast it b other best fit))
  | inr ne ↦ least_loaded-IsLeast it bs beacons _ k other (ground arith) e fit
]

-- For an item without assignment and affinity key, some beacon is picked whenever one can take it,
-- and the picked one has no more work than any beacon that can take it.
pub pick_beacon-least :
    (it : WorkItem) (beacons : Dict Beacon) (k : Text) (other : Beacon)
    → it.assigned_beacon ≡ none
    → it.affinity_key ≡ 0
    → lookup k beacons ≡ some other
    → can_take other it ≡ true
    → (b : Text) × (bcn : Beacon) × (pick_beacon it beacons ≡ some (b, bcn))
      × (length bcn.current ≤ length other.current)
unfolding pick_beacon
pick_beacon-least it beacons k other free no_key there fit =
    found (pick_for it.assigned_beacon it beacons) refl (
      subst (λ o. IsLeast it o (length other.current)) (sym is_loop)
        (least_loaded-IsLeast it (keys beacons) beacons none k other
          (contains-keys k other beacons there) there fit))
  where
    is_loop : pick_for it.assigned_beacon it beacons ≡ least_loaded it (keys beacons) beacons none
    is_loop = ap (λ o. pick_for o it beacons) free ∙ unfold pick_for pick_free in ground arith

    found :
        (o : Option (Text × Beacon))
        → pick_for it.assigned_beacon it beacons ≡ o
        → IsLeast it o (length other.current)
        → (b : Text) × (bcn : Beacon) × (pick_for it.assigned_beacon it beacons ≡ some (b, bcn))
          × (length bcn.current ≤ length other.current)
    found none e h = absurd h
    found (some (b, bcn)) e h = (b, bcn, e, h)

-- An item that requires its named beacon, while no beacon of that name is registered, may still be
-- dispatched, and then to a beacon that the coordinator's affinity rule forbids.
pub pick_beacon_strict :
    (it : WorkItem) (beacons : Dict Beacon) (b : Text) (bcn : Beacon)
    → it.require_affinity_match ≡ true
    → it.affinity_key ≢ 0
    → find_by_name it.affinity_key beacons ≡ none
    → pick_beacon it beacons ≡ some (b, bcn)
    → satisfies_affinity it bcn ≡ false
unfolding satisfies_affinity find_by_name
pick_beacon_strict it beacons b bcn strict named gone e =
    let fit = pick_beacon_sound it beacons b bcn e in
    ground (
      arith,
      fit.0,
      find_in-none (λ x. x.name == it.affinity_key) (keys beacons) beacons b bcn gone
          (contains-keys b bcn beacons fit.0) fit.0,
    )
