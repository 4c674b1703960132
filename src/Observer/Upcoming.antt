-- ===== src/Observer/Upcoming.antt =====
-- Why an item waits (`classifyUpcoming`, `_beaconHasCapability`,
-- source/services/observer/ObserverPolicy.cjs).
use ultravisor.Base.{
  ◌==◌, Bool, true, false, ◌||◌, ◌&&◌, not, Option, none, some, List, [], ◌∷◌, ◌++◌, if◌then◌else◌,
  leb, or_num, length, contains,
}
use ultravisor.Work.{Text, WorkItem, shell}
use ultravisor.Observer.Policy.{Liveness, alive, suspect, dead, SeenBeacon, is_terminal_work}

pub data Blocking : Type 0 where
  no_eligible_beacon affinity_pinned_to_offline all_eligible_busy : Blocking

abbrev pub is_live : Liveness → Bool
is_live alive = true
is_live suspect = true
is_live dead = false

abbrev pub is_full : SeenBeacon → Bool
is_full b = leb (or_num b.max_concurrent 1) (length b.current)

abbrev pub is_eligible : Text → SeenBeacon → Bool
is_eligible cap b = contains cap b.capabilities && is_live b.liveness

abbrev pub is_target : Text → SeenBeacon → Bool
is_target target b = b.id == target || b.name == target

-- 0 where the item is not bound.
abbrev pub affinity_target : WorkItem → Text
affinity_target it = elim it.assigned_beacon [
  | none ↦ it.affinity_key
  | some b ↦ or_num b it.affinity_key
]

pub record Found : Type 0 where
  pub eligible : List Text
  pub free : List Text
  pub is_matched : Bool

abbrev pub find_beacon : Text → Text → SeenBeacon → Found → Found
find_beacon cap target b f =
    if not (is_eligible cap b)
    then f
    else (if is_full b then record f { eligible = f.eligible ++ b.id ∷ [] } else record {
      eligible = f.eligible ++ b.id ∷ [];
      free = f.free ++ b.id ∷ [];
      is_matched = f.is_matched || (not (target == 0) && is_target target b);
    })

unfoldable pub find_beacons : Text → Text → List SeenBeacon → Found → Found
find_beacons cap target [] f = f
find_beacons cap target (b ∷ bs) f = find_beacons cap target bs (find_beacon cap target b f)

unfoldable pub is_target_live : Text → List SeenBeacon → Bool
is_target_live target [] = false
is_target_live target (b ∷ bs) =
    (is_target target b && is_live b.liveness) || is_target_live target bs

abbrev pub is_nil {ℓ} : {A : Type ℓ} → List A → Bool
is_nil [] = true
is_nil (x ∷ xs) = false

unfoldable pub classify_upcoming : Option WorkItem → List SeenBeacon → Option Blocking × List Text
unfolding find_beacons is_target_live
classify_upcoming none bs = (none, [])
classify_upcoming (some it) bs =
    let target = affinity_target it in
    let f : Found =
      find_beacons (or_num it.capability shell) target bs
        (record { eligible = []; free = []; is_matched = false }) in
    if is_terminal_work it.status
    then (none, [])
    else (if is_nil f.eligible
        then (some no_eligible_beacon, [])
        else (if not (target == 0) && not f.is_matched && not (is_target_live target bs)
            then (some affinity_pinned_to_offline, f.eligible)
            else (if is_nil f.free
                then (some all_eligible_busy, f.eligible)
                else (none, f.eligible))))
