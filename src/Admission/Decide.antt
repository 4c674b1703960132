-- ===== src/Admission/Decide.antt =====
-- `evaluate` and `_deny` (source/services/Ultravisor-AdmissionPolicy.cjs). The client's key and the
-- sample are arguments.
use ultravisor.Base.{
  ℕ, suc, ◌*◌, Bool, true, false, ◌&&◌, Option, some, List, [], ◌∷◌, ◌++◌, if◌then◌else◌, ltb, leb,
}
use ultravisor.Base.Dict.{Dict}
use ultravisor.Work.{Text}
use ultravisor.Admission.Sample.{Sample}
use ultravisor.Admission.Tokens.{Thresholds, Tokens, allowed, retry_after, consume_token}

pub data Category : Type 0 where
  enqueue_request readonly_request : Category

abbrev pub is_enqueue : Category → Bool
is_enqueue enqueue_request = true
is_enqueue readonly_request = false

pub data Reason : Type 0 where
  queued_depth_exceeded fleet_unhealthy client_rate_limit : Reason

pub data Announcement : Type 0 where
  denied_topic : Reason → Text → Announcement
  recovered_topic : Text → Announcement

pub data Verdict : Type 0 where
  admitted : Verdict
  denied : Reason → Option ℕ → Verdict

pub record Policy : Type 0 where
  pub buckets : Dict Tokens
  pub denying : Bool
  pub first_deny_at : Option ℕ
  pub denials : ℕ
  pub announced : List Announcement

unfoldable pub deny : ℕ → Reason → Text → Option ℕ → Policy → Policy × Verdict
deny now reason client wait p = (
  record p {
    denying = true;
    first_deny_at = if p.denying then p.first_deny_at else some now;
    denials = suc p.denials;
    announced = p.announced ++ denied_topic reason client ∷ [];
  },
  denied reason wait,
)

-- `FleetAliveRatio < MinFleetAliveRatio`, where some beacon is counted.
unfoldable pub is_fleet_unhealthy : Thresholds → Sample → Bool
is_fleet_unhealthy th s =
    leb th.soft_queued_depth s.queued_depth
    && ltb 0 s.total_beacons
    && ltb (s.alive_beacons * 100) (th.min_alive_percent * s.total_beacons)

unfoldable pub recover : Category → Text → Policy → Policy
recover category client p =
    if p.denying && is_enqueue category
    then record p { denying = false; announced = p.announced ++ recovered_topic client ∷ [] }
    else p

unfoldable pub rate_limit : Thresholds → ℕ → Text → Category → Policy → Policy × Verdict
unfolding deny recover consume_token
rate_limit th now client category p =
    let r = consume_token th now client p.buckets in
    let counted = record p { buckets = r.0 } in
    elim r.1 [
      | allowed ↦ (recover category client counted, admitted)
      | retry_after wait ↦ deny now client_rate_limit client wait counted
    ]

unfoldable pub evaluate : Thresholds → ℕ → Text → Category → Sample → Policy → Policy × Verdict
unfolding rate_limit deny is_fleet_unhealthy
evaluate th now client category s p =
    if is_enqueue category && leb th.max_queued_depth s.queued_depth
    then deny now queued_depth_exceeded client (some 30) p
    else (if is_enqueue category && is_fleet_unhealthy th s
        then deny now fleet_unhealthy client (some 15) p
        else rate_limit th now client category p)
