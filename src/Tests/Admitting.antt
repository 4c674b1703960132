-- ===== src/Tests/Admitting.antt =====
-- The theorems on admission at concrete requests.
use ultravisor.Base.{
  ℕ, ◌+◌, ◌-◌, ◌*◌, ◌≤◌, true, false, List, [], ◌∷◌, ◌≡◌, ◌≢◌, ◌==◌, subst, arith, some, inl, inr,
  Bool-cases,
}
use ultravisor.Base.Dict.{lookup}
use ultravisor.Work.{Text}
use ultravisor.Admission.Sample.{Seen, sample}
use ultravisor.Admission.Tokens.{default_thresholds, Tokens}
use ultravisor.Admission.Decide.{Policy, evaluate, enqueue_request, admitted}
use ultravisor.Admission.Credit.{allowed_in}
use ultravisor.Admission.Rates.{allowed_in-le, buckets_after, evaluate_admits, IsAdmissible}
use ultravisor.Tests.Samples.{with_running}

-- Two requests of the client 4 and one of the client 5, within two seconds.
abbrev requests : List (ℕ × Text)
requests = (3001000, 4) ∷ (3001500, 5) ∷ (3003000, 4) ∷ []

-- The client has used its bucket an hour before.
allowed_in-le_example :
    allowed_in default_thresholds 4 requests (buckets_after default_thresholds ((0, 4) ∷ []) [])
      * 1000
    ≤ 500 * 1000 + (3003000 - 3001000) * 200
allowed_in-le_example =
    allowed_in-le default_thresholds 4 3001000 3003000 ((0, 4) ∷ []) requests
      (omega arith, omega arith, (omega arith, omega arith, (omega arith, omega arith, tt)))

abbrev half_full : Tokens
half_full = record { thousandths = 250000; refilled_at = 4900 }

abbrev fresh_policy : Policy
fresh_policy = record {
  buckets = (4, half_full) ∷ [];
  denying = true;
  first_deny_at = some 900;
  denials = 1;
  announced = [];
}

fresh-capped :
    (k : Text) (t : Tokens)
    → lookup k fresh_policy.buckets ≡ some t
    → t.thousandths ≤ default_thresholds.per_client_burst * 1000
unfolding lookup
fresh-capped k t h = elim (Bool-cases (4 == k)) [
  | inl e ↦
      let is : some half_full ≡ some t = rw e at h in
      let same : half_full ≡ t = cc is in
      subst (λ (t : Tokens). t.thousandths ≤ default_thresholds.per_client_burst * 1000) same
        (omega arith)
  | inr e ↦ cc (rw e at h)
]

abbrev one_alive : List Seen
one_alive = record { deregistered = false; alive = true; last_seen = some 4000 } ∷ []

evaluate_admits_example :
    let s = sample 5000 with_running.queue one_alive in
    let r = evaluate default_thresholds 5000 4 enqueue_request s fresh_policy in
    (r.1 ≡ admitted → IsAdmissible default_thresholds 5000 s (lookup 4 fresh_policy.buckets))
    × (IsAdmissible default_thresholds 5000 s (lookup 4 fresh_policy.buckets) → r.1 ≡ admitted)
    × (r.1 ≡ admitted → r.0.denying ≡ false)
    × (r.1 ≢ admitted → r.0.denying ≡ true)
evaluate_admits_example =
    evaluate_admits default_thresholds 5000 4 with_running.queue one_alive fresh_policy fresh-capped
