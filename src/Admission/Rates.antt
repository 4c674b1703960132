-- ===== src/Admission/Rates.antt =====
-- What the token buckets and the decision guarantee (source/services/Ultravisor-AdmissionPolicy.cjs).
use native.Mathlib.Nat.{mul-le-mul_right}
use ultravisor.Base.{
  ℕ, ◌+◌, ◌-◌, ◌*◌, ◌≤◌, ◌<◌, ◌⊎◌, ◌==◌, min, true, false, none, some, Option, List, [], ◌∷◌, ◌≡◌,
  ◌≢◌, refl, sym, subst, ◌∙◌, inl, inr, arith, ltb, Bool-cases, Option-cases, or_else,
}
use ultravisor.Base.Dict.{Dict, lookup, insert, lookup-insert}
use ultravisor.Work.{Text, WorkItem}
use ultravisor.Admission.Sample.{Seen, Sample, sample}
use ultravisor.Admission.Tokens.{Thresholds, Tokens, full_bucket, refill, take_token, consume_token}
use ultravisor.Admission.Decide.{
  enqueue_request, admitted, evaluate, deny, rate_limit, recover, is_fleet_unhealthy, Policy,
}
use ultravisor.Admission.Credit.{
  split_span, credit, count_of, allowed_in, AllBetween, allowed_in-credit,
}

-- What the requests leave of the buckets.
unfoldable pub buckets_after : Thresholds → List (ℕ × Text) → Dict Tokens → Dict Tokens
buckets_after th [] buckets = buckets
buckets_after th ((now, client) ∷ rest) buckets =
    buckets_after th rest (consume_token th now client buckets).0

-- No bucket holds more than the burst.
abbrev AllCapped : Thresholds → Dict Tokens → Type 0
AllCapped th buckets =
    (k : Text) (t : Tokens) → lookup k buckets ≡ some t → t.thousandths ≤ th.per_client_burst * 1000

take_token-capped :
    (th : Thresholds) (now : ℕ) (t : Tokens)
    → t.thousandths ≤ th.per_client_burst * 1000
    → (take_token th now t).0.thousandths ≤ th.per_client_burst * 1000
unfolding take_token refill
take_token-capped th now t capped = ground arith

found_or_full-capped :
    (th : Thresholds) (now : ℕ) (client : Text) (buckets : Dict Tokens)
    → AllCapped th buckets
    → (or_else (lookup client buckets) (full_bucket th now)).thousandths
      ≤ th.per_client_burst * 1000
found_or_full-capped th now client buckets all = elim (Option-cases (lookup client buckets)) [
  | inl e ↦ rw e (omega arith)
  | inr (t, e) ↦ rw e (all client t e)
]

consume_token-AllCapped :
    (th : Thresholds) (now : ℕ) (client : Text) (buckets : Dict Tokens)
    → AllCapped th buckets
    → AllCapped th (consume_token th now client buckets).0
unfolding consume_token
consume_token-AllCapped th now client buckets all k t h =
    let t' = or_else (lookup client buckets) (full_bucket th now) in
    let capped = take_token-capped th now t' (found_or_full-capped th now client buckets all) in
    let found = lookup-insert client k (take_token th now t').0 buckets in
    elim (Bool-cases (client == k)) [
      | inl e ↦
          let is : some (take_token th now t').0 ≡ some t = sym (found ∙ rw e refl) ∙ h in
          let same : (take_token th now t').0 ≡ t = cc is in
          subst (λ (t : Tokens). t.thousandths ≤ th.per_client_burst * 1000) same capped
      | inr e ↦ all k t (sym (found ∙ rw e refl) ∙ h)
    ]

buckets_after-AllCapped :
    (th : Thresholds) (requests : List (ℕ × Text)) (buckets : Dict Tokens)
    → AllCapped th buckets
    → AllCapped th (buckets_after th requests buckets)
unfolding buckets_after
buckets_after-AllCapped th [] buckets all = all
buckets_after-AllCapped th ((now, client) ∷ rest) buckets all =
    buckets_after-AllCapped th rest (consume_token th now client buckets).0
      (consume_token-AllCapped th now client buckets all)

-- The first request of a client between two moments, on a bucket that is capped, however long it has
-- not been used.
credit-capped :
    (th : Thresholds) (from now end : ℕ) (t : Tokens)
    → from ≤ now
    → now ≤ end
    → t.thousandths ≤ th.per_client_burst * 1000
    → count_of (take_token th now t).1 * 1000 + credit th from end (some (take_token th now t).0)
      ≤ th.per_client_burst * 1000 + (end - from) * th.per_client_rps
unfolding take_token refill
credit-capped th from now end t after before capped = elim (Bool-cases (ltb t.refilled_at now)) [
  | inl e ↦ rw e (ground (arith, split_span from now end th.per_client_rps after before))
  | inr e ↦
      let later : now ≤ t.refilled_at = ground (arith, e) in
      let less : (end - t.refilled_at) * th.per_client_rps ≤ (end - from) * th.per_client_rps =
        mul-le-mul_right th.per_client_rps (omega arith) in
      rw e (ground (arith, less))
]

allowed_in-capped :
    (th : Thresholds) (client from end : ℕ) (requests : List (ℕ × Text)) (buckets : Dict Tokens)
    → AllBetween from end requests
    → AllCapped th buckets
    → allowed_in th client requests buckets * 1000
      ≤ th.per_client_burst * 1000 + (end - from) * th.per_client_rps
unfolding allowed_in consume_token
allowed_in-capped th client from end [] buckets b all = omega arith
allowed_in-capped th client from end ((now, other) ∷ rest) buckets b all =
    let t = or_else (lookup other buckets) (full_bucket th now) in
    let r = take_token th now t in
    let after = (consume_token th now other buckets).0 in
    let kept = consume_token-AllCapped th now other buckets all in
    elim (Bool-cases (other == client)) [
      | inr e ↦ rw e (allowed_in-capped th client from end rest after b.2 kept)
      | inl e ↦
          let there : lookup client (insert other r.0 buckets) ≡ some r.0 =
            lookup-insert other client r.0 buckets ∙ rw e refl in
          let later = allowed_in-credit th client from end rest after b.2 in
          rw e (
            omega (
              arith,
              (rw there at later),
              credit-capped th from now end t b.0 b.1
                  (found_or_full-capped th now other buckets all),
            ))
    ]

-- After any requests of all clients at any times, a client gets from any sequence of requests at
-- times between two moments at most its burst and what the rate gives in the time between them,
-- however long it has made no request.
pub allowed_in-le :
    (th : Thresholds) (client from end : ℕ) (earlier requests : List (ℕ × Text))
    → AllBetween from end requests
    → allowed_in th client requests (buckets_after th earlier []) * 1000
      ≤ th.per_client_burst * 1000 + (end - from) * th.per_client_rps
unfolding lookup
allowed_in-le th client from end earlier requests between =
    let at_first : AllCapped th [] = λ k t h. cc in
    allowed_in-capped th client from end requests (buckets_after th earlier []) between
      (buckets_after-AllCapped th earlier [] at_first)

-- What the client's bucket holds at `now`, counted up to the burst, in thousandths of a token; a
-- client without a bucket has its burst.
abbrev pub tokens_at : Thresholds → ℕ → Option Tokens → ℕ
tokens_at th now none = th.per_client_burst * 1000
tokens_at th now (some t) =
    min (th.per_client_burst * 1000) (t.thousandths + (now - t.refilled_at) * th.per_client_rps)

refill_found :
    (th : Thresholds) (now : ℕ) (client : Text) (buckets : Dict Tokens)
    → AllCapped th buckets
    → (refill th now (or_else (lookup client buckets) (full_bucket th now))).thousandths
      ≡ tokens_at th now (lookup client buckets)
unfolding refill
refill_found th now client buckets all = elim (Option-cases (lookup client buckets)) [
  | inl e ↦ rw e (ground arith)
  | inr (t, e) ↦ rw e (ground (arith, all client t e))
]

-- For which an enqueue request is admitted.
abbrev pub IsAdmissible : Thresholds → ℕ → Sample → Option Tokens → Type 0
IsAdmissible th now s bucket =
    (s.queued_depth < th.max_queued_depth)
    × ((s.queued_depth < th.soft_queued_depth)
        ⊎ ((s.total_beacons ≡ 0)
            ⊎ (th.min_alive_percent * s.total_beacons ≤ s.alive_beacons * 100)))
    × (1000 ≤ tokens_at th now bucket)

-- Where no bucket holds more than the burst, an enqueue request is admitted exactly if fewer items
-- wait than the limit, fewer wait than the soft limit or no beacon is counted or the alive ones make
-- up the percentage that is asked for, and the client's bucket, refilled up to the burst, holds a
-- token. An admission leaves the policy out of its denying mode, a denial in it.
pub evaluate_admits :
    (th : Thresholds) (now client : ℕ) (queue : Dict WorkItem) (fleet : List Seen) (p : Policy)
    → AllCapped th p.buckets
    → let s = sample now queue fleet in
      let r = evaluate th now client enqueue_request s p in
      (r.1 ≡ admitted → IsAdmissible th now s (lookup client p.buckets))
      × (IsAdmissible th now s (lookup client p.buckets) → r.1 ≡ admitted)
      × (r.1 ≡ admitted → r.0.denying ≡ false)
      × (r.1 ≢ admitted → r.0.denying ≡ true)
unfolding evaluate rate_limit deny recover is_fleet_unhealthy consume_token take_token
evaluate_admits th now client queue fleet p all =
    let full = refill_found th now client p.buckets all in
    (
      (λ e. (ground (arith, full), ground (arith, full), ground (arith, full))),
      (λ a. ground (arith, full)),
      (λ e. ground arith),
      (λ e. ground arith),
    )
