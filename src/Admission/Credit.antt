-- ===== src/Admission/Credit.antt =====
-- What a token bucket may still give (source/services/Ultravisor-AdmissionPolicy.cjs).
use native.Mathlib.Nat.{add-mul}
use ultravisor.Base.{
  ℕ, ◌+◌, ◌-◌, ◌*◌, ◌≤◌, ◌==◌, if◌then◌else◌, none, some, Option, List, [], ◌∷◌, ◌≡◌, sym, ap, ◌∙◌,
  inl, inr, arith, ltb, Bool-cases, or_else,
}
use ultravisor.Base.Dict.{Dict, lookup, insert, lookup-insert}
use ultravisor.Work.{Text}
use ultravisor.Admission.Tokens.{
  Thresholds, Tokens, TokenReply, allowed, retry_after, full_bucket, refill, take_token,
  consume_token,
}

pub split_span : (a b c k : ℕ) → a ≤ b → b ≤ c → (b - a) * k + (c - b) * k ≡ (c - a) * k
split_span a b c k ab bc = sym (add-mul (b - a) (c - b) k) ∙ ap (λ x. x * k) (omega arith)

-- What a client may still get until `end`, in thousandths of a token; one that is not known yet
-- starts with a full bucket, at `from` at the earliest.
abbrev pub credit : Thresholds → ℕ → ℕ → Option Tokens → ℕ
credit th from end none = th.per_client_burst * 1000 + (end - from) * th.per_client_rps
credit th from end (some t) = t.thousandths + (end - t.refilled_at) * th.per_client_rps

abbrev pub count_of : TokenReply → ℕ
count_of allowed = 1
count_of (retry_after wait) = 0

credit-refill :
    (th : Thresholds) (from now end : ℕ) (t : Tokens)
    → now ≤ end
    → credit th from end (some (refill th now t)) ≤ credit th from end (some t)
unfolding refill
credit-refill th from now end t before = elim (Bool-cases (ltb t.refilled_at now)) [
  | inr e ↦ rw e (omega arith)
  | inl e ↦
      let later : t.refilled_at ≤ now = ground (arith, e) in
      rw e (omega (arith, split_span t.refilled_at now end th.per_client_rps later before))
]

pub credit-take_token :
    (th : Thresholds) (from now end : ℕ) (t : Tokens)
    → now ≤ end
    → count_of (take_token th now t).1 * 1000 + credit th from end (some (take_token th now t).0)
      ≤ credit th from end (some t)
unfolding take_token
credit-take_token th from now end t before = ground (arith, credit-refill th from now end t before)

credit-full_bucket :
    (th : Thresholds) (from now end : ℕ) (o : Option Tokens)
    → from ≤ now
    → now ≤ end
    → credit th from end (some (or_else o (full_bucket th now))) ≤ credit th from end o
credit-full_bucket th from now end none after before =
    omega (arith, split_span from now end th.per_client_rps after before)
credit-full_bucket th from now end (some t) after before = omega arith

-- The requests in their order, each with its time and its client: how many of the client get a token.
unfoldable pub allowed_in : Thresholds → Text → List (ℕ × Text) → Dict Tokens → ℕ
allowed_in th client [] buckets = 0
allowed_in th client ((now, other) ∷ rest) buckets =
    let r = consume_token th now other buckets in
    let later = allowed_in th client rest r.0 in
    if other == client then count_of r.1 + later else later

abbrev pub AllBetween : ℕ → ℕ → List (ℕ × Text) → Type 0
AllBetween from end [] = Unit {0}
AllBetween from end (r ∷ rs) = (from ≤ r.0) × (r.0 ≤ end) × AllBetween from end rs

pub allowed_in-credit :
    (th : Thresholds) (client from end : ℕ) (requests : List (ℕ × Text)) (buckets : Dict Tokens)
    → AllBetween from end requests
    → allowed_in th client requests buckets * 1000 ≤ credit th from end (lookup client buckets)
unfolding allowed_in consume_token
allowed_in-credit th client from end [] buckets b = ground arith
allowed_in-credit th client from end ((now, other) ∷ rest) buckets b =
    let o = lookup other buckets in
    let r = take_token th now (or_else o (full_bucket th now)) in
    let later =
      allowed_in-credit th client from end rest (consume_token th now other buckets).0 b.2 in
    let found = lookup-insert other client r.0 buckets in
    elim (Bool-cases (other == client)) [
      | inr e ↦
          let kept : lookup client (insert other r.0 buckets) ≡ lookup client buckets =
            ground (arith, found, e) in
          rw e (rw kept at later)
      | inl e ↦
          let same : other ≡ client = ground (arith, e) in
          let kept : lookup client (insert other r.0 buckets) ≡ some r.0 =
            ground (arith, found, e) in
          rw e (
            omega (
              arith,
              (rw kept at later),
              credit-take_token th from now end (or_else o (full_bucket th now)) b.1,
              credit-full_bucket th from now end o b.0 b.1,
              ap (λ k. credit th from end (lookup k buckets)) same,
            ))
    ]
