-- ===== src/Admission/Tokens.antt =====
-- `_consumeToken` (source/services/Ultravisor-AdmissionPolicy.cjs). Tokens are counted in thousandths,
-- which makes the refill of a millisecond, `PerClientRPS` thousandths, a whole number.
use ultravisor.Base.{
  ℕ, ◌+◌, ◌-◌, ◌*◌, ◌/◌, ◌==◌, min, max, Option, none, some, if◌then◌else◌, ltb, leb, or_else,
}
use ultravisor.Base.Dict.{Dict, lookup, insert}
use ultravisor.Work.{Text}

pub record Thresholds : Type 0 where
  pub max_queued_depth : ℕ
  pub soft_queued_depth : ℕ
  -- `MinFleetAliveRatio` in percent.
  pub min_alive_percent : ℕ
  pub per_client_rps : ℕ
  pub per_client_burst : ℕ

abbrev pub default_thresholds : Thresholds
default_thresholds = record {
  max_queued_depth = 5000;
  soft_queued_depth = 3000;
  min_alive_percent = 50;
  per_client_rps = 200;
  per_client_burst = 500;
}

pub record Tokens : Type 0 where
  pub thousandths : ℕ
  pub refilled_at : ℕ

pub data TokenReply : Type 0 where
  allowed : TokenReply
  -- `none` is the Infinity of a division by a rate of 0.
  retry_after : Option ℕ → TokenReply

abbrev pub full_bucket : Thresholds → ℕ → Tokens
full_bucket th now = record { thousandths = th.per_client_burst * 1000; refilled_at = now }

-- A clock that went back refills nothing.
unfoldable pub refill : Thresholds → ℕ → Tokens → Tokens
refill th now t =
    if ltb t.refilled_at now
    then record {
      thousandths =
          min (th.per_client_burst * 1000)
            (t.thousandths + (now - t.refilled_at) * th.per_client_rps);
      refilled_at = now;
    }
    else t

-- Whole seconds, at least one, until the missing part of a token is refilled.
unfoldable pub wait_s : Thresholds → Tokens → Option ℕ
wait_s th t =
    if th.per_client_rps == 0
    then none
    else some (
        max 1
          ((1000 - t.thousandths + (1000 * th.per_client_rps - 1)) / (1000 * th.per_client_rps)))

unfoldable pub take_token : Thresholds → ℕ → Tokens → Tokens × TokenReply
unfolding refill wait_s
take_token th now t =
    let full = refill th now t in
    if leb 1000 full.thousandths
    then (record full { thousandths = full.thousandths - 1000 }, allowed)
    else (full, retry_after (wait_s th full))

unfoldable pub consume_token : Thresholds → ℕ → Text → Dict Tokens → Dict Tokens × TokenReply
unfolding take_token
consume_token th now client buckets =
    let r = take_token th now (or_else (lookup client buckets) (full_bucket th now)) in
    (insert client r.0 buckets, r.1)
