-- ===== src/Defaults/Caching.antt =====
-- What a resolution answers (source/services/Ultravisor-Beacon-ActionDefaults.cjs).
use ultravisor.Base.{ℕ, ◌+◌, ◌<◌, ◌≤◌, Option, none, some, ◌≡◌, refl, arith}
use ultravisor.Base.Dict.{Dict, lookup, lookup-insert}
use ultravisor.Work.{Text}
use ultravisor.Defaults.Resolve.{
  Row, Legacy, CacheEntry, is_fresh, resolve, resolve_row, wildcard_row, invalidate,
}

wildcard_row-specific :
    (get_row : Text → Text → Option Row) (cap action : Text) (r : Row)
    → get_row cap action ≡ some r
    → wildcard_row get_row cap action ≡ none
unfolding wildcard_row
wildcard_row-specific get_row cap action r e = rw (e, wildcard_row) refl

-- Where an action has a row of its own, the rest of the table has no influence on what is resolved
-- for it: not on a field that the row leaves empty either, for which the capability's wildcard row
-- is not read.
pub resolve_row-specific :
    (get_row other : Text → Text → Option Row) (legacy : Legacy) (cap action : Text) (r : Row)
    → get_row cap action ≡ some r
    → other cap action ≡ some r
    → resolve_row get_row legacy cap action ≡ resolve_row other legacy cap action
unfolding resolve_row
resolve_row-specific get_row other legacy cap action r e f =
    rw
      (
        e,
        wildcard_row-specific get_row cap action r e,
        f,
        wildcard_row-specific other cap action r f,
      )
      refl

-- A resolution that was not cached is kept for ten seconds. Until they have passed, the same action
-- resolves to the same value and leaves the cache as it is, whatever the table and the settings say
-- by then; from then on it resolves to what they say, and so it does at any time after `invalidate`.
pub resolve-invalidate :
    (cache_key : Text → Text → Text) (get_row changed : Text → Text → Option Row)
    (legacy legacy_changed : Legacy) (now later cap action : ℕ) (cache : Dict CacheEntry)
    → lookup (cache_key cap action) cache ≡ none
    → let kept = resolve cache_key get_row legacy now cap action cache in
      let again = resolve cache_key changed legacy_changed later cap action in
      (later < now + 10000 → again kept.0 ≡ kept)
      × (now + 10000 ≤ later → (again kept.0).1 ≡ resolve_row changed legacy_changed cap action)
      × ((again (invalidate kept.0)).1 ≡ resolve_row changed legacy_changed cap action)
unfolding resolve is_fresh invalidate lookup
resolve-invalidate cache_key get_row changed legacy legacy_changed now later cap action cache e =
    let entry : CacheEntry = record { at = now; value = resolve_row get_row legacy cap action } in
    let there = lookup-insert (cache_key cap action) (cache_key cap action) entry cache in
    ((λ near. ground (arith, e, there)), (λ far. ground (arith, e, there)), refl)
