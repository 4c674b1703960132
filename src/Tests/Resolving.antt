-- ===== src/Tests/Resolving.antt =====
-- The theorems on action defaults at a concrete table.
use ultravisor.Base.{◌<◌, ◌≤◌, ◌==◌, ◌*◌, ◌+◌, if◌then◌else◌, Option, none, some, [], ◌≡◌, refl}
use ultravisor.Base.Dict.{lookup}
use ultravisor.Work.{Text}
use ultravisor.Defaults.{Row, Legacy, resolve_row, resolve, invalidate}
use ultravisor.Defaults.Caching.{resolve-invalidate}
use ultravisor.Tests.Samples.{minute_row}

abbrev no_legacy : Legacy
no_legacy = record { legacy_timeout_ms = 0; legacy_heartbeat_ms = 0 }

-- A row for the action 1 only, the same with a row for every other action, and an empty table.
abbrev one_row : Text → Text → Option Row
one_row cap action = if action == 1 then some minute_row else none

abbrev no_rows : Text → Text → Option Row
no_rows cap action = none

abbrev key_of : Text → Text → Text
key_of cap action = cap * 100 + action

-- The row of the action 1 is gone a second later.
resolve-invalidate_example :
    let kept = resolve key_of one_row no_legacy 5000 1 1 [] in
    let again = resolve key_of no_rows no_legacy 6000 1 1 in
    (6000 < 5000 + 10000 → again kept.0 ≡ kept)
    × (5000 + 10000 ≤ 6000 → (again kept.0).1 ≡ resolve_row no_rows no_legacy 1 1)
    × ((again (invalidate kept.0)).1 ≡ resolve_row no_rows no_legacy 1 1)
unfolding lookup
resolve-invalidate_example =
    resolve-invalidate key_of one_row no_rows no_legacy no_legacy 5000 6000 1 1 [] refl
