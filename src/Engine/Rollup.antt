-- ===== src/Engine/Rollup.antt =====
-- The end of a run (`finalizeExecution`, source/services/Ultravisor-ExecutionManifest.cjs). Times, the
-- summary of the times and the files that it writes are left out.
use ultravisor.Base.{◌==◌, Bool, true, false, not, ◌||◌, none, some, [], ◌∷◌, if◌then◌else◌}
use ultravisor.Base.Dict.{Dict, lookup}
use ultravisor.Work.{Text}
use ultravisor.Status.{RunStatus, stalled, failed, complete, is_waiting}
use ultravisor.Engine.Context.{Output, Context, stalled_key, beacon_error_key}

-- A field with a value that counts as true.
unfoldable pub is_set : Text → Output → Bool
is_set k o = elim (lookup k o) [ none ↦ false | some v ↦ not (v == 0) ]

unfoldable pub any_set : Text → Dict Output → Bool
unfolding is_set
any_set k [] = false
any_set k ((h, o) ∷ os) = is_set k o || any_set k os

unfoldable pub has_error : Context → Bool
unfolding any_set
has_error c = elim c.errors [ [] ↦ any_set beacon_error_key c.outputs | e ∷ es ↦ true ]

unfoldable pub rolled_status : Context → RunStatus
unfolding any_set has_error is_waiting
rolled_status c =
    if any_set stalled_key c.outputs
    then stalled
    else (if has_error c then failed else (if is_waiting c.status then c.status else complete))

unfoldable pub finalize : Context → Context
unfolding rolled_status is_waiting
finalize c =
    let s = rolled_status c in
    record c { status = s; live = if is_waiting s then c.live else false }
