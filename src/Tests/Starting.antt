-- ===== src/Tests/Starting.antt =====
-- The theorems on the run manager at a table of one run.
use ultravisor.Base.{ℕ, ◌+◌, none, some, Option, List, [], ◌∷◌, ◌≡◌, refl}
use ultravisor.Base.Dict.{insert, delete}
use ultravisor.Work.{Text}
use ultravisor.Runs.Manager.{RunTable, Run, RunInfo, Manager, active, start_run, end_run}
use ultravisor.Runs.Replays.{start_runs, start_run-start_runs}
use ultravisor.Runs.Ended.{ended_at, start_run-end_run}

-- At most one run.
abbrev one_row : RunTable
one_row = record {
  Rows = Option Run;
  create = λ r rows. some r;
  by_id = λ id rows. rows;
  newest_by_key = λ key rows. rows;
  update = λ id f rows. elim rows [ none ↦ none | some r ↦ some (f r) ];
}

abbrev mint : ℕ → ℕ → Text
mint now n = 100 + n

abbrev info : RunInfo
info = record { key = 8; tag = 0 }

abbrev other_info : RunInfo
other_info = record { key = 9; tag = 0 }

abbrev run : Run
run = record {
  id = 41;
  key = 8;
  tag = 0;
  state = active;
  started_at = 1000;
  ended_at = none;
  canceled_at = none;
  cancel_reason = 0;
}

abbrev without_store : Manager one_row
without_store = record { counter = 0; cache = []; store = none }

abbrev with_run : Manager one_row
with_run = record { counter = 0; cache = []; store = some (some run) }

abbrev starts : List (ℕ × RunInfo)
starts = (2000, other_info) ∷ (3000, info) ∷ []

start_run-start_runs_example :
    start_run one_row mint 4000 info
      (start_runs one_row mint starts (start_run one_row mint 1000 info without_store).0)
    ≡ (
      start_runs one_row mint starts (start_run one_row mint 1000 info without_store).0,
      (start_run one_row mint 1000 info without_store).1,
    )
start_run-start_runs_example =
    start_run-start_runs one_row mint 1000 4000 info info starts without_store refl refl

start_run-end_run_example :
    start_run one_row mint 4000 info (end_run one_row 3000 41 none with_run).0 ≡ (
      record {
        counter = 0;
        cache = (8, ended_at 3000 run) ∷ [];
        store = some (some (ended_at 3000 run));
      },
      ended_at 3000 run,
    )
unfolding insert delete
start_run-end_run_example =
    start_run-end_run one_row mint 3000 4000 run info (some run) with_run refl refl refl refl refl
