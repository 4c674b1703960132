-- ===== src/Runs/Ended.antt =====
-- What a start gives after its key's run has ended
-- (source/services/Ultravisor-Beacon-RunManager.cjs).
use ultravisor.Base.{ℕ, ◌==◌, false, none, some, ◌≡◌, refl, arith}
use ultravisor.Base.Dict.{insert, delete, lookup-delete}
use ultravisor.Work.{Text}
use ultravisor.Runs.Manager.{
  RunTable, ended, Run, RunInfo, patch_run, Manager, find_run, start_run, close_run,
  update_run_state, end_run,
}

-- The fields that the end of a run writes.
abbrev pub ended_at : ℕ → Run → Run
ended_at now r =
    patch_run ended (record { ended_at = some now; canceled_at = none; cancel_reason = 0 }) r

module _ (table : RunTable) (mint : ℕ → ℕ → Text) where
  open table use {Rows, by_id, newest_by_key, update}

  end_run-closes :
      (now : ℕ) (r : Run) (rows : Rows) (g : Manager table)
      → g.store ≡ some rows
      → by_id r.id rows ≡ some r
      → (r.key == 0) ≡ false
      → (end_run table now r.id none g).0
        ≡ record g { cache = delete r.key g.cache; store = some (update r.id (ended_at now) rows) }
  unfolding end_run close_run update_run_state
  end_run-closes now r rows g store found keyed =
      rw (store, close_run) (rw (found, close_run) (simp keyed (rw (found, update_run_state) refl)))

  find_run-deleted :
      (key : Text) (r : Run) (rows : Rows) (g : Manager table)
      → (key == 0) ≡ false
      → newest_by_key key rows ≡ some r
      → find_run table key (record g { cache = delete key g.cache; store = some rows }) ≡ some r
  unfolding find_run
  find_run-deleted key r rows g keyed newest = ground (arith, lookup-delete key key g.cache)

  -- A start with the key of a run that has ended gives that run, ended, where the table finds the
  -- run as the newest of its key after the write that ended it. It creates no run: the table is as
  -- that write left it and no ID is minted; the run is in the cache under its key again.
  pub start_run-end_run :
      (now later : ℕ) (r : Run) (info : RunInfo) (rows : Rows) (g : Manager table)
      → g.store ≡ some rows
      → by_id r.id rows ≡ some r
      → newest_by_key r.key (update r.id (ended_at now) rows) ≡ some (ended_at now r)
      → (r.key == 0) ≡ false
      → info.key ≡ r.key
      → start_run table mint later info (end_run table now r.id none g).0 ≡ (
        record {
          counter = g.counter;
          cache = insert r.key (ended_at now r) (delete r.key g.cache);
          store = some (update r.id (ended_at now) rows);
        },
        ended_at now r,
      )
  unfolding start_run
  start_run-end_run now later r info rows g store found newest keyed same =
      let rows' = update r.id (ended_at now) rows in
      let found_again = find_run-deleted r.key (ended_at now r) rows' g keyed newest in
      simp (same, end_run-closes now r rows g store found keyed, keyed, found_again) refl
