-- ===== src/Tests/Restoring.antt =====
-- The journal's theorems at concrete files
-- (source/services/persistence/Ultravisor-Beacon-QueueJournal.cjs).
use ultravisor.Base.{◌≡◌, refl, true, [], ◌∷◌, some, is_some}
use ultravisor.Base.Dict.{lookup, insert, modify, delete}
use ultravisor.Work.{pending}
use ultravisor.Journal.Entries.{
  SavedItem, line, garbled, Files, no_snapshot, enqueue, claim, complete_entry, affinity_create,
  replay, replayed, lines_of, table_of, empty_table,
}
use ultravisor.Journal.Files.{Journal, renamed, compact, restore_from_journal}
use ultravisor.Journal.Crash.{replay-compact}
use ultravisor.Journal.Restart.{restore_from_journal-replay, is_at_rest, opened}

abbrev pub fresh : SavedItem
fresh = record { status = pending; beacon = 0; claimed_at = 0; body = 4 }

-- An item that is claimed, one that is completed, a binding and a line that cannot be read.
abbrev pub written : Files
written = record {
  saved = no_snapshot;
  journal = some (
      line (enqueue 1 fresh)
      ∷ line (enqueue 2 fresh)
      ∷ garbled
      ∷ line (claim 1 7 50)
      ∷ line (affinity_create 3 (record { expires_at = 90; body = 5 }))
      ∷ line (complete_entry 2)
      ∷ []);
}

abbrev pub kept : Journal
kept = record { enabled = true; files = written; write_count = 6; threshold = 500 }

replay-compact_example :
    (lookup 1 (replay true 60 (compact renamed (replayed written) kept).files).queue
      ≡ lookup 1 (replay true 60 written).queue)
    × (lookup 1 (replayed (compact renamed (replayed written) kept).files).bindings
        ≡ lookup 1 (replayed written).bindings)
unfolding replayed delete modify insert
replay-compact_example = replay-compact renamed kept 60 1 (refl, tt)

restore_from_journal-replay_example :
    (is_some (lookup 2 (restore_from_journal (replay true 60 written) empty_table).queue)
      ≡ opened 2 (lines_of written.journal) (is_some (lookup 2 (table_of written.saved).queue)))
    × (is_at_rest (lookup 2 (restore_from_journal (replay true 60 written) empty_table).queue)
        ≡ true)
restore_from_journal-replay_example = restore_from_journal-replay written 60 2
