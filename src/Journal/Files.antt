-- ===== src/Journal/Files.antt =====
-- What is written (`appendEntry`, `_requestCompaction`, `compact`,
-- source/services/persistence/Ultravisor-Beacon-QueueJournal.cjs), with a failure at any of the file operations,
-- and what is restored (`restoreFromJournal`, source/services/Ultravisor-Beacon-Coordinator.cjs).
use ultravisor.Base.{
  ℕ, suc, Bool, true, false, not, Option, none, some, [], ◌∷◌, ◌++◌, if◌then◌else◌, leb,
}
use ultravisor.Base.Dict.{Dict, lookup, insert}
use ultravisor.Work.{Status, complete, error, timeout}
use ultravisor.Journal.Entries.{
  SavedItem, Table, Entry, compact_marker, line, Files, snapshot, lines_of,
}

-- How far a compaction comes: an error, or the end of the process, before the snapshot is renamed, before
-- the journal is emptied, before the marker is written, or none.
pub data Reach : Type 0 where
  nothing renamed emptied whole : Reach

pub record Journal : Type 0 where
  pub enabled : Bool
  pub files : Files
  pub write_count : ℕ
  pub threshold : ℕ

abbrev pub is_closed : Status → Bool
is_closed complete = true
is_closed error = true
is_closed timeout = true
is_closed _ = false

unfoldable pub open_items : Dict SavedItem → Dict SavedItem
open_items [] = []
open_items ((h, it) ∷ q) =
    let rest = open_items q in if is_closed it.status then rest else (h, it) ∷ rest

abbrev pub compacted : Reach → Table → Journal → Journal
compacted nothing t j = j
compacted renamed t j =
    let f : Files = j.files in record j { files = record f { saved = snapshot t } }
compacted emptied t j = record j { files = record { saved = snapshot t; journal = some [] } }
compacted whole t j = record j {
  files = record { saved = snapshot t; journal = some (line compact_marker ∷ []) };
  write_count = 1;
}

unfoldable pub compact : Reach → Table → Journal → Journal
unfolding open_items
compact reach t j =
    if not j.enabled
    then j
    else compacted reach (record { queue = open_items t.queue; bindings = t.bindings }) j

-- The line is written or not; at the threshold the coordinator's state, where there is one, is written
-- as a snapshot.
unfoldable pub append_entry : Bool → Reach → Option Table → Entry → Journal → Journal
unfolding compact
append_entry written reach state e j =
    let f : Files = j.files in
    let next = record j {
      files = record f { journal = some (lines_of f.journal ++ line e ∷ []) };
      write_count = suc j.write_count;
    } in
    if not j.enabled
    then j
    else (if not written
        then j
        else (if leb next.threshold next.write_count
            then elim state [ none ↦ next | some t ↦ compact reach t next ]
            else next))

-- What the coordinator has stays; the rest is added.
unfoldable pub restore_missing {ℓ} : {V : Type ℓ} → Dict V → Dict V → Dict V
restore_missing [] m = m
restore_missing ((k, v) ∷ saved) m = elim (lookup k m) [
  | none ↦ restore_missing saved (insert k v m)
  | some old ↦ restore_missing saved m
]

unfoldable pub restore_from_journal : Table → Table → Table
unfolding restore_missing
restore_from_journal saved t = record {
  queue = restore_missing saved.queue t.queue;
  bindings = restore_missing saved.bindings t.bindings;
}
