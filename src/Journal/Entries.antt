-- ===== src/Journal/Entries.antt =====
-- The entries of the journal and their replay (`_applyEntry`, `replay`,
-- source/services/persistence/Ultravisor-Beacon-QueueJournal.cjs). Of an item the fields that the journal
-- neither reads nor sets are one text.
use ultravisor.Base.{
  ℕ, ◌==◌, Bool, true, false, Option, none, some, List, [], ◌∷◌, if◌then◌else◌, ltb,
}
use ultravisor.Base.Dict.{Dict, insert, modify, delete}
use ultravisor.Work.{Text, Status, pending, assigned, running}

-- `AssignedBeaconID` and `ClaimedAt` are 0 where they are null.
pub record SavedItem : Type 0 where
  pub status : Status
  pub beacon : Text
  pub claimed_at : ℕ
  pub body : Text

pub record SavedBinding : Type 0 where
  pub expires_at : ℕ
  pub body : Text

pub record Table : Type 0 where
  pub queue : Dict SavedItem
  pub bindings : Dict SavedBinding

abbrev pub empty_table : Table
empty_table = record { queue = []; bindings = [] }

pub data Entry : Type 0 where
  enqueue : Text → SavedItem → Entry
  claim : Text → Text → ℕ → Entry
  complete_entry fail_entry : Text → Entry
  affinity_create : Text → SavedBinding → Entry
  affinity_clear : Text → Entry
  compact_marker : Entry
  -- An operation that `_applyEntry` does not know, 'stalled' and 'retry-scheduled' among them.
  unknown_entry : Text → Entry

-- A line of the journal.
pub data Line : Type 0 where
  blank garbled : Line
  line : Entry → Line

abbrev pub claimed : Text → ℕ → SavedItem → SavedItem
claimed b at it = record it { status = running; beacon = b; claimed_at = at }

-- A key 0 is missing.
unfoldable pub apply_entry : Entry → Table → Table
apply_entry (enqueue h it) t = if h == 0 then t else record t { queue = insert h it t.queue }
apply_entry (claim h b at) t =
    if h == 0 then t else record t { queue = modify h (claimed b at) t.queue }
apply_entry (complete_entry h) t = if h == 0 then t else record t { queue = delete h t.queue }
apply_entry (fail_entry h) t = if h == 0 then t else record t { queue = delete h t.queue }
apply_entry (affinity_create k b) t =
    if k == 0 then t else record t { bindings = insert k b t.bindings }
apply_entry (affinity_clear k) t = if k == 0 then t else record t { bindings = delete k t.bindings }
apply_entry compact_marker t = t
apply_entry (unknown_entry op) t = t

unfoldable pub replay_lines : List Line → Table → Table
unfolding apply_entry
replay_lines [] t = t
replay_lines (blank ∷ ls) t = replay_lines ls t
replay_lines (garbled ∷ ls) t = replay_lines ls t
replay_lines (line e ∷ ls) t = replay_lines ls (apply_entry e t)

abbrev pub is_in_flight : Status → Bool
is_in_flight running = true
is_in_flight assigned = true
is_in_flight _ = false

abbrev pub reset : SavedItem → SavedItem
reset it =
    if is_in_flight it.status
    then record it { status = pending; beacon = 0; claimed_at = 0 }
    else it

unfoldable pub reset_in_flight : Dict SavedItem → Dict SavedItem
reset_in_flight [] = []
reset_in_flight ((h, it) ∷ q) = (h, reset it) ∷ reset_in_flight q

unfoldable pub drop_expired : ℕ → Dict SavedBinding → Dict SavedBinding
drop_expired now [] = []
drop_expired now ((k, b) ∷ bs) =
    let rest = drop_expired now bs in if ltb b.expires_at now then rest else (k, b) ∷ rest

-- The snapshot file: missing, unreadable, or a table.
pub data Snapshot : Type 0 where
  no_snapshot unreadable : Snapshot
  snapshot : Table → Snapshot

-- `none` where the journal file is missing or cannot be read.
pub record Files : Type 0 where
  pub saved : Snapshot
  pub journal : Option (List Line)

abbrev pub table_of : Snapshot → Table
table_of no_snapshot = empty_table
table_of unreadable = empty_table
table_of (snapshot t) = t

abbrev pub lines_of : Option (List Line) → List Line
lines_of none = []
lines_of (some ls) = ls

unfoldable pub replayed : Files → Table
unfolding replay_lines
replayed f = replay_lines (lines_of f.journal) (table_of f.saved)

unfoldable pub replay : Bool → ℕ → Files → Table
unfolding replayed reset_in_flight drop_expired
replay initialized now f =
    let t = replayed f in
    if initialized
    then record { queue = reset_in_flight t.queue; bindings = drop_expired now t.bindings }
    else empty_table
