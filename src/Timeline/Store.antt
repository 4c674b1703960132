-- ===== src/Timeline/Store.antt =====
-- The timeline's two tables (source/services/persistence/Ultravisor-Timeline-Store.cjs). Reads go
-- through the package Meadow and are arguments, and so is whether a statement fails; the SQL of the
-- inserts and of the archive is the source's own. The columns for audit, IDs and `RawRefHash` are
-- left out.
use ultravisor.Base.{
  ℕ, zero, suc, ◌==◌, Bool, false, not, ◌||◌, Option, none, some, List, [], ◌∷◌, ◌++◌,
  if◌then◌else◌, ltb, leb, length, contains, or_num, min,
}
use ultravisor.Work.{Text}

pub record TimelineRecord : Type 0 where
  pub guid : Text
  pub at_ms : ℕ
  pub end_ms : ℕ
  pub event_type : List ℕ
  pub run : Text
  pub operation : Text
  pub item : Text
  pub capability : Text
  pub action : Text
  pub beacon : Text
  pub status : Text
  pub duration : ℕ

-- `ToIso`, `FromIso`, `Capabilities`, `RunHashes`, `WorkItemHash`.
pub record Filter : Type 0 where
  pub until_ms : Option ℕ
  pub from_ms : Option ℕ
  pub capabilities : List Text
  pub runs : List Text
  pub item : Text

-- `doReads` with `EventGUID IN`, `doReads` with a filter and a cap, `doCount`; `none` where it fails.
-- Then whether the insertion or the archive's transaction fails, and whether there is a handle.
pub record Database : Type 0 where
  pub probe : List Text → List TimelineRecord → Option (List Text)
  pub reads : Filter → ℕ → List TimelineRecord → Option (List TimelineRecord)
  pub counts : Filter → List TimelineRecord → Option ℕ
  pub has_handle : Bool
  pub insert_fails : Bool
  pub archive_fails : Bool

pub record Tables : Type 0 where
  pub ready : Bool
  pub hot : List TimelineRecord
  pub archived : List TimelineRecord

unfoldable pub guids_of : List TimelineRecord → List Text
guids_of [] = []
guids_of (r ∷ rs) = if r.guid == 0 then guids_of rs else r.guid ∷ guids_of rs

-- The probe is made only for GUIDs that are there; if it fails, none counts as stored.
unfoldable pub stored_guids : Database → List Text → List TimelineRecord → List Text
stored_guids db [] hot = []
stored_guids db (g ∷ gs) hot = elim (db.probe (g ∷ gs) hot) [ none ↦ [] | some known ↦ known ]

abbrev pub with_times : ℕ → TimelineRecord → TimelineRecord
with_times now r = record r {
  at_ms = or_num r.at_ms now;
  end_ms = or_num r.end_ms (or_num r.at_ms now);
}

unfoldable pub to_insert : ℕ → List Text → List TimelineRecord → List TimelineRecord
to_insert now known [] = []
to_insert now known (r ∷ rs) =
    let rest = to_insert now known rs in
    if r.guid == 0 || contains r.guid known then rest else with_times now r ∷ rest

abbrev pub store_rows : Database → List TimelineRecord → Tables → Tables × ℕ
store_rows db [] s = (s, 0)
store_rows db (r ∷ rs) s =
    if not db.has_handle || db.insert_fails
    then (s, 0)
    else (record s { hot = s.hot ++ r ∷ rs }, length (r ∷ rs))

unfoldable pub insert_batch : Database → ℕ → List TimelineRecord → Tables → Tables × ℕ
unfolding guids_of stored_guids to_insert
insert_batch db now rs s =
    if s.ready
    then store_rows db (to_insert now (stored_guids db (guids_of rs) s.hot) rs) s
    else (s, 0)

abbrev pub reads_cap : ℕ
reads_cap = 10000

unfoldable pub read_one_table : Database → Filter → ℕ → List TimelineRecord → List TimelineRecord
read_one_table db filter cap rows = elim (db.reads filter cap rows) [ none ↦ [] | some rs ↦ rs ]

-- The stable sort by `At`.
unfoldable pub insert_by_time : TimelineRecord → List TimelineRecord → List TimelineRecord
insert_by_time r [] = r ∷ []
insert_by_time r (q ∷ qs) = if leb r.at_ms q.at_ms then r ∷ q ∷ qs else q ∷ insert_by_time r qs

unfoldable pub sort_by_time : List TimelineRecord → List TimelineRecord
unfolding insert_by_time
sort_by_time [] = []
sort_by_time (r ∷ rs) = insert_by_time r (sort_by_time rs)

-- The loop with `tmpSeen`, which stops at the limit.
unfoldable pub first_of_each : ℕ → List Text → List TimelineRecord → List TimelineRecord
first_of_each limit seen [] = []
first_of_each zero seen (r ∷ rs) = []
first_of_each (suc n) seen (r ∷ rs) =
    let skipped = first_of_each (suc n) seen rs in
    let kept = r ∷ first_of_each n (r.guid ∷ seen) rs in
    if contains r.guid seen then skipped else kept

pub record Range : Type 0 where
  pub records : List TimelineRecord
  pub more : Bool

-- A limit of 0 counts as none.
abbrev pub limit_of : ℕ → ℕ
limit_of asked = if asked == 0 then reads_cap else min asked reads_cap

unfoldable pub range_rows : Database → Filter → Bool → ℕ → Tables → List TimelineRecord
unfolding read_one_table sort_by_time
range_rows db filter include_archive limit s =
    if include_archive
    then sort_by_time (
        read_one_table db filter (suc limit) s.hot
        ++ read_one_table db filter (suc limit) s.archived)
    else read_one_table db filter (suc limit) s.hot

unfoldable pub read_range : Database → Filter → Bool → ℕ → Tables → Range
unfolding range_rows first_of_each
read_range db filter include_archive asked s =
    let rows = range_rows db filter include_archive (limit_of asked) s in
    if s.ready
    then record {
      records = first_of_each (limit_of asked) [] rows;
      more = ltb (limit_of asked) (length rows);
    }
    else record { records = []; more = false }

unfoldable pub count_range : Database → Filter → Tables → ℕ
count_range db filter s =
    if s.ready then elim (db.counts filter s.hot) [ none ↦ 0 | some n ↦ n ] else 0

-- `WHERE At < ?`, and the rows that it leaves.
unfoldable pub older : ℕ → List TimelineRecord → List TimelineRecord
older cutoff [] = []
older cutoff (r ∷ rs) = if ltb r.at_ms cutoff then r ∷ older cutoff rs else older cutoff rs

unfoldable pub not_older : ℕ → List TimelineRecord → List TimelineRecord
not_older cutoff [] = []
not_older cutoff (r ∷ rs) =
    if ltb r.at_ms cutoff then not_older cutoff rs else r ∷ not_older cutoff rs

-- The insertion and the deletion are one transaction.
unfoldable pub archive_older_than : Database → ℕ → Tables → Tables × ℕ
unfolding older not_older
archive_older_than db cutoff s =
    if not s.ready || not db.has_handle || db.archive_fails then (s, 0) else (
      record s { hot = not_older cutoff s.hot; archived = s.archived ++ older cutoff s.hot },
      length (older cutoff s.hot),
    )
