-- ===== src/Tests/Timelines.antt =====
-- The theorems on the timeline at two tables with one event each.
use ultravisor.Base.{
  ℕ, ◌+◌, ◌≤◌, true, false, none, some, List, [], ◌∷◌, ◌≡◌, ◌⊎◌, refl, arith, length, contains,
}
use ultravisor.Work.{Text}
use ultravisor.Engine.Names.{same_name}
use ultravisor.Timeline.Store.{
  TimelineRecord, Filter, Database, Tables, guids_of, limit_of, read_range, range_rows,
  read_one_table, sort_by_time, insert_by_time,
}
use ultravisor.Timeline.Aggregator.{Timeline, Envelope, codes, project_queue_envelope}
use ultravisor.Timeline.Kept.{Works, has_guid, holds}
use ultravisor.Timeline.History.{
  Event, Digest, broadcast, archives, flushes, perform_all, announces, is_announced,
  holds-perform_all,
}
use ultravisor.Timeline.Ranges.{IsFresh, read_range_lem}

abbrev record_of : Text → ℕ → TimelineRecord
record_of g now = record {
  guid = g;
  at_ms = now;
  end_ms = now;
  event_type = codes "Running";
  run = 0;
  operation = 0;
  item = 0;
  capability = 0;
  action = 0;
  beacon = 0;
  status = 0;
  duration = 0;
}

-- A database whose reads give every row.
abbrev plain_database : Database
plain_database = record {
  probe = λ gs hot. some (guids_of hot);
  reads = λ filter cap rows. some rows;
  counts = λ filter rows. some (length rows);
  has_handle = true;
  insert_fails = false;
  archive_fails = false;
}

abbrev no_filter : Filter
no_filter = record { until_ms = none; from_ms = none; capabilities = []; runs = []; item = 0 }

abbrev two_tables : Tables
two_tables = record {
  ready = true;
  hot = record_of 4 2000 ∷ [];
  archived = record_of 3 1000 ∷ record_of 4 2000 ∷ [];
}

abbrev timeline : Timeline
timeline = record {
  agg = record { buffer = []; batch_size = 2; retention_days = 30; ingested = 0; dropped = 0 };
  tables = two_tables;
}

guids_of-has_guid :
    (g : Text) (rs : List TimelineRecord) → contains g (guids_of rs) ≡ true → has_guid g rs ≡ true
unfolding guids_of has_guid contains
guids_of-has_guid g [] h = h
guids_of-has_guid g (r ∷ rs) h = ground (arith, guids_of-has_guid g rs)

plain_database-Works : Works plain_database
plain_database-Works = record {
  handle = refl;
  inserts = refl;
  probes = λ gs hot known g e h. guids_of-has_guid g hot (cc (e, h));
}

abbrev envelope : Envelope
envelope = record {
  guid = 9;
  topic = codes "queue.running";
  emitted_at = 5000;
  run_hash = 0;
  run_id = 0;
  operation = 0;
  item = 7;
  capability = 0;
  action = 0;
  beacon = 0;
  assigned_beacon = 60;
  status = 0;
  duration = none;
}

abbrev digest : Digest
digest run type node n = 1000 + n

abbrev events : List Event
events = broadcast 5000 envelope ∷ flushes 6000 ∷ archives 7000 ∷ []

holds-perform_all_example : holds 9 (perform_all digest plain_database events timeline) ≡ true
unfolding is_announced announces same_name project_queue_envelope
holds-perform_all_example =
    holds-perform_all digest plain_database plain_database-Works 9 refl events timeline refl refl

read_range_example :
    IsFresh [] (read_range plain_database no_filter true 1 two_tables).records
    × (length (read_range plain_database no_filter true 1 two_tables).records ≤ limit_of 1)
    × ((length (read_range plain_database no_filter true 1 two_tables).records ≡ limit_of 1)
        ⊎ (has_guid 3 (read_range plain_database no_filter true 1 two_tables).records ≡ true))
unfolding range_rows read_one_table sort_by_time insert_by_time has_guid
read_range_example = read_range_lem plain_database no_filter true 1 two_tables 3 refl refl
