-- ===== src/Timeline/Aggregator.antt =====
-- The buffer in front of the timeline's tables
-- (source/services/Ultravisor-TimelineAggregator.cjs). Topics and event types are lists of
-- characters. The digest that names an execution event is an argument.
use Prim.Native.Char.{code}
use Prim.Native.String.{String}
use ultravisor.Base.{
  ℕ, suc, ◌+◌, ◌-◌, ◌*◌, ◌==◌, Bool, true, not, ◌&&◌, ◌||◌, Option, none, some, List, [], ◌∷◌, ◌++◌,
  if◌then◌else◌, leb, length, or_num, or_else,
}
use ultravisor.Work.{Text}
use ultravisor.Engine.Names.{Name, same_name, strip, is_empty}
use ultravisor.Timeline.Store.{TimelineRecord, Database, Tables, insert_batch, archive_older_than}

pub record Aggregator : Type 0 where
  pub buffer : List TimelineRecord
  pub batch_size : ℕ
  pub retention_days : ℕ
  pub ingested : ℕ
  pub dropped : ℕ

-- The aggregator beside the tables that it writes to.
pub record Timeline : Type 0 where
  pub agg : Aggregator
  pub tables : Tables

-- The fields of the payload that are read, and those of the envelope.
pub record Envelope : Type 0 where
  pub guid : Text
  pub topic : Name
  pub emitted_at : ℕ
  pub run_hash : Text
  pub run_id : Text
  pub operation : Text
  pub item : Text
  pub capability : Text
  pub action : Text
  pub beacon : Text
  pub assigned_beacon : Text
  pub status : Text
  pub duration : Option ℕ

-- The fields of an execution event's data.
pub record Details : Type 0 where
  pub guid : Text
  pub node : Text
  pub seq : ℕ
  pub at_time : ℕ
  pub emitted_at : ℕ
  pub operation : Text
  pub item : Text
  pub capability : Text
  pub action : Text
  pub beacon : Text
  pub status : Text
  pub duration : Option ℕ
  pub elapsed : Option ℕ

abbrev pub codes : String → Name
codes String.[] = []
codes (String.◌∷◌ c s) = code c ∷ codes s

abbrev pub full_stop : ℕ
full_stop = 46

-- `charAt(0).toUpperCase()` on ASCII.
abbrev pub to_upper : ℕ → ℕ
to_upper c = if leb 97 c && leb c 122 then c - 32 else c

unfoldable pub capitalize_after : Bool → Name → Name
capitalize_after start [] = []
capitalize_after start (c ∷ cs) =
    (if start then to_upper c else c) ∷ capitalize_after (c == full_stop) cs

unfoldable pub after_full_stop : Name → Option Name
after_full_stop [] = none
after_full_stop (c ∷ cs) =
    let later = after_full_stop cs in if c == full_stop then some cs else later

unfoldable pub topic_to_event_type : Name → Name
unfolding after_full_stop capitalize_after
topic_to_event_type topic = elim (after_full_stop topic) [
  | none ↦ topic
  | some rest ↦ capitalize_after true rest
]

abbrev pub is_control_topic : Name → Bool
is_control_topic t =
    same_name t (codes "queue.summary")
    || same_name t (codes "queue.replay_begin")
    || same_name t (codes "queue.replay_complete")
    || same_name t (codes "queue.reset")

abbrev pub is_control_execution_type : Name → Bool
is_control_execution_type t =
    same_name t (codes "execution.replay_begin")
    || same_name t (codes "execution.replay_complete")
    || same_name t (codes "execution.reset")

unfoldable pub project_queue_envelope : ℕ → Envelope → TimelineRecord
unfolding topic_to_event_type
project_queue_envelope now e = record {
  guid = e.guid;
  at_ms = or_num e.emitted_at now;
  end_ms = or_num e.emitted_at now;
  event_type = topic_to_event_type e.topic;
  run = or_num e.run_hash e.run_id;
  operation = e.operation;
  item = e.item;
  capability = e.capability;
  action = e.action;
  beacon = or_num e.beacon e.assigned_beacon;
  status = e.status;
  duration = or_else e.duration 0;
}

-- `pEventType.replace(/^execution\./, '')`
abbrev pub without_prefix : Name → Name
without_prefix t = or_else (strip (codes "execution.") t) t

-- The digest is of the run, the event type, the node, and the sequence number or the time.
unfoldable pub project_execution_event :
    (Text → Name → Text → ℕ → Text) → ℕ → Name → Text → Details → TimelineRecord
unfolding strip
project_execution_event digest now t run d =
    let at_time = or_num d.at_time (or_num d.emitted_at now) in
    record {
      guid = or_num d.guid (digest run t d.node (or_num d.seq at_time));
      at_ms = at_time;
      end_ms = at_time;
      event_type = codes "Execution." ++ without_prefix t;
      run = run;
      operation = d.operation;
      item = d.item;
      capability = d.capability;
      action = d.action;
      beacon = d.beacon;
      status = d.status;
      duration = or_else d.duration (or_else d.elapsed 0);
    }

unfoldable pub flush_batch : Database → ℕ → Timeline → Timeline
flush_batch db now t =
    let a = t.agg in
    if not t.tables.ready
    then record t { agg = record a { dropped = a.dropped + length a.buffer; buffer = [] } }
    else record {
      agg = record a { buffer = [] };
      tables = (insert_batch db now a.buffer t.tables).0;
    }

abbrev pub push_record : TimelineRecord → Timeline → Timeline
push_record r t =
    let a = t.agg in
    record t { agg = record a { buffer = a.buffer ++ r ∷ []; ingested = suc a.ingested } }

unfoldable pub enqueue : Database → ℕ → TimelineRecord → Timeline → Timeline
unfolding flush_batch
enqueue db now r t =
    if leb t.agg.batch_size (length (t.agg.buffer ++ r ∷ []))
    then flush_batch db now (push_record r t)
    else push_record r t

unfoldable pub handle_queue_broadcast : Database → ℕ → Envelope → Timeline → Timeline
unfolding project_queue_envelope enqueue same_name
handle_queue_broadcast db now e t =
    if e.guid == 0 || is_empty e.topic || is_control_topic e.topic
    then t
    else enqueue db now (project_queue_envelope now e) t

unfoldable pub handle_execution_event :
    (Text → Name → Text → ℕ → Text) → Database → ℕ → Name → Text → Details → Timeline → Timeline
unfolding project_execution_event enqueue same_name
handle_execution_event digest db now type run d t =
    if is_empty type || run == 0 || is_control_execution_type type
    then t
    else enqueue db now (project_execution_event digest now type run d) t

abbrev pub day_ms : ℕ
day_ms = 86400000

unfoldable pub archive_tick : Database → ℕ → Timeline → Timeline
archive_tick db now t = record t {
  tables = (archive_older_than db (now - t.agg.retention_days * day_ms) t.tables).0;
}

-- `stop` flushes once more.
unfoldable pub stop : Database → ℕ → Timeline → Timeline
unfolding flush_batch
stop db now t = flush_batch db now t
