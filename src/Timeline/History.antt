-- ===== src/Timeline/History.antt =====
-- Any sequence of events, flushes and archive cycles
-- (source/services/Ultravisor-TimelineAggregator.cjs).
use ultravisor.Base.{
  ℕ, ◌==◌, Bool, true, false, not, ◌&&◌, ◌||◌, List, [], ◌∷◌, ◌≡◌, refl, ◌∙◌, arith, Bool-cases,
  inl, inr,
}
use ultravisor.Work.{Text}
use ultravisor.Engine.Names.{Name, is_empty}
use ultravisor.Timeline.Store.{Database}
use ultravisor.Timeline.Aggregator.{
  Timeline, Envelope, Details, flush_batch, is_control_topic, is_control_execution_type,
  project_queue_envelope, project_execution_event, handle_queue_broadcast, handle_execution_event,
  archive_tick, stop,
}
use ultravisor.Timeline.Kept.{
  Works, holds, holds-flush_batch, holds-enqueue, holds-archive_tick, ready-flush_batch,
  ready-enqueue, ready-archive_tick,
}

abbrev pub Digest : Type 0
Digest = Text → Name → Text → ℕ → Text

pub data Event : Type 0 where
  broadcast : ℕ → Envelope → Event
  execution : ℕ → Name → Text → Details → Event
  flushes archives stops : ℕ → Event

unfoldable pub perform : Digest → Database → Event → Timeline → Timeline
unfolding handle_queue_broadcast handle_execution_event flush_batch archive_tick stop
perform digest db (broadcast now e) t = handle_queue_broadcast db now e t
perform digest db (execution now type run d) t = handle_execution_event digest db now type run d t
perform digest db (flushes now) t = flush_batch db now t
perform digest db (archives now) t = archive_tick db now t
perform digest db (stops now) t = stop db now t

unfoldable pub perform_all : Digest → Database → List Event → Timeline → Timeline
unfolding perform
perform_all digest db [] t = t
perform_all digest db (e ∷ es) t = perform_all digest db es (perform digest db e t)

-- Whether the event is one of the timeline's, under this GUID: it is no control frame and has what
-- names it.
unfoldable pub announces : Digest → Text → Event → Bool
unfolding project_queue_envelope project_execution_event
announces digest g (broadcast now e) =
    not (e.guid == 0 || is_empty e.topic || is_control_topic e.topic)
    && (project_queue_envelope now e).guid == g
announces digest g (execution now type run d) =
    not (is_empty type || run == 0 || is_control_execution_type type)
    && (project_execution_event digest now type run d).guid == g
announces digest g _ = false

unfoldable pub is_announced : Digest → Text → List Event → Bool
unfolding announces
is_announced digest g [] = false
is_announced digest g (e ∷ es) = announces digest g e || is_announced digest g es

ready-perform :
    (digest : Digest) (db : Database) (e : Event) (t : Timeline)
    → (perform digest db e t).tables.ready ≡ t.tables.ready
unfolding perform handle_queue_broadcast handle_execution_event stop
ready-perform digest db (broadcast now e) t =
    elim (Bool-cases (e.guid == 0 || is_empty e.topic || is_control_topic e.topic)) [
      | inl c ↦ rw c refl
      | inr c ↦ rw c (ready-enqueue db now (project_queue_envelope now e) t)
    ]
ready-perform digest db (execution now type run d) t =
    elim (Bool-cases (is_empty type || run == 0 || is_control_execution_type type)) [
      | inl c ↦ rw c refl
      | inr c ↦ rw c (ready-enqueue db now (project_execution_event digest now type run d) t)
    ]
ready-perform digest db (flushes now) t = ready-flush_batch db now t
ready-perform digest db (archives now) t = ready-archive_tick db now t
ready-perform digest db (stops now) t = ready-flush_batch db now t

module _ (digest : Digest) (db : Database) (w : Works db) (g : Text)
    (named : (g == 0) ≡ false) where
  holds-perform :
      (e : Event) (t : Timeline)
      → t.tables.ready ≡ true
      → (announces digest g e || holds g t) ≡ true
      → holds g (perform digest db e t) ≡ true
  unfolding perform announces handle_queue_broadcast handle_execution_event stop
  holds-perform (broadcast now e) t ready h =
      elim (Bool-cases (e.guid == 0 || is_empty e.topic || is_control_topic e.topic)) [
        | inl c ↦ rw c (rw c at h)
        | inr c ↦
            rw c (holds-enqueue db w g named now (project_queue_envelope now e) t ready (rw c at h))
      ]
  holds-perform (execution now type run d) t ready h =
      elim (Bool-cases (is_empty type || run == 0 || is_control_execution_type type)) [
        | inl c ↦ rw c (rw c at h)
        | inr c ↦ rw c (
            holds-enqueue db w g named now (project_execution_event digest now type run d) t ready
              (rw c at h))
      ]
  holds-perform (flushes now) t ready h = holds-flush_batch db w g named now t ready h
  holds-perform (archives now) t ready h = holds-archive_tick db w g named now t h
  holds-perform (stops now) t ready h = holds-flush_batch db w g named now t ready h

  -- No event is lost: while the tables can be written and a lookup finds only GUIDs that are
  -- stored, whatever sequence of broadcasts, execution events, flushes, archive cycles and stops
  -- comes, an event of the timeline with a GUID that comes in it, or that was held before, is
  -- afterwards in the buffer or in one of the two tables.
  pub holds-perform_all :
      (es : List Event) (t : Timeline)
      → t.tables.ready ≡ true
      → (is_announced digest g es || holds g t) ≡ true
      → holds g (perform_all digest db es t) ≡ true
  unfolding perform_all is_announced
  holds-perform_all [] t ready h = h
  holds-perform_all (e ∷ es) t ready h =
      holds-perform_all es (perform digest db e t) (ready-perform digest db e t ∙ ready)
        (ground (arith, holds-perform e t ready))
