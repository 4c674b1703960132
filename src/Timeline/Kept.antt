-- ===== src/Timeline/Kept.antt =====
-- No event of the timeline is lost while its tables can be written
-- (source/services/Ultravisor-TimelineAggregator.cjs).
use ultravisor.Base.{
  ℕ, ◌-◌, ◌*◌, ◌==◌, Bool, true, false, ◌||◌, some, List, [], ◌∷◌, ◌++◌, ◌≡◌, refl, arith, contains,
  length, leb, Bool-cases, Option-cases, List-cases, inl, inr,
}
use ultravisor.Work.{Text}
use ultravisor.Timeline.Store.{
  TimelineRecord, Database, Tables, guids_of, stored_guids, to_insert, store_rows, insert_batch,
  older, not_older, archive_older_than,
}
use ultravisor.Timeline.Aggregator.{
  Timeline, day_ms, flush_batch, push_record, enqueue, archive_tick,
}

unfoldable pub has_guid : Text → List TimelineRecord → Bool
has_guid g [] = false
has_guid g (r ∷ rs) = r.guid == g || has_guid g rs

-- The event waits in the buffer or is in one of the two tables.
abbrev pub holds : Text → Timeline → Bool
holds g t = has_guid g t.agg.buffer || has_guid g t.tables.hot || has_guid g t.tables.archived

-- The tables can be written, and what the probe finds is there.
pub record Works (db : Database) : Type 0 where
  pub handle : db.has_handle ≡ true
  pub inserts : db.insert_fails ≡ false
  pub probes :
      (gs : List Text) (hot : List TimelineRecord) (known : List Text) (g : Text)
      → db.probe gs hot ≡ some known
      → contains g known ≡ true
      → has_guid g hot ≡ true

has_guid-append :
    (g : Text) (xs ys : List TimelineRecord)
    → has_guid g (xs ++ ys) ≡ (has_guid g xs || has_guid g ys)
unfolding has_guid
has_guid-append g [] ys = refl
has_guid-append g (x ∷ xs) ys = ground (arith, has_guid-append g xs ys)

has_guid-to_insert :
    (now : ℕ) (known : List Text) (g : Text) (rs : List TimelineRecord)
    → (g == 0) ≡ false
    → has_guid g rs ≡ true
    → (contains g known || has_guid g (to_insert now known rs)) ≡ true
unfolding has_guid to_insert
has_guid-to_insert now known g [] n h = ground arith
has_guid-to_insert now known g (r ∷ rs) n h = ground (arith, has_guid-to_insert now known g rs)

has_guid-older :
    (g : Text) (cutoff : ℕ) (rs : List TimelineRecord)
    → has_guid g rs ≡ (has_guid g (not_older cutoff rs) || has_guid g (older cutoff rs))
unfolding has_guid older not_older
has_guid-older g cutoff [] = refl
has_guid-older g cutoff (r ∷ rs) = ground (arith, has_guid-older g cutoff rs)

module _ (db : Database) where
  archived-insert_batch :
      (now : ℕ) (rs : List TimelineRecord) (s : Tables)
      → (insert_batch db now rs s).0.archived ≡ s.archived
  unfolding insert_batch
  archived-insert_batch now rs s =
      elim (List-cases (to_insert now (stored_guids db (guids_of rs) s.hot) rs)) [
        | inl e ↦ simp e (ground arith)
        | inr (q, qs, e) ↦ simp e (ground arith)
      ]

  ready-insert_batch :
      (now : ℕ) (rs : List TimelineRecord) (s : Tables)
      → (insert_batch db now rs s).0.ready ≡ s.ready
  unfolding insert_batch
  ready-insert_batch now rs s =
      elim (List-cases (to_insert now (stored_guids db (guids_of rs) s.hot) rs)) [
        | inl e ↦ simp e (ground arith)
        | inr (q, qs, e) ↦ simp e (ground arith)
      ]

  pub ready-flush_batch :
      (now : ℕ) (t : Timeline) → (flush_batch db now t).tables.ready ≡ t.tables.ready
  unfolding flush_batch
  ready-flush_batch now t = ground (arith, ready-insert_batch now t.agg.buffer t.tables)

  pub ready-enqueue :
      (now : ℕ) (r : TimelineRecord) (t : Timeline)
      → (enqueue db now r t).tables.ready ≡ t.tables.ready
  unfolding enqueue
  ready-enqueue now r t = ground (arith, ready-flush_batch now (push_record r t))

  pub ready-archive_tick :
      (now : ℕ) (t : Timeline) → (archive_tick db now t).tables.ready ≡ t.tables.ready
  unfolding archive_tick archive_older_than
  ready-archive_tick now t = ground arith

module _ (db : Database) (w : Works db) (g : Text) (named : (g == 0) ≡ false) where
  has_guid-stored_guids :
      (gs : List Text) (hot : List TimelineRecord)
      → contains g (stored_guids db gs hot) ≡ true
      → has_guid g hot ≡ true
  unfolding stored_guids contains
  has_guid-stored_guids [] hot h = ground arith
  has_guid-stored_guids (x ∷ xs) hot h = elim (Option-cases (db.probe (x ∷ xs) hot)) [
    | inl e ↦ ground arith
    | inr (known, e) ↦ w.probes (x ∷ xs) hot known g e (ground arith)
  ]

  has_guid-store_rows :
      (rs : List TimelineRecord) (s : Tables)
      → has_guid g (store_rows db rs s).0.hot ≡ (has_guid g s.hot || has_guid g rs)
  unfolding has_guid
  has_guid-store_rows [] s = ground arith
  has_guid-store_rows (r ∷ rs) s = simp (w.handle, w.inserts, has_guid-append g s.hot (r ∷ rs)) refl

  -- What was stored stays, and what was given is stored.
  has_guid-insert_batch :
      (now : ℕ) (rs : List TimelineRecord) (s : Tables)
      → s.ready ≡ true
      → (has_guid g rs || has_guid g s.hot) ≡ true
      → has_guid g (insert_batch db now rs s).0.hot ≡ true
  unfolding insert_batch
  has_guid-insert_batch now rs s ready h =
      let known = stored_guids db (guids_of rs) s.hot in
      simp (ready, has_guid-store_rows (to_insert now known rs) s)
        (ground (
          arith,
          has_guid-to_insert now known g rs named,
          has_guid-stored_guids (guids_of rs) s.hot,
        ))

  pub holds-flush_batch :
      (now : ℕ) (t : Timeline)
      → t.tables.ready ≡ true
      → holds g t ≡ true
      → holds g (flush_batch db now t) ≡ true
  unfolding flush_batch has_guid
  holds-flush_batch now t ready h =
      simp (ready, archived-insert_batch db now t.agg.buffer t.tables)
        (ground (arith, has_guid-insert_batch now t.agg.buffer t.tables ready))

  -- A record that comes is held, and so is what was held.
  pub holds-enqueue :
      (now : ℕ) (r : TimelineRecord) (t : Timeline)
      → t.tables.ready ≡ true
      → (r.guid == g || holds g t) ≡ true
      → holds g (enqueue db now r t) ≡ true
  unfolding enqueue has_guid
  holds-enqueue now r t ready h =
      let pushed : holds g (push_record r t) ≡ true =
        ground (arith, has_guid-append g t.agg.buffer (r ∷ [])) in
      elim (Bool-cases (leb t.agg.batch_size (length (t.agg.buffer ++ r ∷ [])))) [
        | inl e ↦ rw e (holds-flush_batch now (push_record r t) ready pushed)
        | inr e ↦ rw e pushed
      ]

  pub holds-archive_tick :
      (now : ℕ) (t : Timeline) → holds g t ≡ true → holds g (archive_tick db now t) ≡ true
  unfolding archive_tick archive_older_than
  holds-archive_tick now t h =
      let cutoff = now - t.agg.retention_days * day_ms in
      ground (
        arith,
        has_guid-older g cutoff t.tables.hot,
        has_guid-append g t.tables.archived (older cutoff t.tables.hot),
      )
