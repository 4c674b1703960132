-- ===== src/Timeline/Ranges.antt =====
-- What a range read gives (`readRange`, source/services/persistence/Ultravisor-Timeline-Store.cjs).
use ultravisor.Base.{
  ℕ, zero, suc, ◌==◌, ◌≤◌, Bool, true, false, List, [], ◌∷◌, ◌≡◌, refl, ◌⊎◌, inl, inr, arith,
  contains, length, Bool-cases,
}
use ultravisor.Work.{Text}
use ultravisor.Timeline.Store.{
  TimelineRecord, Filter, Database, Tables, first_of_each, limit_of, range_rows, read_range,
}
use ultravisor.Timeline.Kept.{has_guid}

-- No record has a GUID of the list or of a record before it.
abbrev pub IsFresh : List Text → List TimelineRecord → Type 0
IsFresh seen [] = Unit
IsFresh seen (r ∷ rs) = (contains r.guid seen ≡ false) × IsFresh (r.guid ∷ seen) rs

first_of_each-IsFresh :
    (n : ℕ) (seen : List Text) (rs : List TimelineRecord) → IsFresh seen (first_of_each n seen rs)
unfolding first_of_each
first_of_each-IsFresh n seen [] = tt
first_of_each-IsFresh zero seen (r ∷ rs) = tt
first_of_each-IsFresh (suc n) seen (r ∷ rs) = elim (Bool-cases (contains r.guid seen)) [
  | inl e ↦ rw e (first_of_each-IsFresh (suc n) seen rs)
  | inr e ↦ rw e (e, first_of_each-IsFresh n (r.guid ∷ seen) rs)
]

length-first_of_each :
    (n : ℕ) (seen : List Text) (rs : List TimelineRecord) → length (first_of_each n seen rs) ≤ n
unfolding first_of_each
length-first_of_each n seen [] = omega arith
length-first_of_each zero seen (r ∷ rs) = omega arith
length-first_of_each (suc n) seen (r ∷ rs) =
    ground (arith, length-first_of_each (suc n) seen rs, length-first_of_each n (r.guid ∷ seen) rs)

-- A GUID that is not taken is in the result unless that is full.
first_of_each_complete :
    (g : Text) (n : ℕ) (seen : List Text) (rs : List TimelineRecord)
    → has_guid g rs ≡ true
    → contains g seen ≡ false
    → (length (first_of_each n seen rs) ≡ n) ⊎ (has_guid g (first_of_each n seen rs) ≡ true)
unfolding first_of_each has_guid contains
first_of_each_complete g n seen [] h c = ground arith
first_of_each_complete g zero seen (r ∷ rs) h c = inl refl
first_of_each_complete g (suc n) seen (r ∷ rs) h c = elim (Bool-cases (contains r.guid seen)) [
  | inl e ↦ rw e (first_of_each_complete g (suc n) seen rs (ground arith) c)
  | inr e ↦ rw e (elim (Bool-cases (r.guid == g)) [
    | inl same ↦ inr (ground arith)
    | inr other ↦
        elim (first_of_each_complete g n (r.guid ∷ seen) rs (ground arith) (ground arith)) [
          | inl full ↦ inl (omega (arith, full))
          | inr found ↦ inr (ground arith)
        ]
  ])
]

-- A range read of an open store gives each GUID at most once and no more records than the limit, and
-- each GUID of the rows that the two tables give, unless there are as many records as the limit.
pub read_range_lem :
    (db : Database) (filter : Filter) (include_archive : Bool) (asked : ℕ) (s : Tables) (g : Text)
    → s.ready ≡ true
    → has_guid g (range_rows db filter include_archive (limit_of asked) s) ≡ true
    → IsFresh [] (read_range db filter include_archive asked s).records
      × (length (read_range db filter include_archive asked s).records ≤ limit_of asked)
      × ((length (read_range db filter include_archive asked s).records ≡ limit_of asked)
          ⊎ (has_guid g (read_range db filter include_archive asked s).records ≡ true))
unfolding read_range contains
read_range_lem db filter include_archive asked s g ready found =
    let rows = range_rows db filter include_archive (limit_of asked) s in
    simp ready (
      first_of_each-IsFresh (limit_of asked) [] rows,
      length-first_of_each (limit_of asked) [] rows,
      first_of_each_complete g (limit_of asked) [] rows found refl,
    )
