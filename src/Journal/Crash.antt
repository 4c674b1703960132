-- ===== src/Journal/Crash.antt =====
-- Compaction with a crash in it (`compact`, `replay`,
-- source/services/persistence/Ultravisor-Beacon-QueueJournal.cjs).
use ultravisor.Base.{
  ℕ, ◌==◌, ◌≡◌, refl, ap, sym, ◌∙◌, true, false, [], ◌∷◌, inl, inr, Bool-cases, subst,
}
use mathlib.Core.Option
use ultravisor.Base.Dict.{Dict, lookup}
use ultravisor.Work.{Text}
use ultravisor.Journal.Entries.{
  SavedItem, apply_entry, replay_lines, replayed, replay, Files, lines_of, table_of, reset,
  reset_in_flight,
}
use ultravisor.Journal.Files.{
  Journal, Reach, nothing, renamed, emptied, whole, compact, compacted, open_items, is_closed,
}
use ultravisor.Journal.Twice.{replay_lines_twice}

abbrev pub AllOpen : Dict SavedItem → Type 0
AllOpen [] = Unit
AllOpen ((h, it) ∷ q) = (is_closed it.status ≡ false) × AllOpen q

open_items_all : (q : Dict SavedItem) → AllOpen q → open_items q ≡ q
unfolding open_items
open_items_all [] o = refl
open_items_all ((h, it) ∷ q) (e, o) = rw e (ap (λ r. (h, it) ∷ r) (open_items_all q o))

pub lookup-reset_in_flight :
    (k : Text) (q : Dict SavedItem) → lookup k (reset_in_flight q) ≡ Option.map reset (lookup k q)
unfolding reset_in_flight lookup
lookup-reset_in_flight k [] = refl
lookup-reset_in_flight k ((h, it) ∷ q) = elim (Bool-cases (h == k)) [
  | inl e ↦ rw e refl
  | inr e ↦ rw e (lookup-reset_in_flight k q)
]

-- What the files replay to is the same for each item and each binding.
abbrev Alike : Text → Files → Files → Type 0
Alike k f g =
    (lookup k (replayed f).queue ≡ lookup k (replayed g).queue)
    × (lookup k (replayed f).bindings ≡ lookup k (replayed g).bindings)

compacted-Alike :
    (reach : Reach) (j : Journal) (k : Text)
    → Alike k (compacted reach (replayed j.files) j).files j.files
unfolding replayed replay_lines apply_entry
compacted-Alike nothing j k = (refl, refl)
compacted-Alike renamed j k =
    replay_lines_twice k (lines_of j.files.journal) (table_of j.files.saved)
compacted-Alike emptied j k = (refl, refl)
compacted-Alike whole j k = (refl, refl)

replayed-compact :
    (reach : Reach) (j : Journal) (k : Text)
    → AllOpen (replayed j.files).queue
    → Alike k (compact reach (replayed j.files) j).files j.files
unfolding compact
replayed-compact reach j k o = elim (Bool-cases j.enabled) [
  | inr e ↦ rw (e, compact) (refl, refl)
  | inl e ↦
      let all : open_items (replayed j.files).queue ≡ (replayed j.files).queue =
        open_items_all (replayed j.files).queue o in
      let whole_table : compact reach (replayed j.files) j ≡ compacted reach (replayed j.files) j =
        simp e (
          ap (λ q. compacted reach (record { queue = q; bindings = (replayed j.files).bindings }) j)
            all) in
      subst (λ (i : Journal). Alike k i.files j.files) (sym whole_table) (compacted-Alike reach j k)
]

-- A compaction of a journal with the state that its files replay to, all of whose items are
-- open, leaves files that replay to the same items and bindings, wherever it is cut off.
pub replay-compact :
    (reach : Reach) (j : Journal) (now : ℕ) (k : Text)
    → AllOpen (replayed j.files).queue
    → (lookup k (replay true now (compact reach (replayed j.files) j).files).queue
        ≡ lookup k (replay true now j.files).queue)
      × (lookup k (replayed (compact reach (replayed j.files) j).files).bindings
          ≡ lookup k (replayed j.files).bindings)
unfolding replay
replay-compact reach j now k o =
    let (q, b) = replayed-compact reach j k o in
    (
      lookup-reset_in_flight k (replayed (compact reach (replayed j.files) j).files).queue
          ∙ ap (Option.map reset) q
          ∙ sym (lookup-reset_in_flight k (replayed j.files).queue),
      b,
    )
