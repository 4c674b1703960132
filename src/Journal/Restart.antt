-- ===== src/Journal/Restart.antt =====
-- The restart (`replay`, source/services/persistence/Ultravisor-Beacon-QueueJournal.cjs;
-- `restoreFromJournal`, source/services/Ultravisor-Beacon-Coordinator.cjs).
use ultravisor.Base.{
  ℕ, ◌==◌, ◌≡◌, refl, ap, ◌∙◌, Bool, true, false, not, Option, none, some, List, [], ◌∷◌, inl, inr,
  Bool-cases, Option-cases, if◌then◌else◌, is_some, ==_iff, subst,
}
use mathlib.Core.Option
use ultravisor.Base.Dict.{Dict, lookup, insert, lookup-insert}
use ultravisor.Work.{Text}
use ultravisor.Journal.Entries.{
  SavedItem, enqueue, claim, complete_entry, fail_entry, affinity_create, affinity_clear,
  compact_marker, unknown_entry, Line, blank, garbled, line, claimed, replayed, replay, Files,
  lines_of, table_of, reset, reset_in_flight, is_in_flight, empty_table,
}
use ultravisor.Journal.Files.{restore_missing, restore_from_journal}
use ultravisor.Journal.Pointwise.{on_item, through, lookup-replay_lines}
use ultravisor.Journal.Crash.{lookup-reset_in_flight}

added :
    {V : Type 0} (h k : Text) (v : V) (saved m : Dict V)
    → lookup h m ≡ none
    → (elim (lookup k (insert h v m)) [ none ↦ lookup k saved | some x ↦ some x ])
      ≡ (elim (lookup k m) [ none ↦ (if h == k then some v else lookup k saved) | some x ↦ some x ])
added h k v saved m e = elim (Bool-cases (h == k)) [
  | inl q ↦
      let is : lookup k (insert h v m) ≡ some v = lookup-insert h k v m ∙ rw q refl in
      let free : lookup k m ≡ none = subst (λ j. lookup j m ≡ none) ((==_iff h k).0 q) e in
      rw (is, free, q) refl
  | inr q ↦
      let is : lookup k (insert h v m) ≡ lookup k m = lookup-insert h k v m ∙ rw q refl in
      elim (Option-cases (lookup k m)) [ inl n ↦ rw (is, n, q) refl | inr (x, n) ↦ rw (is, n) refl ]
]

stays :
    {V : Type 0} (h k : Text) (v w : V) (saved m : Dict V)
    → lookup h m ≡ some w
    → (elim (lookup k m) [ none ↦ lookup k saved | some x ↦ some x ])
      ≡ (elim (lookup k m) [ none ↦ (if h == k then some v else lookup k saved) | some x ↦ some x ])
stays h k v w saved m e = elim (Bool-cases (h == k)) [
  | inl q ↦
      let there : lookup k m ≡ some w = subst (λ j. lookup j m ≡ some w) ((==_iff h k).0 q) e in
      rw there refl
  | inr q ↦ elim (Option-cases (lookup k m)) [ inl n ↦ rw (n, q) refl | inr (x, n) ↦ rw n refl ]
]

lookup-restore_missing :
    {V : Type 0} (saved m : Dict V) (k : Text)
    → lookup k (restore_missing saved m)
      ≡ elim (lookup k m) [ none ↦ lookup k saved | some v ↦ some v ]
unfolding restore_missing lookup
lookup-restore_missing [] m k = elim (Option-cases (lookup k m)) [
  | inl e ↦ rw e refl
  | inr (v, e) ↦ rw e refl
]
lookup-restore_missing ((h, v) ∷ saved) m k = elim (Option-cases (lookup h m)) [
  | inl e ↦
      rw (e, restore_missing)
        (lookup-restore_missing saved (insert h v m) k ∙ added h k v saved m e)
  | inr (w, e) ↦
      rw (e, restore_missing) (lookup-restore_missing saved m k ∙ stays h k v w saved m e)
]

-- Whether an item is open by the journal: the last of its lines that enqueues, completes or fails it
-- enqueues it.
unfoldable pub opened : Text → List Line → Bool → Bool
opened k [] o = o
opened k (line (enqueue h it) ∷ ls) o =
    opened k ls (if h == 0 then o else (if h == k then true else o))
opened k (line (complete_entry h) ∷ ls) o =
    opened k ls (if h == 0 then o else (if h == k then false else o))
opened k (line (fail_entry h) ∷ ls) o =
    opened k ls (if h == 0 then o else (if h == k then false else o))
opened k (_ ∷ ls) o = opened k ls o

is_some_if :
    (a b : Bool) (x o : Option SavedItem)
    → is_some (if a then o else (if b then x else o))
      ≡ (if a then is_some o else (if b then is_some x else is_some o))
is_some_if true b x o = refl
is_some_if false true x o = refl
is_some_if false false x o = refl

is_some-map : {A B : Type 0} (f : A → B) (o : Option A) → is_some (Option.map f o) ≡ is_some o
is_some-map f none = refl
is_some-map f (some a) = refl

claimed_if :
    (a b : Bool) (f : SavedItem → SavedItem) (o : Option SavedItem)
    → is_some (if a then o else (if b then Option.map f o else o)) ≡ is_some o
claimed_if true b f o = refl
claimed_if false true f o = is_some-map f o
claimed_if false false f o = refl

opened-through :
    (k : Text) (ls : List Line) (o : Option SavedItem)
    → is_some (through (on_item k) ls o) ≡ opened k ls (is_some o)
unfolding opened through on_item
opened-through k [] o = refl
opened-through k (blank ∷ ls) o = opened-through k ls o
opened-through k (garbled ∷ ls) o = opened-through k ls o
opened-through k (line (enqueue h it) ∷ ls) o =
    opened-through k ls _ ∙ ap (opened k ls) (is_some_if (h == 0) (h == k) (some it) o)
opened-through k (line (claim h b at) ∷ ls) o =
    opened-through k ls _ ∙ ap (opened k ls) (claimed_if (h == 0) (h == k) (claimed b at) o)
opened-through k (line (complete_entry h) ∷ ls) o =
    opened-through k ls _ ∙ ap (opened k ls) (is_some_if (h == 0) (h == k) none o)
opened-through k (line (fail_entry h) ∷ ls) o =
    opened-through k ls _ ∙ ap (opened k ls) (is_some_if (h == 0) (h == k) none o)
opened-through k (line (affinity_create h b) ∷ ls) o = opened-through k ls o
opened-through k (line (affinity_clear h) ∷ ls) o = opened-through k ls o
opened-through k (line compact_marker ∷ ls) o = opened-through k ls o
opened-through k (line (unknown_entry op) ∷ ls) o = opened-through k ls o

reset_not_in_flight : (it : SavedItem) → is_in_flight (reset it).status ≡ false
reset_not_in_flight it = elim (Bool-cases (is_in_flight it.status)) [
  | inl e ↦ rw e refl
  | inr e ↦ rw e e
]

-- There is no item, or one that is neither running nor assigned.
abbrev pub is_at_rest : Option SavedItem → Bool
is_at_rest none = true
is_at_rest (some it) = not (is_in_flight it.status)

reset_at_rest : (o : Option SavedItem) → is_at_rest (Option.map reset o) ≡ true
reset_at_rest none = refl
reset_at_rest (some it) = ap not (reset_not_in_flight it)

-- After a restart the coordinator has an item under exactly the hashes that the snapshot had and the
-- journal did not close, or that the journal opened, and no item is running or assigned.
pub restore_from_journal-replay :
    (f : Files) (now : ℕ) (k : Text)
    → (is_some (lookup k (restore_from_journal (replay true now f) empty_table).queue)
        ≡ opened k (lines_of f.journal) (is_some (lookup k (table_of f.saved).queue)))
      × (is_at_rest (lookup k (restore_from_journal (replay true now f) empty_table).queue) ≡ true)
unfolding restore_from_journal replay replayed lookup
restore_from_journal-replay f now k =
    let is : lookup k (restore_from_journal (replay true now f) empty_table).queue
        ≡ Option.map reset (lookup k (replayed f).queue) =
      lookup-restore_missing (reset_in_flight (replayed f).queue) [] k
      ∙ lookup-reset_in_flight k (replayed f).queue in
    (
      ap is_some is
          ∙ is_some-map reset (lookup k (replayed f).queue)
          ∙ ap is_some (lookup-replay_lines k (lines_of f.journal) (table_of f.saved)).0
          ∙ opened-through k (lines_of f.journal) (lookup k (table_of f.saved).queue),
      ap is_at_rest is ∙ reset_at_rest (lookup k (replayed f).queue),
    )
