-- ===== src/Journal/Pointwise.antt =====
-- What a line of the journal does to one work item and to one binding (`_applyEntry`,
-- source/services/persistence/Ultravisor-Beacon-QueueJournal.cjs).
use ultravisor.Base.{
  ◌==◌, ◌≡◌, refl, ap, sym, ◌∙◌, ◌⊎◌, Option, none, some, List, [], ◌∷◌, inl, inr, Bool-cases,
  if◌then◌else◌,
}
use mathlib.Core.Option
use ultravisor.Base.Dict.{lookup, lookup-insert, lookup-modify, lookup-delete}
use ultravisor.Work.{Text}
use ultravisor.Journal.Entries.{
  SavedItem, SavedBinding, Table, Entry, enqueue, claim, complete_entry, fail_entry,
  affinity_create, affinity_clear, compact_marker, unknown_entry, Line, blank, garbled, line,
  claimed, apply_entry, replay_lines,
}

-- The item under a hash, as a line changes it.
unfoldable pub on_item : Text → Line → Option SavedItem → Option SavedItem
on_item k blank o = o
on_item k garbled o = o
on_item k (line (enqueue h it)) o = if h == 0 then o else (if h == k then some it else o)
on_item k (line (claim h b at)) o =
    if h == 0 then o else (if h == k then Option.map (claimed b at) o else o)
on_item k (line (complete_entry h)) o = if h == 0 then o else (if h == k then none else o)
on_item k (line (fail_entry h)) o = if h == 0 then o else (if h == k then none else o)
on_item k (line _) o = o

unfoldable pub on_binding : Text → Line → Option SavedBinding → Option SavedBinding
on_binding k (line (affinity_create h b)) o = if h == 0 then o else (if h == k then some b else o)
on_binding k (line (affinity_clear h)) o = if h == 0 then o else (if h == k then none else o)
on_binding k _ o = o

unfoldable pub through {ℓ} : {A : Type ℓ} → (Line → A → A) → List Line → A → A
through f [] o = o
through f (l ∷ ls) o = through f ls (f l o)

lookup-apply_entry :
    (k : Text) (e : Entry) (t : Table)
    → (lookup k (apply_entry e t).queue ≡ on_item k (line e) (lookup k t.queue))
      × (lookup k (apply_entry e t).bindings ≡ on_binding k (line e) (lookup k t.bindings))
unfolding apply_entry on_item on_binding
lookup-apply_entry k (enqueue h it) t = elim (Bool-cases (h == 0)) [
  | inl e ↦ rw e (refl, refl)
  | inr e ↦ rw e (lookup-insert h k it t.queue, refl)
]
lookup-apply_entry k (claim h b at) t = elim (Bool-cases (h == 0)) [
  | inl e ↦ rw e (refl, refl)
  | inr e ↦ rw e (lookup-modify h k (claimed b at) t.queue, refl)
]
lookup-apply_entry k (complete_entry h) t = elim (Bool-cases (h == 0)) [
  | inl e ↦ rw e (refl, refl)
  | inr e ↦ rw e (lookup-delete h k t.queue, refl)
]
lookup-apply_entry k (fail_entry h) t = elim (Bool-cases (h == 0)) [
  | inl e ↦ rw e (refl, refl)
  | inr e ↦ rw e (lookup-delete h k t.queue, refl)
]
lookup-apply_entry k (affinity_create h b) t = elim (Bool-cases (h == 0)) [
  | inl e ↦ rw e (refl, refl)
  | inr e ↦ rw e (refl, lookup-insert h k b t.bindings)
]
lookup-apply_entry k (affinity_clear h) t = elim (Bool-cases (h == 0)) [
  | inl e ↦ rw e (refl, refl)
  | inr e ↦ rw e (refl, lookup-delete h k t.bindings)
]
lookup-apply_entry k compact_marker t = (refl, refl)
lookup-apply_entry k (unknown_entry op) t = (refl, refl)

pub lookup-replay_lines :
    (k : Text) (ls : List Line) (t : Table)
    → (lookup k (replay_lines ls t).queue ≡ through (on_item k) ls (lookup k t.queue))
      × (lookup k (replay_lines ls t).bindings ≡ through (on_binding k) ls (lookup k t.bindings))
unfolding replay_lines through on_item on_binding
lookup-replay_lines k [] t = (refl, refl)
lookup-replay_lines k (blank ∷ ls) t = lookup-replay_lines k ls t
lookup-replay_lines k (garbled ∷ ls) t = lookup-replay_lines k ls t
lookup-replay_lines k (line e ∷ ls) t =
    let (q, b) = lookup-replay_lines k ls (apply_entry e t) in
    let (i, j) = lookup-apply_entry k e t in
    (q ∙ ap (through (on_item k) ls) i, b ∙ ap (through (on_binding k) ls) j)

-- A change of one entry that does not see what was there, one that is none, and one that overwrites a
-- part of it: the three ways in which a journal acts.
module _ {A : Type 0} (core : Option A → Option A) where
  abbrev pub Acts : (Option A → Option A) → Type 0
  Acts f =
      ((a b : Option A) → f a ≡ f b)
      ⊎ (((a : Option A) → f a ≡ a)
          ⊎ (((a : Option A) → core (f a) ≡ core a)
              × ((a b : Option A) → core a ≡ core b → f a ≡ f b)))

  Acts-compose : (f g : Option A → Option A) → Acts f → Acts g → Acts (λ a. g (f a))
  Acts-compose f g p (inl c) = inl (λ a b. c (f a) (f b))
  Acts-compose f g (inl c) (inr q) = inl (λ a b. ap g (c a b))
  Acts-compose f g (inr (inl i)) (inr (inl j)) = inr (inl (λ a. j (f a) ∙ i a))
  Acts-compose f g (inr (inl i)) (inr (inr (keeps, sets))) =
      inr (
        inr (λ a. keeps (f a) ∙ ap core (i a), λ a b e. ap g (i a) ∙ sets a b e ∙ ap g (sym (i b))))
  Acts-compose f g (inr (inr (keeps, sets))) (inr (inl j)) =
      inr (inr (λ a. ap core (j (f a)) ∙ keeps a, λ a b e. ap g (sets a b e)))
  Acts-compose f g (inr (inr (keeps, sets))) (inr (inr (keeps2, sets2))) =
      inr (inr (λ a. keeps2 (f a) ∙ keeps a, λ a b e. ap g (sets a b e)))

  -- Each way is the same twice as once.
  pub Acts-twice : (f : Option A → Option A) (a : Option A) → Acts f → f (f a) ≡ f a
  Acts-twice f a (inl c) = c (f a) a
  Acts-twice f a (inr (inl i)) = i (f a)
  Acts-twice f a (inr (inr (keeps, sets))) = sets (f a) a (keeps a)

  pub through-Acts :
      (f : Line → Option A → Option A)
      → ((l : Line) → Acts (f l))
      → (ls : List Line) → Acts (through f ls)
  unfolding through
  through-Acts f acts [] = inr (inl (λ a. refl))
  through-Acts f acts (l ∷ ls) = Acts-compose (f l) (through f ls) (acts l) (through-Acts f acts ls)
