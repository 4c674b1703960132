-- ===== src/Journal/Twice.antt =====
-- A journal that is replayed twice (`replay`, `_applyEntry`,
-- source/services/persistence/Ultravisor-Beacon-QueueJournal.cjs).
use ultravisor.Base.{
  ℕ, ◌==◌, ◌≡◌, refl, ap, sym, ◌∙◌, Option, none, some, List, inl, inr, Bool-cases,
}
use mathlib.Core.Option
use ultravisor.Base.Dict.{lookup}
use ultravisor.Work.{Text}
use ultravisor.Journal.Entries.{
  SavedItem, SavedBinding, Table, enqueue, claim, complete_entry, fail_entry, affinity_create,
  affinity_clear, compact_marker, unknown_entry, Line, blank, garbled, line, claimed, replay_lines,
}
use ultravisor.Journal.Pointwise.{
  on_item, on_binding, through, lookup-replay_lines, Acts, Acts-twice, through-Acts,
}

abbrev core_item : Option SavedItem → Option SavedItem
core_item o = Option.map (claimed 0 0) o

abbrev core_binding : Option SavedBinding → Option SavedBinding
core_binding o = o

core_claimed :
    (b : Text) (at : ℕ) (o : Option SavedItem)
    → core_item (Option.map (claimed b at) o) ≡ core_item o
core_claimed b at none = refl
core_claimed b at (some it) = refl

claimed_core :
    (b : Text) (at : ℕ) (o : Option SavedItem)
    → Option.map (claimed b at) o ≡ Option.map (claimed b at) (core_item o)
claimed_core b at none = refl
claimed_core b at (some it) = refl

on_item-Acts : (k : Text) (l : Line) → Acts core_item (on_item k l)
unfolding on_item
on_item-Acts k blank = inr (inl (λ o. refl))
on_item-Acts k garbled = inr (inl (λ o. refl))
on_item-Acts k (line (enqueue h it)) = elim (Bool-cases (h == 0)) [
  | inl e ↦ inr (inl (λ o. rw e refl))
  | inr e ↦ elim (Bool-cases (h == k)) [
    | inl q ↦ inl (λ a b. rw (e, q) refl)
    | inr q ↦ inr (inl (λ o. rw (e, q) refl))
  ]
]
on_item-Acts k (line (claim h b at)) = elim (Bool-cases (h == 0)) [
  | inl e ↦ inr (inl (λ o. rw e refl))
  | inr e ↦ elim (Bool-cases (h == k)) [
    | inl q ↦ inr (
        inr (
          λ o. rw (e, q) (core_claimed b at o),
          λ o p same.
              rw (e, q)
                (claimed_core b at o
                  ∙ ap (Option.map (claimed b at)) same
                  ∙ sym (claimed_core b at p)),
        ))
    | inr q ↦ inr (inl (λ o. rw (e, q) refl))
  ]
]
on_item-Acts k (line (complete_entry h)) = elim (Bool-cases (h == 0)) [
  | inl e ↦ inr (inl (λ o. rw e refl))
  | inr e ↦ elim (Bool-cases (h == k)) [
    | inl q ↦ inl (λ a b. rw (e, q) refl)
    | inr q ↦ inr (inl (λ o. rw (e, q) refl))
  ]
]
on_item-Acts k (line (fail_entry h)) = elim (Bool-cases (h == 0)) [
  | inl e ↦ inr (inl (λ o. rw e refl))
  | inr e ↦ elim (Bool-cases (h == k)) [
    | inl q ↦ inl (λ a b. rw (e, q) refl)
    | inr q ↦ inr (inl (λ o. rw (e, q) refl))
  ]
]
on_item-Acts k (line (affinity_create h b)) = inr (inl (λ o. refl))
on_item-Acts k (line (affinity_clear h)) = inr (inl (λ o. refl))
on_item-Acts k (line compact_marker) = inr (inl (λ o. refl))
on_item-Acts k (line (unknown_entry op)) = inr (inl (λ o. refl))

on_binding-Acts : (k : Text) (l : Line) → Acts core_binding (on_binding k l)
unfolding on_binding
on_binding-Acts k blank = inr (inl (λ o. refl))
on_binding-Acts k garbled = inr (inl (λ o. refl))
on_binding-Acts k (line (affinity_create h b)) = elim (Bool-cases (h == 0)) [
  | inl e ↦ inr (inl (λ o. rw e refl))
  | inr e ↦ elim (Bool-cases (h == k)) [
    | inl q ↦ inl (λ a b. rw (e, q) refl)
    | inr q ↦ inr (inl (λ o. rw (e, q) refl))
  ]
]
on_binding-Acts k (line (affinity_clear h)) = elim (Bool-cases (h == 0)) [
  | inl e ↦ inr (inl (λ o. rw e refl))
  | inr e ↦ elim (Bool-cases (h == k)) [
    | inl q ↦ inl (λ a b. rw (e, q) refl)
    | inr q ↦ inr (inl (λ o. rw (e, q) refl))
  ]
]
on_binding-Acts k (line (enqueue h it)) = inr (inl (λ o. refl))
on_binding-Acts k (line (claim h b at)) = inr (inl (λ o. refl))
on_binding-Acts k (line (complete_entry h)) = inr (inl (λ o. refl))
on_binding-Acts k (line (fail_entry h)) = inr (inl (λ o. refl))
on_binding-Acts k (line compact_marker) = inr (inl (λ o. refl))
on_binding-Acts k (line (unknown_entry op)) = inr (inl (λ o. refl))

-- The journal replayed on what it has been replayed to changes nothing.
pub replay_lines_twice :
    (k : Text) (ls : List Line) (t : Table)
    → (lookup k (replay_lines ls (replay_lines ls t)).queue ≡ lookup k (replay_lines ls t).queue)
      × (lookup k (replay_lines ls (replay_lines ls t)).bindings
          ≡ lookup k (replay_lines ls t).bindings)
replay_lines_twice k ls t =
    let (q, b) = lookup-replay_lines k ls t in
    let (q2, b2) = lookup-replay_lines k ls (replay_lines ls t) in
    (
      q2
          ∙ ap (through (on_item k) ls) q
          ∙ Acts-twice core_item (through (on_item k) ls) (lookup k t.queue)
              (through-Acts core_item (on_item k) (on_item-Acts k) ls)
          ∙ sym q,
      b2
          ∙ ap (through (on_binding k) ls) b
          ∙ Acts-twice core_binding (through (on_binding k) ls) (lookup k t.bindings)
              (through-Acts core_binding (on_binding k) (on_binding-Acts k) ls)
          ∙ sym b,
    )
