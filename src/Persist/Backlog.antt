-- ===== src/Persist/Backlog.antt =====
-- What has been sent to the persistence beacon over any number of flushes
-- (source/services/Ultravisor-QueuePersistenceBridge.cjs).
use ultravisor.Base.{
  ℕ, ◌==◌, Bool, true, false, not, ◌&&◌, ◌||◌, List, [], ◌∷◌, ◌≡◌, refl, ◌∙◌, sym, ap, subst, arith,
  leb, ltb, Bool-cases, inl, inr,
}
use ultravisor.Work.{Text}
use ultravisor.Persist.Flush.{
  Stored, Call, upserts, appends, Flush, Dispatch, time_of, is_flushed, attempt, send_events,
  push_item, advance, flush_items,
}

unfoldable pub has_item : Text → List Call → Bool
has_item h [] = false
has_item h (upserts g ∷ ks) = g == h || has_item h ks
has_item h (appends g ∷ ks) = has_item h ks

unfoldable pub has_entry : Text → List Call → Bool
has_entry e [] = false
has_entry e (upserts g ∷ ks) = has_entry e ks
has_entry e (appends g ∷ ks) = g == e || has_entry e ks

unfoldable pub has_entries : List Text → List Call → Bool
unfolding has_entry
has_entries [] ks = true
has_entries (e ∷ es) ks = has_entry e ks && has_entries es ks

-- The beacon has taken the item and its events.
unfoldable pub is_delivered : Stored → List Call → Bool
unfolding has_item has_entries
is_delivered i ks = has_item i.hash ks && has_entries i.events ks

-- Each item up to the mark is delivered.
unfoldable pub are_delivered : ℕ → List Call → List Stored → Bool
unfolding is_delivered
are_delivered mark ks [] = true
are_delivered mark ks (i ∷ is) =
    (not (leb (time_of i) mark) || is_delivered i ks) && are_delivered mark ks is

-- Each item has a time, later than that of the item before it.
unfoldable pub are_ascending : ℕ → List Stored → Bool
are_ascending t [] = true
are_ascending t (i ∷ is) = ltb t (time_of i) && are_ascending (time_of i) is

has_entries-cons :
    (es : List Text) (k : Call) (ks : List Call)
    → has_entries es ks ≡ true
    → has_entries es (k ∷ ks) ≡ true
unfolding has_entries has_entry
has_entries-cons [] k ks h = refl
has_entries-cons (e ∷ es) (upserts g) ks h = ground (arith, has_entries-cons es (upserts g) ks)
has_entries-cons (e ∷ es) (appends g) ks h = ground (arith, has_entries-cons es (appends g) ks)

pub is_delivered-cons :
    (i : Stored) (k : Call) (ks : List Call)
    → is_delivered i ks ≡ true
    → is_delivered i (k ∷ ks) ≡ true
unfolding is_delivered has_item
is_delivered-cons i (upserts g) ks h = ground (arith, has_entries-cons i.events (upserts g) ks)
is_delivered-cons i (appends g) ks h = ground (arith, has_entries-cons i.events (appends g) ks)

has_item-cons :
    (h : Text) (k : Call) (ks : List Call) → has_item h ks ≡ true → has_item h (k ∷ ks) ≡ true
unfolding has_item
has_item-cons h (upserts g) ks e = ground arith
has_item-cons h (appends g) ks e = e

has_entry-cons :
    (h : Text) (k : Call) (ks : List Call) → has_entry h ks ≡ true → has_entry h (k ∷ ks) ≡ true
unfolding has_entry
has_entry-cons h (upserts g) ks e = e
has_entry-cons h (appends g) ks e = ground arith

attempt-upserts :
    (d : Dispatch) (h : Text) (f : Flush)
    → (attempt d (upserts h) f).1 ≡ true
    → has_item h (attempt d (upserts h) f).0.taken ≡ true
unfolding attempt has_item
attempt-upserts d h f ok = simp ok (ground arith)

attempt-appends :
    (d : Dispatch) (e : Text) (f : Flush)
    → (attempt d (appends e) f).1 ≡ true
    → has_entry e (attempt d (appends e) f).0.taken ≡ true
unfolding attempt has_entry
attempt-appends d e f ok = simp ok (ground arith)

-- What a list of calls keeps when it grows, a flush keeps.
module _ (P : List Call → Type 0) (closed : (k : Call) (ks : List Call) → P ks → P (k ∷ ks))
    (d : Dispatch) where
  attempt-keeps : (k : Call) (f : Flush) → P f.taken → P (attempt d k f).0.taken
  unfolding attempt
  attempt-keeps k f h = elim (Bool-cases (d f.calls k)) [
    | inl ok ↦ rw ok (closed k f.taken h)
    | inr bad ↦ rw bad h
  ]

  send_events-keeps : (es : List Text) (f : Flush) → P f.taken → P (send_events d es f).0.taken
  unfolding send_events
  send_events-keeps [] f h = h
  send_events-keeps (e ∷ es) f h = elim (Bool-cases (attempt d (appends e) f).1) [
    | inl ok ↦
        rw (ok, send_events)
          (send_events-keeps es (attempt d (appends e) f).0 (attempt-keeps (appends e) f h))
    | inr bad ↦ rw (bad, send_events) (attempt-keeps (appends e) f h)
  ]

  pub push_item-keeps : (i : Stored) (f : Flush) → P f.taken → P (push_item d i f).0.taken
  unfolding push_item
  push_item-keeps i f h = elim (Bool-cases (attempt d (upserts i.hash) f).1) [
    | inl ok ↦
        rw (ok, push_item)
          (send_events-keeps i.events (attempt d (upserts i.hash) f).0
            (attempt-keeps (upserts i.hash) f h))
    | inr bad ↦ rw (bad, push_item) (attempt-keeps (upserts i.hash) f h)
  ]

  pub flush_items-keeps : (is : List Stored) (f : Flush) → P f.taken → P (flush_items d is f).taken
  unfolding flush_items
  flush_items-keeps [] f h = h
  flush_items-keeps (i ∷ is) f h = elim (Bool-cases (is_flushed f.mark i)) [
    | inl e ↦ rw (e, flush_items) (flush_items-keeps is f h)
    | inr e ↦
        rw (e, flush_items)
          (elim (Bool-cases (push_item d i f).1) [
            | inl ok ↦
                rw (ok, flush_items)
                  (flush_items-keeps is (advance i (push_item d i f).0) (push_item-keeps i f h))
            | inr bad ↦ rw (bad, flush_items) (push_item-keeps i f h)
          ])
  ]

pub send_events-ok :
    (d : Dispatch) (e : Text) (es : List Text) (f : Flush)
    → (attempt d (appends e) f).1 ≡ true
    → send_events d (e ∷ es) f ≡ send_events d es (attempt d (appends e) f).0
unfolding send_events
send_events-ok d e es f ok =
    let g = (attempt d (appends e) f).0 in
    subst
      (λ b.
        elim b as (λ _. Flush × Bool) [ true ↦ send_events d es g | false ↦ (g, false) ]
        ≡ send_events d es g)
      (sym ok) refl

pub push_item-ok :
    (d : Dispatch) (i : Stored) (f : Flush)
    → (attempt d (upserts i.hash) f).1 ≡ true
    → push_item d i f ≡ send_events d i.events (attempt d (upserts i.hash) f).0
unfolding push_item
push_item-ok d i f ok =
    let g = (attempt d (upserts i.hash) f).0 in
    subst
      (λ b.
        elim b as (λ _. Flush × Bool) [ true ↦ send_events d i.events g | false ↦ (g, false) ]
        ≡ send_events d i.events g)
      (sym ok) refl

send_events-sends :
    (d : Dispatch) (es : List Text) (f : Flush)
    → (send_events d es f).1 ≡ true
    → has_entries es (send_events d es f).0.taken ≡ true
unfolding send_events has_entries
send_events-sends d [] f h = refl
send_events-sends d (e ∷ es) f h = elim (Bool-cases (attempt d (appends e) f).1) [
  | inl ok ↦
      let g = (attempt d (appends e) f).0 in
      let kept =
        send_events-keeps (λ ks. has_entry e ks ≡ true) (has_entry-cons e) d es g
          (attempt-appends d e f ok) in
      let here = send_events-ok d e es f ok in
      let rest = send_events-sends d es g (sym (ap (λ r. r.1) here) ∙ h) in rw here (rw kept rest)
  | inr bad ↦ let failed : (send_events d (e ∷ es) f).1 ≡ false = rw (bad, send_events) refl in cc
]

pub push_item-delivers :
    (d : Dispatch) (i : Stored) (f : Flush)
    → (push_item d i f).1 ≡ true
    → is_delivered i (push_item d i f).0.taken ≡ true
unfolding push_item is_delivered
push_item-delivers d i f h = elim (Bool-cases (attempt d (upserts i.hash) f).1) [
  | inl ok ↦
      let g = (attempt d (upserts i.hash) f).0 in
      let kept =
        send_events-keeps (λ ks. has_item i.hash ks ≡ true) (has_item-cons i.hash) d i.events g
          (attempt-upserts d i.hash f ok) in
      let here = push_item-ok d i f ok in
      let rest = send_events-sends d i.events g (sym (ap (λ r. r.1) here) ∙ h) in
      rw here (rw kept rest)
  | inr bad ↦ let failed : (push_item d i f).1 ≡ false = rw (bad, push_item) refl in cc
]

mark-attempt : (d : Dispatch) (k : Call) (f : Flush) → (attempt d k f).0.mark ≡ f.mark
unfolding attempt
mark-attempt d k f = refl

mark-send_events :
    (d : Dispatch) (es : List Text) (f : Flush) → (send_events d es f).0.mark ≡ f.mark
unfolding send_events
mark-send_events d [] f = refl
mark-send_events d (e ∷ es) f = elim (Bool-cases (attempt d (appends e) f).1) [
  | inl ok ↦
      rw (ok, send_events)
        (mark-send_events d es (attempt d (appends e) f).0 ∙ mark-attempt d (appends e) f)
  | inr bad ↦ rw (bad, send_events) (mark-attempt d (appends e) f)
]

pub mark-push_item : (d : Dispatch) (i : Stored) (f : Flush) → (push_item d i f).0.mark ≡ f.mark
unfolding push_item
mark-push_item d i f = elim (Bool-cases (attempt d (upserts i.hash) f).1) [
  | inl ok ↦
      rw (ok, push_item)
        (mark-send_events d i.events (attempt d (upserts i.hash) f).0
          ∙ mark-attempt d (upserts i.hash) f)
  | inr bad ↦ rw (bad, push_item) (mark-attempt d (upserts i.hash) f)
]
