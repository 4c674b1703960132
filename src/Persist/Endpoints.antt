-- ===== src/Persist/Endpoints.antt =====
-- A bootstrapped beacon has its endpoints (source/services/Ultravisor-QueuePersistenceBridge.cjs).
use ultravisor.Base.{
  ℕ, ◌==◌, Bool, true, false, ◌&&◌, ◌||◌, Option, none, some, List, [], ◌∷◌, ◌≡◌, refl, sym, subst,
  arith, or_else, contains, contains-append_last, is_some, Bool-cases, Option-cases, inl, inr,
  if◌then◌else◌,
}
use ultravisor.Base.Dict.{Dict, lookup, insert, delete, lookup-insert, lookup-delete}
use ultravisor.Work.{Text}
use ultravisor.Persist.Bridge.{
  Bridge, without, drop_previous, set_assignment, open_endpoints, end_bootstrap,
}
use ultravisor.Persist.Bootstrap.{
  queue_tables, Stage, ensures, introspects, configures, enables, Mesh, at_stage, ends, next_table,
}

unfoldable pub has_tables : List Text → Dict Text → Bool
has_tables [] known = true
has_tables (q ∷ qs) known = is_some (lookup q known) && has_tables qs known

-- The tables that are not left are known.
unfoldable pub are_covered : List Text → List Text → Dict Text → Bool
are_covered left [] known = true
are_covered left (q ∷ qs) known =
    (contains q left || is_some (lookup q known)) && are_covered left qs known

abbrev pub is_ready : Bool → Option (Dict Text) → Bool
is_ready false known = true
is_ready true none = false
is_ready true (some known) = has_tables queue_tables known

abbrev pub is_going : Option Stage → Option (Dict Text) → Bool
is_going (some (enables t ts)) (some known) = are_covered (t ∷ ts) queue_tables known
is_going _ _ = true

-- A bootstrapped beacon has its endpoints, and one that is being bootstrapped those so far, unless
-- they have been dropped.
abbrev pub IsSound : Text → Mesh → Type 0
IsSound b m =
    (is_ready (contains b m.bridge.bootstrapped) (lookup b m.bridge.endpoints) ≡ true)
    × (is_going (lookup b m.stages) (lookup b m.bridge.endpoints) ≡ true)

are_covered-insert :
    (t v : Text) (ts qs : List Text) (known : Dict Text)
    → are_covered (t ∷ ts) qs known ≡ true
    → are_covered ts qs (insert t v known) ≡ true
unfolding are_covered contains
are_covered-insert t v ts [] known h = refl
are_covered-insert t v ts (q ∷ qs) known h =
    ground (arith, are_covered-insert t v ts qs known, lookup-insert t q v known)

has_tables-are_covered :
    (qs : List Text) (known : Dict Text)
    → are_covered [] qs known ≡ true
    → has_tables qs known ≡ true
unfolding are_covered has_tables contains
has_tables-are_covered [] known h = refl
has_tables-are_covered (q ∷ qs) known h = ground (arith, has_tables-are_covered qs known)

has_tables-insert :
    (t v : Text) (qs : List Text) (known : Dict Text)
    → has_tables qs known ≡ true
    → has_tables qs (insert t v known) ≡ true
unfolding has_tables
has_tables-insert t v [] known h = refl
has_tables-insert t v (q ∷ qs) known h =
    ground (arith, has_tables-insert t v qs known, lookup-insert t q v known)

contains-without :
    (b c : Text) (xs : List Text)
    → contains b (without c xs) ≡ (if c == b then false else contains b xs)
unfolding contains without
contains-without b c [] = ground arith
contains-without b c (x ∷ xs) = ground (arith, contains-without b c xs)

-- What the soundness of a bridge among stages asks for.
abbrev pub IsSoundWith : Text → Option Stage → Bridge → Type 0
IsSoundWith b s g =
    (is_ready (contains b g.bootstrapped) (lookup b g.endpoints) ≡ true)
    × (is_going s (lookup b g.endpoints) ≡ true)

is_going-none : (s : Option Stage) → is_going s none ≡ true
is_going-none none = refl
is_going-none (some (enables t ts)) = refl
is_going-none (some ensures) = refl
is_going-none (some introspects) = refl
is_going-none (some configures) = refl

dropped-IsSoundWith :
    (b a : Text) (s : Option Stage) (g : Bridge)
    → IsSoundWith b s g
    → IsSoundWith b s
        (record g { bootstrapped = without a g.bootstrapped; endpoints = delete a g.endpoints })
dropped-IsSoundWith b a s g (r, w) = elim (Bool-cases (a == b)) [
  | inl mine ↦ simp (contains-without, lookup-delete, mine) (refl, is_going-none s)
  | inr foreign ↦ simp (contains-without, lookup-delete, foreign) (r, w)
]

drop_previous-IsSoundWith :
    (b c : Text) (s : Option Stage) (g : Bridge)
    → IsSoundWith b s g
    → IsSoundWith b s (drop_previous c g)
unfolding drop_previous
drop_previous-IsSoundWith b c s g h = elim (Option-cases g.assignment) [
  | inl e ↦ rw (e, drop_previous) h
  | inr (a, e) ↦
      rw (e, drop_previous)
        (elim (Bool-cases (a.beacon == c)) [
          | inl same ↦ rw same h
          | inr other ↦ rw other (dropped-IsSoundWith b a.beacon s g h)
        ])
]

pub set_assignment-IsSound :
    (b : Text) (now : ℕ) (c k : Text) (m : Mesh)
    → IsSound b m
    → IsSound b (record m { bridge = set_assignment now c k m.bridge })
unfolding set_assignment
set_assignment-IsSound b now c k m h = drop_previous-IsSoundWith b c (lookup b m.stages) m.bridge h

-- A step of another beacon's bootstrap.
pub at_stage-IsSound :
    (b c : Text) (s : Stage) (m : Mesh)
    → ((c == b) ≡ true → is_going (some s) (lookup b m.bridge.endpoints) ≡ true)
    → IsSound b m
    → IsSound b (at_stage c s m)
at_stage-IsSound b c s m new (r, g) = elim (Bool-cases (c == b)) [
  | inl e ↦ simp (lookup-insert, e) (r, new e)
  | inr e ↦ simp (lookup-insert, e) (r, g)
]

pub ends-IsSound :
    (b c : Text) (now : ℕ) (reason : Text) (m : Mesh)
    → IsSound b m
    → IsSound b (ends now c (some reason) m)
unfolding end_bootstrap
ends-IsSound b c now reason m (r, g) = elim (Bool-cases (c == b)) [
  | inl e ↦ simp (lookup-delete, e) (r, refl)
  | inr e ↦ simp (lookup-delete, e) (r, g)
]

endpoints_kept :
    (b : Text) (known : Option (Dict Text)) (ready : Bool)
    → is_ready ready known ≡ true
    → is_ready ready (some (or_else known [])) ≡ true
endpoints_kept b none false h = refl
endpoints_kept b none true h = cc
endpoints_kept b (some k) ready h = h

is_ready-insert :
    (t v : Text) (known : Dict Text) (ready : Bool)
    → is_ready ready (some known) ≡ true
    → is_ready ready (some (insert t v known)) ≡ true
is_ready-insert t v known false h = refl
is_ready-insert t v known true h = has_tables-insert t v queue_tables known h

-- The bootstrap opens the beacon's endpoints and asks for the first one.
pub opened-IsSound :
    (b c : Text) (m : Mesh)
    → IsSound b m
    → IsSound b
        (at_stage c (enables 21 (22 ∷ 23 ∷ [])) (record m { bridge = open_endpoints c m.bridge }))
unfolding are_covered contains
opened-IsSound b c m (r, g) = elim (Bool-cases (c == b)) [
  | inl e ↦
      let same : c ≡ b = ground arith in
      simp (lookup-insert, e)
        (
          rw same
              (endpoints_kept b (lookup b m.bridge.endpoints) (contains b m.bridge.bootstrapped) r),
          refl,
        )
  | inr e ↦ simp (lookup-insert, e) (r, g)
]

-- The endpoint of a table comes, and either the next one is asked for or the bootstrap ends.
pub noted-IsSound :
    (b c : Text) (now : ℕ) (t v : Text) (ts : List Text) (known : Dict Text) (m : Mesh)
    → lookup c m.bridge.endpoints ≡ some known
    → lookup c m.stages ≡ some (enables t ts)
    → IsSound b m
    → IsSound b (
        next_table now c ts (
          let g : Bridge = m.bridge in
          record m { bridge = record g { endpoints = insert c (insert t v known) g.endpoints } }))
unfolding end_bootstrap
noted-IsSound b c now t v [] known m there stage (r, g) = elim (Bool-cases (c == b)) [
  | inl e ↦
      let same : c ≡ b = ground arith in
      let there_b : lookup b m.bridge.endpoints ≡ some known = rw (sym same) there in
      let stage_b : lookup b m.stages ≡ some (enables t []) = rw (sym same) stage in
      let all : has_tables queue_tables (insert t v known) ≡ true =
        has_tables-are_covered queue_tables (insert t v known) (
          are_covered-insert t v [] queue_tables known (
            subst (λ x. is_going x (some known) ≡ true) stage_b
              (subst (λ x. is_going (lookup b m.stages) x ≡ true) there_b g))) in
      simp (lookup-insert, lookup-delete, contains-append_last, e)
        (ready_all (contains b m.bridge.bootstrapped || true) (insert t v known) all, refl)
  | inr e ↦ simp (lookup-insert, lookup-delete, contains-append_last, e) (ground (arith, r), g)
]
  where
    ready_all :
        (x : Bool) (k : Dict Text) → has_tables queue_tables k ≡ true → is_ready x (some k) ≡ true
    ready_all false k h = refl
    ready_all true k h = h
noted-IsSound b c now t v (q ∷ ts) known m there stage (r, g) = elim (Bool-cases (c == b)) [
  | inl e ↦
      let same : c ≡ b = ground arith in
      let there_b : lookup b m.bridge.endpoints ≡ some known = rw (sym same) there in
      let stage_b : lookup b m.stages ≡ some (enables t (q ∷ ts)) = rw (sym same) stage in
      let ready = subst (λ x. is_ready (contains b m.bridge.bootstrapped) x ≡ true) there_b r in
      simp (lookup-insert, e)
        (
          is_ready-insert t v known (contains b m.bridge.bootstrapped) ready,
          are_covered-insert t v (q ∷ ts) queue_tables known (
              subst (λ x. is_going x (some known) ≡ true) stage_b
                (subst (λ x. is_going (lookup b m.stages) x ≡ true) there_b g)),
        )
  | inr e ↦ simp (lookup-insert, e) (r, g)
]
