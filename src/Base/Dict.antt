-- ===== src/Base/Dict.antt =====
-- A JavaScript object used as a map: an association list in the order of insertion. Assigning to a
-- present key keeps its place, a new key goes to the end, as `Object.keys` enumerates them.
use Prim.Native.Nat.{ℕ}
use mathlib.Core.Path.{◌≡◌, refl}
use mathlib.Core.Option.{Option, none, some}
use mathlib.Core.Option
use mathlib.Core.List.{List, [], ◌∷◌}
use native.Mathlib.Omega.{arith}
use mathlib.Core.Bool.{Bool, true, false}
use mathlib.Core.Logic.{inl, inr}
use ultravisor.Base.Tests.{◌==◌, if◌then◌else◌, Option-cases, Bool-cases}
use ultravisor.Base.Lists.{contains}

abbrev pub Dict {ℓ} : Type ℓ → Type ℓ
Dict V = List (ℕ × V)

module _ {ℓ} {V : Type ℓ} where
  unfoldable pub lookup : ℕ → Dict V → Option V
  lookup k [] = none
  lookup k ((j, v) ∷ m) = if j == k then some v else lookup k m

  unfoldable pub insert : ℕ → V → Dict V → Dict V
  insert k v [] = (k, v) ∷ []
  insert k v ((i, old) ∷ rest) = if i == k then (k, v) ∷ rest else (i, old) ∷ insert k v rest

  unfoldable pub delete : ℕ → Dict V → Dict V
  delete k [] = []
  delete k ((j, w) ∷ m) = let rest = delete k m in if j == k then rest else (j, w) ∷ rest

  -- The mutation of the object that a key refers to.
  unfoldable pub modify : ℕ → (V → V) → Dict V → Dict V
  modify k f [] = []
  modify k f ((j, w) ∷ m) = if j == k then (j, f w) ∷ m else (j, w) ∷ modify k f m

  unfoldable pub keys : Dict V → List ℕ
  keys [] = []
  keys ((j, w) ∷ m) = j ∷ keys m

  pub lookup-insert :
      (k other : ℕ) (v : V) (m : Dict V)
      → lookup other (insert k v m) ≡ (if k == other then some v else lookup other m)
  unfolding lookup insert
  lookup-insert k other v [] = refl
  lookup-insert k other v ((i, old) ∷ rest) = ground (arith, lookup-insert k other v rest)

  pub lookup-delete :
      (k j : ℕ) (m : Dict V) → lookup j (delete k m) ≡ (if k == j then none else lookup j m)
  unfolding lookup delete
  lookup-delete k j [] = ground arith
  lookup-delete k j ((i, w) ∷ m) = ground (arith, lookup-delete k j m)

  pub lookup-modify :
      (k j : ℕ) (f : V → V) (m : Dict V)
      → lookup j (modify k f m) ≡ (if k == j then Option.map f (lookup j m) else lookup j m)
  unfolding lookup modify
  lookup-modify k j f [] = ground arith
  lookup-modify k j f ((i, w) ∷ m) = ground (arith, lookup-modify k j f m)

  -- Every key stands once.
  abbrev pub IsUnique : Dict V → Type ℓ
  IsUnique [] = Unit
  IsUnique ((k, v) ∷ m) = (lookup k m ≡ none) × IsUnique m

  pub insert-IsUnique : (k : ℕ) (v : V) (m : Dict V) → IsUnique m → IsUnique (insert k v m)
  unfolding insert lookup
  insert-IsUnique k v [] u = (refl, tt)
  insert-IsUnique k v ((i, w) ∷ m) u =
      ground (arith, insert-IsUnique k v m u.1, lookup-insert k i v m)

  pub delete-IsUnique : (k : ℕ) (m : Dict V) → IsUnique m → IsUnique (delete k m)
  unfolding delete
  delete-IsUnique k [] u = tt
  delete-IsUnique k ((i, w) ∷ m) u = ground (arith, delete-IsUnique k m u.1, lookup-delete k i m)

  pub modify-IsUnique : (k : ℕ) (f : V → V) (m : Dict V) → IsUnique m → IsUnique (modify k f m)
  unfolding modify
  modify-IsUnique k f [] u = tt
  modify-IsUnique k f ((i, w) ∷ m) u =
      ground (arith, modify-IsUnique k f m u.1, lookup-modify k i f m)

  pub keys-modify : (k : ℕ) (f : V → V) (m : Dict V) → keys (modify k f m) ≡ keys m
  unfolding keys modify
  keys-modify k f [] = refl
  keys-modify k f ((i, w) ∷ m) = ground (arith, keys-modify k f m)

  -- The loop over `Object.keys` that stops at the first entry which passes a test.
  unfoldable pub find_in : (V → Bool) → List ℕ → Dict V → Option (ℕ × V)
  find_in p [] m = none
  find_in p (k ∷ ks) m =
      let rest = find_in p ks m in
      elim (lookup k m) [ none ↦ rest | some v ↦ if p v then some (k, v) else rest ]

  abbrev pub find : (V → Bool) → Dict V → Option (ℕ × V)
  find p m = find_in p (keys m) m

  pub find_in-some :
      (p : V → Bool) (ks : List ℕ) (m : Dict V) {k : ℕ} {v : V}
      → find_in p ks m ≡ some (k, v)
      → (lookup k m ≡ some v) × (p v ≡ true)
  unfolding find_in
  find_in-some p [] m h = cc
  find_in-some p (j ∷ js) m {k} {v} h = elim (Option-cases (lookup j m)) [
    | inl e ↦ find_in-some p js m (rw (e, find_in) at h)
    | inr (w, e) ↦ elim (Bool-cases (p w)) [
      | inl t ↦ ground arith
      | inr t ↦ find_in-some p js m (ground arith)
    ]
  ]

  -- What the loop does not find, no key that it walked has.
  pub find_in-none :
      (p : V → Bool) (ks : List ℕ) (m : Dict V) (k : ℕ) (v : V)
      → find_in p ks m ≡ none
      → contains k ks ≡ true
      → lookup k m ≡ some v
      → p v ≡ false
  unfolding find_in contains
  find_in-none p [] m k v h c l = cc
  find_in-none p (j ∷ js) m k v h c l = ground (arith, find_in-none p js m k v)

  pub contains-keys :
      (k : ℕ) (v : V) (m : Dict V) → lookup k m ≡ some v → contains k (keys m) ≡ true
  unfolding keys contains lookup
  contains-keys k v [] h = cc
  contains-keys k v ((j, w) ∷ m) h = ground (arith, contains-keys k v m)
