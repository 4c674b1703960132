-- ===== src/Base/Count.antt =====
-- Counting the entries of a map that pass a test, and the pigeonhole bound for such counts.
use Prim.Native.Nat.{ℕ, suc, ◌+◌, ◌≤◌}
use mathlib.Core.Path.{◌≡◌}
use mathlib.Core.Bool.{Bool, true}
use mathlib.Core.Option.{none, some}
use mathlib.Core.List.{List, [], ◌∷◌}
use native.Mathlib.Omega.{arith}
use mathlib.Core.Logic.{inl, inr}
use ultravisor.Base.Tests.{◌==◌, if◌then◌else◌, Bool-cases}
use ultravisor.Base.Lists.{length, contains, remove, contains-remove_ne, length-remove}
use ultravisor.Base.Dict.{Dict, IsUnique, lookup, modify, delete, insert}

module _ {ℓ} {V : Type ℓ} (p : V → Bool) where
  unfoldable pub count : Dict V → ℕ
  count [] = 0
  count ((k, v) ∷ m) = if p v then suc (count m) else count m

  pub count-modify :
      (k : ℕ) (f : V → V) (v : V) (m : Dict V)
      → lookup k m ≡ some v
      → count (modify k f m) + (if p v then 1 else 0) ≡ count m + (if p (f v) then 1 else 0)
  unfolding count lookup modify
  count-modify k f v [] h = cc
  count-modify k f v ((j, w) ∷ m) h = ground (arith, count-modify k f v m)

  pub count-modify-le :
      (k : ℕ) (f : V → V) (m : Dict V)
      → ((v : V) → lookup k m ≡ some v → p (f v) ≡ true → p v ≡ true)
      → count (modify k f m) ≤ count m
  unfolding count lookup modify
  count-modify-le k f [] h = omega arith
  count-modify-le k f ((j, w) ∷ m) h = elim (Bool-cases (j == k)) [
    | inl e ↦ rw e (ground (arith, h w (rw e)))
    | inr e ↦ rw e (ground (arith, count-modify-le k f m λ v q. h v (rw e q)))
  ]

  pub count-delete-le : (k : ℕ) (m : Dict V) → count (delete k m) ≤ count m
  unfolding count delete
  count-delete-le k [] = omega arith
  count-delete-le k ((j, w) ∷ m) = ground (arith, count-delete-le k m)

  pub count-insert :
      (k : ℕ) (v : V) (m : Dict V)
      → lookup k m ≡ none
      → count (insert k v m) ≡ count m + (if p v then 1 else 0)
  unfolding count lookup insert
  count-insert k v [] h = ground arith
  count-insert k v ((j, w) ∷ m) h = ground (arith, count-insert k v m)

  -- Entries that pass the test, all listed in `xs`, are at most as many as `xs` has.
  pub count-le-length :
      (m : Dict V) (xs : List ℕ)
      → IsUnique m
      → ((k : ℕ) (v : V) → lookup k m ≡ some v → p v ≡ true → contains k xs ≡ true)
      → count m ≤ length xs
  unfolding count lookup
  count-le-length [] xs u h = omega arith
  count-le-length ((k, w) ∷ m) xs u h = elim (Bool-cases (p w)) [
    | inr e ↦ rw e (count-le-length m xs u.1 λ j v q t. h j v (ground (arith, u.0)) t)
    | inl e ↦
        let here : contains k xs ≡ true = h k w (ground arith) e in
        let rest : count m ≤ length (remove k xs) =
          count-le-length m (remove k xs) u.1
            (λ j v q t. ground (arith, u.0, contains-remove_ne j k xs, h j v)) in
        rw e (omega (arith, rest, length-remove k xs here))
  ]
