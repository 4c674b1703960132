-- ===== src/Base/Int.antt =====
-- Integers over the native numbers, for priorities.
use Prim.Native.Nat.{ℕ, zero, suc}
use mathlib.Core.Bool.{Bool, true, false}
use mathlib.Core.Path.{◌≡◌, refl}
use native.Mathlib.Omega.{arith}
use ultravisor.Base.Tests.{ltb}

-- `negsuc n` is -(n + 1).
pub data ℤ : Type 0 where
  pos : ℕ → ℤ
  negsuc : ℕ → ℤ

abbrev pub zero_ℤ : ℤ
zero_ℤ = pos 0

abbrev pub ltb_ℤ : ℤ → ℤ → Bool
ltb_ℤ (pos a) (pos b) = ltb a b
ltb_ℤ (pos a) (negsuc b) = false
ltb_ℤ (negsuc a) (pos b) = true
ltb_ℤ (negsuc a) (negsuc b) = ltb b a

unfoldable pub suc_ℤ : ℤ → ℤ
suc_ℤ (pos a) = pos (suc a)
suc_ℤ (negsuc zero) = pos 0
suc_ℤ (negsuc (suc a)) = negsuc a

unfoldable pub pred_ℤ : ℤ → ℤ
pred_ℤ (pos zero) = negsuc 0
pred_ℤ (pos (suc a)) = pos a
pred_ℤ (negsuc a) = negsuc (suc a)

pub ltb_ℤ-suc : (a : ℤ) → ltb_ℤ a (suc_ℤ a) ≡ true
unfolding suc_ℤ
ltb_ℤ-suc (pos a) = ground arith
ltb_ℤ-suc (negsuc zero) = refl
ltb_ℤ-suc (negsuc (suc a)) = ground arith

pub ltb_ℤ-pred : (a : ℤ) → ltb_ℤ (pred_ℤ a) a ≡ true
unfolding pred_ℤ
ltb_ℤ-pred (pos zero) = refl
ltb_ℤ-pred (pos (suc a)) = ground arith
ltb_ℤ-pred (negsuc a) = ground arith

pub ltb_ℤ-asymm : (a b : ℤ) → ltb_ℤ a b ≡ true → ltb_ℤ b a ≡ false
ltb_ℤ-asymm (pos a) (pos b) h = ground arith
ltb_ℤ-asymm (pos a) (negsuc b) h = ground arith
ltb_ℤ-asymm (negsuc a) (pos b) h = ground arith
ltb_ℤ-asymm (negsuc a) (negsuc b) h = ground arith

pub ltb_ℤ-trans : (a b c : ℤ) → ltb_ℤ a b ≡ true → ltb_ℤ b c ≡ true → ltb_ℤ a c ≡ true
ltb_ℤ-trans (pos a) (pos b) (pos c) h k = ground arith
ltb_ℤ-trans (negsuc a) (pos b) (pos c) h k = ground arith
ltb_ℤ-trans (negsuc a) (negsuc b) (pos c) h k = ground arith
ltb_ℤ-trans (negsuc a) (negsuc b) (negsuc c) h k = ground arith
ltb_ℤ-trans a b c h k = ground arith
