-- ===== src/Common/Finite.antt =====
-- A test of all the numbers below a bound, for facts that evaluation decides.
use Prim.Native.Nat.{ℕ, zero, suc, ◌<◌}
use mathlib.Core.Path.{◌≡◌, sym, subst}
use mathlib.Core.Bool.{Bool, true, false, ◌&&◌}
use mathlib.Core.Logic.{inl, inr}
use native.Mathlib.Omega.{arith}
use kappaio.Common.Tests.{◌==◌, ==_iff, and_true, Bool-cases}

abbrev pub for_all : ℕ → (ℕ → Bool) → Bool
for_all zero p = true
for_all (suc n) p = p n && for_all n p

pub for_all_holds : (n i : ℕ) (p : ℕ → Bool) → for_all n p ≡ true → i < n → p i ≡ true
for_all_holds zero i p h small = absurd (omega arith)
for_all_holds (suc n) i p h small = elim (Bool-cases (i == n)) [
  | inl same ↦
      subst (λ k. p k ≡ true) (sym ((==_iff i n).0 same)) (and_true (p n) (for_all n p) h).0
  | inr other ↦ for_all_holds n i p (and_true (p n) (for_all n p) h).1 (below other)
]
  where
    below : (i == n) ≡ false → i < n
    below other = ground arith

-- Two functions of two numbers below bounds agree if they do wherever they are evaluated.
pub agree_below :
    (n m i j : ℕ) (f g : ℕ → ℕ → ℕ)
    → for_all n (λ a. for_all m (λ b. f a b == g a b)) ≡ true
    → i < n
    → j < m
    → f i j ≡ g i j
agree_below n m i j f g h p q = (==_iff (f i j) (g i j)).0 (
    for_all_holds m j (λ b. f i b == g i b)
      (for_all_holds n i (λ a. for_all m (λ b. f a b == g a b)) h p) q)
