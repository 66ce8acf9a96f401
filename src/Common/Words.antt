-- ===== src/Common/Words.antt =====
-- Little-endian machine words as lists of bytes, and predicates on them.
use Prim.Native.Nat.{ℕ, zero, suc, ◌+◌, ◌*◌, ◌/◌, ◌%◌, ◌<◌}
use mathlib.Core.Path.{◌≡◌, refl, ap, ap₂, ◌∙◌}
use mathlib.Core.List.{List, [], ◌∷◌, ◌++◌}
use native.Mathlib.Omega.{arith}
use kappaio.Common.Lists.{length}

abbrev pub All {ℓ κ} : {A : Type ℓ} → (A → Type κ) → List A → Type κ
All P [] = Unit
All P (x ∷ xs) = P x × All P xs

-- A `uint8_t`.
abbrev pub IsByte : ℕ → Type 0
IsByte x = x < 256

abbrev pub Bytes : List ℕ → Type 0
Bytes = All IsByte

pub All-append {ℓ κ} :
    {A : Type ℓ} (P : A → Type κ) (xs ys : List A) → All P xs → All P ys → All P (xs ++ ys)
All-append P [] ys h k = k
All-append P (x ∷ xs) ys h k = (h.0, All-append P xs ys h.1 k)

-- The `n` bytes of a number, least significant first, and back.
unfoldable pub to_le : ℕ → ℕ → List ℕ
to_le zero v = []
to_le (suc n) v = (v % 256) ∷ to_le n (v / 256)

unfoldable pub from_le : List ℕ → ℕ
from_le [] = 0
from_le (x ∷ xs) = x + 256 * from_le xs

pub length-to_le : (n v : ℕ) → length (to_le n v) ≡ n
unfolding to_le
length-to_le zero v = refl
length-to_le (suc n) v = ap suc (length-to_le n (v / 256))

pub to_le-Bytes : (n v : ℕ) → Bytes (to_le n v)
unfolding to_le
to_le-Bytes zero v = tt
to_le-Bytes (suc n) v = (omega arith, to_le-Bytes n (v / 256))

-- Bytes are the digits of the number that they stand for.
pub to_le-from_le : (bs : List ℕ) → Bytes bs → to_le (length bs) (from_le bs) ≡ bs
unfolding to_le from_le
to_le-from_le [] h = refl
to_le-from_le (b ∷ bs) h = ap₂ ◌∷◌ low (ap (to_le (length bs)) high ∙ to_le-from_le bs h.1)
  where
    small : b < 256
    small = h.0

    low : (b + 256 * from_le bs) % 256 ≡ b
    low = omega arith

    high : (b + 256 * from_le bs) / 256 ≡ from_le bs
    high = omega arith

pub All-split {ℓ κ} :
    {A : Type ℓ} (P : A → Type κ) (xs ys : List A) → All P (xs ++ ys) → All P xs × All P ys
All-split P [] ys h = (tt, h)
All-split P (x ∷ xs) ys h = ((h.0, (All-split P xs ys h.1).0), (All-split P xs ys h.1).1)
