-- ===== src/Boot/Crc/Bytes.antt =====
-- `runPoly` on bytes: the same bytes keep a difference, and two changed bytes always make one.
use kappaio.Common.{
  ℕ, zero, suc, ◌+◌, ◌*◌, ◌%◌, ◌<◌, ◌≤◌, ◌≡◌, refl, sym, ap, ap₂, ◌∙◌, subst, Bool, true, false,
  List, [], ◌∷◌, leb, ◌==◌, ==_iff, bit_xor, arith,
}
use kappaio.Common.Words.{IsByte}
use kappaio.Common.Bits.{bit_xor_self}
use kappaio.Common.Finite.{for_all_holds}
use kappaio.Boot.Crc.{poly_step, poly_rounds, run_poly}
use kappaio.Boot.Crc.Rounds.{bit, poly_step_small, poly_step_injective, poly_step_difference}

rounds_small : (n c v : ℕ) → c < 65536 → poly_rounds n c v < 65536
unfolding poly_rounds
rounds_small zero c v h = h
rounds_small (suc n) c v h =
    rounds_small n (poly_step c (leb 128 v)) (v * 2 % 256) (poly_step_small c (leb 128 v))

pub run_poly_small : (c v : ℕ) → c < 65536 → run_poly c v < 65536
unfolding run_poly
run_poly_small c v h = rounds_small 8 c v h

rounds_injective :
    (n c d v : ℕ) → c < 65536 → d < 65536 → poly_rounds n c v ≡ poly_rounds n d v → c ≡ d
unfolding poly_rounds
rounds_injective zero c d v p q e = e
rounds_injective (suc n) c d v p q e = poly_step_injective c d (leb 128 v) p q (
    rounds_injective n (poly_step c (leb 128 v)) (poly_step d (leb 128 v)) (v * 2 % 256)
      (poly_step_small c (leb 128 v)) (poly_step_small d (leb 128 v)) e)

-- `runPoly` with the same byte loses nothing of the CRC.
pub run_poly_injective : (c d v : ℕ) → c < 65536 → d < 65536 → run_poly c v ≡ run_poly d v → c ≡ d
unfolding run_poly
run_poly_injective c d v p q e = rounds_injective 8 c d v p q e

-- The difference after some rounds with two values.
abbrev difference : ℕ → ℕ → ℕ → ℕ → ℕ
difference zero e v w = e
difference (suc n) e v w =
    difference n (e * 2 + (bit (leb 128 v) + bit (leb 128 w)) % 2) (v * 2 % 256) (w * 2 % 256)

-- There is room below the high bit for so many rounds.
abbrev Room : ℕ → ℕ → Type 0
Room zero e = Unit
Room (suc n) e = (e < 32768) × Room n (e * 2 + 1)

Room-le : (n e f : ℕ) → e ≤ f → Room n f → Room n e
Room-le zero e f le h = tt
Room-le (suc n) e f le h = (omega (arith, h.0), Room-le n (e * 2 + 1) (f * 2 + 1) (omega arith) h.1)

next_le : (e : ℕ) (x : ℕ) → e * 2 + x % 2 ≤ e * 2 + 1
next_le e x = omega arith

Room-difference : (n m e v w : ℕ) → Room (n + m) e → Room m (difference n e v w)
Room-difference zero m e v w h = subst (λ k. Room k e) count h
  where
    count : 0 + m ≡ m
    count = omega arith
Room-difference (suc n) m e v w h =
    Room-difference n m (e * 2 + x % 2) (v * 2 % 256) (w * 2 % 256)
      (Room-le (n + m) (e * 2 + x % 2) (e * 2 + 1) (next_le e x) (subst (λ k. Room k e) count h).1)
  where
    x : ℕ
    x = bit (leb 128 v) + bit (leb 128 w)

    count : suc n + m ≡ suc (n + m)
    count = omega arith

rounds_difference :
    (n c d v w : ℕ)
    → Room n (bit_xor c d)
    → bit_xor (poly_rounds n c v) (poly_rounds n d w) ≡ difference n (bit_xor c d) v w
unfolding poly_rounds
rounds_difference zero c d v w h = refl
rounds_difference (suc n) c d v w h =
    rounds_difference n (poly_step c (leb 128 v)) (poly_step d (leb 128 w)) (v * 2 % 256)
      (w * 2 % 256)
      (subst (Room n) (sym (poly_step_difference c d (leb 128 v) (leb 128 w) h.0)) (
        Room-le n (bit_xor c d * 2 + (bit (leb 128 v) + bit (leb 128 w)) % 2) (bit_xor c d * 2 + 1)
          (next_le (bit_xor c d) (bit (leb 128 v) + bit (leb 128 w))) h.1))
    ∙ ap (λ e. difference n e (v * 2 % 256) (w * 2 % 256))
        (poly_step_difference c d (leb 128 v) (leb 128 w) h.0)

-- The bits of a byte, and the byte back.
abbrev bits : ℕ → ℕ → List Bool
bits zero v = []
bits (suc n) v = leb 128 v ∷ bits n (v * 2 % 256)

abbrev from_bits : ℕ → List Bool → ℕ
from_bits acc [] = acc
from_bits acc (b ∷ bs) = from_bits (acc * 2 + bit b) bs

from_bits-bits : (v : ℕ) → v < 256 → from_bits 0 (bits 8 v) ≡ v
from_bits-bits v h =
    (==_iff (from_bits 0 (bits 8 v)) v).0
      (for_all_holds 256 v (λ k. from_bits 0 (bits 8 k) == k) refl h)

same_bit : (h k : Bool) → (bit h + bit k) % 2 ≡ 0 → h ≡ k
same_bit true true e = refl
same_bit true false e = absurd (omega arith)
same_bit false true e = absurd (omega arith)
same_bit false false e = refl

no_difference : (n e v w : ℕ) → difference n e v w ≡ 0 → (e ≡ 0) × (bits n v ≡ bits n w)
no_difference zero e v w h = (h, refl)
no_difference (suc n) e v w h =
    let later =
      no_difference n (e * 2 + (bit (leb 128 v) + bit (leb 128 w)) % 2) (v * 2 % 256) (w * 2 % 256)
        h in
    (
      omega (arith, later.0),
      ap₂ ◌∷◌ (same_bit (leb 128 v) (leb 128 w) (omega (arith, later.0))) later.1,
    )

same_byte : (v w : ℕ) → v < 256 → w < 256 → bits 8 v ≡ bits 8 w → v ≡ w
same_byte v w p q e = sym (from_bits-bits v p) ∙ ap (from_bits 0) e ∙ from_bits-bits w q

-- Two bytes that follow each other can be told from the CRC after them.
pub run_poly-burst :
    (c x y x' y' : ℕ)
    → IsByte x
    → IsByte y
    → IsByte x'
    → IsByte y'
    → run_poly (run_poly c x) y ≡ run_poly (run_poly c x') y'
    → (x ≡ x') × (y ≡ y')
unfolding run_poly
run_poly-burst c x y x' y' bx by bx' by' e =
    (same_byte x x' bx bx' (no_difference 8 0 x x' second.0).1, same_byte y y' by by' second.1)
  where
    first : bit_xor (poly_rounds 8 c x) (poly_rounds 8 c x') ≡ difference 8 0 x x'
    first =
        rounds_difference 8 c c x x' (subst (Room 8) (sym (bit_xor_self c)) (omega arith))
        ∙ ap (λ z. difference 8 z x x') (bit_xor_self c)

    room : Room 8 (bit_xor (poly_rounds 8 c x) (poly_rounds 8 c x'))
    room = subst (Room 8) (sym first) (Room-difference 8 8 0 x x' (omega arith))

    second : (difference 8 0 x x' ≡ 0) × (bits 8 y ≡ bits 8 y')
    second = no_difference 8 (difference 8 0 x x') y y' (
        ap (λ z. difference 8 z y y') (sym first)
        ∙ sym (rounds_difference 8 (poly_rounds 8 c x) (poly_rounds 8 c x') y y' room)
        ∙ ap (λ z. bit_xor z (poly_rounds 8 (poly_rounds 8 c x') y')) e
        ∙ bit_xor_self (poly_rounds 8 (poly_rounds 8 c x') y'))
