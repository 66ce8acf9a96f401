-- ===== src/Boot/Crc/Rounds.antt =====
-- The arithmetic of `runPoly`: how the difference of two values of the CRC goes on.
use kappaio.Common.{
  ℕ, ◌+◌, ◌*◌, ◌/◌, ◌%◌, ◌^◌, ◌<◌, ◌≡◌, refl, sym, ap, ap₂, ◌∙◌, Bool, true, false, leb, Bool-cases,
  inl, inr, if◌then◌else◌, bit_xor, arith,
}
use kappaio.Common.Bits.{
  bit_xor_step, bit_xor_comm, bit_xor_assoc, bit_xor_self, zero-bit_xor, xor_split, bit_or-one,
  bit_xor_cancel, lt_digits, parity,
}
use kappaio.Boot.Crc.{low_bit, poly_step}

abbrev pub bit : Bool → ℕ
bit true = 1
bit false = 0

low_bit_lem : (h : Bool) (c : ℕ) → low_bit h (c * 2) ≡ c * 2 + bit h
unfolding low_bit
low_bit_lem true c = bit_or-one c
low_bit_lem false c = omega arith

-- A turn of the loop, without the mask: the low 15 bits go up, and the polynomial is added for the high one.
abbrev shifted : ℕ → Bool → ℕ
shifted c h = c % 32768 * 2 + bit h

poly_step_lem :
    (c : ℕ) (h : Bool)
    → poly_step c h ≡ (if leb 32768 c then bit_xor (shifted c h) 0x1021 else shifted c h)
unfolding poly_step
poly_step_lem c h =
    ap (λ s. if leb 32768 c then bit_xor s 0x1021 else s)
      (ap (low_bit h) masked ∙ low_bit_lem h (c % 32768))
  where
    masked : c * 2 % 65536 ≡ c % 32768 * 2
    masked = omega arith

high_step : (c : ℕ) (h : Bool) → leb 32768 c ≡ true → poly_step c h ≡ bit_xor (shifted c h) 0x1021
high_step c h e = rw (poly_step_lem c h, e)

low_step : (c : ℕ) (h : Bool) → leb 32768 c ≡ false → poly_step c h ≡ shifted c h
low_step c h e = rw (poly_step_lem c h, e)

bit_small : (h : Bool) → bit h < 2
bit_small true = omega arith
bit_small false = omega arith

shifted_small : (c : ℕ) (h : Bool) → shifted c h < 2 ^ 16
shifted_small c h = omega (arith, bit_small h)

pub poly_step_small : (c : ℕ) (h : Bool) → poly_step c h < 65536
poly_step_small c h = elim (Bool-cases (leb 32768 c)) [
  | inl e ↦
      rw (poly_step_lem c h, e)
        (lt_digits 16 (shifted c h) 0x1021 (shifted_small c h) (omega arith))
  | inr e ↦ rw (poly_step_lem c h, e) (shifted_small c h)
]

bit_injective : (h k : Bool) → bit h ≡ bit k → h ≡ k
bit_injective true true e = refl
bit_injective true false e = absurd (omega arith)
bit_injective false true e = absurd (omega arith)
bit_injective false false e = refl

xor_same : (a b p : ℕ) → bit_xor (bit_xor a p) (bit_xor b p) ≡ bit_xor a b
xor_same a b p =
    bit_xor_assoc a p (bit_xor b p)
    ∙ ap (bit_xor a) (
        ap (bit_xor p) (bit_xor_comm b p)
        ∙ sym (bit_xor_assoc p p b)
        ∙ ap (λ t. bit_xor t b) (bit_xor_self p)
        ∙ zero-bit_xor b)

-- With the same high bit, the polynomial is added to both or to none.
steps_xor :
    (c d : ℕ) (h k : Bool)
    → leb 32768 c ≡ leb 32768 d
    → bit_xor (poly_step c h) (poly_step d k) ≡ bit_xor (shifted c h) (shifted d k)
steps_xor c d h k same = elim (Bool-cases (leb 32768 d)) [
  | inl e ↦
      rw (poly_step_lem c h, poly_step_lem d k, same, e)
        (xor_same (shifted c h) (shifted d k) 0x1021)
  | inr e ↦ rw (poly_step_lem c h, poly_step_lem d k, same, e)
]

steps_equal :
    (c d : ℕ) (h : Bool)
    → leb 32768 c ≡ leb 32768 d
    → poly_step c h ≡ poly_step d h
    → shifted c h ≡ shifted d h
steps_equal c d h same e = bit_xor_cancel (shifted c h) (shifted d h) (
    sym (steps_xor c d h h same)
    ∙ ap (λ t. bit_xor t (poly_step d h)) e
    ∙ bit_xor_self (poly_step d h))

-- The polynomial changes the lowest bit.
steps_differ : (c d : ℕ) (h : Bool) → bit_xor (shifted c h) 0x1021 ≡ shifted d h → ⊥
steps_differ c d h e = absurd (omega (arith, e, parity (shifted c h) 0x1021, bit_small h))

high_and_low :
    (c d : ℕ) (h : Bool)
    → c < 65536
    → d < 65536
    → leb 32768 c ≡ leb 32768 d
    → shifted c h ≡ shifted d h
    → c ≡ d
high_and_low c d h p q same e = ground (arith, same, low)
  where
    low : c % 32768 ≡ d % 32768
    low = omega (arith, e)

-- A step with the same bit loses nothing.
pub poly_step_injective :
    (c d : ℕ) (h : Bool) → c < 65536 → d < 65536 → poly_step c h ≡ poly_step d h → c ≡ d
poly_step_injective c d h p q e = elim (Bool-cases (leb 32768 c)) [
  | inl ec ↦ elim (Bool-cases (leb 32768 d)) [
    | inl ed ↦ high_and_low c d h p q (ec ∙ sym ed) (steps_equal c d h (ec ∙ sym ed) e)
    | inr ed ↦ absurd (steps_differ c d h (sym (high_step c h ec) ∙ e ∙ low_step d h ed))
  ]
  | inr ec ↦ elim (Bool-cases (leb 32768 d)) [
    | inl ed ↦ absurd (steps_differ d c h (sym (high_step d h ed) ∙ sym e ∙ low_step c h ec))
    | inr ed ↦ high_and_low c d h p q (ec ∙ sym ed) (steps_equal c d h (ec ∙ sym ed) e)
  ]
]

-- A difference below the high bit goes up by one digit, and the bits that differ come in behind it.
pub poly_step_difference :
    (c d : ℕ) (h k : Bool)
    → bit_xor c d < 32768
    → bit_xor (poly_step c h) (poly_step d k) ≡ bit_xor c d * 2 + (bit h + bit k) % 2
poly_step_difference c d h k small = omega (
  arith,
  steps_xor c d h k (ground (arith, quotients)),
  bit_xor_step (shifted c h) (shifted d k),
  ap₂ bit_xor (half c h) (half d k),
  split,
  high,
  last c h,
  last d k,
)
  where
    half : (c : ℕ) (h : Bool) → shifted c h / 2 ≡ c % 32768
    half c h = omega (arith, bit_small h)

    last : (c : ℕ) (h : Bool) → shifted c h % 2 ≡ bit h
    last c h = omega (arith, bit_small h)

    whole : (c : ℕ) → c ≡ c % 32768 + 2 ^ 15 * (c / 32768)
    whole c = omega arith

    split : bit_xor c d ≡ bit_xor (c % 32768) (d % 32768) + 2 ^ 15 * bit_xor (c / 32768) (d / 32768)
    split =
        ap₂ bit_xor (whole c) (whole d)
        ∙ xor_split 15 (c % 32768) (d % 32768) (c / 32768) (d / 32768) (omega arith) (omega arith)

    high : bit_xor (c / 32768) (d / 32768) ≡ 0
    high = omega (arith, split, small)

    quotients : c / 32768 ≡ d / 32768
    quotients = bit_xor_cancel (c / 32768) (d / 32768) high
