-- ===== src/Common/Bits.antt =====
-- The laws of `bit_xor` at every width, from its recursion on binary digits.
use Prim.Native.Nat.{
  ℕ, zero, suc, ◌+◌, ◌*◌, ◌/◌, ◌%◌, ◌^◌, ◌≤◌, ◌<◌, bit_xor, digits, bit_xor-bitwise, differ, max,
  bit_or, bit_or-bitwise,
}
use mathlib.Core.Path.{◌≡◌, refl, sym, ap, ap₂, ◌∙◌}
use native.Mathlib.Omega.{arith}
use native.Mathlib.Nat.{pow-suc}

-- What `bit_xor` means, with the rounds that it may take.
abbrev xor_rounds : ℕ → ℕ → ℕ → ℕ
xor_rounds rounds x y = digits (λ left. left) differ rounds x y

xor_rounds-zero : (rounds y : ℕ) → xor_rounds rounds 0 y ≡ y
xor_rounds-zero zero y = refl
xor_rounds-zero (suc rounds) y = refl

-- Rounds beyond the number itself change nothing.
more_rounds :
    (x y rounds others : ℕ)
    → x ≤ rounds
    → x ≤ others
    → xor_rounds rounds x y ≡ xor_rounds others x y
more_rounds zero y rounds others le le' = xor_rounds-zero rounds y ∙ sym (xor_rounds-zero others y)
more_rounds (suc x) y zero others le le' = absurd (omega arith)
more_rounds (suc x) y (suc rounds) zero le le' = absurd (omega arith)
more_rounds (suc x) y (suc rounds) (suc others) le le' =
    ap (λ high. high * 2 + differ (suc x % 2) (y % 2))
      (more_rounds (suc x / 2) (y / 2) rounds others (omega arith) (omega arith))

differ_bits : (x y : ℕ) → x < 2 → y < 2 → differ x y ≡ (x + y) % 2
differ_bits zero y p q = omega arith
differ_bits (suc zero) zero p q = refl
differ_bits (suc zero) (suc zero) p q = refl
differ_bits (suc zero) (suc (suc y)) p q = absurd (omega arith)
differ_bits (suc (suc x)) y p q = absurd (omega arith)

bit_xor_digit : (x y : ℕ) → bit_xor x y ≡ bit_xor (x / 2) (y / 2) * 2 + differ (x % 2) (y % 2)
bit_xor_digit zero y =
    bit_xor-bitwise 0 y ∙ split ∙ ap (λ high. high * 2 + y % 2) (sym (bit_xor-bitwise 0 (y / 2)))
  where
    split : y ≡ y / 2 * 2 + y % 2
    split = omega arith
bit_xor_digit (suc x) y =
    bit_xor-bitwise (suc x) y
    ∙ ap (λ high. high * 2 + differ (suc x % 2) (y % 2))
        (more_rounds (suc x / 2) (y / 2) x (suc x / 2) (omega arith) (omega arith)
          ∙ sym (bit_xor-bitwise (suc x / 2) (y / 2)))

-- One equation for the lowest digit.
pub bit_xor_step : (a b : ℕ) → bit_xor a b ≡ bit_xor (a / 2) (b / 2) * 2 + (a % 2 + b % 2) % 2
bit_xor_step a b =
    omega (arith, bit_xor_digit a b, differ_bits (a % 2) (b % 2) (omega arith) (omega arith))

pub zero-bit_xor : (b : ℕ) → bit_xor 0 b ≡ b
zero-bit_xor b = bit_xor-bitwise 0 b

comm_fuel : (n a b : ℕ) → a ≤ n → b ≤ n → bit_xor a b ≡ bit_xor b a
comm_fuel zero zero zero p q = refl
comm_fuel zero zero (suc b) p q = absurd (omega arith)
comm_fuel zero (suc a) b p q = absurd (omega arith)
comm_fuel (suc n) a b p q = omega (
  arith,
  bit_xor_step a b,
  bit_xor_step b a,
  comm_fuel n (a / 2) (b / 2) (omega arith) (omega arith),
)

pub bit_xor_comm : (a b : ℕ) → bit_xor a b ≡ bit_xor b a
bit_xor_comm a b = comm_fuel (a + b) a b (omega arith) (omega arith)

pub bit_xor-zero : (a : ℕ) → bit_xor a 0 ≡ a
bit_xor-zero a = bit_xor_comm a 0 ∙ zero-bit_xor a

halves : (a b : ℕ) → bit_xor a b / 2 ≡ bit_xor (a / 2) (b / 2)
halves a b = omega (arith, bit_xor_step a b)

pub parity : (a b : ℕ) → bit_xor a b % 2 ≡ (a % 2 + b % 2) % 2
parity a b = omega (arith, bit_xor_step a b)

assoc_fuel :
    (n a b c : ℕ) → a ≤ n → b ≤ n → c ≤ n → bit_xor (bit_xor a b) c ≡ bit_xor a (bit_xor b c)
assoc_fuel zero zero zero c p q r = ap (λ t. bit_xor t c) (zero-bit_xor 0) ∙ sym (zero-bit_xor _)
assoc_fuel zero zero (suc b) c p q r = absurd (omega arith)
assoc_fuel zero (suc a) b c p q r = absurd (omega arith)
assoc_fuel (suc n) a b c p q r = omega (
  arith,
  bit_xor_step (bit_xor a b) c,
  bit_xor_step a (bit_xor b c),
  ap (λ t. bit_xor t (c / 2)) (halves a b),
  ap (λ t. bit_xor (a / 2) t) (halves b c),
  parity a b,
  parity b c,
  assoc_fuel n (a / 2) (b / 2) (c / 2) (omega arith) (omega arith) (omega arith),
)

pub bit_xor_assoc : (a b c : ℕ) → bit_xor (bit_xor a b) c ≡ bit_xor a (bit_xor b c)
bit_xor_assoc a b c = assoc_fuel (a + b + c) a b c (omega arith) (omega arith) (omega arith)

self_fuel : (n a : ℕ) → a ≤ n → bit_xor a a ≡ 0
self_fuel zero zero p = refl
self_fuel zero (suc a) p = absurd (omega arith)
self_fuel (suc n) a p = omega (arith, bit_xor_step a a, self_fuel n (a / 2) (omega arith))

pub bit_xor_self : (a : ℕ) → bit_xor a a ≡ 0
bit_xor_self a = self_fuel a a (omega arith)

-- A sum is zero at equal numbers only.
pub bit_xor_cancel : (a b : ℕ) → bit_xor a b ≡ 0 → a ≡ b
bit_xor_cancel a b h =
    sym (bit_xor-zero a)
    ∙ ap (bit_xor a) (sym (bit_xor_self b))
    ∙ sym (bit_xor_assoc a b b)
    ∙ ap (λ t. bit_xor t b) h
    ∙ zero-bit_xor b

-- No digit above the eighth appears.
pub lt_digits : (n a b : ℕ) → a < 2 ^ n → b < 2 ^ n → bit_xor a b < 2 ^ n
lt_digits zero a b p q = let e : a ≡ 0 = omega arith in rw e (omega (arith, zero-bit_xor b))
lt_digits (suc n) a b p q = omega (
  arith,
  pow-suc 2 n,
  bit_xor_step a b,
  lt_digits n (a / 2) (b / 2) (omega (arith, pow-suc 2 n)) (omega (arith, pow-suc 2 n)),
)

pub bit_xor-byte : (a b : ℕ) → a < 256 → b < 256 → bit_xor a b < 256
bit_xor-byte a b p q = lt_digits 8 a b p q

-- Low and high digits are added apart.
pub xor_split :
    (n a b m k : ℕ)
    → a < 2 ^ n
    → b < 2 ^ n
    → bit_xor (a + 2 ^ n * m) (b + 2 ^ n * k) ≡ bit_xor a b + 2 ^ n * bit_xor m k
xor_split zero a b m k p q =
    ap₂ bit_xor (only_high a m p) (only_high b k q)
    ∙ omega (arith, ap₂ bit_xor a_zero b_zero ∙ zero-bit_xor 0)
  where
    a_zero : a ≡ 0
    a_zero = omega arith

    b_zero : b ≡ 0
    b_zero = omega arith

    only_high : (x y : ℕ) → x < 2 ^ 0 → x + 2 ^ 0 * y ≡ y
    only_high x y h = omega arith
xor_split (suc n) a b m k p q = omega (
  arith,
  pow-suc 2 n,
  bit_xor_step (a + 2 ^ suc n * m) (b + 2 ^ suc n * k),
  bit_xor_step a b,
  ap₂ bit_xor (half a m) (half b k),
  xor_split n (a / 2) (b / 2) m k (omega (arith, pow-suc 2 n)) (omega (arith, pow-suc 2 n)),
  even a m,
  even b k,
  twice (bit_xor m k),
)
  where
    twice : (y : ℕ) → 2 ^ suc n * y ≡ 2 ^ n * y * 2
    twice y = ap (λ t. t * y) (pow-suc 2 n) ∙ omega arith

    half : (x y : ℕ) → (x + 2 ^ suc n * y) / 2 ≡ x / 2 + 2 ^ n * y
    half x y = omega (arith, twice y)

    even : (x y : ℕ) → (x + 2 ^ suc n * y) % 2 ≡ x % 2
    even x y = omega (arith, twice y)

or_rounds-zero : (n x : ℕ) → x ≤ n → digits (λ b. b) max n x 0 ≡ x
or_rounds-zero zero x h = omega arith
or_rounds-zero (suc n) zero h = refl
or_rounds-zero (suc n) (suc x) h =
    ap (λ high. high * 2 + max (suc x % 2) 0) (or_rounds-zero n (suc x / 2) (omega arith))
    ∙ omega arith

pub bit_or-one : (c : ℕ) → bit_or (c * 2) 1 ≡ c * 2 + 1
bit_or-one zero = bit_or-bitwise 0 1
bit_or-one (suc c) =
    ap (λ k. bit_or k 1) double
    ∙ bit_or-bitwise (suc (suc (c * 2))) 1
    ∙ ap (λ high. high * 2 + max (suc (suc (c * 2)) % 2) 1)
        (or_rounds-zero (suc (c * 2)) (suc (suc (c * 2)) / 2) (omega arith))
    ∙ omega arith
  where
    double : suc c * 2 ≡ suc (suc (c * 2))
    double = omega arith
