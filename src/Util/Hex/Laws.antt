-- ===== src/Util/Hex/Laws.antt =====
-- The digits, and the text that `kIntToStr` writes.
use kappaio.Common.{
  ℕ, ◌+◌, ◌*◌, ◌/◌, ◌%◌, ◌<◌, ◌≡◌, refl, ◌∙◌, List, [], ◌∷◌, ◌++◌, length, length-append, arith,
  bit_or,
}
use kappaio.Common.Words.{All, All-append, Bytes, IsByte, from_le}
use kappaio.Common.Finite.{agree_below}
use kappaio.Util.Hex.{k_char_to_int, hex_digit, byte_text, k_int_to_str, k_print_mem}

-- The character of a digit reads as that digit.
pub char-hex_digit : (n : ℕ) → n < 16 → k_char_to_int (hex_digit n) ≡ n
unfolding k_char_to_int hex_digit
char-hex_digit n h =
    agree_below 1 16 0 n (λ a b. k_char_to_int (hex_digit b)) (λ a b. b) refl (omega arith) h

pub or_digits : (lo hi : ℕ) → lo < 16 → hi < 16 → bit_or lo (hi * 16) ≡ lo + hi * 16
or_digits lo hi p q =
    agree_below 16 16 lo hi (λ a b. bit_or a (b * 16)) (λ a b. a + b * 16) refl p q

pub or_digits_high : (hi lo : ℕ) → hi < 16 → lo < 16 → bit_or (hi * 16 % 256) lo ≡ hi * 16 + lo
or_digits_high hi lo p q =
    agree_below 16 16 hi lo (λ a b. bit_or (a * 16 % 256) b) (λ a b. a * 16 + b) refl p q

pub length-byte_text : (b : ℕ) → length (byte_text b) ≡ 2
unfolding byte_text
length-byte_text b = refl

pub length-k_int_to_str : (bs : List ℕ) → length (k_int_to_str bs) ≡ length bs * 2
unfolding k_int_to_str
length-k_int_to_str [] = refl
length-k_int_to_str (b ∷ bs) = omega (
  arith,
  length-append (k_int_to_str bs) (byte_text b),
  length-k_int_to_str bs,
  length-byte_text b,
)

abbrev pub IsDigit : ℕ → Type 0
IsDigit c = k_char_to_int c < 16

-- The number that hexadecimal text stands for, after the digits that are already in `acc`.
unfoldable pub numeral : ℕ → List ℕ → ℕ
numeral acc [] = acc
numeral acc (c ∷ cs) = numeral (acc * 16 + k_char_to_int c) cs

pub numeral-append :
    (acc : ℕ) (cs ds : List ℕ) → numeral acc (cs ++ ds) ≡ numeral (numeral acc cs) ds
unfolding numeral
numeral-append acc [] ds = refl
numeral-append acc (c ∷ cs) ds = numeral-append (acc * 16 + k_char_to_int c) cs ds

pub byte_text-Digits : (b : ℕ) → All IsDigit (byte_text b)
unfolding byte_text
byte_text-Digits b = (digit (b / 16 % 16) (omega arith), (digit (b % 16) (omega arith), tt))
  where
    digit : (n : ℕ) → n < 16 → IsDigit (hex_digit n)
    digit n h = omega (arith, char-hex_digit n h)

pub numeral-byte_text : (acc b : ℕ) → IsByte b → numeral acc (byte_text b) ≡ acc * 256 + b
unfolding numeral byte_text
numeral-byte_text acc b h =
    omega (arith, char-hex_digit (b / 16 % 16) (omega arith), char-hex_digit (b % 16) (omega arith))

pub k_int_to_str-Digits : (bs : List ℕ) → All IsDigit (k_int_to_str bs)
unfolding k_int_to_str
k_int_to_str-Digits [] = tt
k_int_to_str-Digits (b ∷ bs) =
    All-append IsDigit (k_int_to_str bs) (byte_text b) (k_int_to_str-Digits bs) (byte_text-Digits b)

-- The text is the numeral of the number that the bytes hold.
pub numeral-k_int_to_str : (bs : List ℕ) → Bytes bs → numeral 0 (k_int_to_str bs) ≡ from_le bs
unfolding numeral k_int_to_str from_le
numeral-k_int_to_str [] h = refl
numeral-k_int_to_str (b ∷ bs) h =
    numeral-append 0 (k_int_to_str bs) (byte_text b)
    ∙ numeral-byte_text (numeral 0 (k_int_to_str bs)) b h.0
    ∙ omega (arith, numeral-k_int_to_str bs h.1)

pub length-k_print_mem : (bs : List ℕ) → length (k_print_mem bs) ≡ length bs * 2
unfolding k_print_mem byte_text
length-k_print_mem [] = refl
length-k_print_mem (b ∷ bs) = omega (arith, length-k_print_mem bs)
