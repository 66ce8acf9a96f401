-- ===== src/Util/Hex/Overrun.antt =====
-- `kByteToHexString`, and the loop of `kHexStringToByte` and `hexStrToByteVec`.
use kappaio.Common.{
  ℕ, zero, suc, ◌*◌, ◌/◌, ◌%◌, ◌<◌, ◌≡◌, refl, ap, ap₂, List, [], ◌∷◌, ◌++◌, length, length-append,
  arith, some, none,
}
use kappaio.Common.Words.{Bytes, IsByte}
use kappaio.Util.Hex.{
  byte_text, hex_digit, k_byte_to_hex_string, byte_at, put_byte, bytes_from, k_hex_string_to_byte,
  hex_str_to_byte_vec,
}
use kappaio.Util.Hex.Laws.{char-hex_digit, or_digits_high}

byte_at-byte_text : (b : ℕ) → IsByte b → byte_at (hex_digit (b / 16 % 16)) (hex_digit (b % 16)) ≡ b
unfolding byte_at
byte_at-byte_text b h =
    rw
      (
        char-hex_digit (b / 16 % 16) (omega arith),
        char-hex_digit (b % 16) (omega arith),
        or_digits_high (b / 16 % 16) (b % 16) (omega arith) (omega arith),
      )
      (omega arith)

-- With one turn for each byte, as many as half the characters, the loop of `kHexStringToByte` reads back
-- what `kByteToHexString` wrote, whatever follows it.
pub bytes_from-k_byte_to_hex_string :
    (bs rest : List ℕ)
    → Bytes bs
    → bytes_from (length bs) (k_byte_to_hex_string bs ++ rest) ≡ some bs
unfolding bytes_from k_byte_to_hex_string byte_text put_byte
bytes_from-k_byte_to_hex_string [] rest h = refl
bytes_from-k_byte_to_hex_string (b ∷ bs) rest h =
    ap₂ put_byte (byte_at-byte_text b h.0) (bytes_from-k_byte_to_hex_string bs rest h.1)

overrun : (n : ℕ) (text : List ℕ) → length text < n * 2 → bytes_from n text ≡ none
unfolding bytes_from put_byte
overrun zero text h = absurd (omega arith)
overrun (suc n) [] h = refl
overrun (suc n) (c ∷ []) h = refl
overrun (suc n) (c ∷ c' ∷ text) h = ap (put_byte (byte_at c c')) (overrun n text (omega arith))

-- With one turn for each character, as `kHexStringToByte` and `hexStrToByteVec` take them, every text
-- of an even number of characters, but the empty one, is read beyond its end.
pub hex_string-overrun :
    (text : List ℕ)
    → length text % 2 ≡ 0
    → 0 < length text
    → (k_hex_string_to_byte text ≡ none) × (hex_str_to_byte_vec text ≡ none)
unfolding k_hex_string_to_byte hex_str_to_byte_vec
hex_string-overrun text even some_text = (loop, rw (even) loop)
  where
    loop : bytes_from (length text) (text ++ (0 ∷ [])) ≡ none
    loop = overrun (length text) (text ++ (0 ∷ [])) (omega (arith, length-append text (0 ∷ [])))
