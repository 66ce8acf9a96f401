-- ===== src/Util/Hex/Tests.antt =====
-- Runs of the conversions on small texts.
use kappaio.Common.{ℕ, ◌≡◌, refl, List, [], ◌∷◌, ◌++◌, none, some, arith, ◌↔◌, true}
use kappaio.Common.Words.{All, to_le}
use kappaio.Util.Hex.{
  Parsed, k_char_to_int, k_int_to_str, k_byte_to_hex_string, bytes_from, k_str_to_int,
  k_str_to_int_status, k_hex_string_to_byte, hex_str_to_byte_vec,
}
use kappaio.Util.Hex.Laws.{IsDigit, numeral}
use kappaio.Util.Hex.Parse.{
  k_str_to_int-numeral, k_str_to_int_status-digits, k_str_to_int-k_int_to_str,
}
use kappaio.Util.Hex.Overrun.{bytes_from-k_byte_to_hex_string, hex_string-overrun}

-- "00Fa"
abbrev text : List ℕ
text = 0x30 ∷ 0x30 ∷ 0x46 ∷ 0x61 ∷ []

text-Digits : All IsDigit text
unfolding k_char_to_int
text-Digits = (omega arith, (omega arith, (omega arith, (omega arith, tt))))

k_str_to_int-numeral_run : k_str_to_int text 2 ≡ record { bytes = 0xfa ∷ 0 ∷ []; valid = true }
unfolding k_char_to_int numeral to_le
k_str_to_int-numeral_run = k_str_to_int-numeral 2 text refl text-Digits

k_str_to_int_status-digits_run :
    ((k_str_to_int_status text 2 ≡ some 4) ↔ All IsDigit text)
    × ((k_str_to_int_status text 2 ≡ none) ↔ ¬ All IsDigit text)
k_str_to_int_status-digits_run = k_str_to_int_status-digits 2 text refl

-- "0g"
k_str_to_int_refuses : k_str_to_int_status (0x30 ∷ 0x67 ∷ []) 1 ≡ none
unfolding k_str_to_int_status k_str_to_int kappaio.Util.Hex.parse_from k_char_to_int
k_str_to_int_refuses = refl

k_str_to_int-k_int_to_str_example :
    k_str_to_int (k_int_to_str (0xfa ∷ 0x10 ∷ [])) 2
    ≡ record { bytes = 0xfa ∷ 0x10 ∷ []; valid = true }
k_str_to_int-k_int_to_str_example =
    k_str_to_int-k_int_to_str (0xfa ∷ 0x10 ∷ []) (omega arith, (omega arith, tt))

bytes_from-k_byte_to_hex_string_run :
    bytes_from 2 (k_byte_to_hex_string (0xfa ∷ 0x10 ∷ []) ++ (0 ∷ [])) ≡ some (0xfa ∷ 0x10 ∷ [])
bytes_from-k_byte_to_hex_string_run =
    bytes_from-k_byte_to_hex_string (0xfa ∷ 0x10 ∷ []) (0 ∷ []) (omega arith, (omega arith, tt))

hex_string-overrun_run : (k_hex_string_to_byte text ≡ none) × (hex_str_to_byte_vec text ≡ none)
hex_string-overrun_run = hex_string-overrun text refl (omega arith)
