-- ===== src/Util/Hex.antt =====
-- Hexadecimal text: `kCharToInt`, `kStrToInt`, `kIntToStr`, `kPrintMem`, `kByteToHexString` and `kHexStringToByte`
-- of src/kapi/source/kutil.cpp, `hexStrToByteVec` of src/kapi/include/kutil.h, as built with
-- `__LITTLE_ENDIAN__`. A string is the list of its characters' codes, without the final 0.
pub mod Laws
pub mod Parse
pub mod Overrun
mod Tests
use kappaio.Common.{
  ℕ, zero, suc, ◌+◌, ◌-◌, ◌*◌, ◌/◌, ◌%◌, Bool, true, false, List, [], ◌∷◌, ◌++◌, Option, none, some,
  get_or, length, ltb, leb, ◌==◌, if◌then◌else◌, ◌&&◌, bit_or,
}

-- `kCharToInt`; 16 for a character that is no digit.
unfoldable pub k_char_to_int : ℕ → ℕ
k_char_to_int c =
    if leb 0x30 c && leb c 0x39
    then c - 0x30
    else (if leb 0x41 c && leb c 0x46
        then c - 55
        else (if leb 0x61 c && leb c 0x66 then c - 87 else 16))

-- The two characters that `sprintf` writes for "%02x".
unfoldable pub hex_digit : ℕ → ℕ
hex_digit n = if ltb n 10 then 0x30 + n else n + 87

unfoldable pub byte_text : ℕ → List ℕ
byte_text b = hex_digit (b / 16 % 16) ∷ hex_digit (b % 16) ∷ []

-- `kByteToHexString`: the bytes in their order.
unfoldable pub k_byte_to_hex_string : List ℕ → List ℕ
k_byte_to_hex_string [] = []
k_byte_to_hex_string (b ∷ bs) = byte_text b ++ k_byte_to_hex_string bs

-- `kPrintMem`
unfoldable pub k_print_mem : List ℕ → List ℕ
k_print_mem [] = []
k_print_mem (b ∷ bs) = byte_text b ++ k_print_mem bs

-- `kIntToStr`: from the last byte down to the first.
unfoldable pub k_int_to_str : List ℕ → List ℕ
k_int_to_str [] = []
k_int_to_str (b ∷ bs) = k_int_to_str bs ++ byte_text b

-- The loop of `kStrToInt`. `pos` counts the characters below the read pointer, the one it points to
-- included. The two results are the bytes written so far and whether no digit was invalid.
pub record Parsed : Type 0 where
  pub bytes : List ℕ
  pub valid : Bool

-- A byte goes before what the rest of the loop writes.
abbrev pub write_byte : ℕ → Parsed → Parsed
write_byte b r = record r { bytes = b ∷ r.bytes }

unfoldable pub parse_from : List ℕ → ℕ → ℕ → Parsed
parse_from source zero pos = record { bytes = []; valid = true }
parse_from source (suc asrclen) pos =
    let lo = k_char_to_int (get_or source (pos - 1) 0) in
    let hi = k_char_to_int (get_or source (pos - 2) 0) in
    let rest = parse_from source asrclen (pos - 2) in
    if ltb 0x0f lo
    then record { bytes = []; valid = false }
    else (if ltb 0x0f hi
        then record { bytes = lo ∷ []; valid = false }
        else write_byte (bit_or lo (hi * 16)) rest)

unfoldable pub k_str_to_int : List ℕ → ℕ → Parsed
k_str_to_int source destination_size = parse_from source destination_size (destination_size * 2)

-- What `kStrToInt` returns; `none` is -1.
unfoldable pub k_str_to_int_status : List ℕ → ℕ → Option ℕ
k_str_to_int_status source destination_size =
    if (k_str_to_int source destination_size).valid then some (destination_size * 2) else none

-- The loop of `kHexStringToByte` and of `hexStrToByteVec`, which turns once for each of the
-- characters although a turn reads two: `none` is a read behind the string and its final 0.
unfoldable pub byte_at : ℕ → ℕ → ℕ
byte_at c c' = bit_or (k_char_to_int c * 16 % 256) (k_char_to_int c')

unfoldable pub put_byte : ℕ → Option (List ℕ) → Option (List ℕ)
put_byte b none = none
put_byte b (some bs) = some (b ∷ bs)

unfoldable pub bytes_from : ℕ → List ℕ → Option (List ℕ)
bytes_from zero text = some []
bytes_from (suc n) [] = none
bytes_from (suc n) (c ∷ []) = none
bytes_from (suc n) (c ∷ c' ∷ text) = put_byte (byte_at c c') (bytes_from n text)

-- The string's memory has the final 0 after its characters.
unfoldable pub k_hex_string_to_byte : List ℕ → Option (List ℕ)
k_hex_string_to_byte text = bytes_from (length text) (text ++ (0 ∷ []))

unfoldable pub hex_str_to_byte_vec : List ℕ → Option (List ℕ)
hex_str_to_byte_vec text =
    if length text % 2 == 1 then some [] else bytes_from (length text) (text ++ (0 ∷ []))
