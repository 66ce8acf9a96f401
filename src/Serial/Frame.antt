-- ===== src/Serial/Frame.antt =====
-- Command frames of src/hal/source/mtproc.c: `CmdFCSCal`, `MTBuildAndSendCmd`, `ByteReverse`.
-- A frame is SOF, length, two command bytes, the data, and the exclusive or of all after SOF.
pub mod Laws
use kappaio.Common.{
  ℕ, zero, suc, ◌+◌, ◌-◌, ◌%◌, bit_xor, List, [], ◌∷◌, ◌++◌, Option, none, some, take, drop, get_or,
}

-- MT_SOF
abbrev pub mt_sof : ℕ
mt_sof = 0xfe

-- The loop `fcs ^= pBuf[i]` over the bytes that are left.
unfoldable pub fcs_from : ℕ → List ℕ → ℕ
fcs_from fcs [] = fcs
fcs_from fcs (x ∷ xs) = fcs_from (bit_xor fcs x) xs

-- The count is a `uint8_t`.
unfoldable pub cmd_fcs_cal : List ℕ → ℕ → ℕ
unfolding fcs_from
cmd_fcs_cal buf data_len = fcs_from 0 (take (data_len % 256) buf)

-- The data bytes of the message: what `memcpy` copies, or, for a null pointer, what `malloc` left.
unfoldable pub payload : List ℕ → ℕ → Option (List ℕ) → List ℕ
payload block len none = take len (drop 4 block)
payload block len (some p) = take len p

-- The bytes after SOF and before the checksum.
unfoldable pub body : ℕ → ℕ → ℕ → List ℕ → List ℕ
body cmd_type cmd_id len xs = len ∷ cmd_type ∷ cmd_id ∷ xs

-- The bytes that `SerialSend` is given; `none` where `malloc` fails and nothing is sent.
-- `block` is the fresh memory that `malloc (dataLen + 5)` returns.
unfoldable pub build_and_send_cmd :
    (ℕ → Option (List ℕ)) → ℕ → ℕ → ℕ → Option (List ℕ) → Option (List ℕ)
build_and_send_cmd malloc cmd_type cmd_id len p = elim (malloc (len + 5)) [
  | none ↦ none
  | some block ↦
      let msg = body cmd_type cmd_id len (payload block len p) in
      some (mt_sof ∷ (msg ++ (cmd_fcs_cal msg (len + 3) ∷ [])))
]

-- `for (i = 0; i < BufLen; i++) dest[i] = pBuf[BufLen - 1 - i]`, with `n` rounds left.
unfoldable pub byte_reverse_from : List ℕ → ℕ → ℕ → ℕ → List ℕ
byte_reverse_from buf buf_len i zero = []
byte_reverse_from buf buf_len i (suc n) =
    get_or buf (buf_len - 1 - i) 0 ∷ byte_reverse_from buf buf_len (i + 1) n

unfoldable pub byte_reverse : List ℕ → ℕ → List ℕ
unfolding byte_reverse_from
byte_reverse buf buf_len = byte_reverse_from buf buf_len 0 buf_len
