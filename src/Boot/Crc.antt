-- ===== src/Boot/Crc.antt =====
-- The check of an image's CRC before it is written: `sb_image_check`, `calcCRC` and `runPoly` of
-- src/sbl/source/serial_bootload.cpp.
pub mod Rounds
pub mod Bytes
pub mod Image
pub mod Damage
pub mod Tests
use kappaio.Common.{
  ℕ, zero, suc, ◌+◌, ◌*◌, ◌%◌, Bool, true, false, List, [], ◌∷◌, Option, none, some, get_or, take,
  length, ltb, leb, ◌==◌, ◌||◌, not, if◌then◌else◌, bit_or, bit_xor,
}
use kappaio.Aps.Message.{proxy_rd}

-- HAL_SB_IMG_SIZE, and HAL_SB_CRC_ADDR - HAL_SB_IMG_ADDR.
abbrev pub image_size : ℕ
image_size = 0x3a800

abbrev pub crc_offset : ℕ
crc_offset = 0x90

-- A turn of the loop of `runPoly`: what it makes of the 16 bits of `crc`, for the high bit of `val`.
unfoldable pub low_bit : Bool → ℕ → ℕ
low_bit high c = if high then bit_or c 1 else c

unfoldable pub poly_step : ℕ → Bool → ℕ
poly_step crc high =
    let shifted = low_bit high (crc * 2 % 65536) in
    if leb 32768 crc then bit_xor shifted 0x1021 else shifted

unfoldable pub poly_rounds : ℕ → ℕ → ℕ → ℕ
poly_rounds zero crc val = crc
poly_rounds (suc n) crc val = poly_rounds n (poly_step crc (leb 128 val)) (val * 2 % 256)

unfoldable pub run_poly : ℕ → ℕ → ℕ
run_poly crc val = poly_rounds 8 crc val

-- The loop of `calcCRC`; a turn for each byte is enough.
unfoldable pub crc_loop : ℕ → ℕ → List ℕ → ℕ → ℕ
crc_loop zero addr buffer crc = crc
crc_loop (suc fuel) addr buffer crc =
    let skipped = crc_loop fuel (addr + 4) buffer crc in
    let added = crc_loop fuel (addr + 1) buffer (run_poly crc (get_or buffer addr 0)) in
    if ltb addr image_size then (if addr == crc_offset then skipped else added) else crc

unfoldable pub calc_crc : List ℕ → ℕ
calc_crc buffer = run_poly (run_poly (crc_loop image_size 0 buffer 0) 0) 0

-- `sb_image_check` of a file, `none` if it does not open: whether the result is 0.
unfoldable pub crc_is_good : List ℕ → Bool
crc_is_good buffer =
    let crc = proxy_rd buffer crc_offset 2 in
    if (crc == 0xffff) || ((crc == 0) || not (crc == calc_crc buffer)) then false else true

unfoldable pub sb_image_check : Option (List ℕ) → Bool
sb_image_check none = false
sb_image_check (some file) =
    if length (take image_size file) == image_size
    then crc_is_good (take image_size file)
    else false
