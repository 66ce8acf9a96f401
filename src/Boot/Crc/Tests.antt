-- ===== src/Boot/Crc/Tests.antt =====
-- An image that passes the check, and the same one with damage.
use kappaio.Common.{
  ℕ, zero, suc, ◌+◌, ◌≡◌, refl, ap, ◌∙◌, true, false, List, [], ◌∷◌, ◌++◌, some, length, replicate,
  length-append, length-replicate, append_assoc, inr, arith,
}
use kappaio.Common.Words.{from_le}
use kappaio.Aps.Message.{proxy_rd, copy_out}
use kappaio.Boot.Crc.{
  image_size, run_poly, poly_rounds, poly_step, low_bit, calc_crc, crc_is_good, sb_image_check,
}
use kappaio.Boot.Crc.Image.{run_bytes, body, calc_crc-run_bytes}
use kappaio.Boot.Crc.Damage.{image, Outside, check_whole, sb_image_check-damaged}

-- The two bytes at the end, and their CRC.
tail_crc : run_bytes 0 (1 ∷ 0 ∷ 0 ∷ 0 ∷ []) ≡ 0x3331
unfolding run_poly poly_rounds poly_step low_bit
tail_crc = refl

zero_crc : run_poly 0 0 ≡ 0
unfolding run_poly poly_rounds poly_step low_bit
zero_crc = refl

zeros_crc : (n : ℕ) (bs : List ℕ) → run_bytes 0 (replicate n 0 ++ bs) ≡ run_bytes 0 bs
zeros_crc zero bs = refl
zeros_crc (suc n) bs = ap (λ c. run_bytes c (replicate n 0 ++ bs)) zero_crc ∙ zeros_crc n bs

-- Zeros, the CRC, `n` zeros; then 1 and 0 make an image.
abbrev pub start : ℕ → List ℕ
start n = replicate 144 0 ++ (0x31 ∷ 0x33 ∷ 0 ∷ 0 ∷ replicate n 0)

start-length : (n : ℕ) → length (start n) ≡ 148 + n
start-length n = omega (arith, length-replicate {A = ℕ} n 0)

start-crc :
    (n : ℕ)
    → length (image (start n) [] 1 0) ≡ image_size
    → calc_crc (image (start n) [] 1 0) ≡ 0x3331
start-crc n l =
    calc_crc-run_bytes (image (start n) [] 1 0) l
    ∙ ap (run_bytes 0)
        (ap (λ bs. replicate 144 0 ++ bs) (append_assoc (replicate n 0) (1 ∷ 0 ∷ []) (0 ∷ 0 ∷ [])))
    ∙ zeros_crc 144 (replicate n 0 ++ (1 ∷ 0 ∷ 0 ∷ 0 ∷ []))
    ∙ zeros_crc n (1 ∷ 0 ∷ 0 ∷ 0 ∷ [])
    ∙ tail_crc

pub start_good :
    (n : ℕ)
    → length (image (start n) [] 1 0) ≡ image_size
    → sb_image_check (some (image (start n) [] 1 0)) ≡ true
unfolding crc_is_good proxy_rd copy_out from_le
start_good n l = check_whole (image (start n) [] 1 0) l ∙ rw (start-crc n l)

pub image-length : (n : ℕ) → n ≡ 239466 → length (image (start n) [] 1 0) ≡ image_size
image-length n e = omega (arith, e, length-append (start n) (1 ∷ 0 ∷ []), start-length n)

start_outside : (n : ℕ) → Outside (start n) []
start_outside n = inr (omega (arith, start-length n))

-- The last two bytes of the image are exchanged.
sb_image_check-damaged_example : sb_image_check (some (image (start 239466) [] 0 1)) ≡ false
sb_image_check-damaged_example =
    sb_image_check-damaged (start 239466) [] 1 0 0 1 (image-length 239466 refl)
      (start_outside 239466) (omega arith) (omega arith) (omega arith) (omega arith)
      (λ e. absurd (omega (arith, e.0))) (start_good 239466 (image-length 239466 refl))

calc_crc-run_bytes_example :
    calc_crc (image (start 239466) [] 1 0)
    ≡ run_bytes 0 (body (image (start 239466) [] 1 0) ++ (0 ∷ 0 ∷ []))
calc_crc-run_bytes_example =
    calc_crc-run_bytes (image (start 239466) [] 1 0) (image-length 239466 refl)
