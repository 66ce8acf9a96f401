-- ===== src/Boot/Crc/Image.antt =====
-- The CRC of an image, and the damage that `sb_image_check` finds.
use kappaio.Common.{
  ℕ, zero, suc, ◌+◌, ◌-◌, ◌<◌, ◌≤◌, ◌≡◌, refl, sym, ap, ap₂, ◌∙◌, false, List, [], ◌∷◌, ◌++◌,
  length, take, drop, get_or, ltb, lt→ltb, ltb→lt, ◌==◌, ==_iff, Bool-cases, inl, inr, arith,
}
use kappaio.Boot.Crc.{image_size, crc_offset, crc_loop, run_poly, calc_crc}

-- `runPoly` over a list of bytes.
abbrev pub run_bytes : ℕ → List ℕ → ℕ
run_bytes c [] = c
run_bytes c (b ∷ bs) = run_bytes (run_poly c b) bs

-- The bytes that the CRC is about: all but the four where it stands.
abbrev pub body : List ℕ → List ℕ
body buffer = take crc_offset buffer ++ drop (crc_offset + 4) buffer

drop_all : (n : ℕ) (d : List ℕ) → length d ≤ n → drop n d ≡ []
drop_all zero [] h = refl
drop_all zero (x ∷ d) h = absurd (omega arith)
drop_all (suc n) [] h = refl
drop_all (suc n) (x ∷ d) h = drop_all n d (omega arith)

drop_next : (n : ℕ) (d : List ℕ) → n < length d → drop n d ≡ get_or d n 0 ∷ drop (n + 1) d
drop_next n [] h = absurd (omega arith)
drop_next zero (x ∷ d) h = refl
drop_next (suc n) (x ∷ d) h =
    drop_next n d (omega arith) ∙ ap (λ k. get_or d n 0 ∷ drop k (x ∷ d)) next
  where
    next : suc (n + 1) ≡ suc n + 1
    next = omega arith

-- The loop behind the place of the CRC.
loop_tail :
    (fuel addr : ℕ) (buffer : List ℕ) (crc : ℕ)
    → length buffer ≡ image_size
    → crc_offset < addr
    → image_size ≤ addr + fuel
    → crc_loop fuel addr buffer crc ≡ run_bytes crc (drop addr buffer)
unfolding crc_loop
loop_tail zero addr buffer crc l past enough =
    ap (run_bytes crc) (sym (drop_all addr buffer (omega (arith, l))))
loop_tail (suc fuel) addr buffer crc l past enough = elim (Bool-cases (ltb addr image_size)) [
  | inl inside ↦
      rw (inside, other)
        (loop_tail fuel (addr + 1) buffer (run_poly crc (get_or buffer addr 0)) l (omega arith)
            (omega arith)
          ∙ ap (run_bytes crc)
              (sym (drop_next addr buffer (omega (arith, l, ltb→lt addr image_size inside)))))
  | inr outside ↦
      rw (outside) (ap (run_bytes crc) (sym (drop_all addr buffer (ground (arith, l, outside)))))
]
  where
    other : (addr == crc_offset) ≡ false
    other = ground arith

-- The bytes before the place of the CRC, from the place on and one earlier.
skipped :
    (addr : ℕ) (buffer : List ℕ)
    → addr ≡ crc_offset
    → drop (addr + 4) buffer
      ≡ take (crc_offset - addr) (drop addr buffer) ++ drop (crc_offset + 4) buffer
skipped addr buffer here =
    ap (λ k. drop k buffer) place
    ∙ ap (λ k. take k (drop addr buffer) ++ drop (crc_offset + 4) buffer) nothing
  where
    place : addr + 4 ≡ crc_offset + 4
    place = omega arith

    nothing : 0 ≡ crc_offset - addr
    nothing = omega arith

taken :
    (addr : ℕ) (buffer : List ℕ)
    → addr < crc_offset
    → addr < length buffer
    → take (crc_offset - addr) (drop addr buffer)
      ≡ get_or buffer addr 0 ∷ take (crc_offset - (addr + 1)) (drop (addr + 1) buffer)
taken addr buffer before inside = ap₂ take one (drop_next addr buffer inside)
  where
    one : crc_offset - addr ≡ suc (crc_offset - (addr + 1))
    one = omega arith

loop_head :
    (fuel addr : ℕ) (buffer : List ℕ) (crc : ℕ)
    → length buffer ≡ image_size
    → addr ≤ crc_offset
    → image_size ≤ addr + fuel
    → crc_loop fuel addr buffer crc
      ≡ run_bytes crc (take (crc_offset - addr) (drop addr buffer) ++ drop (crc_offset + 4) buffer)
unfolding crc_loop
loop_head zero addr buffer crc l before enough = absurd (omega arith)
loop_head (suc fuel) addr buffer crc l before enough = elim (Bool-cases (addr == crc_offset)) [
  | inl here ↦
      rw (lt→ltb addr image_size (omega arith), here)
        (loop_tail fuel (addr + 4) buffer crc l (omega (arith, ((==_iff addr crc_offset).0 here)))
            (omega arith)
          ∙ ap (run_bytes crc) (skipped addr buffer ((==_iff addr crc_offset).0 here)))
  | inr other ↦
      rw (lt→ltb addr image_size (omega arith), other)
        (loop_head fuel (addr + 1) buffer (run_poly crc (get_or buffer addr 0)) l
            (ground (arith, other)) (omega arith)
          ∙ ap (λ bs. run_bytes crc (bs ++ drop (crc_offset + 4) buffer))
              (sym (taken addr buffer (ground (arith, other)) (omega (arith, l)))))
]

pub run_bytes-append :
    (c : ℕ) (xs ys : List ℕ) → run_bytes c (xs ++ ys) ≡ run_bytes (run_bytes c xs) ys
run_bytes-append c [] ys = refl
run_bytes-append c (x ∷ xs) ys = run_bytes-append (run_poly c x) xs ys

-- `calcCRC` of a buffer of the image's size is `runPoly` over all its bytes but the four at 0x90, and then over
-- two zeros.
pub calc_crc-run_bytes :
    (buffer : List ℕ)
    → length buffer ≡ image_size
    → calc_crc buffer ≡ run_bytes 0 (body buffer ++ (0 ∷ 0 ∷ []))
unfolding calc_crc
calc_crc-run_bytes buffer l =
    ap (λ c. run_poly (run_poly c 0) 0)
      (loop_head image_size 0 buffer 0 l (omega arith) (omega arith))
    ∙ sym (run_bytes-append 0 (body buffer) (0 ∷ 0 ∷ []))
