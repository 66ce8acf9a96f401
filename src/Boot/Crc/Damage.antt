-- ===== src/Boot/Crc/Damage.antt =====
-- Damage of two neighbouring bytes is found by `sb_image_check`.
use kappaio.Common.{
  ℕ, suc, ◌+◌, ◌-◌, ◌<◌, ◌≤◌, ◌≡◌, ◌⊎◌, sym, ap, ap₂, ◌∙◌, Bool, true, false, List, [], ◌∷◌, ◌++◌,
  some, length, take, drop, get_or, length-append, take-past, drop-past, take-within, drop-within,
  get_or-append_left, get_or-append_right, take-length, append_assoc, ◌==◌, ==_iff, Bool-cases, inl,
  inr, if◌then◌else◌, not, ◌||◌, arith,
}
use kappaio.Common.Words.{IsByte, from_le}
use kappaio.Aps.Message.{proxy_rd, copy_out}
use kappaio.Boot.Crc.{image_size, crc_offset, run_poly, calc_crc, crc_is_good, sb_image_check}
use kappaio.Boot.Crc.Bytes.{run_poly_small, run_poly_injective, run_poly-burst}
use kappaio.Boot.Crc.Image.{run_bytes, run_bytes-append, body, calc_crc-run_bytes}

run_bytes_small : (c : ℕ) (bs : List ℕ) → c < 65536 → run_bytes c bs < 65536
run_bytes_small c [] h = h
run_bytes_small c (b ∷ bs) h = run_bytes_small (run_poly c b) bs (run_poly_small c b h)

run_bytes_injective :
    (c d : ℕ) (bs : List ℕ) → c < 65536 → d < 65536 → run_bytes c bs ≡ run_bytes d bs → c ≡ d
run_bytes_injective c d [] p q e = e
run_bytes_injective c d (b ∷ bs) p q e = run_poly_injective c d b p q (
    run_bytes_injective (run_poly c b) (run_poly d b) bs (run_poly_small c b p)
      (run_poly_small d b q) e)

module _ (pre post : List ℕ) where
  -- The image with two bytes between what is before them and what is behind them.
  abbrev pub image : ℕ → ℕ → List ℕ
  image x y = pre ++ (x ∷ y ∷ post)

  -- The two bytes are outside the place of the CRC.
  abbrev pub Outside : Type 0
  Outside = (length pre + 2 ≤ crc_offset) ⊎ (crc_offset + 4 ≤ length pre)

  framed :
      Outside
      → (before : List ℕ) × (behind : List ℕ) × ((x y : ℕ)
          → body (image x y) ≡ before ++ (x ∷ y ∷ behind))
  framed (inl left) = (
    pre,
    (take k post ++ drop (k + 4) post),
    (λ x y.
        ap₂ ◌++◌ (ap (λ n. take n (image x y)) first ∙ take-past pre (x ∷ y ∷ post) (suc (suc k)))
          (ap (λ n. drop n (image x y)) second ∙ drop-past pre (x ∷ y ∷ post) (suc (suc (k + 4))))
        ∙ append_assoc pre (x ∷ y ∷ take k post) (drop (k + 4) post)),
  )
    where
      k : ℕ
      k = crc_offset - (length pre + 2)

      first : crc_offset ≡ length pre + suc (suc k)
      first = omega arith

      second : crc_offset + 4 ≡ length pre + suc (suc (k + 4))
      second = omega arith
  framed (inr right) = (
    (take crc_offset pre ++ drop (crc_offset + 4) pre),
    post,
    (λ x y.
        ap₂ ◌++◌ (take-within crc_offset pre (x ∷ y ∷ post) (omega arith))
          (drop-within (crc_offset + 4) pre (x ∷ y ∷ post) right)
        ∙ sym (append_assoc (take crc_offset pre) (drop (crc_offset + 4) pre) (x ∷ y ∷ post))),
  )

  length-image : (x y : ℕ) → length (image x y) ≡ length pre + suc (suc (length post))
  length-image x y = length-append pre (x ∷ y ∷ post)

  module _ (x y x' y' : ℕ) (outside : Outside) where
    same_read :
        (i : ℕ)
        → (length pre + 2 ≤ i) ⊎ (i < length pre)
        → get_or (image x y) i 0 ≡ get_or (image x' y') i 0
    same_read i (inl past) =
        ap (λ n. get_or (image x y) n 0) place
        ∙ get_or-append_right pre (x ∷ y ∷ post) (suc (suc k)) 0
        ∙ sym (get_or-append_right pre (x' ∷ y' ∷ post) (suc (suc k)) 0)
        ∙ ap (λ n. get_or (image x' y') n 0) (sym place)
      where
        k : ℕ
        k = i - (length pre + 2)

        place : i ≡ length pre + suc (suc k)
        place = omega arith
    same_read i (inr before) =
        get_or-append_left pre (x ∷ y ∷ post) i 0 before
        ∙ sym (get_or-append_left pre (x' ∷ y' ∷ post) i 0 before)

    same_crc_word : proxy_rd (image x y) crc_offset 2 ≡ proxy_rd (image x' y') crc_offset 2
    unfolding proxy_rd copy_out
    same_crc_word =
        ap₂ (λ a b. from_le (a ∷ b ∷ [])) (same_read 144 (side 144 (omega arith) (omega arith)))
          (same_read 145 (side 145 (omega arith) (omega arith)))
      where
        side : (i : ℕ) → 144 ≤ i → i < 148 → (length pre + 2 ≤ i) ⊎ (i < length pre)
        side i low high = elim outside [
          | inl left ↦ inl (omega arith)
          | inr right ↦ inr (omega arith)
        ]

    crc_tells :
        length (image x y) ≡ image_size
        → IsByte x
        → IsByte y
        → IsByte x'
        → IsByte y'
        → calc_crc (image x y) ≡ calc_crc (image x' y')
        → (x ≡ x') × (y ≡ y')
    crc_tells l bx by bx' by' e = run_poly-burst c x y x' y' bx by bx' by' (
        run_bytes_injective (run_poly (run_poly c x) y) (run_poly (run_poly c x') y') rest
          (run_poly_small (run_poly c x) y (run_poly_small c x c_small))
          (run_poly_small (run_poly c x') y' (run_poly_small c x' c_small))
          (sym (over x y l) ∙ e ∙ over x' y' (length-image x' y' ∙ sym (length-image x y) ∙ l)))
      where
        before : List ℕ
        before = (framed outside).0

        rest : List ℕ
        rest = (framed outside).1 ++ (0 ∷ 0 ∷ [])

        c : ℕ
        c = run_bytes 0 before

        c_small : c < 65536
        c_small = run_bytes_small 0 before (omega arith)

        over :
            (a b : ℕ)
            → length (image a b) ≡ image_size
            → calc_crc (image a b) ≡ run_bytes (run_poly (run_poly c a) b) rest
        over a b m =
            calc_crc-run_bytes (image a b) m
            ∙ ap (λ bs. run_bytes 0 (bs ++ (0 ∷ 0 ∷ []))) ((framed outside).2 a b)
            ∙ ap (run_bytes 0) (append_assoc before (a ∷ b ∷ (framed outside).1) (0 ∷ 0 ∷ []))
            ∙ run_bytes-append 0 before (a ∷ b ∷ rest)

pub check_whole : (b : List ℕ) → length b ≡ image_size → sb_image_check (some b) ≡ crc_is_good b
unfolding sb_image_check
check_whole b l = rw (whole, l)
  where
    whole : take image_size b ≡ b
    whole = ap (λ k. take k b) (sym l) ∙ take-length b

good_crc : (b : List ℕ) → crc_is_good b ≡ true → proxy_rd b crc_offset 2 ≡ calc_crc b
unfolding crc_is_good
good_crc b h = (==_iff (proxy_rd b crc_offset 2) (calc_crc b)).0 (
    third (proxy_rd b crc_offset 2 == 0xffff) (proxy_rd b crc_offset 2 == 0)
      (proxy_rd b crc_offset 2 == calc_crc b) h)
  where
    third : (a b c : Bool) → (if a || (b || not c) then false else true) ≡ true → c ≡ true
    third a b c e = ground (arith, e)

-- An image of the right size that `sb_image_check` accepts, and two neighbouring bytes of it outside the four of
-- the CRC: an image with any other two bytes in their place is refused.
pub sb_image_check-damaged :
    (pre post : List ℕ) (x y x' y' : ℕ)
    → length (image pre post x y) ≡ image_size
    → Outside pre post
    → IsByte x
    → IsByte y
    → IsByte x'
    → IsByte y'
    → ((x ≡ x') × (y ≡ y') → ⊥)
    → sb_image_check (some (image pre post x y)) ≡ true
    → sb_image_check (some (image pre post x' y')) ≡ false
sb_image_check-damaged pre post x y x' y' l outside bx by bx' by' changed good =
    elim (Bool-cases (sb_image_check (some damaged))) [
      | inl passes ↦ absurd (
          changed (
            crc_tells pre post x y x' y' outside l bx by bx' by' (
              sym (good_crc sound (sym (check_whole sound l) ∙ good))
              ∙ same_crc_word pre post x y x' y' outside
              ∙ good_crc damaged (sym (check_whole damaged l') ∙ passes))))
      | inr refused ↦ refused
    ]
  where
    sound : List ℕ
    sound = image pre post x y

    damaged : List ℕ
    damaged = image pre post x' y'

    l' : length damaged ≡ image_size
    l' = length-image pre post x' y' ∙ sym (length-image pre post x y) ∙ l
