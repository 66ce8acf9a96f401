-- ===== src/Util/Hex/Parse.antt =====
-- `kStrToInt` reads numerals, and nothing else.
use kappaio.Common.{
  ℕ, zero, suc, ◌+◌, ◌-◌, ◌*◌, ◌/◌, ◌%◌, ◌<◌, ◌≡◌, refl, ap, ap₂, sym, ◌∙◌, subst, true, false,
  List, [], ◌∷◌, ◌++◌, append_assoc, append-nil, length, length-take, length-drop, take, drop,
  take-append-drop, arith, ltb, le→ltb, some, none, ◌↔◌, get_or, get_or-append_right, Bool-cases,
  inl, inr,
}
use kappaio.Common.Words.{All, All-append, All-split, Bytes, to_le, to_le-from_le}
use kappaio.Util.Hex.{
  k_char_to_int, k_int_to_str, Parsed, write_byte, parse_from, k_str_to_int, k_str_to_int_status,
}
use kappaio.Util.Hex.Laws.{
  or_digits, IsDigit, numeral, numeral-append, length-k_int_to_str, k_int_to_str-Digits,
  numeral-k_int_to_str,
}

-- The last two characters of a text.
pub record Last (cs : List ℕ) (n : ℕ) : Type 0 where
  pub pre : List ℕ
  pub hi : ℕ
  pub lo : ℕ
  pub length_pre : length pre ≡ n * 2
  pub whole : cs ≡ pre ++ (hi ∷ lo ∷ [])

text-Last : (cs : List ℕ) (n : ℕ) → length cs ≡ suc n * 2 → Last cs n
text-Last cs n h = pair (drop (n * 2) cs) rest (sym (take-append-drop (n * 2) cs))
  where
    rest : length (drop (n * 2) cs) ≡ 2
    rest = omega (arith, length-drop (n * 2) cs)

    front : length (take (n * 2) cs) ≡ n * 2
    front = omega (arith, length-take (n * 2) cs)

    pair : (ds : List ℕ) → length ds ≡ 2 → cs ≡ take (n * 2) cs ++ ds → Last cs n
    pair [] l e = absurd (omega arith)
    pair (c ∷ []) l e = absurd (omega arith)
    pair (c ∷ c' ∷ []) l e = record {
      pre = take (n * 2) cs;
      hi = c;
      lo = c';
      length_pre = front;
      whole = e;
    }
    pair (c ∷ c' ∷ c'' ∷ ds) l e = absurd (omega arith)

module _ (pre tail : List ℕ) (hi lo n : ℕ) (l : length pre ≡ n * 2) where
  at_lo : get_or (pre ++ (hi ∷ lo ∷ tail)) (suc n * 2 - 1) 0 ≡ lo
  at_lo =
      ap (λ k. get_or (pre ++ (hi ∷ lo ∷ tail)) k 0) place
      ∙ get_or-append_right pre (hi ∷ lo ∷ tail) 1 0
    where
      place : suc n * 2 - 1 ≡ length pre + 1
      place = omega arith

  at_hi : get_or (pre ++ (hi ∷ lo ∷ tail)) (suc n * 2 - 2) 0 ≡ hi
  at_hi =
      ap (λ k. get_or (pre ++ (hi ∷ lo ∷ tail)) k 0) place
      ∙ get_or-append_right pre (hi ∷ lo ∷ tail) 0 0
    where
      place : suc n * 2 - 2 ≡ length pre + 0
      place = omega arith

  back : suc n * 2 - 2 ≡ n * 2
  back = omega arith

  -- One turn of the loop on two digits.
  turn :
      IsDigit hi
      → IsDigit lo
      → parse_from (pre ++ (hi ∷ lo ∷ tail)) (suc n) (suc n * 2)
        ≡ write_byte
            (k_char_to_int lo + k_char_to_int hi * 16)
            (parse_from (pre ++ (hi ∷ lo ∷ tail)) n (n * 2))
  unfolding parse_from
  turn dh dl = rw (
    at_lo,
    at_hi,
    back,
    le→ltb 15 (k_char_to_int lo) (omega arith),
    le→ltb 15 (k_char_to_int hi) (omega arith),
    or_digits (k_char_to_int lo) (k_char_to_int hi) dl dh,
  )

  -- A turn that ends well has read two digits, and the later turns end well.
  turn-valid :
      (parse_from (pre ++ (hi ∷ lo ∷ tail)) (suc n) (suc n * 2)).valid ≡ true
      → IsDigit hi × IsDigit lo × ((parse_from (pre ++ (hi ∷ lo ∷ tail)) n (n * 2)).valid ≡ true)
  unfolding parse_from
  turn-valid h = elim (Bool-cases (ltb 15 (k_char_to_int lo))) [
    | inl bad ↦ absurd (falsity (sym (rw (at_lo, bad)) ∙ h))
    | inr low ↦ elim (Bool-cases (ltb 15 (k_char_to_int hi))) [
      | inl bad ↦ absurd (falsity (sym (rw (at_lo, at_hi, low, bad)) ∙ h))
      | inr high ↦ (
        digit (k_char_to_int hi) high,
        digit (k_char_to_int lo) low,
        sym (rw (at_lo, at_hi, back, low, high)) ∙ h,
      )
    ]
  ]
    where
      falsity : false ≡ true → ⊥
      falsity e = cc

      digit : (v : ℕ) → ltb 15 v ≡ false → v < 16
      digit v e = ground arith

-- What the loop leaves after a text of digits: the bytes of its number.
abbrev pub parsed : ℕ → ℕ → Parsed
parsed n v = record { bytes = to_le n v; valid = true }

numeral-two :
    (pre : List ℕ) (hi lo : ℕ)
    → numeral 0 (pre ++ (hi ∷ lo ∷ []))
      ≡ numeral 0 pre * 256 + (k_char_to_int lo + k_char_to_int hi * 16)
unfolding numeral
numeral-two pre hi lo = numeral-append 0 pre (hi ∷ lo ∷ []) ∙ omega arith

-- A byte before the bytes of a number.
write_byte-parsed : (n v b : ℕ) → b < 256 → write_byte b (parsed n v) ≡ parsed (suc n) (v * 256 + b)
unfolding to_le
write_byte-parsed n v b h =
    ap₂ (λ x xs. record { bytes = x ∷ xs; valid = true }) low (ap (to_le n) high)
  where
    low : b ≡ (v * 256 + b) % 256
    low = omega arith

    high : v ≡ (v * 256 + b) / 256
    high = omega arith

module _ (pre tail : List ℕ) (hi lo n : ℕ) (l : length pre ≡ n * 2) where
  regroup : (pre ++ (hi ∷ lo ∷ [])) ++ tail ≡ pre ++ (hi ∷ lo ∷ tail)
  regroup = append_assoc pre (hi ∷ lo ∷ []) tail

  turn-parsed :
      IsDigit hi
      → IsDigit lo
      → parse_from (pre ++ (hi ∷ lo ∷ tail)) n (n * 2) ≡ parsed n (numeral 0 pre)
      → parse_from ((pre ++ (hi ∷ lo ∷ [])) ++ tail) (suc n) (suc n * 2)
        ≡ parsed (suc n) (numeral 0 (pre ++ (hi ∷ lo ∷ [])))
  turn-parsed dh dl e =
      ap (λ text. parse_from text (suc n) (suc n * 2)) regroup
      ∙ turn pre tail hi lo n l dh dl
      ∙ ap (write_byte (k_char_to_int lo + k_char_to_int hi * 16)) e
      ∙ write_byte-parsed n (numeral 0 pre) (k_char_to_int lo + k_char_to_int hi * 16) (omega arith)
      ∙ ap (parsed (suc n)) (sym (numeral-two pre hi lo))

parse_from-numeral :
    (n : ℕ) (cs tail : List ℕ)
    → length cs ≡ n * 2
    → All IsDigit cs
    → parse_from (cs ++ tail) n (n * 2) ≡ parsed n (numeral 0 cs)
unfolding numeral parse_from to_le
parse_from-numeral zero cs tail l h = refl
parse_from-numeral (suc n) cs tail l h =
    subst (λ text. parse_from (text ++ tail) (suc n) (suc n * 2) ≡ parsed (suc n) (numeral 0 text))
      (sym v.whole)
      (turn-parsed v.pre tail v.hi v.lo n v.length_pre d.1.0 d.1.1.0
        (parse_from-numeral n v.pre (v.hi ∷ v.lo ∷ tail) v.length_pre d.0))
  where
    v : Last cs n
    v = text-Last cs n l

    d : All IsDigit v.pre × All IsDigit (v.hi ∷ v.lo ∷ [])
    d = All-split IsDigit v.pre (v.hi ∷ v.lo ∷ []) (subst (All IsDigit) v.whole h)

parse_from-valid :
    (n : ℕ) (cs tail : List ℕ)
    → length cs ≡ n * 2
    → (parse_from (cs ++ tail) n (n * 2)).valid ≡ true
    → All IsDigit cs
parse_from-valid zero [] tail l h = tt
parse_from-valid zero (c ∷ cs) tail l h = absurd (omega arith)
parse_from-valid (suc n) cs tail l h = subst (All IsDigit) (sym v.whole) (
    All-append IsDigit v.pre (v.hi ∷ v.lo ∷ [])
      (parse_from-valid n v.pre (v.hi ∷ v.lo ∷ tail) v.length_pre t.2) (t.0, (t.1, tt)))
  where
    v : Last cs n
    v = text-Last cs n l

    t :
        IsDigit v.hi
        × IsDigit v.lo
        × ((parse_from (v.pre ++ (v.hi ∷ v.lo ∷ tail)) n (n * 2)).valid ≡ true)
    t = turn-valid v.pre tail v.hi v.lo n v.length_pre (
        ap (λ text. (parse_from text (suc n) (suc n * 2)).valid)
          (sym (ap (λ text. text ++ tail) v.whole ∙ regroup v.pre tail v.hi v.lo n v.length_pre))
        ∙ h)

-- `kStrToInt` of a text of `2 n` hexadecimal digits, of either case, writes the `n` bytes of the
-- number that the text stands for, least significant first, and reports success.
pub k_str_to_int-numeral :
    (n : ℕ) (source : List ℕ)
    → length source ≡ n * 2
    → All IsDigit source
    → k_str_to_int source n ≡ record { bytes = to_le n (numeral 0 source); valid = true }
unfolding k_str_to_int
k_str_to_int-numeral n source l h =
    ap (λ text. parse_from text n (n * 2)) (sym (append-nil source))
    ∙ parse_from-numeral n source [] l h

status-valid :
    (source : List ℕ) (n : ℕ)
    → (k_str_to_int source n).valid ≡ true
    → k_str_to_int_status source n ≡ some (n * 2)
unfolding k_str_to_int_status
status-valid source n h = rw h

status-invalid :
    (source : List ℕ) (n : ℕ)
    → (k_str_to_int source n).valid ≡ false
    → k_str_to_int_status source n ≡ none
unfolding k_str_to_int_status
status-invalid source n h = rw h

-- `kStrToInt` of a text of `2 n` characters returns `2 n` exactly when each of them is a digit, and
-- -1 otherwise.
pub k_str_to_int_status-digits :
    (n : ℕ) (source : List ℕ)
    → length source ≡ n * 2
    → ((k_str_to_int_status source n ≡ some (n * 2)) ↔ All IsDigit source)
      × ((k_str_to_int_status source n ≡ none) ↔ ¬ All IsDigit source)
unfolding k_str_to_int
k_str_to_int_status-digits n source l = elim (Bool-cases (k_str_to_int source n).valid) [
  | inl good ↦ (
    ((λ e. digits good), (λ d. status-valid source n good)),
    ((λ e d. differ (sym (status-valid source n good) ∙ e)), (λ f. absurd (f (digits good)))),
  )
  | inr bad ↦ (
    (
      (λ e. absurd (differ (sym e ∙ status-invalid source n bad))),
      (λ d. absurd (clash (sym bad ∙ valid d))),
    ),
    ((λ e d. clash (sym bad ∙ valid d)), (λ f. status-invalid source n bad)),
  )
]
  where
    digits : (k_str_to_int source n).valid ≡ true → All IsDigit source
    digits e =
        parse_from-valid n source [] l
          (ap (λ text. (parse_from text n (n * 2)).valid) (append-nil source) ∙ e)

    valid : All IsDigit source → (k_str_to_int source n).valid ≡ true
    valid d = ap (λ r. r.valid) (k_str_to_int-numeral n source l d)

    differ : some (n * 2) ≡ none → ⊥
    differ e = cc

    clash : false ≡ true → ⊥
    clash e = cc

-- Bytes that `kIntToStr` has written as text are what `kStrToInt` reads from it.
pub k_str_to_int-k_int_to_str :
    (bs : List ℕ)
    → Bytes bs
    → k_str_to_int (k_int_to_str bs) (length bs) ≡ record { bytes = bs; valid = true }
k_str_to_int-k_int_to_str bs h =
    k_str_to_int-numeral (length bs) (k_int_to_str bs) (length-k_int_to_str bs)
      (k_int_to_str-Digits bs)
    ∙ ap (parsed (length bs)) (numeral-k_int_to_str bs h)
    ∙ ap (λ xs. record { bytes = xs; valid = true }) (to_le-from_le bs h)
