-- ===== src/Serial/Frame/Laws.antt =====
-- The checksum of a built frame, and what a damaged byte does to it.
use kappaio.Common.{
  ℕ, zero, suc, ◌+◌, ◌%◌, ◌<◌, bit_xor, ◌≡◌, ◌≢◌, refl, ap, sym, ◌∙◌, List, [], ◌∷◌, ◌++◌, Option,
  some, get_or, set, length, take-length, arith,
}
use kappaio.Common.Bits.{
  bit_xor_assoc, bit_xor_comm, bit_xor-zero, zero-bit_xor, bit_xor_self, bit_xor_cancel,
  bit_xor-byte,
}
use kappaio.Common.Words.{Bytes}
use kappaio.Serial.Frame.{mt_sof, fcs_from, cmd_fcs_cal, payload, body, build_and_send_cmd}

pub fcs_from-append : (a : ℕ) (xs ys : List ℕ) → fcs_from a (xs ++ ys) ≡ fcs_from (fcs_from a xs) ys
unfolding fcs_from
fcs_from-append a [] ys = refl
fcs_from-append a (x ∷ xs) ys = fcs_from-append (bit_xor a x) xs ys

-- The start value comes out of the loop.
pub fcs_from-start : (a : ℕ) (xs : List ℕ) → fcs_from a xs ≡ bit_xor a (fcs_from 0 xs)
unfolding fcs_from
fcs_from-start a [] = sym (bit_xor-zero a)
fcs_from-start a (x ∷ xs) =
    fcs_from-start (bit_xor a x) xs
    ∙ bit_xor_assoc a x (fcs_from 0 xs)
    ∙ ap (bit_xor a) (sym (fcs_from-start x xs) ∙ ap (λ t. fcs_from t xs) (sym (zero-bit_xor x)))

pub fcs_from-byte : (a : ℕ) (xs : List ℕ) → a < 256 → Bytes xs → fcs_from a xs < 256
unfolding fcs_from
fcs_from-byte a [] h k = h
fcs_from-byte a (x ∷ xs) h k = fcs_from-byte (bit_xor a x) xs (bit_xor-byte a x h k.0) k.1

-- A message followed by its own checksum sums to zero.
pub fcs_from-closed : (xs : List ℕ) → fcs_from 0 (xs ++ (fcs_from 0 xs ∷ [])) ≡ 0
fcs_from-closed xs = fcs_from-append 0 xs (fcs_from 0 xs ∷ []) ∙ last (fcs_from 0 xs)
  where
    last : (c : ℕ) → fcs_from c (c ∷ []) ≡ 0
    last c = unfold fcs_from in bit_xor_self c

xor_between : (a x v : ℕ) → bit_xor (bit_xor a x) (bit_xor x v) ≡ bit_xor a v
xor_between a x v =
    bit_xor_assoc a x (bit_xor x v)
    ∙ ap (bit_xor a)
        (sym (bit_xor_assoc x x v) ∙ ap (λ t. bit_xor t v) (bit_xor_self x) ∙ zero-bit_xor v)

xor_replace :
    (a x v s : ℕ) → bit_xor (bit_xor a v) s ≡ bit_xor (bit_xor (bit_xor a x) s) (bit_xor x v)
xor_replace a x v s =
    bit_xor_comm (bit_xor a v) s
    ∙ ap (bit_xor s) (sym (xor_between a x v))
    ∙ sym (bit_xor_assoc s (bit_xor a x) (bit_xor x v))
    ∙ ap (λ t. bit_xor t (bit_xor x v)) (bit_xor_comm s (bit_xor a x))

-- One replaced byte changes the sum by the difference of the two bytes.
fcs_from-set :
    (a : ℕ) (xs : List ℕ) (i v : ℕ)
    → i < length xs
    → fcs_from a (set xs i v) ≡ bit_xor (fcs_from a xs) (bit_xor (get_or xs i 0) v)
unfolding fcs_from
fcs_from-set a [] i v h = absurd (omega arith)
fcs_from-set a (x ∷ xs) zero v h =
    fcs_from-start (bit_xor a v) xs
    ∙ xor_replace a x v (fcs_from 0 xs)
    ∙ ap (λ t. bit_xor t (bit_xor x v)) (sym (fcs_from-start (bit_xor a x) xs))
fcs_from-set a (x ∷ xs) (suc i) v h = fcs_from-set (bit_xor a x) xs i v (omega arith)

-- So the sum no longer closes.
pub fcs_from-set-ne :
    (xs : List ℕ) (i v : ℕ)
    → i < length xs
    → fcs_from 0 xs ≡ 0
    → get_or xs i 0 ≢ v
    → fcs_from 0 (set xs i v) ≢ 0
fcs_from-set-ne xs i v h closed ne e = ne (
    bit_xor_cancel (get_or xs i 0) v (
      sym (zero-bit_xor _)
      ∙ ap (λ t. bit_xor t (bit_xor (get_or xs i 0) v)) (sym closed)
      ∙ sym (fcs_from-set 0 xs i v h)
      ∙ e))

-- The frame as the receiver wants it: SOF, the message, and the checksum of the whole message.
abbrev pub frame : List ℕ → List ℕ
frame msg = mt_sof ∷ (msg ++ (fcs_from 0 msg ∷ []))

cmd_fcs_cal_all : (msg : List ℕ) → length msg < 256 → cmd_fcs_cal msg (length msg) ≡ fcs_from 0 msg
unfolding cmd_fcs_cal
cmd_fcs_cal_all msg h =
    let e : length msg % 256 ≡ length msg = omega arith in rw e (ap (fcs_from 0) (take-length msg))

-- If memory is there, the data is as long as it says and the length byte is at most 252, what is
-- sent is SOF, the length, the two command bytes, the data, and the checksum of all but SOF.
pub build_and_send_cmd-frame :
    (malloc : ℕ → Option (List ℕ)) (cmd_type cmd_id : ℕ) (xs block : List ℕ)
    → malloc (length xs + 5) ≡ some block
    → length xs < 253
    → build_and_send_cmd malloc cmd_type cmd_id (length xs) (some xs)
      ≡ some (frame (length xs ∷ cmd_type ∷ cmd_id ∷ xs))
unfolding build_and_send_cmd body payload
build_and_send_cmd-frame malloc cmd_type cmd_id xs block m h =
    rw (m, build_and_send_cmd)
      (rw (take-length xs)
        (ap (λ c. some (mt_sof ∷ ((length xs ∷ cmd_type ∷ cmd_id ∷ xs) ++ (c ∷ [])))) sum))
  where
    msg : List ℕ
    msg = length xs ∷ cmd_type ∷ cmd_id ∷ xs

    sum : cmd_fcs_cal msg (length xs + 3) ≡ fcs_from 0 msg
    sum =
        let e : length xs + 3 ≡ length msg = omega arith in rw e (cmd_fcs_cal_all msg (omega arith))
