-- ===== src/Serial/Port/Assemble.antt =====
-- One round of `MessageAssembler` on a ring that holds a frame.
use native.Mathlib.Nat.{add-zero}
use kappaio.Common.{
  ℕ, zero, suc, ◌+◌, ◌-◌, ◌≤◌, ◌<◌, ◌≡◌, ◌≢◌, ap, sym, ◌∙◌, List, [], ◌∷◌, ◌++◌, append_assoc,
  get_or, length, length-append, lt→ltb, le→ltb, get_or-append_left, get_or-append_right,
  append-split, arith,
}
use kappaio.Common.Words.{All}
use kappaio.Serial.Frame.{mt_sof}
use kappaio.Serial.Port.{Port, stop, overrun, took, take_packet, mask, minus}
use kappaio.Serial.Port.Ring.{
  read_ring, contents, IsValid, read_ring-append, read_ring-mask, packet-read_ring,
  length-read_ring,
}
use kappaio.Serial.Port.Receive.{length-contents}
use kappaio.Serial.Port.Search.{byte_at}

abbrev pub NoSof : List ℕ → Type 0
NoSof = All (λ x. x ≢ mt_sof)

NoSof-get : (xs : List ℕ) (i : ℕ) → NoSof xs → i < length xs → get_or xs i 0 ≢ mt_sof
NoSof-get [] i h l = absurd (omega arith)
NoSof-get (x ∷ xs) zero h l = h.0
NoSof-get (x ∷ xs) (suc i) h l = NoSof-get xs i h.1 (omega arith)

get_or-read_ring :
    (buf : List ℕ) (i n k : ℕ)
    → k < n
    → get_or (read_ring buf i n) k 0 ≡ get_or buf (mask (i + k)) 0
unfolding read_ring
get_or-read_ring buf i zero k h = absurd (omega arith)
get_or-read_ring buf i (suc n) zero h = ap (λ j. get_or buf (mask j) 0) (sym (add-zero i))
get_or-read_ring buf i (suc n) (suc k) h =
    get_or-read_ring buf (i + 1) n k (omega arith) ∙ ap (λ j. get_or buf (mask j) 0) (omega arith)

pub byte_at-contents : (p : Port) (k : ℕ) → k < p.len → byte_at p k ≡ get_or (contents p) k 0
unfolding contents
byte_at-contents p k h = sym (get_or-read_ring p.buf p.head p.len k h)

-- The parts of the ring under the parts of its contents.
read_ring-split :
    (buf : List ℕ) (i n : ℕ) (xs ys : List ℕ)
    → read_ring buf i n ≡ xs ++ ys
    → (read_ring buf i (length xs) ≡ xs) × (read_ring buf (i + length xs) (length ys) ≡ ys)
read_ring-split buf i n xs ys e =
    append-split (read_ring buf i (length xs)) xs (read_ring buf (i + length xs) (length ys)) ys
      (length-read_ring buf i (length xs))
      (sym (read_ring-append buf i (length xs) (length ys)) ∙ ap (read_ring buf i) count ∙ e)
  where
    count : length xs + length ys ≡ n
    count = sym (length-append xs ys) ∙ ap length (sym e) ∙ length-read_ring buf i n

-- The port behind a packet: `d` bytes on, and `c` bytes shorter.
abbrev pub advance : Port → ℕ → ℕ → Port
advance p d c = record p { len = p.len - c; head = mask (p.head + d) }

-- If the count is right, the bytes behind are what is left.
pub advance-contents :
    (p : Port) (xs ys : List ℕ)
    → contents p ≡ xs ++ ys
    → contents (advance p (length xs) (length xs)) ≡ ys
unfolding contents
advance-contents p xs ys e =
    read_ring-mask p.buf (mask (p.head + length xs)) (p.head + length xs) (p.len - length xs)
      (omega arith)
    ∙ ap (read_ring p.buf (p.head + length xs)) count
    ∙ (read_ring-split p.buf p.head p.len xs ys e).1
  where
    count : p.len - length xs ≡ length ys
    count = omega (arith, ap length e, length-read_ring p.buf p.head p.len, length-append xs ys)

-- If the count is `k` too large, the last `k` bytes are lost.
pub advance-contents_short :
    (p : Port) (xs ys zs : List ℕ)
    → contents p ≡ xs ++ (ys ++ zs)
    → contents (advance p (length xs) (length xs + length zs)) ≡ ys
unfolding contents
advance-contents_short p xs ys zs e =
    read_ring-mask p.buf (mask (p.head + length xs)) (p.head + length xs)
      (p.len - (length xs + length zs)) (omega arith)
    ∙ ap (read_ring p.buf (p.head + length xs)) count
    ∙ (read_ring-split p.buf (p.head + length xs) (length (ys ++ zs)) ys zs
        (read_ring-split p.buf p.head p.len xs (ys ++ zs) e).1).0
  where
    count : p.len - (length xs + length zs) ≡ length ys
    count = omega (
      arith,
      ap length e,
      length-read_ring p.buf p.head p.len,
      length-append xs (ys ++ zs),
      length-append ys zs,
    )

pub advance-IsValid : (p : Port) (d c : ℕ) → IsValid p → IsValid (advance p d c)
advance-IsValid p d c v = record { whole = v.whole; head_in = omega arith; fits = shorter v.fits }
  where
    shorter : p.len ≤ 512 → p.len - c ≤ 512
    shorter h = omega arith

took-ap :
    (p : Port) (offset : ℕ) {a b : List ℕ} {l m h k : ℕ}
    → a ≡ b
    → l ≡ m
    → h ≡ k
    → took a (record p { len = l; head = h }) offset
      ≡ took b (record p { len = m; head = k }) offset
took-ap p offset e f g = λ i. took (e i) (record p { len = f i; head = g i }) offset

-- A frame behind `pre`: the length byte `n`, and the `n + 3` bytes `xs` behind it.
module _ (p : Port) (v : IsValid p) (pre xs rest : List ℕ) (n : ℕ)
    (holds : contents p ≡ pre ++ (mt_sof ∷ n ∷ (xs ++ rest))) (whole : length xs ≡ n + 3) where
  pub len-holds : p.len ≡ length pre + (n + 5) + length rest
  len-holds = omega (
    arith,
    length-contents p,
    ap length holds,
    length-append pre (mt_sof ∷ n ∷ (xs ++ rest)),
    length-append xs rest,
  )

  behind_sof : contents p ≡ (pre ++ (mt_sof ∷ [])) ++ (n ∷ (xs ++ rest))
  behind_sof = holds ∙ sym (append_assoc pre (mt_sof ∷ []) (n ∷ (xs ++ rest)))

  from_length :
      read_ring p.buf (p.head + (length pre + 1)) (length (n ∷ (xs ++ rest))) ≡ n ∷ (xs ++ rest)
  from_length =
      ap (λ k. read_ring p.buf (p.head + k) (length (n ∷ (xs ++ rest))))
        (omega (arith, length-append pre (mt_sof ∷ [])))
      ∙ (read_ring-split p.buf p.head p.len (pre ++ (mt_sof ∷ [])) (n ∷ (xs ++ rest))
          (unfold contents in behind_sof)).1

  packet_bytes : read_ring p.buf (p.head + (length pre + 1)) (n + 4) ≡ n ∷ xs
  packet_bytes =
      ap (read_ring p.buf (p.head + (length pre + 1))) (omega arith)
      ∙ (read_ring-split p.buf (p.head + (length pre + 1)) (length (n ∷ (xs ++ rest))) (n ∷ xs) rest
          from_length).0

  pub length_byte : get_or p.buf (mask (p.head + (length pre + 1))) 0 ≡ n
  length_byte =
      ap (λ k. get_or p.buf (mask k) 0) (sym (add-zero (p.head + (length pre + 1))))
      ∙ sym (get_or-read_ring p.buf (p.head + (length pre + 1)) (n + 4) 0 (omega arith))
      ∙ ap (λ l. get_or l 0 0) packet_bytes

  pub sof_byte : byte_at p (length pre) ≡ mt_sof
  sof_byte =
      byte_at-contents p (length pre) (omega (arith, len-holds))
      ∙ ap (λ l. get_or l (length pre) 0) holds
      ∙ ap (λ k. get_or (pre ++ (mt_sof ∷ n ∷ (xs ++ rest))) k 0) (sym (add-zero (length pre)))
      ∙ get_or-append_right pre (mt_sof ∷ n ∷ (xs ++ rest)) 0 0

  pub other_bytes : NoSof pre → (i : ℕ) → i < length pre → byte_at p i ≢ mt_sof
  other_bytes clean i h e = NoSof-get pre i clean h (
      sym (get_or-append_left pre (mt_sof ∷ n ∷ (xs ++ rest)) i 0 h)
      ∙ ap (λ l. get_or l i 0) (sym holds)
      ∙ sym (byte_at-contents p i (omega (arith, len-holds)))
      ∙ e)

  next_index : mask (mask (p.head + length pre) + 1) ≡ mask (p.head + (length pre + 1))
  next_index = omega arith

  -- Behind the scan, the packet is taken if the length, less `Offset`, covers it.
  pub take_packet-took :
      (offset : ℕ)
      → n ≤ 252
      → n + 5 + offset ≤ p.len
      → take_packet p (mask (p.head + length pre)) offset
        ≡ took (n ∷ xs) (advance p (length pre + (n + 5)) (n + 5 + offset)) offset
  unfolding take_packet
  take_packet-took offset small room =
      rw
        (
          next_index,
          length_byte,
          le→ltb p.len (n + 4 + 1 + offset) (omega arith),
          le→ltb 256 (n + 4) (omega arith),
        )
        (took-ap p offset
          (packet-read_ring p.buf (mask (p.head + (length pre + 1))) (n + 4) (omega arith)
              (omega arith)
            ∙ read_ring-mask p.buf (mask (p.head + (length pre + 1))) (p.head + (length pre + 1))
                (n + 4) (omega arith)
            ∙ packet_bytes)
          (counted v.fits room) (omega arith))
    where
      counted :
          p.len ≤ 512
          → n + 5 + offset ≤ p.len
          → minus p.len (n + 4 + 1 + offset) ≡ p.len - (n + 5 + offset)
      counted h k = omega arith

  pub take_packet-stop :
      (offset : ℕ)
      → p.len < n + 5 + offset
      → take_packet p (mask (p.head + length pre)) offset ≡ stop
  unfolding take_packet
  take_packet-stop offset short =
      rw (next_index, length_byte, lt→ltb p.len (n + 4 + 1 + offset) (omega arith))

  -- A length byte above 252 makes a packet of more than 256 bytes.
  pub take_packet-overrun :
      252 < n → n + 5 ≤ p.len → take_packet p (mask (p.head + length pre)) 0 ≡ overrun
  unfolding take_packet
  take_packet-overrun large room = rw (
    next_index,
    length_byte,
    le→ltb p.len (n + 4 + 1 + 0) (omega arith),
    lt→ltb 256 (n + 4) (omega arith),
  )
