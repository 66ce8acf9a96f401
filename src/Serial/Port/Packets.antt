-- ===== src/Serial/Port/Packets.antt =====
-- Which packets `MessageAssembler` hands on.
use Prim.Native.Nat.add
use native.Mathlib.Numerals.{add-one}
use kappaio.Common.{ℕ, ◌+◌, ◌≤◌, ◌<◌, ◌≡◌, ap, ap₂, ◌∙◌, List, [], ◌∷◌, ◌++◌, length, le→ltb, arith}
use kappaio.Serial.Frame.{mt_sof}
use kappaio.Serial.Port.{
  Port, stop, overrun, took, round, after_scan, take_packet, scan, mask, found,
}
use kappaio.Serial.Port.Ring.{contents, IsValid}
use kappaio.Serial.Port.Search.{scan-found, scan-hit}
use kappaio.Serial.Port.Assemble.{
  NoSof, advance, len-holds, sof_byte, other_bytes, take_packet-took, take_packet-stop,
  take_packet-overrun,
}

round-scan :
    (p : Port) (offset temp offset' : ℕ)
    → 5 ≤ p.len
    → scan (p.len + 1) p p.head offset ≡ found temp offset'
    → round p offset ≡ take_packet p temp offset'
unfolding round after_scan
round-scan p offset temp offset' enough at = rw (le→ltb p.len 5 enough, at)

head_start : (p : Port) → IsValid p → p.head ≡ mask (p.head + 0)
head_start p v = in_ring v.head_in
  where
    in_ring : p.head < 512 → p.head ≡ mask (p.head + 0)
    in_ring h = omega arith

-- The ring holds a frame with the length byte `n`, and `n + 3` bytes behind it.
module _ (p : Port) (v : IsValid p) (xs rest : List ℕ) (n : ℕ) (whole : length xs ≡ n + 3) where
  -- A frame behind bytes that are no SOF, with `Offset` still 0: the packet is taken, and `Offset`
  -- is left at the number of those bytes.
  pub round-junk :
      (junk : List ℕ)
      → contents p ≡ junk ++ (mt_sof ∷ n ∷ (xs ++ rest))
      → n ≤ 252
      → NoSof junk
      → round p 0
        ≡ took (n ∷ xs) (advance p (length junk + (n + 5)) (n + 5 + length junk)) (length junk)
  round-junk junk holds small clean =
      round-scan p 0 (mask (p.head + length junk)) (length junk) (omega (arith, count)) (
        ap (λ t. scan (p.len + 1) p t 0) (head_start p v)
        ∙ scan-found p v (p.len + 1) 0 (length junk)
            (λ i h. rw (add.zero i) (other_bytes p v junk xs rest n holds whole clean i h))
            (rw (add.zero (length junk)) (sof_byte p v junk xs rest n holds whole))
            (omega (arith, count)) (omega (arith, count))
        ∙ ap (λ k. found (mask (p.head + k)) k) (add.zero (length junk)))
      ∙ take_packet-took p v junk xs rest n holds whole (length junk) small (omega (arith, count))
    where
      count : p.len ≡ length junk + (n + 5) + length rest
      count = len-holds p v junk xs rest n holds whole

  module _ (holds : contents p ≡ mt_sof ∷ n ∷ (xs ++ rest)) where
    pub aligned-count : p.len ≡ n + 5 + length rest
    aligned-count = omega (arith, len-holds p v [] xs rest n holds whole)

    -- The same at the head of the ring, for any `Offset`.
    pub round-aligned :
        (offset : ℕ)
        → n ≤ 252
        → n + 5 + offset ≤ p.len
        → round p offset ≡ took (n ∷ xs) (advance p (n + 5) (n + 5 + offset)) offset
    round-aligned offset small room =
        round-scan p offset (mask (p.head + 0)) offset (omega arith) (
          ap₂ (λ f t. scan f p t offset) (add-one p.len) (head_start p v)
          ∙ scan-hit p v p.len (mask (p.head + 0)) offset (sof_byte p v [] xs rest n holds whole))
        ∙ take_packet-took p v [] xs rest n holds whole offset small room
        ∙ ap (λ d. took (n ∷ xs) (advance p d (n + 5 + offset)) offset) (add.zero (n + 5))

    -- It is not taken where the length does not cover it and `Offset`.
    pub round-aligned_stop : (offset : ℕ) → p.len < n + 5 + offset → round p offset ≡ stop
    round-aligned_stop offset short =
        round-scan p offset (mask (p.head + 0)) offset (omega (arith, aligned-count)) (
          ap₂ (λ f t. scan f p t offset) (add-one p.len) (head_start p v)
          ∙ scan-hit p v p.len (mask (p.head + 0)) offset (sof_byte p v [] xs rest n holds whole))
        ∙ take_packet-stop p v [] xs rest n holds whole offset short

    pub round-overrun : 252 < n → round p 0 ≡ overrun
    round-overrun large =
        round-scan p 0 (mask (p.head + 0)) 0 (omega (arith, aligned-count)) (
          ap₂ (λ f t. scan f p t 0) (add-one p.len) (head_start p v)
          ∙ scan-hit p v p.len (mask (p.head + 0)) 0 (sof_byte p v [] xs rest n holds whole))
        ∙ take_packet-overrun p v [] xs rest n holds whole large (omega (arith, aligned-count))
