-- ===== src/Serial/Port/Faults.antt =====
-- `MessageAssembler` on a damaged line.
use native.Mathlib.Nat.{add-zero}
use native.Mathlib.Numerals.{add-one}
use kappaio.Common.{
  ℕ, suc, ◌+◌, ◌-◌, ◌≤◌, ◌<◌, ◌≡◌, ◌≢◌, ap₂, ◌∙◌, List, [], ◌∷◌, ◌++◌, false, get_or, set, length,
  length-set, ◌==◌, arith,
}
use kappaio.Serial.Frame.{mt_sof, fcs_from}
use kappaio.Serial.Frame.Laws.{fcs_from-closed, fcs_from-set-ne}
use kappaio.Serial.Port.{Port, Run, overran, deliver, resume, assemble_from, message_assembler}
use kappaio.Serial.Port.Ring.{contents, IsValid}
use kappaio.Serial.Port.Assemble.{advance, advance-contents}
use kappaio.Serial.Port.Packets.{round-aligned, round-overrun, aligned-count}
use kappaio.Serial.Port.Stream.{
  Command, IsShort, message, packet_of, HandsOn, few-HandsOn, length-tail_of, tail_of,
}

unequal : (a : ℕ) → a ≢ 0 → (a == 0) ≡ false
unequal a h = ground arith

deliver-dropped : (pkt : List ℕ) (r : Run) → fcs_from 0 pkt ≢ 0 → deliver pkt r ≡ r
unfolding deliver
deliver-dropped pkt r h = rw (unequal (fcs_from 0 pkt) h)

-- A ring with one frame at its head, and a few bytes behind it.
module _ (p : Port) (v : IsValid p) (xs rest : List ℕ) (n : ℕ) (whole : length xs ≡ n + 3)
    (holds : contents p ≡ mt_sof ∷ n ∷ (xs ++ rest)) (few : length rest < 5) where
  count : p.len ≡ n + 5 + length rest
  count = aligned-count p v xs rest n whole holds

  behind : Port
  behind = advance p (n + 5) (n + 5 + 0)

  behind-contents : contents behind ≡ rest
  unfolding behind
  behind-contents =
      ap₂ (λ d k. contents (advance p d k)) covers (add-zero (n + 5) ∙ covers)
      ∙ advance-contents p (mt_sof ∷ n ∷ xs) rest holds
    where
      covers : n + 5 ≡ length (mt_sof ∷ n ∷ xs)
      covers = omega arith

  alone-dropped : n ≤ 252 → fcs_from 0 (n ∷ xs) ≢ 0 → HandsOn (message_assembler p) [] rest
  unfolding message_assembler assemble_from resume behind
  alone-dropped small bad = rw fuel (
      rw (round-aligned p v xs rest n whole holds 0 small (omega (arith, count))) (
        rw (deliver-dropped (n ∷ xs) (assemble_from (suc (p.len - 1)) behind 0) bad)
          (few-HandsOn (p.len - 1) behind 0 rest behind-contents few)))
    where
      fuel : p.len + 1 ≡ suc (suc (p.len - 1))
      fuel = omega (arith, count)

-- A frame of which one byte behind the length byte arrives as another one, at the head of the
-- ring with fewer than five bytes behind it: it is taken out of the ring, and nothing is handed on.
pub damaged-HandsOn :
    (p : Port) (c : Command) (k x : ℕ) (rest : List ℕ)
    → IsValid p
    → IsShort c
    → contents p ≡ mt_sof ∷ (set (packet_of c) (suc k) x ++ rest)
    → length rest < 5
    → k < length c.payload + 3
    → get_or (packet_of c) (suc k) 0 ≢ x
    → HandsOn (message_assembler p) [] rest
damaged-HandsOn p c k x rest v short holds few inside other =
    alone-dropped p v (set (tail_of c) k x) rest (length c.payload)
      (length-set (tail_of c) k x ∙ length-tail_of c) holds few short
      (fcs_from-set-ne (packet_of c) (suc k) x (omega (arith, length-tail_of c))
        (fcs_from-closed (message c)) other)

-- A flaw: a length byte above 252 with the bytes that it announces makes `memcpy` write past the
-- 256 bytes of `PacketBuffer`.
pub long_frame_overruns :
    (p : Port) (xs rest : List ℕ) (n : ℕ)
    → IsValid p
    → contents p ≡ mt_sof ∷ n ∷ (xs ++ rest)
    → length xs ≡ n + 3
    → 252 < n
    → (message_assembler p).ending ≡ overran
unfolding message_assembler assemble_from resume
long_frame_overruns p xs rest n v holds whole large =
    rw (add-one p.len, round-overrun p v xs rest n whole holds large)
