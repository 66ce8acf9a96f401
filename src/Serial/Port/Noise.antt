-- ===== src/Serial/Port/Noise.antt =====
-- `MessageAssembler` on a line with noise before the first frame, and its `Offset`.
use kappaio.Common.{
  ℕ, suc, ◌+◌, ◌-◌, ◌<◌, ◌≡◌, refl, ap, ap₂, sym, ◌∙◌, List, [], ◌∷◌, ◌++◌, append_assoc,
  append-nil, length, length-append, arith,
}
use kappaio.Serial.Frame.{mt_sof}
use kappaio.Serial.Frame.Laws.{frame, fcs_from-closed}
use kappaio.Serial.Port.{Port, stop, round, resume, assemble_from, message_assembler}
use kappaio.Serial.Port.Ring.{contents, IsValid}
use kappaio.Serial.Port.Receive.{length-contents}
use kappaio.Serial.Port.Assemble.{
  NoSof, advance, advance-contents, advance-contents_short, advance-IsValid,
}
use kappaio.Serial.Port.Packets.{round-aligned, round-aligned_stop, aligned-count, round-junk}
use kappaio.Serial.Port.Stream.{
  Command, IsShort, message, packet_of, HandsOn, deliver-HandsOn, few-HandsOn, length-tail_of,
  tail_of,
}

-- `Offset` after a noisy start. `junk` stands before the first frame, `after` behind it.
module _ (p : Port) (v : IsValid p) (junk after : List ℕ) (c : Command) (noise : NoSof junk)
    (short : IsShort c) (holds : contents p ≡ junk ++ (frame (message c) ++ after)) where
  second : Port
  second = advance p (length junk + (length c.payload + 5)) (length c.payload + 5 + length junk)

  second-contents : contents second ≡ after
  unfolding second
  second-contents =
      ap₂ (λ d k. contents (advance p d k)) covers (omega (arith, covers))
      ∙ advance-contents p (junk ++ frame (message c)) after
          (holds ∙ sym (append_assoc junk (frame (message c)) after))
    where
      covers : length junk + (length c.payload + 5) ≡ length (junk ++ frame (message c))
      covers = omega (arith, length-append junk (frame (message c)), length-tail_of c)

  second-IsValid : IsValid second
  unfolding second
  second-IsValid = advance-IsValid p _ _ v

  -- The first frame is handed on, and the loop goes on with `Offset` at the length of the noise.
  first-HandsOn :
      (fuel : ℕ) (packets : List (List ℕ)) (left : List ℕ)
      → HandsOn (assemble_from fuel second (length junk)) packets left
      → HandsOn (assemble_from (suc fuel) p 0) (packet_of c ∷ packets) left
  unfolding assemble_from resume second
  first-HandsOn fuel packets left next =
      rw
        (round-junk p v (tail_of c) after (length c.payload) (length-tail_of c) junk holds short
          noise)
        (deliver-HandsOn (packet_of c) (assemble_from fuel second (length junk)) packets left
          (fcs_from-closed (message c)) next)

-- A frame that is taken with an `Offset` of `k`, with `k` bytes `lost` at the end.
module _ (p : Port) (kept lost : List ℕ) (d : Command) (offset : ℕ) where
  cut : Port
  cut = advance p (length d.payload + 5) (length d.payload + 5 + offset)

  cut-contents :
      contents p ≡ frame (message d) ++ (kept ++ lost) → length lost ≡ offset → contents cut ≡ kept
  unfolding cut
  cut-contents holds same =
      ap₂ (λ a b. contents (advance p a b)) covers (omega (arith, covers))
      ∙ advance-contents_short p (frame (message d)) kept lost holds
    where
      covers : length d.payload + 5 ≡ length (frame (message d))
      covers = omega (arith, length-tail_of d)

  cut-HandsOn :
      (fuel : ℕ) (packets : List (List ℕ)) (left : List ℕ)
      → IsValid p
      → IsShort d
      → contents p ≡ frame (message d) ++ (kept ++ lost)
      → length lost ≡ offset
      → HandsOn (assemble_from fuel cut offset) packets left
      → HandsOn (assemble_from (suc fuel) p offset) (packet_of d ∷ packets) left
  unfolding assemble_from resume cut
  cut-HandsOn fuel packets left v short holds same next =
      rw
        (round-aligned p v (tail_of d) (kept ++ lost) (length d.payload) (length-tail_of d) holds
          offset short
          (omega (
            arith,
            aligned-count p v (tail_of d) (kept ++ lost) (length d.payload) (length-tail_of d)
                holds,
            length-append kept lost,
          )))
        (deliver-HandsOn (packet_of d) (assemble_from fuel cut offset) packets left
          (fcs_from-closed (message d)) next)

stopped :
    (fuel : ℕ) (p : Port) (offset : ℕ) (rest : List ℕ)
    → round p offset ≡ stop
    → contents p ≡ rest
    → HandsOn (assemble_from (suc fuel) p offset) [] rest
unfolding assemble_from resume
stopped fuel p offset rest at e = rw at (record { delivered = refl; ending = refl; left_over = e })

-- A flaw: `Offset` is not set back after a packet. If the ring starts with at least one byte of
-- noise, and holds just two whole frames behind it, only the first is handed on; the second, of
-- which every byte is there, is left in the ring.
pub stale_offset-HandsOn :
    (p : Port) (junk : List ℕ) (c d : Command)
    → IsValid p
    → NoSof junk
    → 0 < length junk
    → IsShort c
    → IsShort d
    → contents p ≡ junk ++ (frame (message c) ++ frame (message d))
    → HandsOn (message_assembler p) (packet_of c ∷ []) (frame (message d))
unfolding message_assembler
stale_offset-HandsOn p junk c d v noise some_noise short short' holds = rw fuel (
    first-HandsOn p v junk (frame (message d)) c noise short holds (suc (p.len - 1)) []
      (frame (message d))
      (stopped (p.len - 1) next (length junk) (frame (message d))
        (round-aligned_stop next (second-IsValid p v junk (frame (message d)) c noise short holds)
          (tail_of d) [] (length d.payload) (length-tail_of d) frame_there (length junk)
          (omega (arith, length-contents next, ap length left, length-tail_of d)))
        left))
  where
    next : Port
    next = second p v junk (frame (message d)) c noise short holds

    left : contents next ≡ frame (message d)
    left = second-contents p v junk (frame (message d)) c noise short holds

    frame_there : contents next ≡ mt_sof ∷ length d.payload ∷ (tail_of d ++ [])
    frame_there = left ∙ ap (λ l. mt_sof ∷ length d.payload ∷ l) (sym (append-nil (tail_of d)))

    fuel : p.len + 1 ≡ suc (suc (p.len - 1))
    fuel = omega (
      arith,
      length-contents p,
      ap length holds,
      length-append junk (frame (message c) ++ frame (message d)),
    )

-- Noise before a frame does no harm to that frame: bytes that are no SOF are passed over, and the
-- frame behind them is handed on.
pub noise-HandsOn :
    (p : Port) (junk rest : List ℕ) (c : Command)
    → IsValid p
    → NoSof junk
    → IsShort c
    → contents p ≡ junk ++ (frame (message c) ++ rest)
    → length rest < 5
    → HandsOn (message_assembler p) (packet_of c ∷ []) rest
unfolding message_assembler
noise-HandsOn p junk rest c v noise short holds few = rw fuel (
    first-HandsOn p v junk rest c noise short holds (suc (p.len - 1)) [] rest (
      few-HandsOn (p.len - 1) (second p v junk rest c noise short holds) (length junk) rest
        (second-contents p v junk rest c noise short holds) few))
  where
    fuel : p.len + 1 ≡ suc (suc (p.len - 1))
    fuel =
        omega (
          arith,
          length-contents p,
          ap length holds,
          length-append junk (frame (message c) ++ rest),
        )

-- The same flaw where more bytes have come: of those behind the second frame, as many as the noise
-- was long are lost, and they are the last ones.
pub stale_offset_loss :
    (p : Port) (junk kept lost : List ℕ) (c d : Command)
    → IsValid p
    → NoSof junk
    → IsShort c
    → IsShort d
    → contents p ≡ junk ++ (frame (message c) ++ (frame (message d) ++ (kept ++ lost)))
    → length lost ≡ length junk
    → length kept < 5
    → HandsOn (message_assembler p) (packet_of c ∷ packet_of d ∷ []) kept
unfolding message_assembler
stale_offset_loss p junk kept lost c d v noise short short' holds same few = rw fuel (
    first-HandsOn p v junk after c noise short holds (suc (suc (p.len - 2))) (packet_of d ∷ []) kept
      (cut-HandsOn p' kept lost d (length junk) (suc (p.len - 2)) [] kept v' short' left same (
        few-HandsOn (p.len - 2) (cut p' kept lost d (length junk)) (length junk) kept
          (cut-contents p' kept lost d (length junk) left same) few)))
  where
    after : List ℕ
    after = frame (message d) ++ (kept ++ lost)

    p' : Port
    p' = second p v junk after c noise short holds

    v' : IsValid p'
    v' = second-IsValid p v junk after c noise short holds

    left : contents p' ≡ frame (message d) ++ (kept ++ lost)
    left = second-contents p v junk after c noise short holds

    fuel : p.len + 1 ≡ suc (suc (suc (p.len - 2)))
    fuel =
        omega (
          arith,
          length-contents p,
          ap length holds,
          length-append junk (frame (message c) ++ after),
        )
