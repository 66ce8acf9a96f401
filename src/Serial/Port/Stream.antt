-- ===== src/Serial/Port/Stream.antt =====
-- Whole streams: what `MessageAssembler` makes of frames that `MTBuildAndSendCmd` built.
use kappaio.Common.{
  ℕ, zero, suc, ◌+◌, ◌≤◌, ◌<◌, ◌≡◌, refl, ap, ap₂, sym, ◌∙◌, List, [], ◌∷◌, ◌++◌, map, append_assoc,
  append-nil, length, length-append, lt→ltb, arith, Option, some,
}
use kappaio.Common.Words.{All}
use kappaio.Serial.Frame.{fcs_from, build_and_send_cmd}
use kappaio.Serial.Frame.Laws.{frame, fcs_from-closed, build_and_send_cmd-frame}
use kappaio.Serial.Port.{
  Port, Run, took, returned, round, deliver, resume, assemble_from, message_assembler, serial_rcv,
}
use kappaio.Serial.Port.Ring.{contents, IsValid}
use kappaio.Serial.Port.Receive.{
  length-contents, Delivers, received, serial_rcv-contents, serial_rcv-IsValid,
}
use kappaio.Serial.Port.Assemble.{advance, advance-contents, advance-IsValid}
use kappaio.Serial.Port.Packets.{round-aligned, aligned-count}

-- A command as `MTBuildAndSendCmd` is given it.
pub record Command : Type 0 where
  pub cmd_type : ℕ
  pub cmd_id : ℕ
  pub payload : List ℕ

abbrev pub IsShort : Command → Type 0
IsShort c = length c.payload ≤ 252

-- The message between SOF and checksum, and the packet that the receiver hands on.
abbrev pub message : Command → List ℕ
message c = length c.payload ∷ c.cmd_type ∷ c.cmd_id ∷ c.payload

abbrev pub packet_of : Command → List ℕ
packet_of c = message c ++ (fcs_from 0 (message c) ∷ [])

-- The commands as they go over the line.
abbrev pub stream : List Command → List ℕ
stream [] = []
stream (c ∷ cs) = frame (message c) ++ stream cs

-- The run hands on these packets, ends by itself, and leaves these bytes in the ring.
pub record HandsOn (r : Run) (packets : List (List ℕ)) (rest : List ℕ) : Type 0 where
  pub delivered : r.delivered ≡ packets
  pub ending : r.ending ≡ returned
  pub left_over : contents r.port ≡ rest

deliver-closed :
    (pkt : List ℕ) (r : Run)
    → fcs_from 0 pkt ≡ 0
    → deliver pkt r ≡ record r { delivered = pkt ∷ r.delivered }
unfolding deliver
deliver-closed pkt r h = rw h

pub deliver-HandsOn :
    (pkt : List ℕ) (r : Run) (packets : List (List ℕ)) (rest : List ℕ)
    → fcs_from 0 pkt ≡ 0
    → HandsOn r packets rest
    → HandsOn (deliver pkt r) (pkt ∷ packets) rest
deliver-HandsOn pkt r packets rest closed h =
    rw (deliver-closed pkt r closed)
      (record { delivered = ap (◌∷◌ pkt) h.delivered; ending = h.ending; left_over = h.left_over })

pub few-HandsOn :
    (fuel : ℕ) (p : Port) (offset : ℕ) (rest : List ℕ)
    → contents p ≡ rest
    → length rest < 5
    → HandsOn (assemble_from (suc fuel) p offset) [] rest
unfolding assemble_from resume round
few-HandsOn fuel p offset rest e h =
    rw (lt→ltb p.len 5 (omega (arith, length-contents p, ap length e)))
      (record { delivered = refl; ending = refl; left_over = e })

abbrev pub tail_of : Command → List ℕ
tail_of c = c.cmd_type ∷ c.cmd_id ∷ (c.payload ++ (fcs_from 0 (message c) ∷ []))

pub length-tail_of : (c : Command) → length (tail_of c) ≡ length c.payload + 3
length-tail_of c = omega (arith, length-append c.payload (fcs_from 0 (message c) ∷ []))

-- One aligned frame, then whatever follows.
module _ (fuel : ℕ) (p : Port) (c : Command) (v : IsValid p) (short : IsShort c) where
  behind : Port
  behind = advance p (length c.payload + 5) (length c.payload + 5 + 0)

  behind-contents :
      (rest : List ℕ) → contents p ≡ frame (message c) ++ rest → contents behind ≡ rest
  unfolding behind
  behind-contents rest holds =
      ap₂ (λ d k. contents (advance p d k)) whole (omega arith ∙ whole)
      ∙ advance-contents p (frame (message c)) rest holds
    where
      whole : length c.payload + 5 ≡ length (frame (message c))
      whole = omega (arith, length-tail_of c)

  round-behind :
      (rest : List ℕ)
      → contents p ≡ frame (message c) ++ rest
      → round p 0 ≡ took (packet_of c) behind 0
  unfolding behind
  round-behind rest holds =
      round-aligned p v (tail_of c) rest (length c.payload) (length-tail_of c) holds 0 short (
        omega
          (arith, aligned-count p v (tail_of c) rest (length c.payload) (length-tail_of c) holds))

  pub frame-HandsOn :
      (rest : List ℕ) (packets : List (List ℕ)) (left : List ℕ)
      → contents p ≡ frame (message c) ++ rest
      → ((q : Port) → IsValid q → contents q ≡ rest → HandsOn (assemble_from fuel q 0) packets left)
      → HandsOn (assemble_from (suc fuel) p 0) (packet_of c ∷ packets) left
  unfolding assemble_from resume behind
  frame-HandsOn rest packets left holds next = rw (round-behind rest holds) (
      deliver-HandsOn (packet_of c) (assemble_from fuel behind 0) packets left
        (fcs_from-closed (message c))
        (next behind (advance-IsValid p (length c.payload + 5) (length c.payload + 5 + 0) v)
          (behind-contents rest holds)))

pub stream-HandsOn :
    (fuel : ℕ) (p : Port) (cs : List Command) (rest : List ℕ)
    → IsValid p
    → All IsShort cs
    → contents p ≡ stream cs ++ rest
    → length rest < 5
    → length cs < fuel
    → HandsOn (assemble_from fuel p 0) (map packet_of cs) rest
stream-HandsOn zero p cs rest v short holds few h = absurd (omega arith)
stream-HandsOn (suc fuel) p [] rest v short holds few h = few-HandsOn fuel p 0 rest holds few
stream-HandsOn (suc fuel) p (c ∷ cs) rest v short holds few h =
    frame-HandsOn fuel p c v short.0 (stream cs ++ rest) (map packet_of cs) rest
      (holds ∙ append_assoc (frame (message c)) (stream cs) rest)
      (λ q w e. stream-HandsOn fuel q cs rest w short.1 e few (omega arith))

length-stream : (cs : List Command) → length cs ≤ length (stream cs)
length-stream [] = omega arith
length-stream (c ∷ cs) =
    omega (arith, length-append (frame (message c)) (stream cs), length-stream cs)

-- Frames that stand one behind the other at the head of the ring, with fewer than five bytes
-- behind them, are handed on in order, each without its SOF; those few bytes stay.
pub message_assembler-stream :
    (p : Port) (cs : List Command) (rest : List ℕ)
    → IsValid p
    → All IsShort cs
    → contents p ≡ stream cs ++ rest
    → length rest < 5
    → HandsOn (message_assembler p) (map packet_of cs) rest
unfolding message_assembler
message_assembler-stream p cs rest v short holds few =
    stream-HandsOn (p.len + 1) p cs rest v short holds few (
      omega (
        arith,
        length-contents p,
        ap length holds,
        length-append (stream cs) rest,
        length-stream cs,
      ))

inject : {xs ys : List ℕ} → some xs ≡ some ys → xs ≡ ys
inject h = cc

no_bytes : (xs : List ℕ) → length xs ≡ 0 → xs ≡ []
no_bytes [] h = refl
no_bytes (x ∷ xs) h = absurd (omega arith)

-- From `MTBuildAndSendCmd` to `ProcessIncommingMessage`: what is sent, read into an empty ring in
-- any pieces at any position, is handed on as the one packet that was built.
pub loopback :
    (malloc : ℕ → Option (List ℕ)) (c : Command) (block bytes : List ℕ) (p : Port)
    (chunks : List (List ℕ))
    → malloc (length c.payload + 5) ≡ some block
    → IsShort c
    → build_and_send_cmd malloc c.cmd_type c.cmd_id (length c.payload) (some c.payload) ≡ some bytes
    → IsValid p
    → p.len ≡ 0
    → Delivers p chunks
    → received chunks ≡ bytes
    → HandsOn (message_assembler (serial_rcv p chunks)) (packet_of c ∷ []) []
loopback malloc c block bytes p chunks m short built v empty d same =
    message_assembler-stream (serial_rcv p chunks) (c ∷ []) [] (serial_rcv-IsValid p chunks v d)
      (short, tt) holds (omega arith)
  where
    bytes-frame : bytes ≡ frame (message c)
    bytes-frame = inject (
        sym built
        ∙ build_and_send_cmd-frame malloc c.cmd_type c.cmd_id c.payload block m (omega arith))

    nothing : contents p ≡ []
    nothing = no_bytes (contents p) (length-contents p ∙ empty)

    holds : contents (serial_rcv p chunks) ≡ (frame (message c) ++ []) ++ []
    holds =
        serial_rcv-contents p chunks v d
        ∙ ap (λ l. l ++ received chunks) nothing
        ∙ same
        ∙ bytes-frame
        ∙ sym (append-nil (frame (message c)))
        ∙ sym (append-nil (frame (message c) ++ []))
