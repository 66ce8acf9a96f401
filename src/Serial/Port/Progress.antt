-- ===== src/Serial/Port/Progress.antt =====
-- `MessageAssembler` on any ring: it comes to an end, and keeps the ring well formed.
use kappaio.Common.{
  ℕ, zero, suc, ◌+◌, ◌≤◌, ◌<◌, ◌≡◌, ◌≢◌, refl, false, List, arith, inl, inr, Bool-cases, ltb,
  get_or,
}
use kappaio.Serial.Port.{
  Port, Round, Run, stop, overrun, spinning, took, minus, out_of_fuel, found, starved, no_fuel,
  Scan, round, after_scan, take_packet, scan, mask, deliver, assemble_from, message_assembler,
  resume,
}
use kappaio.Serial.Port.Ring.{IsValid}
use kappaio.Serial.Port.Search.{scan-ends}

-- A packet that is taken is at least five bytes with its SOF, and leaves a well-formed ring.
abbrev Shrinks : Port → Round → Type 0
Shrinks p stop = Unit
Shrinks p overrun = Unit
Shrinks p spinning = ⊥
Shrinks p (took pkt q offset) = (q.len + 5 ≤ p.len) × (IsValid p → IsValid q)

take_packet-Shrinks : (p : Port) (temp offset : ℕ) → Shrinks p (take_packet p temp offset)
unfolding take_packet
take_packet-Shrinks p temp offset = elim (Bool-cases (ltb p.len (frame_len + 1 + offset))) [
  | inl short ↦ rw short tt
  | inr long ↦ rw long (elim (Bool-cases (ltb 256 frame_len)) [
    | inl over ↦ rw over tt
    | inr fits ↦ rw fits (
      smaller (not_short long),
      λ v. record {
        whole = v.whole;
        head_in = in_ring (mask (temp + 1) + frame_len);
        fits = shorter v.fits (not_short long);
      },
    )
  ])
]
  where
    frame_len : ℕ
    frame_len = get_or p.buf (mask (temp + 1)) 0 + 4

    in_ring : (i : ℕ) → mask i < 512
    in_ring i = omega arith

    not_short : ltb p.len (frame_len + 1 + offset) ≡ false → frame_len + 1 + offset ≤ p.len
    not_short h = ground arith

    shorter :
        p.len ≤ 512 → frame_len + 1 + offset ≤ p.len → minus p.len (frame_len + 1 + offset) ≤ 512
    shorter h k = omega arith

    smaller : frame_len + 1 + offset ≤ p.len → minus p.len (frame_len + 1 + offset) + 5 ≤ p.len
    smaller h = omega arith

after_scan-Shrinks : (p : Port) (s : Scan) → s ≢ no_fuel → Shrinks p (after_scan p s)
unfolding after_scan
after_scan-Shrinks p (found temp offset) e = take_packet-Shrinks p temp offset
after_scan-Shrinks p starved e = tt
after_scan-Shrinks p no_fuel e = e refl

round-Shrinks : (p : Port) (offset : ℕ) → Shrinks p (round p offset)
unfolding round
round-Shrinks p offset = elim (Bool-cases (ltb p.len 5)) [
  | inl few ↦ rw few tt
  | inr many ↦ rw many (
      after_scan-Shrinks p (scan (p.len + 1) p p.head offset)
        (scan-ends p (p.len + 1) p.head offset (omega arith) (omega arith)))
]

deliver_port : (pkt : List ℕ) (r : Run) → (deliver pkt r).port ≡ r.port
unfolding deliver
deliver_port pkt r = ground arith

deliver_ending : (pkt : List ℕ) (r : Run) → (deliver pkt r).ending ≡ r.ending
unfolding deliver
deliver_ending pkt r = ground arith

module _ (p : Port) (rest : Port → ℕ → Run) where
  resume-ends :
      (r : Round)
      → Shrinks p r
      → ((q : Port) (offset : ℕ) → q.len + 5 ≤ p.len → (rest q offset).ending ≢ out_of_fuel)
      → (resume p rest r).ending ≢ out_of_fuel
  unfolding resume
  resume-ends stop s ih = λ e. cc
  resume-ends overrun s ih = λ e. cc
  resume-ends spinning s ih = absurd s
  resume-ends (took pkt q offset) s ih = rw (deliver_ending pkt (rest q offset)) (ih q offset s.0)

  resume-IsValid :
      (r : Round)
      → Shrinks p r
      → IsValid p
      → ((q : Port) (offset : ℕ) → IsValid q → IsValid (rest q offset).port)
      → IsValid (resume p rest r).port
  unfolding resume
  resume-IsValid stop s v ih = v
  resume-IsValid overrun s v ih = v
  resume-IsValid spinning s v ih = v
  resume-IsValid (took pkt q offset) s v ih =
      rw (deliver_port pkt (rest q offset)) (ih q offset (s.1 v))

assemble_from-ends :
    (fuel : ℕ) (p : Port) (offset : ℕ)
    → p.len < fuel
    → (assemble_from fuel p offset).ending ≢ out_of_fuel
unfolding assemble_from
assemble_from-ends zero p offset h = absurd (omega arith)
assemble_from-ends (suc fuel) p offset h =
    resume-ends p (assemble_from fuel) (round p offset) (round-Shrinks p offset)
      (λ q o l. assemble_from-ends fuel q o (omega arith))

assemble_from-IsValid :
    (fuel : ℕ) (p : Port) (offset : ℕ) → IsValid p → IsValid (assemble_from fuel p offset).port
unfolding assemble_from
assemble_from-IsValid zero p offset v = v
assemble_from-IsValid (suc fuel) p offset v =
    resume-IsValid p (assemble_from fuel) (round p offset) (round-Shrinks p offset) v
      (λ q o. assemble_from-IsValid fuel q o)

-- From every state of the port whose length is not negative, well formed or not, `MessageAssembler` comes to an end
-- by itself: neither its outer loop nor, in any round of it, the search for the start of a frame runs out of the
-- model's fuel.
pub message_assembler-ends : (p : Port) → (message_assembler p).ending ≢ out_of_fuel
unfolding message_assembler
message_assembler-ends p = assemble_from-ends (p.len + 1) p 0 (omega arith)

-- `MessageAssembler` keeps the ring well formed: 512 bytes, a head inside, and a length from 0 to 512.
pub message_assembler-IsValid : (p : Port) → IsValid p → IsValid (message_assembler p).port
unfolding message_assembler
message_assembler-IsValid p v = assemble_from-IsValid (p.len + 1) p 0 v
