-- ===== src/Boot/Image/Faults.antt =====
-- Where the loops of `sb_image_write` do not do what they are there for.
use kappaio.Common.{
  ℕ, zero, suc, ◌≡◌, refl, ap, sym, ◌∙◌, Bool, true, false, List, ◌∷◌, ◌++◌, Option, none, some,
  length, drop, take, ◌==◌, ==_iff, leb, ◌||◌, Bool-cases, inl, inr,
}
use kappaio.Boot.Image.{
  sb_rw_buf_len, same_bytes, State, out_of_fuel, next_retry, after_read, is_error, compare,
  write_loop, read_loop, read_back, after_round, round, chunk_loop, next_block, write_blocks,
  sb_image_write,
}

-- A boot loader that answers no write keeps `sb_image_write` in the loop of its first block: no number
-- of turns is enough, because a request without a response is not counted as a try.
module _ {D : Type 0} (write : D → ℕ → List ℕ → D × Option ℕ)
    (read : D → ℕ → D × Option (ℕ × List ℕ))
    (silent : (d : D) (a : ℕ) (chunk : List ℕ) → (write d a chunk).1 ≡ none) where
  unwritten : (s : State D) → s.return_status ≡ 0xff → (s.return_status == 0 || leb 3 0) ≡ false
  unwritten s h = ap (λ status. status == 0 || leb 3 0) h

  write_loop-silent :
      (fuel addr : ℕ) (chunk : List ℕ) (s : State D)
      → s.return_status ≡ 0xff
      → write_loop write read fuel addr chunk s 0 ≡ none
  unfolding write_loop next_retry
  write_loop-silent zero addr chunk s h = rw (unwritten s h)
  write_loop-silent (suc fuel) addr chunk s h =
      rw (silent s.device addr chunk, unwritten s h)
        (write_loop-silent fuel addr chunk (record s { device = (write s.device addr chunk).0 }) h)

  -- No number of turns lets `sb_image_write` of a file with a block end if no write is answered.
  pub sb_image_write-silent :
      (fuel : ℕ) (request response block : List ℕ) (blocks : List (List ℕ)) (d : D)
      → sb_image_write write read fuel request response (block ∷ blocks) d ≡ out_of_fuel
  unfolding sb_image_write write_blocks next_block chunk_loop round
  sb_image_write-silent fuel request response block blocks d = rw (
      write_loop-silent fuel 0 (block ++ drop (length block) request)
        (record { device = d; return_status = 0xff; response = response; failed = false }) refl)

module _ {D : Type 0} (write write' : D → ℕ → List ℕ → D × Option ℕ)
    (read : D → ℕ → D × Option (ℕ × List ℕ)) where
  compare-status :
      (chunk : List ℕ) (s : State D) → (compare chunk s).0.return_status ≡ s.return_status
  unfolding compare
  compare-status chunk s = elim (Bool-cases (same_bytes chunk (take sb_rw_buf_len s.response))) [
    | inl equal ↦ rw (equal)
    | inr differ ↦ rw (differ)
  ]

  after_read-status :
      (s : State D) (d : D) (o : Option (ℕ × List ℕ))
      → (after_read s d o).return_status ≡ s.return_status
  after_read-status s d none = refl
  after_read-status s d (some r) = refl

  read_loop-status :
      (tries addr : ℕ) (chunk : List ℕ) (s : State D)
      → (read_loop write read tries addr chunk s).0.return_status ≡ s.return_status
  unfolding read_loop
  read_loop-status zero addr chunk s = refl
  read_loop-status (suc tries) addr chunk s = elim (Bool-cases (is_error r.1)) [
    | inl bad ↦
        rw (bad)
          (read_loop-status tries addr chunk (after_read s r.0 r.1) ∙ after_read-status s r.0 r.1)
    | inr good ↦
        rw (good) (compare-status chunk (after_read s r.0 r.1) ∙ after_read-status s r.0 r.1)
  ]
    where
      r : D × Option (ℕ × List ℕ)
      r = read s.device addr

  read_loop-same :
      (tries addr : ℕ) (chunk : List ℕ) (s : State D)
      → read_loop write read tries addr chunk s ≡ read_loop write' read tries addr chunk s
  unfolding read_loop
  read_loop-same zero addr chunk s = refl
  read_loop-same (suc tries) addr chunk s =
      rw (
        read_loop-same tries addr chunk
          (after_read s (read s.device addr).0 (read s.device addr).1))

  accepted_stops :
      (w : D → ℕ → List ℕ → D × Option ℕ) (fuel addr : ℕ) (chunk : List ℕ) (s : State D)
      → s.return_status ≡ 0
      → write_loop w read fuel addr chunk s 0 ≡ some s
  unfolding write_loop
  accepted_stops w zero addr chunk s h = rw (h)
  accepted_stops w (suc fuel) addr chunk s h = rw (h)

  accepted_turn :
      (w : D → ℕ → List ℕ → D × Option ℕ) (fuel tries addr : ℕ) (chunk : List ℕ) (s : State D)
      → s.return_status ≡ 0
      → chunk_loop w read fuel (suc tries) addr chunk s
        ≡ after_round (chunk_loop w read fuel tries addr chunk) (read_loop w read 3 addr chunk s)
  unfolding chunk_loop round read_back
  accepted_turn w fuel tries addr chunk s h =
      ap (round w read addr chunk (chunk_loop w read fuel tries addr chunk))
        (accepted_stops w fuel addr chunk s h)
      ∙ ap (after_round (chunk_loop w read fuel tries addr chunk))
          (rw ((==_iff s.return_status 0).1 h))

  after_round-same :
      (again again' : State D → Option (State D × Bool)) (r : State D × Bool)
      → again r.0 ≡ again' r.0
      → after_round again r ≡ after_round again' r
  unfolding after_round
  after_round-same again again' (s, true) e = refl
  after_round-same again again' (s, false) e = e

  -- Once the boot loader has accepted a write, no later turn writes the chunk again, whatever is read
  -- back: what the loops do does not depend on what a write would do.
  pub chunk_loop-accepted :
      (fuel tries addr : ℕ) (chunk : List ℕ) (s : State D)
      → s.return_status ≡ 0
      → chunk_loop write read fuel tries addr chunk s
        ≡ chunk_loop write' read fuel tries addr chunk s
  unfolding chunk_loop
  chunk_loop-accepted fuel zero addr chunk s h = refl
  chunk_loop-accepted fuel (suc tries) addr chunk s h =
      accepted_turn write fuel tries addr chunk s h
      ∙ after_round-same (chunk_loop write read fuel tries addr chunk)
          (chunk_loop write' read fuel tries addr chunk) (read_loop write read 3 addr chunk s)
          (chunk_loop-accepted fuel tries addr chunk (read_loop write read 3 addr chunk s).0
            (read_loop-status 3 addr chunk s ∙ h))
      ∙ ap (after_round (chunk_loop write' read fuel tries addr chunk))
          (read_loop-same 3 addr chunk s)
      ∙ sym (accepted_turn write' fuel tries addr chunk s h)
