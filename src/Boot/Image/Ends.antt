-- ===== src/Boot/Image/Ends.antt =====
-- The writing ends when the boot loader answers, and succeeds when it does what it is told.
use kappaio.Common.{
  ℕ, zero, suc, ◌+◌, ◌%◌, ◌≤◌, ◌≡◌, ◌≢◌, refl, subst, Bool, true, false, List, [], ◌∷◌, ◌++◌,
  Option, none, some, length, drop, ◌==◌, leb, ◌||◌, Bool-cases, ◌⊎◌, inl, inr, arith,
}
use kappaio.Boot.Image.{
  words_per_chunk, State, Ending, returned, exited, out_of_fuel, next_retry, after_write,
  write_loop, read_back, after_round, round, chunk_loop, next_block, start_block, write_blocks,
  sb_image_write,
}

-- Every write is answered.
abbrev pub Answers : {D : Type 0} → (D → ℕ → List ℕ → D × Option ℕ) → Type 0
Answers write = (d : _) (a : ℕ) (chunk : List ℕ) → (write d a chunk).1 ≢ none

module _ {D : Type 0} (write : D → ℕ → List ℕ → D × Option ℕ)
    (read : D → ℕ → D × Option (ℕ × List ℕ)) (answers : Answers write) where
  abbrev IsSome {ℓ} : {A : Type ℓ} → Option A → Type 0
  IsSome none = ⊥
  IsSome (some a) = Unit

  -- A turn of the loop that writes ends the loop at its next test, or counts.
  counted :
      (s : State D) (d : D) (o : Option ℕ) (retry : ℕ)
      → o ≢ none
      → ((after_write s d o).return_status ≡ 0) ⊎ (next_retry o retry ≡ suc retry)
  unfolding next_retry
  counted s d none retry h = absurd (h refl)
  counted s d (some zero) retry h = inl refl
  counted s d (some (suc status)) retry h = inr one_more
    where
      one_more : next_retry (some (suc status)) retry ≡ suc retry
      one_more = ground arith

  stops :
      (fuel addr : ℕ) (chunk : List ℕ) (s : State D) (retry : ℕ)
      → (s.return_status == 0 || leb 3 retry) ≡ true
      → write_loop write read fuel addr chunk s retry ≡ some s
  unfolding write_loop
  stops zero addr chunk s retry h = rw (h)
  stops (suc fuel) addr chunk s retry h = rw (h)

  write_loop-Ends :
      (fuel addr : ℕ) (chunk : List ℕ) (s : State D) (retry : ℕ)
      → (s.return_status ≡ 0) ⊎ (3 ≤ fuel + retry)
      → IsSome (write_loop write read fuel addr chunk s retry)
  unfolding write_loop
  write_loop-Ends zero addr chunk s retry h = rw (enough h) tt
    where
      enough :
          (s.return_status ≡ 0) ⊎ (3 ≤ 0 + retry) → (s.return_status == 0 || leb 3 retry) ≡ true
      enough (inl z) = rw (z)
      enough (inr le) = ground arith
  write_loop-Ends (suc fuel) addr chunk s retry h =
      elim (Bool-cases (s.return_status == 0 || leb 3 retry)) [
        | inl stop ↦ rw (stop) tt
        | inr go ↦ rw (go) (
            write_loop-Ends fuel addr chunk (after_write s w.0 w.1) (next_retry w.1 retry)
              (next h go (counted s w.0 w.1 retry (answers s.device addr chunk))))
      ]
    where
      w : D × Option ℕ
      w = write s.device addr chunk

      next :
          (s.return_status ≡ 0) ⊎ (3 ≤ suc fuel + retry)
          → (s.return_status == 0 || leb 3 retry) ≡ false
          → ((after_write s w.0 w.1).return_status ≡ 0) ⊎ (next_retry w.1 retry ≡ suc retry)
          → ((after_write s w.0 w.1).return_status ≡ 0) ⊎ (3 ≤ fuel + next_retry w.1 retry)
      next h' go (inl z) = inl z
      next (inl z) go (inr c) = absurd (unwritten go z)
        where
          unwritten : (s.return_status == 0 || leb 3 retry) ≡ false → s.return_status ≡ 0 → ⊥
          unwritten g e = ground arith
      next (inr le) go (inr c) = inr (omega arith)

  round-Ends :
      (addr : ℕ) (chunk : List ℕ) (again : State D → Option (State D × Bool)) (o : Option (State D))
      → IsSome o
      → ((s : State D) → IsSome (again s))
      → IsSome (round write read addr chunk again o)
  unfolding round after_round
  round-Ends addr chunk again none h k = h
  round-Ends addr chunk again (some s) h k =
      elim (Bool-cases (read_back write read addr chunk s).1) [
        | inl good ↦ rw (good) tt
        | inr bad ↦ rw (bad) (k (read_back write read addr chunk s).0)
      ]

  chunk_loop-Ends :
      (fuel tries addr : ℕ) (chunk : List ℕ) (s : State D)
      → 3 ≤ fuel
      → IsSome (chunk_loop write read fuel tries addr chunk s)
  unfolding chunk_loop
  chunk_loop-Ends fuel zero addr chunk s h = tt
  chunk_loop-Ends fuel (suc tries) addr chunk s h =
      round-Ends addr chunk (chunk_loop write read fuel tries addr chunk)
        (write_loop write read fuel addr chunk s 0)
        (write_loop-Ends fuel addr chunk s 0 (inr (omega arith)))
        (λ s'. chunk_loop-Ends fuel tries addr chunk s' h)

  abbrev IsOver : Ending D → Type 0
  IsOver (returned s) = Unit
  IsOver (exited s) = Unit
  IsOver out_of_fuel = ⊥

  next_block-Over :
      (go : State D → Ending D) (o : Option (State D × Bool))
      → IsSome o
      → ((s : State D) → IsOver (go s))
      → IsOver (next_block go o)
  unfolding next_block
  next_block-Over go none h k = h
  next_block-Over go (some (s, true)) h k = k s
  next_block-Over go (some (s, false)) h k = tt

  write_blocks-Over :
      (fuel addr : ℕ) (chunk : List ℕ) (blocks : List (List ℕ)) (s : State D)
      → 3 ≤ fuel
      → IsOver (write_blocks write read fuel addr chunk blocks s)
  unfolding write_blocks
  write_blocks-Over fuel addr chunk [] s h = tt
  write_blocks-Over fuel addr chunk (block ∷ blocks) s h =
      let chunk' = block ++ drop (length block) chunk in
      next_block-Over
        (write_blocks write read fuel ((addr + words_per_chunk) % 65536) chunk' blocks)
        (chunk_loop write read fuel 3 addr chunk' (start_block s))
        (chunk_loop-Ends fuel 3 addr chunk' (start_block s) h)
        (λ s'. write_blocks-Over fuel ((addr + words_per_chunk) % 65536) chunk' blocks s' h)

  -- `sb_image_write` ends, by a return or by `exit`, for every file and every boot loader that answers each
  -- write, whatever it answers: three turns of each loop that writes are enough.
  pub sb_image_write-ends :
      (fuel : ℕ) (request response : List ℕ) (blocks : List (List ℕ)) (d : D)
      → 3 ≤ fuel
      → sb_image_write write read fuel request response blocks d ≢ out_of_fuel
  unfolding sb_image_write
  sb_image_write-ends fuel request response blocks d h e = subst IsOver e (
      write_blocks-Over fuel 0 request blocks
        (record { device = d; return_status = 0xff; response = response; failed = false }) h)
