-- ===== src/Boot/Image/Success.antt =====
-- With a boot loader that does what it is told, the writing succeeds.
use kappaio.Common.{
  ℕ, zero, suc, ◌+◌, ◌%◌, ◌≤◌, ◌≡◌, refl, ap, ◌∙◌, Bool, true, false, List, [], ◌∷◌, ◌++◌, Option,
  some, length, length-append, length-drop, drop, take, ◌==◌, ==_iff, leb, ◌||◌, arith,
}
use kappaio.Common.Words.{All}
use kappaio.Boot.Image.{
  sb_rw_buf_len, words_per_chunk, same_bytes, State, returned, next_retry, compare, write_loop,
  read_loop, read_back, after_round, round, chunk_loop, next_block, start_block, write_blocks,
  sb_image_write,
}

-- Every write is accepted and stored; every read has the content.
pub record IsSound {D : Type 0} (write : D → ℕ → List ℕ → D × Option ℕ)
    (read : D → ℕ → D × Option (ℕ × List ℕ)) (content : D → ℕ → List ℕ) : Type 0 where
  pub write_accepts : (d : D) (a : ℕ) (chunk : List ℕ) → (write d a chunk).1 ≡ some 0
  pub write_stores :
      (d : D) (a : ℕ) (chunk : List ℕ)
      → length chunk ≡ sb_rw_buf_len
      → content (write d a chunk).0 a ≡ chunk
  pub read_content :
      (d : D) (a : ℕ)
      → (bytes : List ℕ) × ((read d a).1 ≡ some (0, bytes))
        × (take sb_rw_buf_len bytes ≡ content d a)

-- The blocks that `read` gives for the file.
abbrev pub Small : List (List ℕ) → Type 0
Small blocks = All (λ block. length block ≤ sb_rw_buf_len) blocks

length-overwritten :
    (block chunk : List ℕ)
    → length block ≤ sb_rw_buf_len
    → length chunk ≡ sb_rw_buf_len
    → length (block ++ drop (length block) chunk) ≡ sb_rw_buf_len
length-overwritten block chunk h l =
    omega (arith, length-append block (drop (length block) chunk), length-drop (length block) chunk)

same_bytes_refl : (xs : List ℕ) → same_bytes xs xs ≡ true
unfolding same_bytes
same_bytes_refl [] = refl
same_bytes_refl (x ∷ xs) = rw ((==_iff x x).1 refl) (same_bytes_refl xs)

module _ {D : Type 0} (write : D → ℕ → List ℕ → D × Option ℕ)
    (read : D → ℕ → D × Option (ℕ × List ℕ)) (content : D → ℕ → List ℕ)
    (sound : IsSound write read content) where
  -- The state after a write that is accepted.
  abbrev accepted : ℕ → List ℕ → State D → State D
  accepted addr chunk s = record s { device = (write s.device addr chunk).0; return_status = 0 }

  write_loop-accepted :
      (fuel addr : ℕ) (chunk : List ℕ) (s : State D)
      → (s.return_status == 0 || leb 3 0) ≡ false
      → write_loop write read (suc fuel) addr chunk s 0 ≡ some (accepted addr chunk s)
  unfolding write_loop next_retry
  write_loop-accepted fuel addr chunk s h =
      rw (h, sound.write_accepts s.device addr chunk) (done fuel)
    where
      done :
          (n : ℕ)
          → write_loop write read n addr chunk (accepted addr chunk s) 0
            ≡ some (accepted addr chunk s)
      done zero = refl
      done (suc n) = refl

  compare-equal :
      (chunk : List ℕ) (s : State D)
      → take sb_rw_buf_len s.response ≡ chunk
      → compare chunk s ≡ (s, true)
  unfolding compare
  compare-equal chunk s e = rw (ap (same_bytes chunk) e ∙ same_bytes_refl chunk)

  read_loop-content :
      (tries addr : ℕ) (chunk : List ℕ) (s : State D)
      → content s.device addr ≡ chunk
      → (s' : State D) × (read_loop write read (suc tries) addr chunk s ≡ (s', true))
        × (s'.failed ≡ s.failed)
  unfolding read_loop
  read_loop-content tries addr chunk s e =
      let b = sound.read_content s.device addr in
      let s' : State D = record s { device = (read s.device addr).0; response = b.0 } in
      (s', rw (b.1) (compare-equal chunk s' (b.2 ∙ e)), refl)

  read_back-accepted :
      (addr : ℕ) (chunk : List ℕ) (s : State D)
      → s.return_status ≡ 0
      → read_back write read addr chunk s ≡ read_loop write read 3 addr chunk s
  unfolding read_back
  read_back-accepted addr chunk s h = rw ((==_iff s.return_status 0).1 h)

  round-content :
      (addr : ℕ) (chunk : List ℕ) (again : State D → Option (State D × Bool)) (s : State D)
      → s.return_status ≡ 0
      → content s.device addr ≡ chunk
      → (s' : State D) × (round write read addr chunk again (some s) ≡ some (s', true))
        × (s'.failed ≡ s.failed)
  unfolding round read_back after_round
  round-content addr chunk again s h e =
      let r = read_loop-content 2 addr chunk s e in
      (r.0, ap (after_round again) (read_back-accepted addr chunk s h ∙ r.1), r.2)

  chunk_loop-content :
      (fuel addr : ℕ) (chunk : List ℕ) (s : State D)
      → length chunk ≡ sb_rw_buf_len
      → (s' : State D) × (chunk_loop write read (suc fuel) 3 addr chunk (start_block s)
          ≡ some (s', true))
        × (s'.failed ≡ s.failed)
  unfolding chunk_loop
  chunk_loop-content fuel addr chunk s l =
      let again = chunk_loop write read (suc fuel) 2 addr chunk in
      let r =
        round-content addr chunk again (accepted addr chunk (start_block s)) refl
          (sound.write_stores s.device addr chunk l) in
      (
        r.0,
        ap (round write read addr chunk again)
              (write_loop-accepted fuel addr chunk (start_block s) refl)
            ∙ r.1,
        r.2,
      )

  write_blocks-returns :
      (fuel addr : ℕ) (chunk : List ℕ) (blocks : List (List ℕ)) (s : State D)
      → length chunk ≡ sb_rw_buf_len
      → Small blocks
      → (s' : State D) × (write_blocks write read (suc fuel) addr chunk blocks s ≡ returned s')
        × (s'.failed ≡ s.failed)
  unfolding write_blocks next_block
  write_blocks-returns fuel addr chunk [] s l small = (s, refl, refl)
  write_blocks-returns fuel addr chunk (block ∷ blocks) s l small =
      let chunk' = block ++ drop (length block) chunk in
      let c = chunk_loop-content fuel addr chunk' s (length-overwritten block chunk small.0 l) in
      let r =
        write_blocks-returns fuel ((addr + words_per_chunk) % 65536) chunk' blocks c.0
          (length-overwritten block chunk small.0 l) small.1 in
      (
        r.0,
        ap
              (next_block (
                write_blocks write read (suc fuel) ((addr + words_per_chunk) % 65536) chunk'
                  blocks))
              c.1
            ∙ r.1,
        r.2 ∙ c.2,
      )

  -- With a boot loader that accepts and stores every chunk and reads truly, `sb_image_write` returns 0 for
  -- every file, in blocks of at most 64 bytes, and needs one turn of each loop that writes.
  pub sb_image_write-succeeds :
      (fuel : ℕ) (request response : List ℕ) (blocks : List (List ℕ)) (d : D)
      → length request ≡ sb_rw_buf_len
      → Small blocks
      → (s : State D) × (sb_image_write write read (suc fuel) request response blocks d
          ≡ returned s)
        × (s.failed ≡ false)
  unfolding sb_image_write
  sb_image_write-succeeds fuel request response blocks d l small =
      write_blocks-returns fuel 0 request blocks
        (record { device = d; return_status = 0xff; response = response; failed = false }) l small
