-- ===== src/Boot/Image/Written.antt =====
-- A written image is in the flash.
use kappaio.Common.{
  ℕ, zero, suc, ◌+◌, ◌*◌, ◌%◌, ◌<◌, ◌≤◌, ◌≡◌, refl, ap, sym, ◌∙◌, subst, Bool, true, false, List,
  [], ◌∷◌, ◌++◌, append-nil, Option, none, some, length, drop, arith,
}
use kappaio.Common.Words.{All}
use kappaio.Boot.Image.{
  sb_rw_buf_len, words_per_chunk, State, Ending, returned, exited, out_of_fuel, chunk_loop,
  next_block, start_block, write_blocks, sb_image_write,
}
use kappaio.Boot.Image.Laws.{IsHonest, ReadsAnswered, ChunkLeaves, chunk_loop-Leaves}

abbrev pub Full : List (List ℕ) → Type 0
Full blocks = All (λ block. length block ≡ sb_rw_buf_len) blocks

module _ {D : Type 0} (content : D → ℕ → List ℕ) where
  -- The blocks stand in the flash from an address on.
  unfoldable pub Written : ℕ → List (List ℕ) → D → Type 0
  Written addr [] d = Unit
  Written addr (block ∷ blocks) d =
      (content d addr ≡ block) × Written (addr + words_per_chunk) blocks d

module _ {D : Type 0} (write : D → ℕ → List ℕ → D × Option ℕ)
    (read : D → ℕ → D × Option (ℕ × List ℕ)) (content : D → ℕ → List ℕ)
    (honest : IsHonest write read content) (heard : ReadsAnswered read) where
  abbrev Below : ℕ → D → D → Type 0
  Below addr base d = (b : ℕ) → b < addr → content d b ≡ content base b

  -- What the writing of a file from an address on leaves, if it returns.
  abbrev FileLeaves : ℕ → List (List ℕ) → D → Ending D → Type 0
  FileLeaves addr blocks base (returned s) =
      Below addr base s.device × Written content addr blocks s.device
  FileLeaves addr blocks base (exited s) = Unit
  FileLeaves addr blocks base out_of_fuel = Unit

  drop-length_equal : (n : ℕ) (xs : List ℕ) → length xs ≡ n → drop n xs ≡ []
  drop-length_equal zero [] e = refl
  drop-length_equal zero (x ∷ xs) e = absurd (omega arith)
  drop-length_equal (suc n) [] e = refl
  drop-length_equal (suc n) (x ∷ xs) e = drop-length_equal n xs (omega arith)

  overwritten :
      (block chunk : List ℕ)
      → length block ≡ sb_rw_buf_len
      → length chunk ≡ sb_rw_buf_len
      → block ++ drop (length block) chunk ≡ block
  overwritten block chunk e e' =
      ap (λ rest. block ++ rest) (drop-length_equal (length block) chunk (e' ∙ sym e))
      ∙ append-nil block

  next_block-Leaves :
      (addr : ℕ) (block : List ℕ) (blocks : List (List ℕ)) (base : D) (go : State D → Ending D)
      (o : Option (State D × Bool))
      → ChunkLeaves write read content honest heard addr block base o
      → ((s : State D) → FileLeaves (addr + words_per_chunk) blocks s.device (go s))
      → FileLeaves addr (block ∷ blocks) base (next_block go o)
  unfolding next_block Written
  next_block-Leaves addr block blocks base go none c h = tt
  next_block-Leaves addr block blocks base go (some (s, false)) c h = tt
  next_block-Leaves addr block blocks base go (some (s, true)) c h = after (go s) (h s)
    where
      after :
          (e : Ending D)
          → FileLeaves (addr + words_per_chunk) blocks s.device e
          → FileLeaves addr (block ∷ blocks) base e
      after (returned s') f = (
        (λ b below. f.0 b (omega arith) ∙ c.0 b (λ e. omega arith)),
        (f.0 addr (omega arith) ∙ c.1 refl, f.1),
      )
      after (exited s') f = tt
      after out_of_fuel f = tt

  write_blocks-Leaves :
      (fuel addr : ℕ) (chunk : List ℕ) (blocks : List (List ℕ)) (s : State D)
      → addr + words_per_chunk * length blocks ≤ 65536
      → length chunk ≡ sb_rw_buf_len
      → Full blocks
      → FileLeaves addr blocks s.device (write_blocks write read fuel (addr % 65536) chunk blocks s)
  unfolding write_blocks Written
  write_blocks-Leaves fuel addr chunk [] s room l full = ((λ b below. refl), tt)
  write_blocks-Leaves fuel addr chunk (block ∷ blocks) s room l full =
      subst (λ text. FileLeaves addr (block ∷ blocks) s.device (from_here (addr % 65536) text))
        (sym (overwritten block chunk full.0 l))
        (subst (λ a. FileLeaves addr (block ∷ blocks) s.device (from_here a block)) (sym small)
          (next_block-Leaves addr block blocks s.device
            (write_blocks write read fuel ((addr + words_per_chunk) % 65536) block blocks)
            (chunk_loop write read fuel 3 addr block (start_block s))
            (chunk_loop-Leaves write read content honest heard fuel 3 addr block (start_block s)
              s.device (λ b ne. refl))
            (λ s'.
              write_blocks-Leaves fuel (addr + words_per_chunk) block blocks s' (omega arith) full.0
                full.1)))
    where
      from_here : ℕ → List ℕ → Ending D
      from_here a text =
          next_block (write_blocks write read fuel ((a + words_per_chunk) % 65536) text blocks)
            (chunk_loop write read fuel 3 a text (start_block s))

      small : addr % 65536 ≡ addr
      small = omega arith

  -- Whenever `sb_image_write` of a file of full blocks returns, be it with 0 or with -1, every block of the
  -- file is in the flash at its address, 16 words for each block before it. The boot loader may refuse
  -- or spoil any write, and report any status: it is honest only about what it reads, and its writes touch
  -- nothing but their chunk. The answer to every read comes before `mtSend` gives up. The file is at
  -- most as long as the 16 bits of the address can count.
  pub sb_image_write-Written :
      (fuel : ℕ) (request response : List ℕ) (blocks : List (List ℕ)) (d : D) (s : State D)
      → length request ≡ sb_rw_buf_len
      → Full blocks
      → length blocks ≤ 4096
      → sb_image_write write read fuel request response blocks d ≡ returned s
      → Written content 0 blocks s.device
  unfolding sb_image_write
  sb_image_write-Written fuel request response blocks d s l full room e =
      (subst (FileLeaves 0 blocks d) e (
        write_blocks-Leaves fuel 0 request blocks
          (record { device = d; return_status = 0xff; response = response; failed = false })
          (omega arith) l full)).1
