-- ===== src/Boot/Image.antt =====
-- Writing a firmware image: `sb_image_write` of src/sbl/source/serial_bootload.cpp. The boot loader is a
-- device of some type `D`; what `mtSend` returns for a write and for a read is a function of it.
pub mod Laws
pub mod Written
pub mod Ends
pub mod Success
pub mod Faults
pub mod Tests
use kappaio.Common.{
  ℕ, zero, suc, ◌+◌, ◌%◌, Bool, true, false, List, [], ◌∷◌, ◌++◌, Option, none, some, length, drop,
  take, ◌==◌, leb, if◌then◌else◌, ◌&&◌, ◌||◌, not,
}

-- SB_RW_BUF_LEN, and the words of the flash that so many bytes take.
abbrev pub sb_rw_buf_len : ℕ
sb_rw_buf_len = 64

abbrev pub words_per_chunk : ℕ
words_per_chunk = 16

-- `memcmp` finds no difference.
unfoldable pub same_bytes : List ℕ → List ℕ → Bool
same_bytes [] [] = true
same_bytes [] (y ∷ ys) = false
same_bytes (x ∷ xs) [] = false
same_bytes (x ∷ xs) (y ∷ ys) = (x == y) && same_bytes xs ys

-- The variables of `sb_image_write` that outlive a turn of a loop: `response` is the data of `rdRsp`,
-- `failed` says that `rtnval` is -1.
module _ (D : Type 0) where
  pub record State : Type 0 where
    pub device : D
    pub return_status : ℕ
    pub response : List ℕ
    pub failed : Bool

  -- How `sb_image_write` ends: with 0 or -1, by `exit`, or not within the fuel.
  pub data Ending : Type 0 where
    returned : State → Ending
    exited : State → Ending
    out_of_fuel : Ending

-- The status of a response to a write; `none` when `mtSend` fails.
unfoldable pub next_retry : Option ℕ → ℕ → ℕ
next_retry none retry = retry
next_retry (some status) retry = if status == 0 then retry else suc retry

-- A read's response is tried again after an error status.
abbrev pub is_error : Option (ℕ × List ℕ) → Bool
is_error none = false
is_error (some (status, bytes)) = not (status == 0)

module _ {D : Type 0} where
  abbrev pub after_write : State D → D → Option ℕ → State D
  after_write s d none = record s { device = d }
  after_write s d (some status) = record s { device = d; return_status = status }

  abbrev pub after_read : State D → D → Option (ℕ × List ℕ) → State D
  after_read s d none = record s { device = d }
  after_read s d (some (status, bytes)) = record s { device = d; response = bytes }

  -- `memcmp` with the chunk, and what follows it: whether `readbackStatus` is 0 now.
  unfoldable pub compare : List ℕ → State D → State D × Bool
  compare chunk s =
      if same_bytes chunk (take sb_rw_buf_len s.response)
      then (s, true)
      else (record s { failed = true }, false)

  -- The end of a turn of the loop around writing and reading; `again` is the next turn.
  unfoldable pub after_round :
      (State D → Option (State D × Bool)) → State D × Bool → Option (State D × Bool)
  after_round again (s, ok) = let rest = again s in if ok then some (s, true) else rest

  -- After a block's loops: `go` is the rest of the file.
  unfoldable pub next_block : (State D → Ending D) → Option (State D × Bool) → Ending D
  next_block go none = out_of_fuel
  next_block go (some (s, ok)) = let rest = go s in if ok then rest else exited s

  abbrev pub start_block : State D → State D
  start_block s = record s { return_status = 0xff }

module _ {D : Type 0} (write : D → ℕ → List ℕ → D × Option ℕ)
    (read : D → ℕ → D × Option (ℕ × List ℕ)) where
  -- The loop that writes a chunk. A request that gets no response is not counted.
  unfoldable pub write_loop : ℕ → ℕ → List ℕ → State D → ℕ → Option (State D)
  write_loop zero addr chunk s retry = if s.return_status == 0 || leb 3 retry then some s else none
  write_loop (suc fuel) addr chunk s retry =
      let (d, response) = write s.device addr chunk in
      let rest =
        write_loop fuel addr chunk (after_write s d response) (next_retry response retry) in
      if s.return_status == 0 || leb 3 retry then some s else rest

  -- The loop that reads a chunk back, with the tries that are left. A request that gets no response goes
  -- on with the response of an earlier one; a response with an error status is tried again.
  unfoldable pub read_loop : ℕ → ℕ → List ℕ → State D → State D × Bool
  read_loop zero addr chunk s = (s, false)
  read_loop (suc tries) addr chunk s =
      let (d, response) = read s.device addr in
      let s' = after_read s d response in
      let rest = read_loop tries addr chunk s' in
      if is_error response then rest else compare chunk s'

  unfoldable pub read_back : ℕ → List ℕ → State D → State D × Bool
  read_back addr chunk s = if s.return_status == 0 then read_loop 3 addr chunk s else (s, false)

  -- A turn of the loop around both, from the end of the writing; `again` is the next turn.
  unfoldable pub round :
      ℕ → List ℕ → (State D → Option (State D × Bool)) → Option (State D) → Option (State D × Bool)
  round addr chunk again none = none
  round addr chunk again (some s) = after_round again (read_back addr chunk s)

  -- Writing and reading back a chunk, with the turns that are left: whether `readbackStatus` is 0 at
  -- the end.
  unfoldable pub chunk_loop : ℕ → ℕ → ℕ → List ℕ → State D → Option (State D × Bool)
  chunk_loop fuel zero addr chunk s = some (s, false)
  chunk_loop fuel (suc tries) addr chunk s =
      round addr chunk (chunk_loop fuel tries addr chunk) (write_loop fuel addr chunk s 0)

  -- The loop over the file, which `read` gives in blocks of at most 64 bytes. `chunk` is the data of
  -- `wrReq`, the first bytes of which a block overwrites.
  unfoldable pub write_blocks : ℕ → ℕ → List ℕ → List (List ℕ) → State D → Ending D
  write_blocks fuel addr chunk [] s = returned s
  write_blocks fuel addr chunk (block ∷ blocks) s =
      let chunk' = block ++ drop (length block) chunk in
      next_block (write_blocks fuel ((addr + words_per_chunk) % 65536) chunk' blocks)
        (chunk_loop fuel 3 addr chunk' (start_block s))

  -- `sb_image_write` of a file that opens, with what the uninitialised messages hold.
  unfoldable pub sb_image_write : ℕ → List ℕ → List ℕ → List (List ℕ) → D → Ending D
  sb_image_write fuel request response blocks d =
      write_blocks fuel 0 request blocks
        (record { device = d; return_status = 0xff; response = response; failed = false })
