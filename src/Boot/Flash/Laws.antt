-- ===== src/Boot/Flash/Laws.antt =====
-- Only a checked image is written, and all of it.
use kappaio.Common.{
  ℕ, zero, suc, ◌-◌, ◌*◌, ◌≤◌, ◌≡◌, refl, subst, Bool, true, false, List, [], ◌∷◌, Option, some,
  length, drop, length-take, length-drop, Bool-cases, inl, inr, if◌then◌else◌, arith,
}
use kappaio.Boot.Image.{State, Ending, returned, exited, out_of_fuel, sb_image_write, sb_rw_buf_len}
use kappaio.Boot.Image.Laws.{IsHonest, ReadsAnswered}
use kappaio.Boot.Image.Written.{Full, Written, sb_image_write-Written}
use kappaio.Boot.Crc.{image_size, sb_image_check}
use kappaio.Boot.Flash.{
  blocks_from, shaken, Flashing, not_registered, bad_image, waiting, wrote, flash_image,
}

pub blocks_from-Full :
    (n k : ℕ) (file : List ℕ)
    → length file ≡ 64 * k
    → k ≤ n
    → Full (blocks_from n file) × (length (blocks_from n file) ≡ k)
unfolding blocks_from
blocks_from-Full zero k file l enough = (tt, omega arith)
blocks_from-Full (suc n) k [] l enough = (tt, omega arith)
blocks_from-Full (suc n) k (b ∷ bs) l enough =
    let rest =
      blocks_from-Full n (k - 1) (drop 64 (b ∷ bs)) (omega (arith, length-drop 64 (b ∷ bs), l))
        (omega arith) in
    ((omega (arith, length-take 64 (b ∷ bs), l), rest.0), omega (arith, rest.1, l))

module _ {D : Type 0} (write : D → ℕ → List ℕ → D × Option ℕ)
    (read : D → ℕ → D × Option (ℕ × List ℕ)) (content : D → ℕ → List ℕ)
    (honest : IsHonest write read content) (heard : ReadsAnswered read) where
  abbrev Leaves : List ℕ → Flashing D → Type 0
  Leaves file not_registered = Unit
  Leaves file bad_image = Unit
  Leaves file waiting = Unit
  Leaves file (wrote out_of_fuel) = Unit
  Leaves file (wrote (exited s)) = Unit
  Leaves file (wrote (returned s)) =
      (sb_image_check (some file) ≡ true)
      × Written content 0 (blocks_from (length file) file) s.device

  written_ending :
      (fuel : ℕ) (request response file : List ℕ) (d : D)
      → length request ≡ sb_rw_buf_len
      → length file ≡ image_size
      → sb_image_check (some file) ≡ true
      → (ending : Ending D)
      → sb_image_write write read fuel request response (blocks_from (length file) file) d ≡ ending
      → Leaves file (wrote ending)
  written_ending fuel request response file d l size good out_of_fuel e = tt
  written_ending fuel request response file d l size good (exited s) e = tt
  written_ending fuel request response file d l size good (returned s) e = (
    good,
    sb_image_write-Written write read content honest heard fuel request response
        (blocks_from (length file) file) d s l full.0 (omega (arith, full.1)) e,
  )
    where
      full :
          Full (blocks_from (length file) file) × (length (blocks_from (length file) file) ≡ 3744)
      full = blocks_from-Full (length file) 3744 file (omega (arith, size)) (omega (arith, size))

  flash_image-Leaves :
      (fuel : ℕ) (request response : List ℕ) (registered : Bool) (file : List ℕ) (tries : List Bool)
      (d : D)
      → length request ≡ sb_rw_buf_len
      → length file ≡ image_size
      → Leaves file (flash_image write read fuel request response registered file tries d)
  unfolding flash_image
  flash_image-Leaves fuel request response false file tries d l size = tt
  flash_image-Leaves fuel request response true file tries d l size =
      elim (Bool-cases (sb_image_check (some file))) [
        | inl good ↦ rw (good) (shaking good (shaken tries))
        | inr bad ↦ rw (bad) tt
      ]
    where
      ending : Ending D
      ending = sb_image_write write read fuel request response (blocks_from (length file) file) d

      shaking :
          sb_image_check (some file) ≡ true
          → (t : Bool) → Leaves file (if t then wrote ending else waiting)
      shaking good false = tt
      shaking good true = written_ending fuel request response file d l size good ending refl

  -- Whenever `flashImage` of a file of the image's size writes and the writing returns, with a boot loader that
  -- reads back what is in the flash, writes only to the chunk it is told, and whose answer to every read comes in
  -- time, the file has passed the check and all of it is in the flash. Without an answer in time the code compares
  -- what an earlier answer has left.
  pub flash_image-Written :
      (fuel : ℕ) (request response : List ℕ) (registered : Bool) (file : List ℕ) (tries : List Bool)
      (d : D) (s : State D)
      → length request ≡ sb_rw_buf_len
      → length file ≡ image_size
      → flash_image write read fuel request response registered file tries d ≡ wrote (returned s)
      → (sb_image_check (some file) ≡ true)
        × Written content 0 (blocks_from (length file) file) s.device
  flash_image-Written fuel request response registered file tries d s l size e =
      subst (Leaves file) e
        (flash_image-Leaves fuel request response registered file tries d l size)
