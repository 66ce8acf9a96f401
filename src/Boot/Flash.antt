-- ===== src/Boot/Flash.antt =====
-- A firmware update from its start: `flashImage` of src/sbl/source/serial_bootload.cpp, which checks the image, waits
-- for the boot loader and writes.
pub mod Laws
mod Tests
use kappaio.Common.{
  ℕ, zero, suc, Bool, true, false, List, [], ◌∷◌, Option, some, length, take, drop, if◌then◌else◌,
}
use kappaio.Boot.Image.{State, Ending, sb_image_write, sb_rw_buf_len}
use kappaio.Boot.Crc.{sb_image_check}

-- What `read` gives of a file: its bytes in blocks of 64; a turn for each byte is enough.
unfoldable pub blocks_from : ℕ → List ℕ → List (List ℕ)
blocks_from zero bytes = []
blocks_from (suc n) [] = []
blocks_from (suc n) (b ∷ bs) =
    take sb_rw_buf_len (b ∷ bs) ∷ blocks_from n (drop sb_rw_buf_len (b ∷ bs))

-- The loop around `sb_handshake`: whether one of these tries is answered.
unfoldable pub shaken : List Bool → Bool
shaken [] = false
shaken (h ∷ hs) = if h then true else shaken hs

module _ (D : Type 0) where
  -- How `flashImage` goes: the subsystem is taken, the image is refused and the process ends, the boot loader
  -- does not answer in the tries that there are, or the image is written.
  pub data Flashing : Type 0 where
    not_registered : Flashing
    bad_image : Flashing
    waiting : Flashing
    wrote : Ending D → Flashing

module _ {D : Type 0} (write : D → ℕ → List ℕ → D × Option ℕ)
    (read : D → ℕ → D × Option (ℕ × List ℕ)) where
  unfoldable pub flash_image : ℕ → List ℕ → List ℕ → Bool → List ℕ → List Bool → D → Flashing D
  flash_image fuel request response registered file tries d =
      if registered
      then (if sb_image_check (some file)
          then (if shaken tries
              then wrote (
                  sb_image_write write read fuel request response (blocks_from (length file) file)
                    d)
              else waiting)
          else bad_image)
      else not_registered
