-- ===== src/Boot/Flash/Tests.antt =====
-- The update with an image that passes the check and a boot loader that stores what it is given.
use kappaio.Common.{
  ℕ, ◌≡◌, refl, ap, Bool, true, false, List, [], ◌∷◌, some, length, replicate, arith,
}
use kappaio.Boot.Image.{State, returned}
use kappaio.Boot.Image.Written.{Full, Written}
use kappaio.Boot.Image.Success.{Small, sb_image_write-succeeds}
use kappaio.Boot.Image.Tests.{
  Flash, store, load, content, erased, store-IsHonest, store-ReadsAnswered, store-IsSound,
}
use kappaio.Boot.Crc.{image_size, sb_image_check}
use kappaio.Boot.Crc.Damage.{image}
use kappaio.Boot.Crc.Tests.{start, start_good, image-length}
use kappaio.Boot.Flash.{blocks_from, shaken, wrote, flash_image}
use kappaio.Boot.Flash.Laws.{blocks_from-Full, flash_image-Written}

Full-Small : (blocks : List (List ℕ)) → Full blocks → Small blocks
Full-Small [] h = tt
Full-Small (b ∷ bs) h = (omega (arith, h.0), Full-Small bs h.1)

-- The boot loader answers the second handshake.
abbrev tries : List Bool
tries = false ∷ true ∷ []

flashes :
    (file : List ℕ)
    → length file ≡ image_size
    → sb_image_check (some file) ≡ true
    → (s : State Flash) × (flash_image store load 3 (replicate 64 0) [] true file tries erased
        ≡ wrote (returned s))
unfolding flash_image shaken
flashes file size good =
    let done =
      sb_image_write-succeeds store load content store-IsSound 2 (replicate 64 0) []
        (blocks_from (length file) file) erased refl
        (Full-Small (blocks_from (length file) file)
          (blocks_from-Full (length file) 3744 file (omega (arith, size))
            (omega (arith, size))).0) in
    (done.0, rw (good) (ap wrote done.1))

abbrev firmware : List ℕ
firmware = image (start 239466) [] 1 0

firmware-length : length firmware ≡ image_size
firmware-length = image-length 239466 refl

flashed :
    (s : State Flash) × (flash_image store load 3 (replicate 64 0) [] true firmware tries erased
      ≡ wrote (returned s))
flashed = flashes firmware firmware-length (start_good 239466 firmware-length)

flash_image-Written_example :
    (sb_image_check (some firmware) ≡ true)
    × Written content 0 (blocks_from (length firmware) firmware) flashed.0.device
flash_image-Written_example =
    flash_image-Written store load content store-IsHonest store-ReadsAnswered 3 (replicate 64 0) []
      true firmware tries erased flashed.0 refl firmware-length flashed.1
