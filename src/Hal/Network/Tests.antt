-- ===== src/Hal/Network/Tests.antt =====
-- A start that the processor reports after two turns, and one that it does not.
use kappaio.Common.{ℕ, zero, suc, ◌<◌, ◌≡◌, ◌≢◌, refl, false, List, [], ◌∷◌, arith}
use kappaio.Common.Words.{All}
use kappaio.Serial.Channel.{open_channel}
use kappaio.Hal.Request.{React, Link}
use kappaio.Hal.Nv.{success, failure}
use kappaio.Hal.Network.{for_zdo, startup_message, start_zdo}
use kappaio.Hal.Network.Laws.{indicated, indicated_by, IsZdo, start_zdo-indicated}

abbrev accepting : React ℕ
accepting c m = (c, (1 ∷ 0x65 ∷ 0x40 ∷ 0 ∷ []) ∷ [])

abbrev link : Link ℕ
link = record {
  chip = 0;
  channels = λ s. record (open_channel 0 false false) { busy = false };
  resets = 0;
}

-- DEV_COORD_STARTING before the second test, DEV_ZB_COORD before the third.
abbrev arrivals : ℕ → List (List ℕ)
arrivals zero = []
arrivals (suc zero) = (1 ∷ 0x45 ∷ 0xc0 ∷ 8 ∷ []) ∷ []
arrivals (suc (suc t)) = (1 ∷ 0x45 ∷ 0xc0 ∷ 9 ∷ []) ∷ (1 ∷ 0x45 ∷ 0xc1 ∷ 7 ∷ []) ∷ []

arrivals-IsZdo : (t : ℕ) → All IsZdo (arrivals t)
arrivals-IsZdo zero = tt
arrivals-IsZdo (suc zero) = (refl, tt)
arrivals-IsZdo (suc (suc t)) = (refl, (refl, tt))

start_zdo-indicated_example :
    ((k : ℕ)
      → k < 30
      → indicated_by arrivals (indicated 0 (for_zdo (accepting link.chip startup_message).1)) 0 k
        ≡ 9
      → (start_zdo accepting arrivals link 0).1 ≡ success)
    × (((k : ℕ)
          → k < 30
          → indicated_by arrivals
              (indicated 0 (for_zdo (accepting link.chip startup_message).1))
              0
              k
            ≢ 9)
        → (start_zdo accepting arrivals link 0).1 ≡ failure)
start_zdo-indicated_example =
    start_zdo-indicated arrivals arrivals-IsZdo accepting link 0 (omega arith, refl)

third_test :
    indicated_by arrivals (indicated 0 (for_zdo (accepting link.chip startup_message).1)) 0 2 ≡ 9
unfolding indicated_by indicated for_zdo
third_test = refl

started : (start_zdo accepting arrivals link 0).1 ≡ success
started =
    (start_zdo-indicated arrivals arrivals-IsZdo accepting link 0 (omega arith, refl)).0 2
      (omega arith) third_test
