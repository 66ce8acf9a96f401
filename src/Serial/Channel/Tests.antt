-- ===== src/Serial/Channel/Tests.antt =====
-- A ping between other packets: the first answer is taken, and without one the port is opened anew.
use kappaio.Common.{ℕ, ◌≡◌, refl, true, false, List, [], ◌∷◌, none, some, arith}
use kappaio.Serial.Channel.{Channels, sent, ok, mt_send, open_channel}
use kappaio.Serial.Channel.Laws.{first_answer, mt_send-answered}

-- No request is under way.
abbrev idle : Channels
idle s = record (open_channel 0 false false) { busy = false }

-- A reset of the coprocessor, a system command with another id, then the answer to a ping.
abbrev arrivals : List (List ℕ)
arrivals =
    (0 ∷ 0x64 ∷ 0x01 ∷ []) ∷ (0 ∷ 0x61 ∷ 0x02 ∷ []) ∷ (2 ∷ 0x61 ∷ 0x01 ∷ 0x59 ∷ 0x00 ∷ []) ∷ []

mt_send-answered_example :
    (chs' : Channels) × (mt_send idle 0x21 0x01 true false arrivals ≡ sent ok chs' false)
    × ((chs' 1).busy ≡ false)
    × ((chs' 1).given ≡ none)
    × ((chs' 1).stored ≡ some (2 ∷ 0x61 ∷ 0x01 ∷ 0x59 ∷ 0x00 ∷ []))
unfolding first_answer
mt_send-answered_example =
    mt_send-answered idle 0x21 0x01 true false arrivals refl (omega arith) refl
