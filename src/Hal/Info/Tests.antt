-- ===== src/Hal/Info/Tests.antt =====
-- The processor's own data.
use kappaio.Common.{ℕ, ◌≡◌, refl, false, List, [], ◌∷◌, some, ◌==◌, if◌then◌else◌, arith}
use kappaio.Common.Words.{to_le}
use kappaio.Serial.Channel.{open_channel}
use kappaio.Serial.Channel.Laws.{first_answer}
use kappaio.Hal.Request.{React, Link, reply_to}
use kappaio.Hal.Info.{device_info_message, device_info_widths}
use kappaio.Hal.Info.Laws.{write_fields, device, ask, ask-written}

abbrev info : List ℕ
info = 0 ∷ 0x00124b0001020304 ∷ 0 ∷ 7 ∷ 9 ∷ 2 ∷ []

abbrev react : React ℕ
react c m =
    if m.cmd_id == 0x00
    then (c, (14 ∷ 0x67 ∷ 0x00 ∷ write_fields device_info_widths info) ∷ [])
    else (c, [])

abbrev link : Link ℕ
link = record {
  chip = 0;
  channels = λ s. record (open_channel 0 false false) { busy = false };
  resets = 0;
}

ask-written_example : ask react link device ≡ some info
unfolding reply_to device_info_message device_info_widths first_answer write_fields to_le
ask-written_example =
    (ask-written react link device (omega arith, refl)).0
      (14 ∷ 0x67 ∷ 0x00 ∷ write_fields device_info_widths info) info [] refl (omega arith) refl
