-- ===== src/Hal/Ping/Tests.antt =====
-- A processor that does not answer, and one that boots.
use kappaio.Common.{
  drop, ◌+◌, ◌≤◌, ◌≡◌, refl, Bool, true, false, List, [], ◌∷◌, none, get_or, ◌==◌, if◌then◌else◌,
  arith,
}
use kappaio.Common.Words.{All, from_le}
use kappaio.Serial.Channel.{open_channel}
use kappaio.Serial.Channel.Laws.{first_answer}
use kappaio.Aps.Message.{copy_out}
use kappaio.Hal.Request.{React, reply_to}
use kappaio.Hal.Ping.{
  Turn, Monitored, running, ended, ping_message, boot_message, state_monitor, start_system,
  ping_times,
}
use kappaio.Hal.Ping.Laws.{Boots, state_monitor-silent, start_system-boots}
use kappaio.Hal.Ping.Backoff.{IsRead, no_turn, ping_times-apart}

-- `true` while the firmware runs.
abbrev mute : React Bool
mute c m = (c, [])

abbrev booting : React Bool
booting c m =
    if m.cmd_id == 0x01
    then (
      c,
      (if c then 3 ∷ 0x61 ∷ 0x01 ∷ 0x59 ∷ 0x00 ∷ 2 ∷ [] else 3 ∷ 0x61 ∷ 0x01 ∷ 0x75 ∷ 0x32 ∷ 0 ∷ [])
          ∷ [],
    )
    else (true, [])

abbrev at_start : Monitored Bool
at_start = record {
  link = record {
    chip = false;
    channels = λ s. record (open_channel 0 false false) { busy = false };
    resets = 0;
  };
  host = record { last_failed = none; consecutive = 0 };
  status = record { capability = 0x0059; operation_state = 2 };
}

-- A turn every ten seconds, and a second for each ping.
abbrev turns : List Turn
turns =
    record { now = 100; later = 101; upper = 0 }
    ∷ record { now = 110; later = 111; upper = 0 }
    ∷ record { now = 120; later = 121; upper = 0 }
    ∷ record { now = 130; later = 131; upper = 0 }
    ∷ record { now = 140; later = 141; upper = 0 }
    ∷ record { now = 150; later = 182; upper = 0 }
    ∷ []

turns-IsRead : All IsRead turns
turns-IsRead = (
  (refl, omega arith),
  (
    (refl, omega arith),
    ((refl, omega arith), ((refl, omega arith), ((refl, omega arith), ((refl, omega arith), tt)))),
  ),
)

silent : (c : Bool) → reply_to mute c ping_message ≡ none
unfolding reply_to ping_message first_answer
silent c = refl

boots : Boots booting (λ c. c ≡ false) (λ c. c ≡ true)
unfolding reply_to ping_message boot_message first_answer copy_out from_le
boots = record {
  loader_reply = λ c h. rw h (3 ∷ 0x61 ∷ 0x01 ∷ 0x75 ∷ 0x32 ∷ 0 ∷ [], refl, refl, refl);
  firmware_reply = λ c h. rw h (3 ∷ 0x61 ∷ 0x01 ∷ 0x59 ∷ 0x00 ∷ 2 ∷ [], refl, refl, refl, refl);
  enable = λ c h. refl;
}

state_monitor-silent_example :
    (m' : Monitored Bool) × (state_monitor mute turns at_start ≡ running m')
    × (m'.status ≡ at_start.status)
state_monitor-silent_example =
    state_monitor-silent mute silent turns at_start (omega arith, refl) refl

ping_times-apart_example :
    (get_or turns 4 no_turn).later + 40 ≤ get_or (ping_times mute turns at_start) 5 0
ping_times-apart_example =
    ping_times-apart mute silent turns at_start 4 (omega arith, refl) (omega arith) (omega arith)
      (omega arith) turns-IsRead

start_system-boots_example :
    (m' : Monitored Bool) × (start_system booting turns at_start ≡ ended m')
    × (m'.link.chip ≡ true)
    × (m'.status.capability ≡ 0x0059)
    × (m'.status.operation_state ≡ 2)
start_system-boots_example =
    start_system-boots booting (λ c. c ≡ false) (λ c. c ≡ true) boots (get_or turns 0 no_turn)
      (get_or turns 1 no_turn) (drop 2 turns) at_start refl (omega arith, refl)
