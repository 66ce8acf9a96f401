-- ===== src/Hal/Ping.antt =====
-- Pings of the ZigBee processor and what hangs on them: `mt_sysping_req` of src/hal/source/mtsys.cpp, and
-- `systemPing`, `StateMonitor` and `StartSystem` of src/hal/source/hal.cpp. The clock is an input: a turn has the
-- time when a ping looks at it, and the time when the ping has failed. Where `time_t` has more than 32 bits, it also has
-- what the memory of `lastFailedPing` holds above them.
pub mod Laws
pub mod Backoff
mod Tests
use kappaio.Common.{
  ℕ, ◌+◌, ◌-◌, ◌*◌, ◌%◌, ◌^◌, Bool, true, false, List, [], ◌∷◌, Option, none, some, get_or, ltb,
  ◌==◌, if◌then◌else◌, not, ◌&&◌,
}
use kappaio.Common.Words.{from_le}
use kappaio.Aps.Message.{copy_out}
use kappaio.Hal.Request.{
  Message, React, Link, Outcome, no_answer, answered, waiting, mt_request, mt_post,
}
use kappaio.Hal.Nv.{Code, success, failure, stuck}

-- The file with the time of the last failed ping, if there is one, and `consecutiveFailedPing`.
pub record Host : Type 0 where
  pub last_failed : Option ℕ
  pub consecutive : ℕ

-- `processorStatus_t`, without the field that nothing sets.
pub record ProcessorStatus : Type 0 where
  pub capability : ℕ
  pub operation_state : ℕ

pub record Turn : Type 0 where
  pub now : ℕ
  pub later : ℕ
  pub upper : ℕ

-- KAPPAIO_LAST_FAILED_PING is made with a 0 if it is missing. MINIUM_FAILED_PING_WAIT_SEC is 40; the time
-- since the last failure is a signed number, which is below 40 if that lies in the future.
unfoldable pub file_time : Option ℕ → ℕ
file_time none = 0
file_time (some t) = t

-- `fscanf` with %d sets 32 bits of a `time_t`; `upper` is what the others hold, 0 where there are none.
unfoldable pub last_time : ℕ → Option ℕ → ℕ
unfolding file_time
last_time upper file = file_time file % 2 ^ 32 + upper * 2 ^ 32

-- What the file says when the ping has read it.
unfoldable pub file_read : Host → Host
unfolding file_time
file_read h = record h { last_failed = some (file_time h.last_failed) }

unfoldable pub wait_before : ℕ → ℕ → ℕ
wait_before now last = if ltb now (last + 40) then last + 40 - now else 0

-- `mt_sysping_req`
unfoldable pub ping_message : Message
ping_message = record { cmd_type = 0x21; cmd_id = 0x01; sent_data = [] }

-- SB_ENABLE, which starts the firmware.
unfoldable pub boot_message : Message
boot_message = record { cmd_type = 0x21; cmd_id = 0x4b; sent_data = [] }

-- What `systemPing` makes of the outcome.
unfoldable pub on_ping : ℕ → Host → ProcessorStatus → Outcome → Host × ProcessorStatus × Code
on_ping later h status (answered r) = (
  record h { consecutive = 0 },
  record { capability = from_le (copy_out r 0 2); operation_state = get_or r 2 0 },
  success,
)
on_ping later h status no_answer = (
  if ltb 3 h.consecutive
      then record h { last_failed = some later }
      else record h { consecutive = h.consecutive + 1 },
  status,
  failure,
)
on_ping later h status waiting = (h, status, stuck)

pub record Monitored (Chip : Type 0) : Type 0 where
  pub link : Link Chip
  pub host : Host
  pub status : ProcessorStatus

-- How a loop over the turns ends: it goes on behind the last of them, or it has ended before.
pub data Loop (Chip : Type 0) : Type 0 where
  running : Monitored Chip → Loop Chip
  ended : Monitored Chip → Loop Chip

module _ {Chip : Type 0} (react : React Chip) where
  -- The new state, the time at which the ping is sent, and what is returned.
  unfoldable pub system_ping : Turn → Monitored Chip → Monitored Chip × ℕ × Code
  system_ping turn m =
      let r = mt_request react 4 m.link ping_message in
      let p = on_ping turn.later (file_read m.host) m.status r.1 in
      (
        record { link = r.0; host = p.0; status = p.1 },
        turn.now + wait_before turn.now (last_time turn.upper m.host.last_failed),
        p.2,
      )

  -- The loop of `StateMonitor`, which ends in `exit (0)`.
  unfoldable pub state_monitor : List Turn → Monitored Chip → Loop Chip
  state_monitor [] m = running m
  state_monitor (turn ∷ turns) m =
      let m' = (system_ping turn m).0 in
      let rest = state_monitor turns m' in if m'.status.capability == 0x0059 then rest else ended m'

  -- One turn of `StartSystem` behind its ping.
  unfoldable pub after_start_ping : Monitored Chip → Monitored Chip
  after_start_ping m =
      if m.status.capability == 0x3275
      then record m { link = mt_post react m.link boot_message }
      else m

  unfoldable pub is_operating : ProcessorStatus → Bool
  is_operating status = status.capability == 0x0059 && status.operation_state == 0x02

  -- The loop of `StartSystem`.
  unfoldable pub start_system : List Turn → Monitored Chip → Loop Chip
  start_system [] m = running m
  start_system (turn ∷ turns) m =
      let m' = (system_ping turn m).0 in
      let rest = start_system turns (after_start_ping m') in
      if is_operating m'.status then ended m' else rest

  -- A ping at each turn, and the times at which they are sent.
  unfoldable pub ping_times : List Turn → Monitored Chip → List ℕ
  ping_times [] m = []
  ping_times (turn ∷ turns) m = (system_ping turn m).1 ∷ ping_times turns (system_ping turn m).0
