-- ===== src/Hal/Ping/Backoff.antt =====
-- How far apart the pings of a processor are that does not answer.
use kappaio.Common.{
  ℕ, zero, suc, ◌+◌, ◌≤◌, ◌<◌, ◌≡◌, ◌^◌, ap, subst, List, [], ◌∷◌, Option, none, some, get_or,
  length, ltb, if◌then◌else◌, arith,
}
use kappaio.Common.Words.{All}
use kappaio.Hal.Request.{React, reply_to, IsFree}
use kappaio.Hal.Ping.{
  Turn, Monitored, ping_message, last_time, file_time, wait_before, file_read, on_ping, system_ping,
  ping_times,
}
use kappaio.Hal.Ping.Laws.{silent_outcome, silent_ping}

-- Defaults for an index behind the list.
abbrev pub no_turn : Turn
no_turn = record { now = 0; later = 0; upper = 0 }

-- `time_t` has 32 bits, or nothing is above them, and the time of a failure fits into an `int`.
abbrev pub IsRead : Turn → Type 0
IsRead turn = (turn.upper ≡ 0) × (turn.later < 2 ^ 31)

read_back :
    (turn : Turn) (file : Option ℕ) (later : ℕ)
    → file_time file ≡ later
    → turn.upper ≡ 0
    → later < 2 ^ 31
    → last_time turn.upper file ≡ later
unfolding last_time
read_back turn file later e none_above small = omega arith

wait_before-le : (now last : ℕ) → last + 40 ≤ now + wait_before now last
unfolding wait_before
wait_before-le now last = ground arith

module _ {Chip : Type 0} (react : React Chip)
    (silent : (c : Chip) → reply_to react c ping_message ≡ none) where
  silent_host :
      (turn : Turn) (m : Monitored Chip)
      → IsFree m.link 0x21
      → (system_ping react turn m).0.host ≡ (
          if ltb 3 m.host.consecutive
          then record m.host { last_failed = some turn.later }
          else record (file_read m.host) { consecutive = m.host.consecutive + 1 })
  unfolding system_ping on_ping file_read
  silent_host turn m free =
      ap (λ o. (on_ping turn.later (file_read m.host) m.status o).0)
        (silent_outcome react silent m.link free)

  -- The counter grows to 4, and the ping after a failure at 4 waits.
  counter_grows :
      (turn : Turn) (m : Monitored Chip)
      → IsFree m.link 0x21
      → m.host.consecutive ≤ 4
      → ((system_ping react turn m).0.host.consecutive ≤ 4)
        × (m.host.consecutive ≤ (system_ping react turn m).0.host.consecutive)
        × (m.host.consecutive < 4
            → (system_ping react turn m).0.host.consecutive ≡ m.host.consecutive + 1)
  counter_grows turn m free h =
      rw (silent_host turn m free) (ground arith, ground arith, ground arith)

  noted :
      (turn : Turn) (m : Monitored Chip)
      → IsFree m.link 0x21
      → 4 ≤ m.host.consecutive
      → file_time (system_ping react turn m).0.host.last_failed ≡ turn.later
  unfolding file_time
  noted turn m free h = rw (silent_host turn m free) (ground arith)

  sent_after :
      (turn : Turn) (m : Monitored Chip)
      → last_time turn.upper m.host.last_failed + 40 ≤ (system_ping react turn m).1
  unfolding system_ping
  sent_after turn m = wait_before-le turn.now (last_time turn.upper m.host.last_failed)

  -- A processor that answers no ping, whose channel is free, and a counter of failures of at most 4: if four
  -- or more pings in a row have failed before ping `i` of the turns, those counted at the start included,
  -- the next ping is sent at least 40 seconds after ping `i` has failed. Where a `time_t` has more than 32 bits, the
  -- memory above them is taken to be 0; the times are below 2^31.
  pub ping_times-apart :
      (turns : List Turn) (m : Monitored Chip) (i : ℕ)
      → IsFree m.link 0x21
      → m.host.consecutive ≤ 4
      → 4 ≤ m.host.consecutive + i
      → suc i < length turns
      → All IsRead turns
      → (get_or turns i no_turn).later + 40 ≤ get_or (ping_times react turns m) (suc i) 0
  unfolding ping_times
  ping_times-apart [] m i free small many within read = absurd (omega arith)
  ping_times-apart (turn ∷ []) m i free small many within read = absurd (omega arith)
  ping_times-apart (turn ∷ next ∷ turns) m zero free small many within read =
      subst (λ k. k + 40 ≤ (system_ping react next (system_ping react turn m).0).1)
        (read_back next (system_ping react turn m).0.host.last_failed turn.later
          (noted turn m free (omega arith)) read.1.0.0 read.0.1)
        (sent_after next (system_ping react turn m).0)
  ping_times-apart (turn ∷ next ∷ turns) m (suc i) free small many within read =
      let c = counter_grows turn m free small in
      ping_times-apart (next ∷ turns) (system_ping react turn m).0 i
        (silent_ping react silent turn m free).1 c.0 (ground (arith, c.2, c.1)) (omega arith) read.1
