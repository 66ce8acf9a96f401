-- ===== src/Hal/Ping/Laws.antt =====
-- The monitor and the start of the processor.
use kappaio.Common.{ℕ, ◌≡◌, refl, ap, sym, ◌∙◌, subst, List, [], ◌∷◌, none, some, get_or}
use kappaio.Common.Words.{from_le}
use kappaio.Serial.Channel.{mt_send}
use kappaio.Aps.Message.{copy_out}
use kappaio.Hal.Request.{
  React, Link, no_answer, reply_to, IsFree, outcome_for, mt_request, mt_post, link_after,
  mt_request-outcome, mt_request-chip, mt_request-IsFree,
}
use kappaio.Hal.Ping.{
  Turn, Monitored, running, ended, ping_message, boot_message, on_ping, file_read, system_ping,
  state_monitor, after_start_ping, is_operating, start_system,
}

-- A processor that answers no ping.
module _ {Chip : Type 0} (react : React Chip)
    (silent : (c : Chip) → reply_to react c ping_message ≡ none) where
  pub silent_outcome :
      (l : Link Chip) → IsFree l 0x21 → (mt_request react 4 l ping_message).1 ≡ no_answer
  unfolding ping_message
  silent_outcome l free =
      mt_request-outcome react 4 l ping_message free ∙ ap (outcome_for 4) (silent l.chip)

  pub silent_ping :
      (turn : Turn) (m : Monitored Chip)
      → IsFree m.link 0x21
      → ((system_ping react turn m).0.status ≡ m.status)
        × IsFree (system_ping react turn m).0.link 0x21
  unfolding system_ping on_ping ping_message
  silent_ping turn m free = (
    ap (λ o. (on_ping turn.later (file_read m.host) m.status o).1) (silent_outcome m.link free),
    mt_request-IsFree react 4 m.link ping_message free,
  )

  -- `StateMonitor` while no ping is answered, on a free channel, with a status whose capability is 0x0059: it
  -- does not end the process, and the status stays as it is, for any number of turns.
  pub state_monitor-silent :
      (turns : List Turn) (m : Monitored Chip)
      → IsFree m.link 0x21
      → m.status.capability ≡ 0x0059
      → (m' : Monitored Chip) × (state_monitor react turns m ≡ running m') × (m'.status ≡ m.status)
  unfolding state_monitor
  state_monitor-silent [] m free up = (m, refl, refl)
  state_monitor-silent (turn ∷ turns) m free up =
      let p = silent_ping turn m free in
      let still = ap (λ st. st.capability) p.0 ∙ up in
      let r = state_monitor-silent turns (system_ping react turn m).0 p.1 still in
      (r.0, rw still r.1, r.2 ∙ p.0)

-- What the boot loader and the firmware answer to a ping, and that SB_ENABLE starts the firmware.
pub record Boots {Chip : Type 0} (react : React Chip) (loader firmware : Chip → Type 0)
    : Type 0 where
  pub loader_reply :
      (c : Chip)
      → loader c
      → (pkt : List ℕ) × (reply_to react c ping_message ≡ some pkt)
        × (from_le (copy_out pkt 3 2) ≡ 0x3275)
        × loader (react c ping_message).0
  pub firmware_reply :
      (c : Chip)
      → firmware c
      → (pkt : List ℕ) × (reply_to react c ping_message ≡ some pkt)
        × (from_le (copy_out pkt 3 2) ≡ 0x0059)
        × (get_or pkt 5 0 ≡ 2)
        × firmware (react c ping_message).0
  pub enable : (c : Chip) → loader c → firmware (react c boot_message).0

module _ {Chip : Type 0} (react : React Chip) where
  -- A ping that is answered.
  answered_ping :
      (turn : Turn) (m : Monitored Chip) (pkt : List ℕ)
      → IsFree m.link 0x21
      → reply_to react m.link.chip ping_message ≡ some pkt
      → ((system_ping react turn m).0.status.capability ≡ from_le (copy_out pkt 3 2))
        × ((system_ping react turn m).0.status.operation_state ≡ get_or pkt 5 0)
        × ((system_ping react turn m).0.link.chip ≡ (react m.link.chip ping_message).0)
        × IsFree (system_ping react turn m).0.link 0x21
  unfolding system_ping on_ping ping_message copy_out
  answered_ping turn m pkt free e =
      let o = mt_request-outcome react 4 m.link ping_message free ∙ ap (outcome_for 4) e in
      (
        ap (λ x. (on_ping turn.later (file_read m.host) m.status x).1.capability) o,
        ap (λ x. (on_ping turn.later (file_read m.host) m.status x).1.operation_state) o,
        mt_request-chip react 4 m.link ping_message free,
        mt_request-IsFree react 4 m.link ping_message free,
      )

  mt_post-boot :
      (l : Link Chip)
      → ((mt_post react l boot_message).chip ≡ (react l.chip boot_message).0)
        × ((mt_post react l boot_message).channels ≡ l.channels)
  unfolding mt_post mt_send link_after
  mt_post-boot l = (refl, refl)

  -- `StartSystem` of a processor that is in its boot loader, on a free channel: it returns at the second ping,
  -- with the processor in its firmware and in the normal operating state, whatever the status was before and
  -- whatever times the pings wait for.
  pub start_system-boots :
      (loader firmware : Chip → Type 0)
      → Boots react loader firmware
      → (first second : Turn) (turns : List Turn) (m : Monitored Chip) → loader m.link.chip
      → IsFree m.link 0x21
      → (m' : Monitored Chip) × (start_system react (first ∷ second ∷ turns) m ≡ ended m')
        × firmware m'.link.chip
        × (m'.status.capability ≡ 0x0059)
        × (m'.status.operation_state ≡ 2)
  unfolding start_system after_start_ping is_operating
  start_system-boots loader firmware boots first second turns m l free =
      let a = boots.loader_reply m.link.chip l in
      let p = answered_ping first m a.0 free a.1 in
      let m1 = (system_ping react first m).0 in
      let b = mt_post-boot m1.link in
      let m2 : Monitored Chip = record m1 { link = mt_post react m1.link boot_message } in
      let up : firmware m2.link.chip =
        subst firmware (sym (b.0 ∙ ap (λ c. (react c boot_message).0) p.2))
          (boots.enable (react m.link.chip ping_message).0 a.3) in
      let free2 : IsFree m2.link 0x21 = (p.3.0, ap (λ chs. (chs 1).busy) b.1 ∙ p.3.1) in
      let c = boots.firmware_reply m2.link.chip up in
      let q = answered_ping second m2 c.0 free2 c.1 in
      (
        (system_ping react second m2).0,
        rw (p.0 ∙ a.2) (rw (q.0 ∙ c.2) (rw (q.1 ∙ c.3) refl)),
        subst firmware (sym q.2) c.4,
        q.0 ∙ c.2,
        q.1 ∙ c.3,
      )
