-- ===== src/Hal/Network/Laws.antt =====
-- When the network has started.
use kappaio.Common.{
  ℕ, zero, suc, ◌+◌, ◌<◌, ◌≡◌, ◌≢◌, refl, ap, sym, ◌∙◌, true, false, List, [], ◌∷◌, get_or, ◌==◌,
  if◌then◌else◌, ==_iff, Bool-cases, inl, inr, arith,
}
use kappaio.Common.Words.{All}
use kappaio.Serial.Dispatch.{subsystem_of}
use kappaio.Serial.Channel.{
  Channel, failed, recv_on, recv_thread, mt_recv, is_failed, update, open_channel,
}
use kappaio.Hal.Request.{React, Link, IsFree, mt_request-IsFree}
use kappaio.Hal.Nv.{success, failure}
use kappaio.Hal.Network.{
  Zdo, zdo_coord_ready, mt_zdo_command_processing, process_all, ready_loop, startup_message,
  mt_zdo_startup_from_app_req, state_after_startup, for_zdo, start_zdo,
}

-- The state that the last of the packets that are state changes indicates.
unfoldable pub indicated : ℕ → List (List ℕ) → ℕ
indicated dev [] = dev
indicated dev (pkt ∷ pkts) = indicated (if get_or pkt 2 0 == 0xc0 then get_or pkt 3 0 else dev) pkts

-- ... of those that arrive from turn `t` to turn `t + k`.
unfoldable pub indicated_by : (ℕ → List (List ℕ)) → ℕ → ℕ → ℕ → ℕ
unfolding indicated
indicated_by arrivals dev t zero = indicated dev (arrivals t)
indicated_by arrivals dev t (suc k) = indicated_by arrivals (indicated dev (arrivals t)) (t + 1) k

abbrev pub IsZdo : List ℕ → Type 0
IsZdo pkt = subsystem_of (get_or pkt 1 0) ≡ 5

abbrev IsIdle : Zdo → Type 0
IsIdle z = (z.channels 5).busy ≡ false

recv_on-idle : (c : Channel) (pkt : List ℕ) → c.busy ≡ false → recv_on c pkt ≡ (c, failed)
unfolding recv_on
recv_on-idle c pkt free = ground arith

-- A packet that nobody waits for goes to the switch.
process-IsIdle :
    (z : Zdo) (pkt : List ℕ)
    → IsIdle z
    → IsZdo pkt
    → ((mt_zdo_command_processing z pkt).0.dev_state
        ≡ (if get_or pkt 2 0 == 0xc0 then get_or pkt 3 0 else z.dev_state))
      × IsIdle (mt_zdo_command_processing z pkt).0
unfolding mt_zdo_command_processing mt_recv
process-IsIdle z pkt free five =
    rw (five, recv_on-idle (z.channels 5) pkt free) (ground arith, ground arith)

process_all-IsIdle :
    (z : Zdo) (pkts : List (List ℕ))
    → IsIdle z
    → All IsZdo pkts
    → ((process_all z pkts).dev_state ≡ indicated z.dev_state pkts) × IsIdle (process_all z pkts)
unfolding process_all indicated
process_all-IsIdle z [] free five = (refl, free)
process_all-IsIdle z (pkt ∷ pkts) free five =
    let p = process-IsIdle z pkt free five.0 in
    let r = process_all-IsIdle (mt_zdo_command_processing z pkt).0 pkts p.1 five.1 in
    (r.0 ∙ ap (λ d. indicated d pkts) p.0, r.1)

-- A channel on which nobody waits for a state change.
abbrev IsOther : Zdo → Type 0
IsOther z = (z.channels 5).rsp_cmd_id ≡ 0x40

recv_on-other :
    (c : Channel) (pkt : List ℕ)
    → c.rsp_cmd_id ≡ 0x40
    → ((recv_on c pkt).0.rsp_cmd_id ≡ 0x40)
      × ((get_or pkt 2 0 == 0xc0) ≡ true → (recv_on c pkt).1 ≡ failed)
unfolding recv_on recv_thread
recv_on-other c pkt e = (ground arith, ground arith)

process-IsOther :
    (z : Zdo) (pkt : List ℕ)
    → IsOther z
    → IsZdo pkt
    → ((mt_zdo_command_processing z pkt).0.dev_state
        ≡ (if get_or pkt 2 0 == 0xc0 then get_or pkt 3 0 else z.dev_state))
      × IsOther (mt_zdo_command_processing z pkt).0
unfolding mt_zdo_command_processing mt_recv is_failed
process-IsOther z pkt other five =
    let r = recv_on-other (z.channels 5) pkt other in
    elim (Bool-cases (get_or pkt 2 0 == 0xc0)) [
      | inl change ↦ rw (five, r.1 change, change) (refl, r.0)
      | inr same ↦ elim (Bool-cases (is_failed (recv_on (z.channels 5) pkt).1)) [
        | inl lost ↦ rw (five, same, lost) (refl, r.0)
        | inr got ↦ rw (five, same, got) (refl, r.0)
      ]
    ]

for_zdo-Zdo : (pkts : List (List ℕ)) → All IsZdo (for_zdo pkts)
unfolding for_zdo
for_zdo-Zdo [] = tt
for_zdo-Zdo (pkt ∷ pkts) = elim (Bool-cases (subsystem_of (get_or pkt 1 0) == 5)) [
  | inl five ↦ rw five ((==_iff (subsystem_of (get_or pkt 1 0)) 5).0 five, for_zdo-Zdo pkts)
  | inr elsewhere ↦ rw elsewhere (for_zdo-Zdo pkts)
]

process_all-IsOther :
    (z : Zdo) (pkts : List (List ℕ))
    → IsOther z
    → All IsZdo pkts
    → (process_all z pkts).dev_state ≡ indicated z.dev_state pkts
unfolding process_all indicated
process_all-IsOther z [] other five = refl
process_all-IsOther z (pkt ∷ pkts) other five =
    let p = process-IsOther z pkt other five.0 in
    process_all-IsOther (mt_zdo_command_processing z pkt).0 pkts p.1 five.1
    ∙ ap (λ d. indicated d pkts) p.0

module _ (arrivals : ℕ → List (List ℕ)) (zdo : (t : ℕ) → All IsZdo (arrivals t)) where
  ready_loop-success :
      (n t k : ℕ) (z : Zdo)
      → IsIdle z
      → k < n
      → indicated_by arrivals z.dev_state t k ≡ 9
      → (ready_loop arrivals n t z).1 ≡ success
  unfolding ready_loop zdo_coord_ready indicated_by
  ready_loop-success zero t k z free h e = absurd (omega arith)
  ready_loop-success (suc n) t zero z free h e =
      rw ((process_all-IsIdle z (arrivals t) free (zdo t)).0 ∙ e) refl
  ready_loop-success (suc n) t (suc k) z free h e =
      let p = process_all-IsIdle z (arrivals t) free (zdo t) in
      let z' = process_all z (arrivals t) in
      let r =
        ready_loop-success n (t + 1) k z' p.1 (omega arith)
          (ap (λ d. indicated_by arrivals d (t + 1) k) p.0 ∙ e) in
      elim (Bool-cases (z'.dev_state == 9)) [ inl up ↦ rw up refl | inr down ↦ rw down r ]

  ready_loop-failure :
      (n t : ℕ) (z : Zdo)
      → IsIdle z
      → ((k : ℕ) → k < n → indicated_by arrivals z.dev_state t k ≢ 9)
      → (ready_loop arrivals n t z).1 ≡ failure
  unfolding ready_loop zdo_coord_ready indicated_by
  ready_loop-failure zero t z free never = refl
  ready_loop-failure (suc n) t z free never =
      let p = process_all-IsIdle z (arrivals t) free (zdo t) in
      let z' = process_all z (arrivals t) in
      elim (Bool-cases (z'.dev_state == 9)) [
        | inl up ↦ absurd (never 0 (omega arith) (sym p.0 ∙ (==_iff z'.dev_state 9).0 up))
        | inr down ↦ rw down (
            ready_loop-failure n (t + 1) z' p.1 (λ k h e.
              never (suc k) (omega arith)
                (ap (λ d. indicated_by arrivals d (t + 1) k) (sym p.0) ∙ e)))
      ]

  -- `start_zdo` while nobody else has a request to the ZDO: take the last state that the processor has indicated,
  -- among the packets for the ZDO that arrive with the answer to the start request and then by one of the 30
  -- tests, or the one from before if it has indicated none. If it is 9, the coordinator's, at one of the tests,
  -- `start_zdo` returns 0; otherwise it returns -1 after the last test.
  pub start_zdo-indicated :
      {Chip : Type 0} (react : React Chip) (l : Link Chip) (dev_state : ℕ)
      → IsFree l 0x25
      → ((k : ℕ)
          → k < 30
          → indicated_by arrivals
              (indicated dev_state (for_zdo (react l.chip startup_message).1))
              0
              k
            ≡ 9
          → (start_zdo react arrivals l dev_state).1 ≡ success)
        × (((k : ℕ)
              → k < 30
              → indicated_by arrivals
                  (indicated dev_state (for_zdo (react l.chip startup_message).1))
                  0
                  k
                ≢ 9)
            → (start_zdo react arrivals l dev_state).1 ≡ failure)
  unfolding start_zdo mt_zdo_startup_from_app_req startup_message state_after_startup open_channel
  start_zdo-indicated react l dev_state free =
      let z : Zdo = record {
        channels = (mt_zdo_startup_from_app_req react l).channels;
        dev_state = state_after_startup react l dev_state;
      } in
      let idle = (mt_request-IsFree react 1 l startup_message free).1 in
      let opened : Zdo = record {
        channels = update l.channels 5 (open_channel 0x40 true false);
        dev_state = dev_state;
      } in
      let begun =
        process_all-IsOther opened (for_zdo (react l.chip startup_message).1) refl
          (for_zdo-Zdo (react l.chip startup_message).1) in
      (
        λ k h e.
            ready_loop-success 30 0 k z idle h (ap (λ d. indicated_by arrivals d 0 k) begun ∙ e),
        λ never.
            ready_loop-failure 30 0 z idle
              (λ k h e. never k h (ap (λ d. indicated_by arrivals d 0 k) (sym begun) ∙ e)),
      )
