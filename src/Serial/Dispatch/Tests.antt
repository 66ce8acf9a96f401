-- ===== src/Serial/Dispatch/Tests.antt =====
-- The dispatcher's theorems for the serial boot loader's registration, and two runs.
use kappaio.Common.{ℕ, ◌≡◌, refl, List, [], ◌∷◌, none, some, get_or, if◌then◌else◌, ◌==◌, arith}
use kappaio.Serial.Dispatch.{
  Table, callback, handled, process_incoming, register_subsystem_cb, done, refused,
  mt_process_incoming, call, put_callback, subsystem_of, mt_oob_recv, mt_sys, out_of_band,
}
use kappaio.Serial.Dispatch.Laws.{IsFull, IsPlain, register-process, register-again}

-- A ping's answer, and the answer to a watchdog kick, before any registration.
ping_answer :
    process_incoming mt_process_incoming (2 ∷ 0x61 ∷ 0x01 ∷ 0x59 ∷ 0x00 ∷ 0x3b ∷ [])
    ≡ handled mt_sys
unfolding process_incoming mt_process_incoming call mt_oob_recv
ping_answer = refl

kick_answer : process_incoming mt_process_incoming (1 ∷ 0x61 ∷ 0x44 ∷ 0 ∷ 0x24 ∷ []) ≡ out_of_band
unfolding process_incoming mt_process_incoming call mt_oob_recv
kick_answer = refl

register-process_example :
    (table' : Table) × (register_subsystem_cb mt_process_incoming 13 (callback 0) ≡ done table')
    × IsFull table'
    × ((pkt : List ℕ)
        → IsPlain pkt
        → process_incoming table' pkt ≡ (
            if subsystem_of (get_or pkt 1 0) == 13
            then handled (callback 0)
            else process_incoming mt_process_incoming pkt))
unfolding mt_process_incoming
register-process_example =
    register-process mt_process_incoming 13 (callback 0) refl (omega arith) refl

abbrev with_boot_loader : Table
with_boot_loader =
    none
    ∷ none
    ∷ none
    ∷ none
    ∷ none
    ∷ none
    ∷ none
    ∷ none
    ∷ none
    ∷ none
    ∷ none
    ∷ none
    ∷ none
    ∷ some (callback 0)
    ∷ []

register-again_run : register_subsystem_cb with_boot_loader 13 (callback 1) ≡ refused
unfolding register_subsystem_cb put_callback
register-again_run =
    register-again
      (none ∷ none ∷ none ∷ none ∷ none ∷ none ∷ none ∷ none ∷ none ∷ none ∷ none ∷ none ∷ none
        ∷ none ∷ [])
      with_boot_loader 13 (callback 0) (callback 1) refl
