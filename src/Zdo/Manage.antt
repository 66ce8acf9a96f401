-- ===== src/Zdo/Manage.antt =====
-- The network requests of the interface: permission to join and the removal of a device, `Mgmt_Permit_Joining_req`
-- and `Mgmt_Leave_req` of src/zdo/source/zdo.cpp. The JSON of the calls is left out.
mod Tests
use kappaio.Common.{
  ℕ, ◌%◌, ◌≤◌, ◌≡◌, refl, ap, sym, subst, Bool, true, false, ◌&&◌, List, [], ◌∷◌, ◌++◌, Option,
  none, some, get_or, length, length-append, replicate, ◌==◌, if◌then◌else◌, Bool-cases, inl, inr,
  arith,
}
use kappaio.Common.Words.{to_le, length-to_le}
use kappaio.Aps.Message.{get_field}
use kappaio.Aps.Message.Incoming.{offsets_in, widths_in}
use kappaio.Aps.Model.{Device, Endpoint, leave}
use kappaio.Aps.Model.Find.{lookup, update, lookup-remove_if}
use kappaio.Aps.Model.Assocs.{by_id, by_ieee, leaving, leave-lookup}
use kappaio.Aps.Peer.{Library}
use kappaio.Zdo.Apdu.{zdp_pred-apdu}
use kappaio.Zdo.{apdu, zdp_pred, cntr, mgmt_permit_joining_req_frm, mgmt_leave_req_frm}
use kappaio.Zdo.Archive.{SavedDevice, remove_dev}
use kappaio.Zdo.Archive.Laws.{by_address}
use kappaio.Zdo.Join.{State, answer, send, counted, zdo_callback}
use kappaio.Zdo.Join.Incoming.{IsQuiet}

-- The status that a callback writes; `none` if it is not called.
unfoldable pub status_of : Option (List ℕ) → Option ℕ
status_of none = none
status_of (some x) = some (get_or x 18 0)

answer-same :
    (p q : List ℕ → Bool)
    → ((i : List ℕ) → p i ≡ q i)
    → (msgs : List (List ℕ)) → answer p msgs ≡ answer q msgs
unfolding answer
answer-same p q h [] = refl
answer-same p q h (x ∷ xs) = rw (h x, answer-same p q h xs) refl

fits : (ieee : ℕ) → length (0 ∷ (to_le 8 ieee ++ replicate 8 0)) ≤ 245
fits ieee = omega (arith, length-append (to_le 8 ieee) (replicate 8 0), length-to_le 8 ieee)

-- What a leave request leaves of the associated devices and of the archive.
abbrev pub Forgotten : ℕ → State → State → Type 0
Forgotten ieee s s' =
    ((k : ℕ)
      → lookup by_id k s'.assocs
        ≡ update (leaving ieee (lookup by_ieee ieee s.assocs)) none (λ k. lookup by_id k s.assocs)
            k)
    × ((k : ℕ)
        → lookup by_address k s'.archive ≡ update ieee none (λ k. lookup by_address k s.archive) k)

-- The messages of a wait that come before the answer: the predicate refuses them.
unfoldable pub refused : (List ℕ → Bool) → List (List ℕ) → List (List ℕ)
refused pred [] = []
refused pred (x ∷ xs) = let rest = refused pred xs in if pred x then [] else x ∷ rest

module _ {Name : Type 0} (lib : Library Name) (locals : List Endpoint) (memory : List ℕ)
    (air : List ℕ → List (List ℕ)) where
  -- What `zdo_callback` makes of messages.
  unfoldable pub hear : List (List ℕ) → State → State
  hear [] s = s
  hear (x ∷ xs) s = hear xs (zdo_callback lib locals memory air x s)

  -- `APDU{0, cId, frame}.send` of a handler, in a state: the other messages that arrive before the answer reach
  -- `zdo_callback`.
  unfoldable pub send_in : ℕ → List ℕ → State → State × Option ℕ
  send_in c_id frame s =
      let m = apdu 0 c_id frame memory in
      (hear (refused (zdp_pred m) (air m)) s, status_of (send memory air 0 c_id frame))

  unfoldable pub mgmt_permit_joining_req : ℕ → ℕ → State → State × Option ℕ
  mgmt_permit_joining_req duration significance s =
      send_in 0x36 (mgmt_permit_joining_req_frm duration significance (cntr s.counter).0)
        (counted s)

  -- The handler of `Mgmt_Leave_req`.
  unfoldable pub mgmt_leave_req : ℕ → State → State × Option ℕ
  mgmt_leave_req ieee s =
      send_in 0x34 (mgmt_leave_req_frm ieee (cntr s.counter).0)
        (record (counted s) { assocs = leave ieee s.assocs; archive = remove_dev ieee s.archive })

  hear-quiet : (msgs : List (List ℕ)) (s : State) → IsQuiet msgs → hear msgs s ≡ s
  unfolding hear zdo_callback
  hear-quiet [] s h = refl
  hear-quiet (x ∷ xs) s h = rw h.0 (hear-quiet xs s h.1)

  refused-IsQuiet :
      (pred : List ℕ → Bool) (msgs : List (List ℕ)) → IsQuiet msgs → IsQuiet (refused pred msgs)
  unfolding refused
  refused-IsQuiet pred [] h = tt
  refused-IsQuiet pred (x ∷ xs) h = elim (Bool-cases (pred x)) [
    | inl hit ↦ rw hit tt
    | inr miss ↦ rw miss (h.0, refused-IsQuiet pred xs h.1)
  ]

  -- The bytes of a leave request: its number, the IEEE address, and eight bytes that are 0.
  abbrev pub leave_frame : ℕ → ℕ → List ℕ
  leave_frame number ieee = number ∷ (to_le 8 ieee ++ replicate 8 0)

  -- The answer to a leave request with this number: the number first in its payload, cluster 0x8034, endpoint 0.
  abbrev pub is_leave_answer : ℕ → List ℕ → Bool
  is_leave_answer number i =
      (get_or i 17 0 == number)
      && ((get_field offsets_in widths_in 1 i == 0x8034)
          && (get_field offsets_in widths_in 4 i == 0))

  -- A leave request for an IEEE address, while no announcement arrives: no device is found under the short address of
  -- the first device with this IEEE address, or under the low 16 bits of the IEEE address if no device has it;
  -- under every other short address the same device is found as before; the archive has no entry of the
  -- IEEE address, and its other entries are as before. The request goes out with cluster 0x34, its number,
  -- the IEEE address and eight bytes of 0, and the status is the second byte of the first payload that
  -- arrives with this number and cluster 0x8034 for endpoint 0.
  pub mgmt_leave_req-Forgotten :
      (ieee : ℕ) (s : State)
      → length memory ≡ 255
      → ((request : List ℕ) → IsQuiet (air request))
      → Forgotten ieee s (mgmt_leave_req ieee s).0
        × ((mgmt_leave_req ieee s).1
            ≡ status_of (
                answer
                  (is_leave_answer s.counter)
                  (air (apdu 0 0x34 (leave_frame s.counter ieee) memory))))
  unfolding mgmt_leave_req send_in send mgmt_leave_req_frm cntr remove_dev to_le
  mgmt_leave_req-Forgotten ieee s room quiet =
      let m = apdu 0 0x34 (leave_frame s.counter ieee) memory in
      let kept : State = record (counted s) {
        assocs = leave ieee s.assocs;
        archive = remove_dev ieee s.archive;
      } in
      let heard =
        hear-quiet (refused (zdp_pred m) (air m)) kept
          (refused-IsQuiet (zdp_pred m) (air m) (quiet m)) in
      (
        subst (Forgotten ieee s) (sym heard) (
          (λ k. leave-lookup ieee s.assocs k),
          (λ k. lookup-remove_if by_address ieee k s.archive),
        ),
        ap status_of (
            answer-same (zdp_pred m) (is_leave_answer s.counter)
              (λ i.
                zdp_pred-apdu 0 0x34 s.counter (to_le 8 ieee ++ replicate 8 0) memory i room
                  (omega arith) (fits ieee))
              (air m)),
      )
