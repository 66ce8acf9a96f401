-- ===== src/Zdo.antt =====
-- The ZigBee device object, src/zdo: the frames of its requests, the message that carries one, and the
-- test that an incoming message answers it (source/zdo.cpp and include/zdo.h).
pub mod Apdu
pub mod Descriptors
pub mod Answer
pub mod Archive
pub mod Join
pub mod Recover
pub mod Manage
mod Tests
use kappaio.Common.{
  ℕ, ◌+◌, ◌%◌, Bool, true, false, List, [], ◌∷◌, ◌++◌, length, get_or, ◌==◌, ◌&&◌, ltb,
  if◌then◌else◌, bit_or,
}
use kappaio.Common.Words.{to_le}
use kappaio.Aps.Message.{copy_in, get_field, set_field, offsets, widths}
use kappaio.Aps.Message.Incoming.{offsets_in, widths_in}

-- `cntr()`: the number it gives, and the counter after it.
unfoldable pub cntr : ℕ → ℕ × ℕ
cntr c = (c, (c + 1) % 256)

-- What the frames write from `buf` on; `c` is what `cntr()` gives. `zdpHdr_with_NwkaddrOfInterest`:
unfoldable pub zdp_hdr : ℕ → ℕ → List ℕ
zdp_hdr c nwkaddr = c ∷ to_le 2 nwkaddr

-- `generic_zdp_frm`, which is `node_desc_frm` and `active_ep_frm`.
unfoldable pub generic_zdp_frm : ℕ → ℕ → List ℕ
generic_zdp_frm dst_addr c = zdp_hdr c dst_addr

unfoldable pub simple_desc_frm : ℕ → ℕ → ℕ → List ℕ
simple_desc_frm dst_addr ep_id c = zdp_hdr c dst_addr ++ (ep_id ∷ [])

unfoldable pub mgmt_permit_joining_req_frm : ℕ → ℕ → ℕ → List ℕ
mgmt_permit_joining_req_frm duration significance c = c ∷ duration ∷ significance ∷ []

unfoldable pub mgmt_leave_req_frm : ℕ → ℕ → List ℕ
mgmt_leave_req_frm ieee_addr c = c ∷ (to_le 8 ieee_addr ++ to_le 8 0)

unfoldable pub ieee_addr_req_frm : ℕ → ℕ → ℕ → ℕ → List ℕ
ieee_addr_req_frm nwkaddr request_type start_index c =
    zdp_hdr c nwkaddr ++ (to_le 2 nwkaddr ++ (to_le 1 request_type ++ to_le 1 start_index))

-- `Mgmt_NWK_Update_req_frm`
unfoldable pub when : Bool → List ℕ → List ℕ
when b bytes = if b then bytes else []

unfoldable pub mgmt_nwk_update_req_frm : ℕ → ℕ → ℕ → ℕ → ℕ → ℕ → List ℕ
mgmt_nwk_update_req_frm channels duration count update_id manager c =
    c
    ∷ (to_le 4 channels
        ++ (duration
            ∷ (when (ltb duration 6) (count ∷ [])
                ++ (when (ltb 253 duration) (update_id ∷ [])
                    ++ when (duration == 255) (to_le 2 manager)))))

-- The data of `APDU{nwkaddr, cId}` in memory that was not initialised.
unfoldable pub apdu_header : ℕ → ℕ → List ℕ → List ℕ
apdu_header nwkaddr c_id memory = set_field offsets widths 7 0 (
    set_field offsets widths 6 3 (
      set_field offsets widths 4 0 (
        set_field offsets widths 5 0 (
          set_field offsets widths 2 0 (
            set_field offsets widths 1 0
              (set_field offsets widths 0 nwkaddr (set_field offsets widths 3 c_id memory)))))))

-- The data of `APDU{nwkaddr, cId, zclFrame}`: the frame is written behind the header, and its length is
-- added to the 8 bits of `asduLen`.
unfoldable pub put_frame : List ℕ → List ℕ → List ℕ
put_frame frame d =
    set_field offsets widths 7 ((get_field offsets widths 7 d + length frame) % 256)
      (copy_in d (10 + get_field offsets widths 7 d) frame)

unfoldable pub apdu : ℕ → ℕ → List ℕ → List ℕ → List ℕ
apdu nwkaddr c_id frame memory = put_frame frame (apdu_header nwkaddr c_id memory)

-- `zdpPred` of an outgoing message: its two members, and the test of an incoming one.
unfoldable pub zdp_count : List ℕ → ℕ
zdp_count o = get_or o 10 0

unfoldable pub zdp_cluster : List ℕ → ℕ
zdp_cluster o = bit_or 32768 (get_field offsets widths 3 o) % 65536

unfoldable pub zdp_pred : List ℕ → List ℕ → Bool
zdp_pred o i =
    (get_or i 17 0 == zdp_count o)
    && ((get_field offsets_in widths_in 1 i == zdp_cluster o)
        && (get_field offsets_in widths_in 4 i == 0))
