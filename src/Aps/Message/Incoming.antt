-- ===== src/Aps/Message/Incoming.antt =====
-- Incoming messages: `mt_afmessage` and `mt_afmessage_EXT` of src/hal/include/mtaf_impl.h, loaded from a packet
-- by `MTAFIncomingMsgProc` and `MTAFIncomingMsgEXTProc` of src/hal/source/mtaf.cpp.
use kappaio.Common.{
  ℕ, zero, suc, ◌+◌, ◌*◌, ◌/◌, ◌<◌, ◌≤◌, ◌≡◌, refl, ap, ap₂, ◌∙◌, List, [], ◌∷◌, get_or, set,
  length, length-set, get_or-set_self, arith,
}
use kappaio.Common.Words.{Bytes, from_le}
use kappaio.Aps.Message.{copy_out, copy_in, proxy_rd, get_field}
use kappaio.Aps.Message.Fields.{below}
use kappaio.Aps.Message.Send.{length-copy_out, get_or-IsByte}

-- `loadStr` of a packet's bytes, which begins behind its length and its command, into the message's
-- uninitialised `data`.
unfoldable pub load_str : List ℕ → List ℕ → List ℕ
load_str memory pkt = copy_in memory 0 (copy_out pkt 3 (get_or pkt 0 0))

-- The fields of `mt_afmessage` with a getter of their own: groupId, clusterId, srcAddr, srcEndpoint, dstEndpoint,
-- linkQuality, timeStamp, tranSeqNum, asduLen. The getter of groupId reads one byte of two.
unfoldable pub offsets_in : List ℕ
offsets_in = 0 ∷ 2 ∷ 4 ∷ 6 ∷ 7 ∷ 9 ∷ 11 ∷ 15 ∷ 16 ∷ []

unfoldable pub widths_in : List ℕ
widths_in = 1 ∷ 2 ∷ 2 ∷ 1 ∷ 1 ∷ 1 ∷ 4 ∷ 1 ∷ 1 ∷ []

-- `asdu`, as far as `asduLen` says.
unfoldable pub asdu_in : List ℕ → List ℕ
asdu_in d = copy_out d 17 (get_field offsets_in widths_in 8 d)

-- Those of `mt_afmessage_EXT`: groupId, clusterId, addrMode, srcAddr, srcEndpoint, srcPanId, dstEndpoint,
-- linkQuality, timeStamp, tranSeqNum, asduLen.
unfoldable pub offsets_ext_in : List ℕ
offsets_ext_in = 0 ∷ 2 ∷ 4 ∷ 5 ∷ 13 ∷ 14 ∷ 16 ∷ 18 ∷ 20 ∷ 24 ∷ 26 ∷ []

unfoldable pub widths_ext_in : List ℕ
widths_ext_in = 1 ∷ 2 ∷ 1 ∷ 8 ∷ 1 ∷ 2 ∷ 1 ∷ 1 ∷ 4 ∷ 1 ∷ 2 ∷ []

unfoldable pub asdu_ext_in : List ℕ → List ℕ
asdu_ext_in d = copy_out d 27 (get_field offsets_ext_in widths_ext_in 10 d)

pub get_or-copy_in :
    (d bs : List ℕ) (off i : ℕ)
    → i < length bs
    → off + length bs ≤ length d
    → get_or (copy_in d off bs) (off + i) 0 ≡ get_or bs i 0
unfolding copy_in
get_or-copy_in d [] off i h room = absurd (omega arith)
get_or-copy_in d (b ∷ bs) off zero h room =
    ap (λ k. get_or (copy_in (set d off b) (off + 1) bs) k 0) start
    ∙ below (set d off b) bs (off + 1) off (omega arith)
    ∙ get_or-set_self d off b 0 (omega arith)
  where
    start : off + 0 ≡ off
    start = omega arith
get_or-copy_in d (b ∷ bs) off (suc i) h room =
    ap (λ k. get_or (copy_in (set d off b) (off + 1) bs) k 0) next
    ∙ get_or-copy_in (set d off b) bs (off + 1) i (omega arith) (omega (arith, length-set d off b))
  where
    next : off + suc i ≡ off + 1 + i
    next = omega arith

pub get_or-copy_out :
    (d : List ℕ) (off n i : ℕ) → i < n → get_or (copy_out d off n) i 0 ≡ get_or d (off + i) 0
unfolding copy_out
get_or-copy_out d off zero i h = absurd (omega arith)
get_or-copy_out d off (suc n) zero h = ap (λ k. get_or d k 0) start
  where
    start : off ≡ off + 0
    start = omega arith
get_or-copy_out d off (suc n) (suc i) h =
    get_or-copy_out d (off + 1) n i (omega arith) ∙ ap (λ k. get_or d k 0) next
  where
    next : off + 1 + i ≡ off + suc i
    next = omega arith

-- A byte of the loaded message is a byte of the packet.
pub byte-load_str :
    (memory pkt : List ℕ) (i : ℕ)
    → get_or pkt 0 0 ≤ length memory
    → i < get_or pkt 0 0
    → get_or (load_str memory pkt) i 0 ≡ get_or pkt (3 + i) 0
unfolding load_str
byte-load_str memory pkt i room h =
    ap (λ k. get_or (copy_in memory 0 bs) k 0) start
    ∙ get_or-copy_in memory bs 0 i (omega (arith, len)) (omega (arith, len))
    ∙ get_or-copy_out pkt 3 (get_or pkt 0 0) i h
  where
    bs : List ℕ
    bs = copy_out pkt 3 (get_or pkt 0 0)

    len : length bs ≡ get_or pkt 0 0
    len = length-copy_out pkt 3 (get_or pkt 0 0)

    start : i ≡ 0 + i
    start = omega arith

copy_out-load_str :
    (memory pkt : List ℕ) (off n : ℕ)
    → get_or pkt 0 0 ≤ length memory
    → off + n ≤ get_or pkt 0 0
    → copy_out (load_str memory pkt) off n ≡ copy_out pkt (3 + off) n
unfolding copy_out
copy_out-load_str memory pkt off zero room h = refl
copy_out-load_str memory pkt off (suc n) room h =
    ap₂ ◌∷◌ (byte-load_str memory pkt off room (omega arith)) (
      copy_out-load_str memory pkt (off + 1) n room (omega arith) ∙ ap (λ k. copy_out pkt k n) next)
  where
    next : 3 + (off + 1) ≡ 3 + off + 1
    next = omega arith

-- A packet whose length byte is at most the size of the message's array, loaded into an `mt_afmessage`: every
-- getter whose field is inside that length reads the packet's bytes, 3 behind the field's offset, and the
-- payload is the packet's bytes from offset 20 on, if all of it is inside.
pub load_str-fields :
    (memory pkt : List ℕ)
    → get_or pkt 0 0 ≤ length memory
    → ((f : ℕ)
        → get_or offsets_in f 0 + get_or widths_in f 0 ≤ get_or pkt 0 0
        → get_field offsets_in widths_in f (load_str memory pkt)
          ≡ proxy_rd pkt (3 + get_or offsets_in f 0) (get_or widths_in f 0))
      × (17 + get_field offsets_in widths_in 8 (load_str memory pkt) ≤ get_or pkt 0 0
          → asdu_in (load_str memory pkt)
            ≡ copy_out pkt 20 (get_field offsets_in widths_in 8 (load_str memory pkt)))
unfolding get_field proxy_rd asdu_in
load_str-fields memory pkt room = (
  (λ f h.
      ap from_le
        (copy_out-load_str memory pkt (get_or offsets_in f 0) (get_or widths_in f 0) room h)),
  (λ h.
      copy_out-load_str memory pkt 17 (get_field offsets_in widths_in 8 (load_str memory pkt)) room
        h),
)

high_byte : (d : List ℕ) → Bytes d → get_or d 27 0 ≡ proxy_rd d 26 2 / 256
unfolding proxy_rd copy_out from_le
high_byte d h = quotient (get_or d 26 0) (get_or d 27 0) (get_or-IsByte d 26 h)
  where
    quotient : (a b : ℕ) → a < 256 → b ≡ (a + 256 * (b + 256 * 0)) / 256
    quotient a b k = omega arith

-- In an `mt_afmessage_EXT` with a payload, the payload begins with the high byte of its own length, since
-- the two bytes of the length reach into it.
pub asdu_ext_in-overlap :
    (d : List ℕ)
    → Bytes d
    → 0 < get_field offsets_ext_in widths_ext_in 10 d
    → get_or (asdu_ext_in d) 0 0 ≡ get_field offsets_ext_in widths_ext_in 10 d / 256
unfolding get_field proxy_rd asdu_ext_in offsets_ext_in widths_ext_in
asdu_ext_in-overlap d h some_bytes =
    get_or-copy_out d 27 (proxy_rd d 26 2) 0 some_bytes ∙ high_byte d h
