-- ===== src/Aps/Message.antt =====
-- Outgoing data messages: `kr_afmessage` and `kr_afmessage_EXT` of src/aps (aps_afmessage_impl), and the
-- bytes that `MT_AfDataRequest` and `dataRequest` of src/hal/source/mtaf.cpp make of them.
pub mod Fields
pub mod Send
pub mod Incoming
mod Tests
use kappaio.Common.{ℕ, zero, suc, ◌+◌, ◌%◌, List, [], ◌∷◌, ◌++◌, get_or, set, take, drop, length}
use kappaio.Common.Words.{to_le, from_le}

-- `memcpy` out of an array, and into it.
unfoldable pub copy_out : List ℕ → ℕ → ℕ → List ℕ
copy_out d off zero = []
copy_out d off (suc n) = get_or d off 0 ∷ copy_out d (off + 1) n

unfoldable pub copy_in : List ℕ → ℕ → List ℕ → List ℕ
copy_in d off [] = d
copy_in d off (b ∷ bs) = copy_in (set d off b) (off + 1) bs

-- `proxyRd<T>(data + off)` and `hostIntToANSI(data + off, v)` for a `T` of `w` bytes.
unfoldable pub proxy_rd : List ℕ → ℕ → ℕ → ℕ
proxy_rd d off w = from_le (copy_out d off w)

unfoldable pub host_int_to_ansi : List ℕ → ℕ → ℕ → ℕ → List ℕ
host_int_to_ansi d off w v = copy_in d off (to_le w v)

-- The offsets and widths of the fields of `kr_afmessage`, in this order: dstAddr, dstEndpoint,
-- srcEndpoint, clusterId, tranSeqNum, options, radius, asduLen.
unfoldable pub offsets : List ℕ
offsets = 0 ∷ 2 ∷ 3 ∷ 4 ∷ 6 ∷ 7 ∷ 8 ∷ 9 ∷ []

unfoldable pub widths : List ℕ
widths = 2 ∷ 1 ∷ 1 ∷ 2 ∷ 1 ∷ 1 ∷ 1 ∷ 1 ∷ []

-- Those of `kr_afmessage_EXT`: addrMode, dstAddr, dstEndpoint, dstPanId, srcEndpoint, clusterId,
-- tranSeqNum, options, radius, asduLen.
unfoldable pub offsets_ext : List ℕ
offsets_ext = 0 ∷ 1 ∷ 9 ∷ 10 ∷ 12 ∷ 13 ∷ 15 ∷ 16 ∷ 17 ∷ 18 ∷ []

unfoldable pub widths_ext : List ℕ
widths_ext = 1 ∷ 8 ∷ 1 ∷ 2 ∷ 1 ∷ 2 ∷ 1 ∷ 1 ∷ 1 ∷ 2 ∷ []

-- The getter and the setter of the field with this number.
unfoldable pub get_field : List ℕ → List ℕ → ℕ → List ℕ → ℕ
get_field os ws f d = proxy_rd d (get_or os f 0) (get_or ws f 0)

unfoldable pub set_field : List ℕ → List ℕ → ℕ → ℕ → List ℕ → List ℕ
set_field os ws f v d = host_int_to_ansi d (get_or os f 0) (get_or ws f 0) v

-- `MT_AfDataRequest` of a `kr_afmessage` with this data: `dataLength`, an 8-bit number, and what is
-- written to `pData`.
unfoldable pub af_length : List ℕ → ℕ
af_length d = (2 + 1 + 1 + 2 + 1 + 1 + 1 + get_field offsets widths 7 d + 1) % 256

unfoldable pub af_data : List ℕ → List ℕ
af_data d =
    to_le 2 (get_field offsets widths 0 d)
    ++ (to_le 1 (get_field offsets widths 1 d)
        ++ (to_le 1 (get_field offsets widths 2 d)
            ++ (to_le 2 (get_field offsets widths 3 d)
                ++ (to_le 1 (get_field offsets widths 4 d)
                    ++ (to_le 1 (get_field offsets widths 5 d)
                        ++ (to_le 1 (get_field offsets widths 6 d)
                            ++ (to_le 1 (get_field offsets widths 7 d)
                                ++ copy_out d 10 (get_field offsets widths 7 d))))))))

-- The bytes that are sent, the first `dataLength` ones of `pData`, which held `old` before.
unfoldable pub af_data_request : List ℕ → List ℕ → List ℕ
af_data_request old d = take (af_length d) (af_data d ++ drop (length (af_data d)) old)

-- `dataRequest` of a `kr_afmessage_EXT`, in the same way.
unfoldable pub ext_length : List ℕ → ℕ
ext_length d = (20 + get_field offsets_ext widths_ext 9 d + 1) % 256

unfoldable pub ext_data : List ℕ → List ℕ
ext_data d =
    to_le 1 (get_field offsets_ext widths_ext 0 d)
    ++ (to_le 8 (get_field offsets_ext widths_ext 1 d)
        ++ (to_le 1 (get_field offsets_ext widths_ext 2 d)
            ++ (to_le 2 (get_field offsets_ext widths_ext 3 d)
                ++ (to_le 1 (get_field offsets_ext widths_ext 4 d)
                    ++ (to_le 2 (get_field offsets_ext widths_ext 5 d)
                        ++ (to_le 1 (get_field offsets_ext widths_ext 6 d)
                            ++ (to_le 1 (get_field offsets_ext widths_ext 7 d)
                                ++ (to_le 1 (get_field offsets_ext widths_ext 8 d)
                                    ++ (to_le 2 (get_field offsets_ext widths_ext 9 d)
                                        ++ copy_out d 20
                                            (get_field offsets_ext widths_ext 9 d))))))))))

unfoldable pub data_request : List ℕ → List ℕ → List ℕ
data_request old d = take (ext_length d) (ext_data d ++ drop (length (ext_data d)) old)
