-- ===== src/Zdo/Apdu.antt =====
-- What is sent of a request, and which messages answer it.
use kappaio.Common.{
  ℕ, zero, suc, ◌+◌, ◌/◌, ◌%◌, ◌≤◌, ◌<◌, ◌≡◌, refl, sym, ap, ap₂, subst, ◌∙◌, List, [], ◌∷◌, ◌++◌,
  length, get_or, get_or-append_right, set, ◌==◌, ==_iff, ◌&&◌, bit_or, arith,
}
use Prim.Native.Nat.add
use kappaio.Common.Words.{Bytes, IsByte, All-append, to_le, from_le}
use kappaio.Common.Finite.{for_all_holds}
use kappaio.Aps.Message.{
  copy_in, copy_out, proxy_rd, host_int_to_ansi, get_field, set_field, offsets, widths,
  af_data_request,
}
use kappaio.Aps.Message.Fields.{copy_out-copy_in}
use kappaio.Aps.Message.Send.{copy_out-add, af_data_request-copy}
use kappaio.Aps.Message.Incoming.{offsets_in, widths_in, get_or-copy_in}
use kappaio.Zdo.{apdu, apdu_header, put_frame, zdp_pred, zdp_count, zdp_cluster}

set-append : (hs d : List ℕ) (off b : ℕ) → set (hs ++ d) (length hs + off) b ≡ hs ++ set d off b
set-append [] d off b = ap (λ k. set d k b) (omega arith)
set-append (x ∷ hs) d off b =
    ap (λ k. set (x ∷ (hs ++ d)) k b) (add.suc (length hs) off)
    ∙ ap (λ xs. x ∷ xs) (set-append hs d off b)

copy_in-append :
    (hs d bs : List ℕ) (off : ℕ) → copy_in (hs ++ d) (length hs + off) bs ≡ hs ++ copy_in d off bs
unfolding copy_in
copy_in-append hs d [] off = refl
copy_in-append hs d (b ∷ bs) off =
    ap₂ (λ xs k. copy_in xs k bs) (set-append hs d off b) (omega arith)
    ∙ copy_in-append hs (set d off b) bs (off + 1)

-- The header, with a length.
abbrev header : ℕ → ℕ → ℕ → List ℕ
header nwkaddr c_id len =
    nwkaddr % 256
    ∷ nwkaddr / 256 % 256
    ∷ 0
    ∷ 0
    ∷ c_id % 256
    ∷ c_id / 256 % 256
    ∷ 0
    ∷ 0
    ∷ 3
    ∷ len
    ∷ []

header-written :
    (nwkaddr c_id : ℕ) (memory : List ℕ)
    → 10 ≤ length memory
    → (rest : List ℕ) × (apdu_header nwkaddr c_id memory ≡ header nwkaddr c_id 0 ++ rest)
      × (length memory ≡ 10 + length rest)
      × (Bytes memory → Bytes rest)
unfolding apdu_header set_field host_int_to_ansi offsets widths copy_in to_le
header-written nwkaddr c_id (a ∷ b ∷ c ∷ d ∷ e ∷ f ∷ g ∷ h ∷ i ∷ j ∷ rest) room =
    (rest, refl, omega arith, λ bytes. bytes.1.1.1.1.1.1.1.1.1.1)
header-written nwkaddr c_id _ room = absurd (omega arith)

put_frame-empty :
    (frame d : List ℕ)
    → get_field offsets widths 7 d ≡ 0
    → put_frame frame d ≡ set_field offsets widths 7 (length frame % 256) (copy_in d 10 frame)
unfolding put_frame
put_frame-empty frame d empty =
    ap₂ (λ n k. set_field offsets widths 7 n (copy_in d k frame)) (omega (arith, empty))
      (omega (arith, empty))

frame-written :
    (nwkaddr c_id : ℕ) (rest frame : List ℕ)
    → length frame < 256
    → put_frame frame (header nwkaddr c_id 0 ++ rest)
      ≡ header nwkaddr c_id (length frame) ++ copy_in rest 0 frame
unfolding get_field set_field proxy_rd host_int_to_ansi offsets widths copy_out to_le from_le
    copy_in
frame-written nwkaddr c_id rest frame small =
    put_frame-empty frame (header nwkaddr c_id 0 ++ rest) refl
    ∙ ap (λ d. set d 9 (length frame % 256 % 256))
        (copy_in-append (header nwkaddr c_id 0) rest frame 0)
    ∙ ap (λ n. header nwkaddr c_id n ++ copy_in rest 0 frame) (omega arith)

copy_in-Bytes : (d bs : List ℕ) (off : ℕ) → Bytes d → Bytes bs → Bytes (copy_in d off bs)
unfolding copy_in
copy_in-Bytes d [] off h k = h
copy_in-Bytes d (b ∷ bs) off h k = copy_in-Bytes (set d off b) bs (off + 1) (stored d off h) k.1
  where
    stored : (d : List ℕ) (off : ℕ) → Bytes d → Bytes (set d off b)
    stored [] off h = h
    stored (x ∷ d) zero h = (k.0, h.1)
    stored (x ∷ d) (suc off) h = (h.0, stored d off h.1)

header-Bytes : (nwkaddr c_id len : ℕ) → len < 256 → Bytes (header nwkaddr c_id len)
header-Bytes nwkaddr c_id len h = omega arith

copy_out-append :
    (hs d : List ℕ) (off n : ℕ) → copy_out (hs ++ d) (length hs + off) n ≡ copy_out d off n
unfolding copy_out
copy_out-append hs d off zero = refl
copy_out-append hs d off (suc n) =
    ap₂ ◌∷◌ (get_or-append_right hs d off 0)
      (ap (λ k. copy_out (hs ++ d) k n) (omega arith) ∙ copy_out-append hs d (off + 1) n)

-- The header, the length of the frame and the frame.
abbrev pub datagram : ℕ → ℕ → List ℕ → List ℕ
datagram nwkaddr c_id frame = header nwkaddr c_id (length frame) ++ frame

module _ (nwkaddr c_id : ℕ) (frame memory : List ℕ) (room : length memory ≡ 255)
    (fits : length frame ≤ 245) where
  -- The rest of the memory behind the header.
  behind : List ℕ
  behind = (header-written nwkaddr c_id memory (omega (arith, room))).0

  behind-room : length memory ≡ 10 + length behind
  unfolding behind
  behind-room = (header-written nwkaddr c_id memory (omega (arith, room))).2

  shape :
      apdu nwkaddr c_id frame memory ≡ header nwkaddr c_id (length frame) ++ copy_in behind 0 frame
  unfolding apdu behind
  shape =
      ap (put_frame frame) (header-written nwkaddr c_id memory (omega (arith, room))).1
      ∙ frame-written nwkaddr c_id behind frame (omega (arith, fits))

  shape-Bytes : Bytes memory → Bytes frame → Bytes (apdu nwkaddr c_id frame memory)
  unfolding behind
  shape-Bytes memory_bytes frame_bytes = subst Bytes (sym shape) (
      All-append IsByte (header nwkaddr c_id (length frame)) (copy_in behind 0 frame)
        (header-Bytes nwkaddr c_id (length frame) (omega (arith, fits)))
        (copy_in-Bytes behind frame 0
          ((header-written nwkaddr c_id memory (omega (arith, room))).3 memory_bytes) frame_bytes))

  shape-length : get_field offsets widths 7 (apdu nwkaddr c_id frame memory) ≡ length frame
  unfolding get_field proxy_rd offsets widths copy_out from_le
  shape-length = ap (get_field offsets widths 7) shape ∙ omega arith

  -- A request of the ZDO to a device, with a frame of at most 245 bytes: what `MT_AfDataRequest` sends is the
  -- datagram of its address, endpoint 0 on both sides, its cluster, no transaction number and no options, a
  -- radius of 3, the frame's length and the frame, whatever the memory of the message and of the request held.
  pub apdu-sent :
      (old : List ℕ)
      → Bytes memory
      → Bytes frame
      → af_data_request old (apdu nwkaddr c_id frame memory) ≡ datagram nwkaddr c_id frame
  unfolding behind copy_out
  apdu-sent old memory_bytes frame_bytes =
      af_data_request-copy old (apdu nwkaddr c_id frame memory)
        (shape-Bytes memory_bytes frame_bytes) (omega (arith, shape-length, fits))
      ∙ ap₂ (λ d n. copy_out d 0 (10 + n)) shape shape-length
      ∙ copy_out-add (header nwkaddr c_id (length frame) ++ copy_in behind 0 frame) 0 10
          (length frame)
      ∙ ap (λ bs. header nwkaddr c_id (length frame) ++ bs)
          (copy_out-append (header nwkaddr c_id (length frame)) (copy_in behind 0 frame) 0
              (length frame)
            ∙ copy_out-copy_in behind frame 0 (omega (arith, behind-room, fits, room)))

-- The bit of a response is added to a cluster below 256.
response_bit : (c_id : ℕ) → c_id < 256 → bit_or 32768 c_id % 65536 ≡ 32768 + c_id
response_bit c_id small =
    (==_iff (bit_or 32768 c_id % 65536) (32768 + c_id)).0
      (for_all_holds 256 c_id (λ k. bit_or 32768 k % 65536 == 32768 + k) refl small)

header-cluster :
    (nwkaddr c_id len : ℕ) (rest : List ℕ)
    → c_id < 256
    → get_field offsets widths 3 (header nwkaddr c_id len ++ rest) ≡ c_id
unfolding get_field proxy_rd offsets widths copy_out from_le
header-cluster nwkaddr c_id len rest small = omega arith

-- A message answers a request of the ZDO, with a cluster below 256 and a frame that begins with the request's
-- number, if and only if its payload begins with that number, its cluster is the request's with the bit
-- 0x8000, and it is for endpoint 0.
pub zdp_pred-apdu :
    (nwkaddr c_id c : ℕ) (frame memory i : List ℕ)
    → length memory ≡ 255
    → c_id < 256
    → length (c ∷ frame) ≤ 245
    → zdp_pred (apdu nwkaddr c_id (c ∷ frame) memory) i ≡ (
        (get_or i 17 0 == c)
        && ((get_field offsets_in widths_in 1 i == 32768 + c_id)
            && (get_field offsets_in widths_in 4 i == 0)))
unfolding zdp_pred zdp_count zdp_cluster
zdp_pred-apdu nwkaddr c_id c frame memory i room small fits =
    ap₂
      (λ k l.
        (get_or i 17 0 == k)
        && ((get_field offsets_in widths_in 1 i == l) && (get_field offsets_in widths_in 4 i == 0)))
      count cluster
  where
    rest : List ℕ
    rest = behind nwkaddr c_id (c ∷ frame) memory room fits

    data_is :
        apdu nwkaddr c_id (c ∷ frame) memory
        ≡ header nwkaddr c_id (length (c ∷ frame)) ++ copy_in rest 0 (c ∷ frame)
    data_is = shape nwkaddr c_id (c ∷ frame) memory room fits

    count : get_or (apdu nwkaddr c_id (c ∷ frame) memory) 10 0 ≡ c
    count =
        ap (λ d. get_or d 10 0) data_is
        ∙ get_or-copy_in rest (c ∷ frame) 0 0 (omega arith)
            (omega (arith, behind-room nwkaddr c_id (c ∷ frame) memory room fits, fits, room))

    field :
        get_field offsets widths 3
          (header nwkaddr c_id (length (c ∷ frame)) ++ copy_in rest 0 (c ∷ frame))
        ≡ c_id
    field = header-cluster nwkaddr c_id (length (c ∷ frame)) (copy_in rest 0 (c ∷ frame)) small

    cluster :
        bit_or 32768 (get_field offsets widths 3 (apdu nwkaddr c_id (c ∷ frame) memory)) % 65536
        ≡ 32768 + c_id
    cluster =
        ap (λ k. bit_or 32768 k % 65536) (ap (get_field offsets widths 3) data_is ∙ field)
        ∙ response_bit c_id small
