-- ===== src/Aps/Message/Send.antt =====
-- What is sent of a message is its own data, up to the end of its payload.
use kappaio.Common.{
  ℕ, zero, suc, ◌+◌, ◌%◌, ◌≤◌, ◌≡◌, refl, ap, ap₂, sym, ◌∙◌, List, [], ◌∷◌, ◌++◌, get_or, take,
  drop, length, get_or-drop, arith, take-length_append,
}
use kappaio.Common.Words.{Bytes, IsByte, to_le, from_le, to_le-from_le}
use kappaio.Aps.Message.{
  copy_out, proxy_rd, offsets, widths, offsets_ext, widths_ext, get_field, af_length, af_data,
  af_data_request, ext_length, ext_data, data_request,
}

pub length-copy_out : (d : List ℕ) (off n : ℕ) → length (copy_out d off n) ≡ n
unfolding copy_out
length-copy_out d off zero = refl
length-copy_out d off (suc n) = ap suc (length-copy_out d (off + 1) n)

pub copy_out-drop :
    (m : ℕ) (d : List ℕ) (off n : ℕ) → copy_out (drop m d) off n ≡ copy_out d (m + off) n
unfolding copy_out
copy_out-drop m d off zero = refl
copy_out-drop m d off (suc n) =
    ap₂ ◌∷◌ (get_or-drop m d off 0)
      (copy_out-drop m d (off + 1) n ∙ ap (λ k. copy_out d k n) (omega arith))

pub proxy_rd-drop :
    (m : ℕ) (d : List ℕ) (off w : ℕ) → proxy_rd (drop m d) off w ≡ proxy_rd d (m + off) w
unfolding proxy_rd
proxy_rd-drop m d off w = ap from_le (copy_out-drop m d off w)

pub get_or-IsByte : (d : List ℕ) (i : ℕ) → Bytes d → IsByte (get_or d i 0)
get_or-IsByte [] i h = omega arith
get_or-IsByte (b ∷ d) zero h = h.0
get_or-IsByte (b ∷ d) (suc i) h = get_or-IsByte d i h.1

pub copy_out-Bytes : (d : List ℕ) (off n : ℕ) → Bytes d → Bytes (copy_out d off n)
unfolding copy_out
copy_out-Bytes d off zero h = tt
copy_out-Bytes d off (suc n) h = (get_or-IsByte d off h, copy_out-Bytes d (off + 1) n h)

pub copy_out-add :
    (d : List ℕ) (off m n : ℕ) → copy_out d off (m + n) ≡ copy_out d off m ++ copy_out d (off + m) n
unfolding copy_out
copy_out-add d off zero n = ap₂ (copy_out d) start count
  where
    start : off ≡ off + 0
    start = omega arith

    count : 0 + n ≡ n
    count = omega arith
copy_out-add d off (suc m) n =
    ap (copy_out d off) one
    ∙ ap (λ bs. get_or d off 0 ∷ bs)
        (copy_out-add d (off + 1) m n ∙ ap (λ k. copy_out d (off + 1) m ++ copy_out d k n) place)
  where
    one : suc m + n ≡ suc (m + n)
    one = omega arith

    place : off + 1 + m ≡ off + suc m
    place = omega arith

-- A field that is read and written again, before a copy of what follows it in the data.
front :
    (d : List ℕ) (off w n : ℕ) (rest : List ℕ)
    → Bytes d
    → rest ≡ copy_out d (off + w) n
    → to_le w (proxy_rd d off w) ++ rest ≡ copy_out d off (w + n)
unfolding proxy_rd
front d off w n rest h e =
    ap₂ ◌++◌
      (ap (λ k. to_le k (from_le (copy_out d off w))) (sym (length-copy_out d off w))
        ∙ to_le-from_le (copy_out d off w) (copy_out-Bytes d off w h))
      e
    ∙ sym (copy_out-add d off w n)

af_data-copy : (d : List ℕ) → Bytes d → af_data d ≡ copy_out d 0 (10 + get_field offsets widths 7 d)
unfolding af_data get_field offsets widths
af_data-copy d h =
    front d 0 2 (1 + (1 + (2 + (1 + (1 + (1 + (1 + n))))))) _ h (
      front d 2 1 (1 + (2 + (1 + (1 + (1 + (1 + n)))))) _ h (
        front d 3 1 (2 + (1 + (1 + (1 + (1 + n))))) _ h (
          front d 4 2 (1 + (1 + (1 + (1 + n)))) _ h (
            front d 6 1 (1 + (1 + (1 + n))) _ h
              (front d 7 1 (1 + (1 + n)) _ h (front d 8 1 (1 + n) _ h (front d 9 1 n _ h refl)))))))
    ∙ ap (copy_out d 0) total
  where
    n : ℕ
    n = proxy_rd d 9 1

    total : 2 + (1 + (1 + (2 + (1 + (1 + (1 + (1 + n))))))) ≡ 10 + n
    total = omega arith

ext_data-copy :
    (d : List ℕ) → Bytes d → ext_data d ≡ copy_out d 0 (20 + get_field offsets_ext widths_ext 9 d)
unfolding ext_data get_field offsets_ext widths_ext
ext_data-copy d h =
    front d 0 1 (8 + (1 + (2 + (1 + (2 + (1 + (1 + (1 + (2 + n))))))))) _ h (
      front d 1 8 (1 + (2 + (1 + (2 + (1 + (1 + (1 + (2 + n)))))))) _ h (
        front d 9 1 (2 + (1 + (2 + (1 + (1 + (1 + (2 + n))))))) _ h (
          front d 10 2 (1 + (2 + (1 + (1 + (1 + (2 + n)))))) _ h (
            front d 12 1 (2 + (1 + (1 + (1 + (2 + n))))) _ h (
              front d 13 2 (1 + (1 + (1 + (2 + n)))) _ h (
                front d 15 1 (1 + (1 + (2 + n))) _ h (
                  front d 16 1 (1 + (2 + n)) _ h
                    (front d 17 1 (2 + n) _ h (front d 18 2 n _ h refl)))))))))
    ∙ ap (copy_out d 0) total
  where
    n : ℕ
    n = proxy_rd d 18 2

    total : 1 + (8 + (1 + (2 + (1 + (2 + (1 + (1 + (1 + (2 + n))))))))) ≡ 20 + n
    total = omega arith

-- `MT_AfDataRequest` of a `kr_afmessage` sends the message's own bytes, its header and then as much of
-- its payload as its `asduLen` says, if that is at most 245.
pub af_data_request-copy :
    (old d : List ℕ)
    → Bytes d
    → get_field offsets widths 7 d ≤ 245
    → af_data_request old d ≡ copy_out d 0 (10 + get_field offsets widths 7 d)
unfolding af_data_request af_length
af_data_request-copy old d h small = whole (af_data d) (af_data-copy d h)
  where
    n : ℕ
    n = get_field offsets widths 7 d

    whole :
        (bs : List ℕ)
        → bs ≡ copy_out d 0 (10 + n)
        → take ((2 + 1 + 1 + 2 + 1 + 1 + 1 + n + 1) % 256) (bs ++ drop (length bs) old)
          ≡ copy_out d 0 (10 + n)
    whole bs e =
        ap (λ k. take k (bs ++ drop (length bs) old)) count
        ∙ take-length_append bs (drop (length bs) old)
        ∙ e
      where
        count : (2 + 1 + 1 + 2 + 1 + 1 + 1 + n + 1) % 256 ≡ length bs
        count = omega (arith, ap length e, length-copy_out d 0 (10 + n))

take_more : (bs cs : List ℕ) → take (length bs + 1) (bs ++ cs) ≡ bs ++ take 1 cs
take_more [] cs = refl
take_more (b ∷ bs) cs =
    ap (λ k. take k (b ∷ (bs ++ cs))) suc_out ∙ ap (λ xs. b ∷ xs) (take_more bs cs)
  where
    suc_out : suc (length bs) + 1 ≡ suc (length bs + 1)
    suc_out = omega arith

-- `dataRequest` of a `kr_afmessage_EXT` sends the message's own bytes and then one more byte, which is
-- none of the message's but what the request's memory held before, if the `asduLen` is at most 234.
pub data_request-copy :
    (old d : List ℕ)
    → Bytes d
    → get_field offsets_ext widths_ext 9 d ≤ 234
    → data_request old d
      ≡ copy_out d 0 (20 + get_field offsets_ext widths_ext 9 d)
        ++ take 1 (drop (20 + get_field offsets_ext widths_ext 9 d) old)
unfolding data_request ext_length
data_request-copy old d h small = whole (ext_data d) (ext_data-copy d h)
  where
    n : ℕ
    n = get_field offsets_ext widths_ext 9 d

    whole :
        (bs : List ℕ)
        → bs ≡ copy_out d 0 (20 + n)
        → take ((20 + n + 1) % 256) (bs ++ drop (length bs) old)
          ≡ copy_out d 0 (20 + n) ++ take 1 (drop (20 + n) old)
    whole bs e =
        ap (λ k. take k (bs ++ drop (length bs) old)) count
        ∙ take_more bs (drop (length bs) old)
        ∙ ap₂ (λ xs k. xs ++ take 1 (drop k old)) e size
      where
        size : length bs ≡ 20 + n
        size = ap length e ∙ length-copy_out d 0 (20 + n)

        count : (20 + n + 1) % 256 ≡ length bs + 1
        count = omega (arith, size)
