-- ===== src/Serial/Port/Receive.antt =====
-- What `SerialRcv` does to the contents of the ring.
use kappaio.Common.{
  ℕ, ◌+◌, ◌≤◌, ◌<◌, ◌≡◌, ap, sym, ◌∙◌, List, [], ◌∷◌, ◌++◌, append_assoc, append-nil, get_or, set,
  length, get_or-set_self, arith,
}
use kappaio.Serial.Port.{Port, mask, serial_rcv, read_chunk, write_at}
use kappaio.Serial.Port.Ring.{
  contents, IsValid, length-write_at, read_ring-write_at, length-read_ring, get_or-write_at_below,
}

pub length-contents : (p : Port) → length (contents p) ≡ p.len
unfolding contents
length-contents p = length-read_ring p.buf p.head p.len

-- What the operating system may return for one call of `read`.
pub record Fits (p : Port) (chunk : List ℕ) : Type 0 where
  pub in_line : mask (p.head + p.len) + length chunk ≤ 512
  pub room : p.len + length chunk ≤ 512

pub read_chunk-contents :
    (p : Port) (chunk : List ℕ)
    → IsValid p
    → Fits p chunk
    → contents (read_chunk p chunk) ≡ contents p ++ chunk
unfolding read_chunk contents
read_chunk-contents p chunk v f =
    read_ring-write_at p.buf p.head p.len (mask (p.head + p.len)) chunk v.whole (omega arith)
      f.in_line f.room

pub read_chunk-IsValid :
    (p : Port) (chunk : List ℕ) → IsValid p → Fits p chunk → IsValid (read_chunk p chunk)
unfolding read_chunk
read_chunk-IsValid p chunk v f = record {
  whole = length-write_at p.buf (mask (p.head + p.len)) chunk ∙ v.whole;
  head_in = v.head_in;
  fits = f.room;
}

-- Every chunk fits where it is read, and the last call returns nothing.
abbrev pub Delivers : Port → List (List ℕ) → Type 0
Delivers p [] = ⊥
Delivers p ([] ∷ chunks) = Unit
Delivers p ((x ∷ xs) ∷ chunks) = Fits p (x ∷ xs) × Delivers (read_chunk p (x ∷ xs)) chunks

-- The bytes up to the call of `read` that ends the loop.
unfoldable pub received : List (List ℕ) → List ℕ
received [] = []
received ([] ∷ chunks) = []
received ((x ∷ xs) ∷ chunks) = (x ∷ xs) ++ received chunks

-- While there is room, `SerialRcv` puts what it reads behind the contents of the ring, in order,
-- wherever the ring wraps.
pub serial_rcv-contents :
    (p : Port) (chunks : List (List ℕ))
    → IsValid p
    → Delivers p chunks
    → contents (serial_rcv p chunks) ≡ contents p ++ received chunks
unfolding serial_rcv received
serial_rcv-contents p [] v d = absurd d
serial_rcv-contents p ([] ∷ chunks) v d = sym (append-nil (contents p))
serial_rcv-contents p ((x ∷ xs) ∷ chunks) v d =
    serial_rcv-contents (read_chunk p (x ∷ xs)) chunks (read_chunk-IsValid p (x ∷ xs) v d.0) d.1
    ∙ ap (λ l. l ++ received chunks) (read_chunk-contents p (x ∷ xs) v d.0)
    ∙ append_assoc (contents p) (x ∷ xs) (received chunks)

pub serial_rcv-IsValid :
    (p : Port) (chunks : List (List ℕ))
    → IsValid p
    → Delivers p chunks
    → IsValid (serial_rcv p chunks)
unfolding serial_rcv
serial_rcv-IsValid p [] v d = absurd d
serial_rcv-IsValid p ([] ∷ chunks) v d = v
serial_rcv-IsValid p ((x ∷ xs) ∷ chunks) v d =
    serial_rcv-IsValid (read_chunk p (x ∷ xs)) chunks (read_chunk-IsValid p (x ∷ xs) v d.0) d.1

rotated : {i : ℕ} → i < 512 → mask (i + 512) ≡ i
rotated h = omega arith

-- The loop does not compare the length with the size of the ring: one more call of `read` on a
-- full ring writes over the oldest byte, and the length counts more bytes than the ring has.
pub read_chunk_overflow :
    (p : Port) (x : ℕ) (xs : List ℕ)
    → IsValid p
    → p.len ≡ 512
    → mask (p.head + p.len) + length (x ∷ xs) ≤ 512
    → (512 < (read_chunk p (x ∷ xs)).len)
      × (get_or (read_chunk p (x ∷ xs)).buf (read_chunk p (x ∷ xs)).head 0 ≡ x)
unfolding read_chunk write_at
read_chunk_overflow p x xs v full h = (omega arith, oldest)
  where
    at : mask (p.head + p.len) ≡ p.head
    at = rw full (rotated v.head_in)

    oldest :
        get_or
          (write_at (set p.buf (mask (p.head + p.len)) x) (mask (p.head + p.len) + 1) xs)
          p.head
          0
        ≡ x
    oldest = rw at (
        get_or-write_at_below (set p.buf p.head x) p.head (p.head + 1) 0 xs (omega arith)
        ∙ get_or-set_self p.buf p.head x 0 (rw v.whole v.head_in))
