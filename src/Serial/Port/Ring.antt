-- ===== src/Serial/Port/Ring.antt =====
-- The ring of `SerialRcv` as the list of its bytes, oldest first.
use kappaio.Common.{
  ℕ, zero, suc, ◌+◌, ◌-◌, ◌≤◌, ◌<◌, ◌≡◌, ◌≢◌, refl, ap, sym, ◌∙◌, List, [], ◌∷◌, ◌++◌, append_assoc,
  append-nil, get_or, set, length, length-set, get_or-set_self, get_or-set_ne, arith, false, leb,
  Bool-cases, inl, inr,
}
use mathlib.Core.Path.{ap₂}
use Prim.Native.Nat.add
use native.Mathlib.Nat.{add-zero}
use kappaio.Serial.Port.{Port, mask, write_at, copy, packet}

-- `n` bytes from index `i` on, round the ring.
unfoldable pub read_ring : List ℕ → ℕ → ℕ → List ℕ
read_ring buf i zero = []
read_ring buf i (suc n) = get_or buf (mask i) 0 ∷ read_ring buf (i + 1) n

unfoldable pub contents : Port → List ℕ
contents p = read_ring p.buf p.head p.len

pub record IsValid (p : Port) : Type 0 where
  pub whole : length p.buf ≡ 512
  pub head_in : p.head < 512
  pub fits : p.len ≤ 512

pub length-read_ring : (buf : List ℕ) (i n : ℕ) → length (read_ring buf i n) ≡ n
unfolding read_ring
length-read_ring buf i zero = refl
length-read_ring buf i (suc n) = ap suc (length-read_ring buf (i + 1) n)

pub read_ring-mask :
    (buf : List ℕ) (i j n : ℕ) → mask i ≡ mask j → read_ring buf i n ≡ read_ring buf j n
unfolding read_ring
read_ring-mask buf i j zero h = refl
read_ring-mask buf i j (suc n) h =
    rw h (ap (◌∷◌ (get_or buf (mask j) 0)) (read_ring-mask buf (i + 1) (j + 1) n (omega arith)))

pub read_ring-append :
    (buf : List ℕ) (i m n : ℕ)
    → read_ring buf i (m + n) ≡ read_ring buf i m ++ read_ring buf (i + m) n
unfolding read_ring
read_ring-append buf i zero n =
    ap (read_ring buf i) (add.zero n) ∙ ap (λ j. read_ring buf j n) (sym (add-zero i))
read_ring-append buf i (suc m) n =
    ap (read_ring buf i) (add.suc m n)
    ∙ ap (◌∷◌ (get_or buf (mask i) 0)) (
        read_ring-append buf (i + 1) m n
        ∙ ap (λ j. read_ring buf (i + 1) m ++ read_ring buf j n) (omega arith))

-- A piece that does not wrap is copied as it stands.
pub copy-read_ring : (buf : List ℕ) (i n : ℕ) → i + n ≤ 512 → copy buf i n ≡ read_ring buf i n
unfolding copy read_ring
copy-read_ring buf i zero h = refl
copy-read_ring buf i (suc n) h =
    let e : mask i ≡ i = omega arith in
    rw e (ap (◌∷◌ (get_or buf i 0)) (copy-read_ring buf (i + 1) n (omega arith)))

-- Both branches of the copy read round the ring.
pub packet-read_ring :
    (buf : List ℕ) (i n : ℕ) → i < 512 → n ≤ 512 → packet buf i n ≡ read_ring buf i n
unfolding packet
packet-read_ring buf i n h k = elim (Bool-cases (leb n (512 - i))) [
  | inl e ↦ rw e (copy-read_ring buf i n (ground arith))
  | inr e ↦ rw e (
      ap₂ ◌++◌ (copy-read_ring buf i (512 - i) (omega arith)) (
        copy-read_ring buf 0 (n - (512 - i)) (omega arith)
        ∙ read_ring-mask buf 0 (i + (512 - i)) (n - (512 - i)) (omega arith))
      ∙ sym (read_ring-append buf i (512 - i) (n - (512 - i)))
      ∙ ap (read_ring buf i) (split e))
]
  where
    split : leb n (512 - i) ≡ false → (512 - i) + (n - (512 - i)) ≡ n
    split e = ground arith

-- A write elsewhere leaves a stretch of the ring alone.
read_ring-set :
    (buf : List ℕ) (i n j v : ℕ)
    → ((k : ℕ) → k < n → mask (i + k) ≢ j)
    → read_ring (set buf j v) i n ≡ read_ring buf i n
unfolding read_ring
read_ring-set buf i zero j v h = refl
read_ring-set buf i (suc n) j v h =
    ap₂ ◌∷◌
      (get_or-set_ne buf j (mask i) v 0 (λ e. h 0 (omega arith) (ap mask (add-zero i) ∙ sym e)))
      (read_ring-set buf (i + 1) n j v
        (λ k lt e. h (suc k) (omega arith) (ap mask (omega arith) ∙ e)))

-- One byte behind the contents: they stay, and the byte follows them.
pub read_ring-push :
    (buf : List ℕ) (i n x : ℕ)
    → length buf ≡ 512
    → n < 512
    → read_ring (set buf (mask (i + n)) x) i (n + 1) ≡ read_ring buf i n ++ (x ∷ [])
unfolding read_ring
read_ring-push buf i n x whole h =
    read_ring-append (set buf (mask (i + n)) x) i n 1
    ∙ ap₂ ◌++◌ (read_ring-set buf i n (mask (i + n)) x (λ k lt e. absurd (omega arith)))
        (ap (λ b. b ∷ []) (get_or-set_self buf (mask (i + n)) x 0 (omega arith)))

pub length-write_at : (buf : List ℕ) (j : ℕ) (xs : List ℕ) → length (write_at buf j xs) ≡ length buf
unfolding write_at
length-write_at buf j [] = refl
length-write_at buf j (x ∷ xs) = length-write_at (set buf j x) (j + 1) xs ∙ length-set buf j x

-- A chunk that ends at or before the end of the buffer, written behind the contents.
pub read_ring-write_at :
    (buf : List ℕ) (i n j : ℕ) (xs : List ℕ)
    → length buf ≡ 512
    → mask j ≡ mask (i + n)
    → j + length xs ≤ 512
    → n + length xs ≤ 512
    → read_ring (write_at buf j xs) i (n + length xs) ≡ read_ring buf i n ++ xs
unfolding write_at
read_ring-write_at buf i n j [] whole at fit room =
    ap (read_ring buf i) (add-zero n) ∙ sym (append-nil (read_ring buf i n))
read_ring-write_at buf i n j (x ∷ xs) whole at fit room =
    ap (read_ring (write_at (set buf j x) (j + 1) xs) i) (omega arith)
    ∙ read_ring-write_at (set buf j x) i (n + 1) (j + 1) xs (length-set buf j x ∙ whole)
        (omega arith) (omega arith) (omega arith)
    ∙ ap (λ l. l ++ xs) (rw e (read_ring-push buf i n x whole (omega arith)))
    ∙ append_assoc (read_ring buf i n) (x ∷ []) xs
  where
    e : j ≡ mask (i + n)
    e = omega arith

-- A chunk leaves what stands before it alone.
pub get_or-write_at_below :
    (buf : List ℕ) (i j d : ℕ) (xs : List ℕ)
    → i < j
    → get_or (write_at buf j xs) i d ≡ get_or buf i d
unfolding write_at
get_or-write_at_below buf i j d [] h = refl
get_or-write_at_below buf i j d (x ∷ xs) h =
    get_or-write_at_below (set buf j x) i (j + 1) d xs (omega arith)
    ∙ get_or-set_ne buf j i x d (λ e. absurd (omega arith))
