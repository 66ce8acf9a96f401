-- ===== src/Aps/Message/Fields.antt =====
-- The fields of a message are independent: a setter changes its own field only.
use kappaio.Common.{
  ℕ, zero, suc, ◌+◌, ◌*◌, ◌/◌, ◌%◌, ◌^◌, ◌<◌, ◌≤◌, ◌≡◌, ◌≢◌, ◌⊎◌, inl, inr, refl, ap, ap₂, sym, ◌∙◌,
  subst, Bool, true, List, [], ◌∷◌, get_or, set, length, length-set, get_or-set_self, get_or-set_ne,
  arith, leb, ◌==◌, ◌||◌,
}
use native.Mathlib.Nat.{pow-suc}
use kappaio.Common.Finite.{for_all, for_all_holds}
use kappaio.Common.Words.{to_le, from_le, length-to_le}
use kappaio.Aps.Message.{
  copy_out, copy_in, proxy_rd, host_int_to_ansi, offsets, widths, offsets_ext, widths_ext,
  get_field, set_field,
}

pub below : (d bs : List ℕ) (off j : ℕ) → j < off → get_or (copy_in d off bs) j 0 ≡ get_or d j 0
unfolding copy_in
below d [] off j h = refl
below d (b ∷ bs) off j h =
    below (set d off b) bs (off + 1) j (omega arith) ∙ get_or-set_ne d off j b 0 (λ e. omega arith)

above :
    (d bs : List ℕ) (off j : ℕ) → off + length bs ≤ j → get_or (copy_in d off bs) j 0 ≡ get_or d j 0
unfolding copy_in
above d [] off j h = refl
above d (b ∷ bs) off j h =
    above (set d off b) bs (off + 1) j (omega arith) ∙ get_or-set_ne d off j b 0 (λ e. omega arith)

pub copy_out-copy_in :
    (d bs : List ℕ) (off : ℕ)
    → off + length bs ≤ length d
    → copy_out (copy_in d off bs) off (length bs) ≡ bs
unfolding copy_out copy_in
copy_out-copy_in d [] off h = refl
copy_out-copy_in d (b ∷ bs) off h =
    ap₂ ◌∷◌
      (below (set d off b) bs (off + 1) off (omega arith) ∙ get_or-set_self d off b 0 (omega arith))
      (copy_out-copy_in (set d off b) bs (off + 1) (omega (arith, length-set d off b)))

copy_out-elsewhere :
    (d bs : List ℕ) (off at n : ℕ)
    → (at + n ≤ off) ⊎ (off + length bs ≤ at)
    → copy_out (copy_in d off bs) at n ≡ copy_out d at n
unfolding copy_out
copy_out-elsewhere d bs off at zero h = refl
copy_out-elsewhere d bs off at (suc n) (inl h) =
    ap₂ ◌∷◌ (below d bs off at (omega arith))
      (copy_out-elsewhere d bs off (at + 1) n (inl (omega arith)))
copy_out-elsewhere d bs off at (suc n) (inr h) =
    ap₂ ◌∷◌ (above d bs off at (omega arith))
      (copy_out-elsewhere d bs off (at + 1) n (inr (omega arith)))

-- What `w` bytes keep of a number.
pub from_le-to_le : (w v : ℕ) → v < 256 ^ w → from_le (to_le w v) ≡ v
unfolding from_le to_le
from_le-to_le zero v h = omega (arith, bound)
  where
    bound : v < 1
    bound = h
from_le-to_le (suc w) v h =
    ap (λ high. v % 256 + 256 * high) (from_le-to_le w (v / 256) (quotient v (256 ^ w) product))
    ∙ omega arith
  where
    product : v < 256 ^ w * 256
    product = subst (λ p. v < p) (pow-suc 256 w) h

    quotient : (a p : ℕ) → a < p * 256 → a / 256 < p
    quotient a p k = omega arith

-- The first `n` fields of a layout fit into the data, and no two of them overlap.
abbrev apart : List ℕ → List ℕ → ℕ → ℕ → Bool
apart os ws f g =
    (f == g)
    || (leb (get_or os g 0 + get_or ws g 0) (get_or os f 0)
        || leb (get_or os f 0 + get_or ws f 0) (get_or os g 0))

abbrev IsLayout : List ℕ → List ℕ → ℕ → Type 0
IsLayout os ws n =
    (for_all n (λ f. leb (get_or os f 0 + get_or ws f 0) 255) ≡ true)
    × (for_all n (λ f. for_all n (λ g. apart os ws f g)) ≡ true)

module _ (os ws : List ℕ) (n : ℕ) (layout : IsLayout os ws n) where
  inside : (f : ℕ) → f < n → get_or os f 0 + get_or ws f 0 ≤ 255
  inside f h = within (for_all_holds n f (λ k. leb (get_or os k 0 + get_or ws k 0) 255) layout.0 h)
    where
      within : leb (get_or os f 0 + get_or ws f 0) 255 ≡ true → get_or os f 0 + get_or ws f 0 ≤ 255
      within e = ground arith

  separate :
      (f g : ℕ)
      → f < n
      → g < n
      → g ≢ f
      → (get_or os g 0 + get_or ws g 0 ≤ get_or os f 0)
        ⊎ (get_or os f 0 + get_or ws f 0 ≤ get_or os g 0)
  separate f g hf hg ne = sides (
      for_all_holds n g (λ k. apart os ws f k)
        (for_all_holds n f (λ k. for_all n (λ l. apart os ws k l)) layout.1 hf) hg)
    where
      sides :
          apart os ws f g ≡ true
          → (get_or os g 0 + get_or ws g 0 ≤ get_or os f 0)
            ⊎ (get_or os f 0 + get_or ws f 0 ≤ get_or os g 0)
      sides e = ground arith

  get_field-set_field :
      (f v : ℕ) (d : List ℕ)
      → f < n
      → length d ≡ 255
      → v < 256 ^ get_or ws f 0
      → (get_field os ws f (set_field os ws f v d) ≡ v)
        × ((g : ℕ)
            → g < n
            → g ≢ f
            → get_field os ws g (set_field os ws f v d) ≡ get_field os ws g d)
  unfolding get_field set_field proxy_rd host_int_to_ansi
  get_field-set_field f v d h l small = (
    ap from_le own ∙ from_le-to_le (get_or ws f 0) v small,
    (λ g hg ne. ap from_le (other g hg ne)),
  )
    where
      bytes : List ℕ
      bytes = to_le (get_or ws f 0) v

      width : length bytes ≡ get_or ws f 0
      width = length-to_le (get_or ws f 0) v

      own : copy_out (copy_in d (get_or os f 0) bytes) (get_or os f 0) (get_or ws f 0) ≡ bytes
      own =
          ap (copy_out (copy_in d (get_or os f 0) bytes) (get_or os f 0)) (sym width)
          ∙ copy_out-copy_in d bytes (get_or os f 0) (omega (arith, inside f h, width))

      other :
          (g : ℕ)
          → g < n
          → g ≢ f
          → copy_out (copy_in d (get_or os f 0) bytes) (get_or os g 0) (get_or ws g 0)
            ≡ copy_out d (get_or os g 0) (get_or ws g 0)
      other g hg ne =
          copy_out-elsewhere d bytes (get_or os f 0) (get_or os g 0) (get_or ws g 0)
            (elim (separate f g h hg ne) [
              | inl before ↦ inl before
              | inr after ↦ inr (omega (arith, width))
            ])

-- `kr_afmessage` and `kr_afmessage_EXT`
pub data Layout : Type 0 where
  plain : Layout
  extended : Layout

abbrev pub field_offsets : Layout → List ℕ
field_offsets plain = offsets
field_offsets extended = offsets_ext

abbrev pub field_widths : Layout → List ℕ
field_widths plain = widths
field_widths extended = widths_ext

abbrev pub field_count : Layout → ℕ
field_count plain = 8
field_count extended = 10

-- The fields of a `kr_afmessage` and of a `kr_afmessage_EXT`: what a setter writes, of the field's width, its
-- getter reads, and every other getter reads what it read before.
pub message-fields :
    (l : Layout) (f v : ℕ) (d : List ℕ)
    → f < field_count l
    → length d ≡ 255
    → v < 256 ^ get_or (field_widths l) f 0
    → (get_field
          (field_offsets l)
          (field_widths l)
          f
          (set_field (field_offsets l) (field_widths l) f v d)
        ≡ v)
      × ((g : ℕ)
          → g < field_count l
          → g ≢ f
          → get_field
              (field_offsets l)
              (field_widths l)
              g
              (set_field (field_offsets l) (field_widths l) f v d)
            ≡ get_field (field_offsets l) (field_widths l) g d)
unfolding offsets widths offsets_ext widths_ext
message-fields plain = get_field-set_field offsets widths 8 (refl, refl)
message-fields extended = get_field-set_field offsets_ext widths_ext 10 (refl, refl)
