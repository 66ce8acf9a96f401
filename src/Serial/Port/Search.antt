-- ===== src/Serial/Port/Search.antt =====
-- The search of `MessageAssembler` for the start of a frame.
use kappaio.Common.{
  ℕ, zero, suc, ◌+◌, ◌≤◌, ◌<◌, ◌≡◌, ◌≢◌, refl, ap, sym, ◌∙◌, Bool, true, false, get_or, ◌==◌, ◌||◌,
  if◌then◌else◌, ==_iff, lt→ltb, le→ltb, arith,
}
use native.Mathlib.Nat.{add-zero}
use kappaio.Serial.Frame.{mt_sof}
use kappaio.Serial.Port.{Port, found, starved, no_fuel, scan, mask}
use kappaio.Serial.Port.Ring.{IsValid}

-- The byte at distance `k` from the head.
abbrev pub byte_at : Port → ℕ → ℕ
byte_at p k = get_or p.buf (mask (p.head + k)) 0

unequal : (a b : ℕ) → a ≢ b → (a == b) ≡ false
unequal a b h = ground arith

away : (p : Port) (k : ℕ) → IsValid p → 0 < k → k < 512 → (p.head == mask (p.head + k)) ≡ false
away p k v h l = unequal p.head (mask (p.head + k)) (λ e. distance v.head_in e)
  where
    distance : p.head < 512 → p.head ≡ mask (p.head + k) → ⊥
    distance i e = omega arith

module _ (p : Port) (v : IsValid p) where
  -- The step to the next byte.
  scan-suc :
      (fuel k : ℕ)
      → byte_at p k ≢ mt_sof
      → k + 6 ≤ p.len
      → scan (suc fuel) p (mask (p.head + k)) k ≡ scan fuel p (mask (p.head + (k + 1))) (k + 1)
  unfolding scan
  scan-suc fuel k other room = rw (
    unequal (byte_at p k) mt_sof other,
    away p (k + 1) v (omega arith) (upto v.fits),
    le→ltb p.len (k + 1 + 5) (omega arith),
  )
    where
      upto : p.len ≤ 512 → k + 1 < 512
      upto f = omega arith

  -- Where the byte is a SOF, whatever `Offset` is.
  pub scan-hit :
      (fuel temp offset : ℕ)
      → get_or p.buf temp 0 ≡ mt_sof
      → scan (suc fuel) p temp offset ≡ found temp offset
  unfolding scan
  scan-hit fuel temp offset sof = rw ((==_iff (get_or p.buf temp 0) mt_sof).1 sof)

  -- A SOF with `n` other bytes before it is found, if five bytes and those before it are there.
  pub scan-found :
      (fuel k n : ℕ)
      → ((i : ℕ) → i < n → byte_at p (k + i) ≢ mt_sof)
      → byte_at p (k + n) ≡ mt_sof
      → k + n + 5 ≤ p.len
      → n < fuel
      → scan fuel p (mask (p.head + k)) k ≡ found (mask (p.head + (k + n))) (k + n)
  scan-found zero k n others sof room f = absurd (omega arith)
  scan-found (suc fuel) k zero others sof room f =
      scan-hit fuel (mask (p.head + k)) k (rw add-zero at sof)
      ∙ ap (λ t. found (mask (p.head + t)) t) (sym (add-zero k))
  scan-found (suc fuel) k (suc n) others sof room f =
      scan-suc fuel k (rw add-zero at (others 0 (omega arith))) (omega arith)
      ∙ scan-found fuel (k + 1) n (λ i l. rw (shift i) (others (suc i) (omega arith)))
          (rw (shift n) sof) (omega arith) (omega arith)
      ∙ ap (λ t. found (mask (p.head + t)) t) (shift n)
    where
      shift : (i : ℕ) → k + 1 + i ≡ k + suc i
      shift i = omega arith

  scan-last :
      (fuel k : ℕ)
      → byte_at p k ≢ mt_sof
      → p.len < k + 6
      → scan (suc fuel) p (mask (p.head + k)) k ≡ starved
  unfolding scan
  scan-last fuel k other short =
      rw (unequal (byte_at p k) mt_sof other, lt→ltb p.len (k + 1 + 5) (omega arith))
        (either (p.head == mask (p.head + (k + 1))))
    where
      either :
          (b : Bool)
          → (if b || true then starved else scan fuel p (mask (p.head + (k + 1))) (k + 1)) ≡ starved
      either true = refl
      either false = refl

  -- Where none of the first `n + 1` bytes is a SOF, and at most four more are there, it gives up.
  pub scan-starved :
      (fuel k n : ℕ)
      → ((i : ℕ) → i < suc n → byte_at p (k + i) ≢ mt_sof)
      → k + n + 5 ≤ p.len
      → p.len < k + n + 6
      → n < fuel
      → scan fuel p (mask (p.head + k)) k ≡ starved
  scan-starved zero k n others room short f = absurd (omega arith)
  scan-starved (suc fuel) k zero others room short f =
      scan-last fuel k (rw add-zero at (others 0 (omega arith))) (omega arith)
  scan-starved (suc fuel) k (suc n) others room short f =
      scan-suc fuel k (rw add-zero at (others 0 (omega arith))) (omega arith)
      ∙ scan-starved fuel (k + 1) n (λ i l. rw (shift i) (others (suc i) (omega arith)))
          (omega arith) (omega arith) (omega arith)
    where
      shift : (i : ℕ) → k + 1 + i ≡ k + suc i
      shift i = omega arith

-- The fuel that `round` gives is enough: the search ends by one of the source's two exits.
pub scan-ends :
    (p : Port) (fuel temp k : ℕ) → 0 < fuel → p.len < k + fuel → scan fuel p temp k ≢ no_fuel
unfolding scan
scan-ends p zero temp k h l = absurd (omega arith)
scan-ends p (suc fuel) temp k h l =
    ground (arith, scan-ends p fuel (mask (p.head + (k + 1))) (k + 1))
