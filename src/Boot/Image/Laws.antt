-- ===== src/Boot/Image/Laws.antt =====
-- What writing and reading back one chunk leaves in the flash.
use kappaio.Common.{
  ℕ, zero, suc, ◌≡◌, ◌≢◌, refl, ap, ap₂, sym, ◌∙◌, Bool, true, false, List, [], ◌∷◌, Option, none,
  some, take, ◌==◌, ==_iff, leb, ◌||◌, not, and_true, Bool-cases, inl, inr, arith,
}
use kappaio.Boot.Image.{
  sb_rw_buf_len, same_bytes, State, next_retry, after_write, after_read, is_error, compare,
  write_loop, read_loop, read_back, after_round, round, chunk_loop,
}

same_bytes_equal : (xs ys : List ℕ) → same_bytes xs ys ≡ true → xs ≡ ys
unfolding same_bytes
same_bytes_equal [] [] h = refl
same_bytes_equal [] (y ∷ ys) h = cc
same_bytes_equal (x ∷ xs) [] h = cc
same_bytes_equal (x ∷ xs) (y ∷ ys) h =
    let e = and_true (x == y) (same_bytes xs ys) h in
    ap₂ ◌∷◌ ((==_iff x y).0 e.0) (same_bytes_equal xs ys e.1)

-- What the boot loader documents: a write changes no other chunk of the flash than the addressed one, a
-- read changes nothing, and an answer without error has the chunk's content.
pub record IsHonest {D : Type 0} (write : D → ℕ → List ℕ → D × Option ℕ)
    (read : D → ℕ → D × Option (ℕ × List ℕ)) (content : D → ℕ → List ℕ) : Type 0 where
  pub write_elsewhere :
      (d : D) (a b : ℕ) (chunk : List ℕ) → b ≢ a → content (write d a chunk).0 b ≡ content d b
  pub read_keeps : (d : D) (a b : ℕ) → content (read d a).0 b ≡ content d b
  pub read_true :
      (d : D) (a status : ℕ) (bytes : List ℕ)
      → (read d a).1 ≡ some (status, bytes)
      → status ≡ 0
      → take sb_rw_buf_len bytes ≡ content d a

-- The link passes on an answer to every read before `mtSend` gives up.
abbrev pub ReadsAnswered : {D : Type 0} → (D → ℕ → D × Option (ℕ × List ℕ)) → Type 0
ReadsAnswered {D} read = (d : D) (a : ℕ) → (read d a).1 ≢ none

module _ {D : Type 0} (write : D → ℕ → List ℕ → D × Option ℕ)
    (read : D → ℕ → D × Option (ℕ × List ℕ)) (content : D → ℕ → List ℕ)
    (honest : IsHonest write read content) (heard : ReadsAnswered read) where
  -- A state whose flash is the one of `base` but for one chunk.
  abbrev pub Elsewhere : ℕ → D → D → Type 0
  Elsewhere addr base d = (b : ℕ) → b ≢ addr → content d b ≡ content base b

  abbrev WriteLeaves : ℕ → D → Option (State D) → Type 0
  WriteLeaves addr base none = Unit
  WriteLeaves addr base (some s) = Elsewhere addr base s.device

  after_write-device : (s : State D) (d : D) (o : Option ℕ) → (after_write s d o).device ≡ d
  after_write-device s d none = refl
  after_write-device s d (some status) = refl

  after_read-device :
      (s : State D) (d : D) (o : Option (ℕ × List ℕ)) → (after_read s d o).device ≡ d
  after_read-device s d none = refl
  after_read-device s d (some r) = refl

  write_loop-Leaves :
      (fuel addr : ℕ) (chunk : List ℕ) (s : State D) (retry : ℕ) (base : D)
      → Elsewhere addr base s.device
      → WriteLeaves addr base (write_loop write read fuel addr chunk s retry)
  unfolding write_loop
  write_loop-Leaves zero addr chunk s retry base h =
      elim (Bool-cases (s.return_status == 0 || leb 3 retry)) [
        | inl stop ↦ rw (stop) h
        | inr go ↦ rw (go) tt
      ]
  write_loop-Leaves (suc fuel) addr chunk s retry base h =
      elim (Bool-cases (s.return_status == 0 || leb 3 retry)) [
        | inl stop ↦ rw (stop) h
        | inr go ↦ rw (go) (
            write_loop-Leaves fuel addr chunk (after_write s w.0 w.1) (next_retry w.1 retry) base
              moved)
      ]
    where
      w : D × Option ℕ
      w = write s.device addr chunk

      moved : Elsewhere addr base (after_write s w.0 w.1).device
      moved b ne =
          ap (λ d. content d b) (after_write-device s w.0 w.1)
          ∙ honest.write_elsewhere s.device addr b chunk ne
          ∙ h b ne

  -- What a reading leaves: the flash as it was, and if it ends well the chunk is there.
  abbrev ReadLeaves : ℕ → List ℕ → D → State D × Bool → Type 0
  ReadLeaves addr chunk base (s, ok) =
      ((b : ℕ) → content s.device b ≡ content base b) × (ok ≡ true → content s.device addr ≡ chunk)

  compare-Leaves :
      (addr : ℕ) (chunk : List ℕ) (s : State D) (base : D)
      → ((b : ℕ) → content s.device b ≡ content base b)
      → take sb_rw_buf_len s.response ≡ content s.device addr
      → ReadLeaves addr chunk base (compare chunk s)
  unfolding compare
  compare-Leaves addr chunk s base same e =
      elim (Bool-cases (same_bytes chunk (take sb_rw_buf_len s.response))) [
        | inl equal ↦
            rw (equal)
              (same, (λ t. sym (same_bytes_equal chunk (take sb_rw_buf_len s.response) equal ∙ e)))
        | inr differ ↦ rw (differ) (same, (λ t. cc))
      ]

  fresh_response :
      (s : State D) (d : D) (o : Option (ℕ × List ℕ)) (c : List ℕ)
      → is_error o ≡ false
      → o ≢ none
      → ((status : ℕ) (bytes : List ℕ)
          → o ≡ some (status, bytes)
          → status ≡ 0
          → take sb_rw_buf_len bytes ≡ c)
      → take sb_rw_buf_len (after_read s d o).response ≡ c
  fresh_response s d none c e some_answer h = absurd (some_answer refl)
  fresh_response s d (some (status, bytes)) c e some_answer h = h status bytes refl (zero_status e)
    where
      zero_status : not (status == 0) ≡ false → status ≡ 0
      zero_status k = ground arith

  read_loop-Leaves :
      (tries addr : ℕ) (chunk : List ℕ) (s : State D) (base : D)
      → ((b : ℕ) → content s.device b ≡ content base b)
      → ReadLeaves addr chunk base (read_loop write read tries addr chunk s)
  unfolding read_loop
  read_loop-Leaves zero addr chunk s base same = (same, (λ t. cc))
  read_loop-Leaves (suc tries) addr chunk s base same = elim (Bool-cases (is_error r.1)) [
    | inl bad ↦ rw (bad) (read_loop-Leaves tries addr chunk (after_read s r.0 r.1) base kept)
    | inr good ↦ rw (good) (
        compare-Leaves addr chunk (after_read s r.0 r.1) base kept (
          fresh_response s r.0 r.1 (content (after_read s r.0 r.1).device addr) good
            (heard s.device addr)
            (λ status bytes e z.
              honest.read_true s.device addr status bytes e z ∙ sym (still addr))))
  ]
    where
      r : D × Option (ℕ × List ℕ)
      r = read s.device addr

      still : (b : ℕ) → content (after_read s r.0 r.1).device b ≡ content s.device b
      still b =
          ap (λ d. content d b) (after_read-device s r.0 r.1) ∙ honest.read_keeps s.device addr b

      kept : (b : ℕ) → content (after_read s r.0 r.1).device b ≡ content base b
      kept b = still b ∙ same b

  -- What the two loops together leave.
  abbrev pub ChunkLeaves : ℕ → List ℕ → D → Option (State D × Bool) → Type 0
  ChunkLeaves addr chunk base none = Unit
  ChunkLeaves addr chunk base (some (s, ok)) =
      Elsewhere addr base s.device × (ok ≡ true → content s.device addr ≡ chunk)

  read_back-Leaves :
      (addr : ℕ) (chunk : List ℕ) (s : State D)
      → ReadLeaves addr chunk s.device (read_back write read addr chunk s)
  unfolding read_back
  read_back-Leaves addr chunk s = elim (Bool-cases (s.return_status == 0)) [
    | inl written ↦ rw (written) (read_loop-Leaves 3 addr chunk s s.device (λ b. refl))
    | inr not_written ↦ rw (not_written) ((λ b. refl), (λ t. cc))
  ]

  after_round-Leaves :
      (addr : ℕ) (chunk : List ℕ) (base : D) (again : State D → Option (State D × Bool))
      (r : State D × Bool)
      → Elsewhere addr base r.0.device
      → (r.1 ≡ true → content r.0.device addr ≡ chunk)
      → ChunkLeaves addr chunk base (again r.0)
      → ChunkLeaves addr chunk base (after_round again r)
  unfolding after_round
  after_round-Leaves addr chunk base again (s, true) e c h = (e, c)
  after_round-Leaves addr chunk base again (s, false) e c h = h

  round-Leaves :
      (addr : ℕ) (chunk : List ℕ) (base : D) (again : State D → Option (State D × Bool))
      (o : Option (State D))
      → WriteLeaves addr base o
      → ((s : State D) → Elsewhere addr base s.device → ChunkLeaves addr chunk base (again s))
      → ChunkLeaves addr chunk base (round write read addr chunk again o)
  unfolding round
  round-Leaves addr chunk base again none w h = tt
  round-Leaves addr chunk base again (some s) w h =
      let r = read_back-Leaves addr chunk s in
      let e : Elsewhere addr base (read_back write read addr chunk s).0.device =
        (λ b ne. r.0 b ∙ w b ne) in
      after_round-Leaves addr chunk base again (read_back write read addr chunk s) e r.1
        (h (read_back write read addr chunk s).0 e)

  pub chunk_loop-Leaves :
      (fuel tries addr : ℕ) (chunk : List ℕ) (s : State D) (base : D)
      → Elsewhere addr base s.device
      → ChunkLeaves addr chunk base (chunk_loop write read fuel tries addr chunk s)
  unfolding chunk_loop
  chunk_loop-Leaves fuel zero addr chunk s base e = (e, (λ t. cc))
  chunk_loop-Leaves fuel (suc tries) addr chunk s base e =
      round-Leaves addr chunk base (chunk_loop write read fuel tries addr chunk)
        (write_loop write read fuel addr chunk s 0) (write_loop-Leaves fuel addr chunk s 0 base e)
        (λ s' e'. chunk_loop-Leaves fuel tries addr chunk s' base e')
