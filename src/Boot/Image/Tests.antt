-- ===== src/Boot/Image/Tests.antt =====
-- Boot loaders that store, that are silent, and that spoil what they store.
use kappaio.Common.{
  ℕ, ◌≡◌, ◌≢◌, refl, true, false, List, [], ◌∷◌, Option, none, some, length, replicate, take,
  take-length, ◌==◌, ==_iff, if◌then◌else◌, arith, ap, sym, ◌∙◌,
}
use kappaio.Boot.Image.{
  sb_rw_buf_len, words_per_chunk, State, Ending, returned, exited, out_of_fuel, sb_image_write,
  chunk_loop,
}
use kappaio.Boot.Image.Laws.{IsHonest, ReadsAnswered}
use kappaio.Boot.Image.Written.{Written, sb_image_write-Written}
use kappaio.Boot.Image.Ends.{sb_image_write-ends}
use kappaio.Boot.Image.Success.{IsSound, sb_image_write-succeeds}
use kappaio.Boot.Image.Faults.{sb_image_write-silent, chunk_loop-accepted}

-- A flash is what it holds at each address, in chunks.
abbrev pub Flash : Type 0
Flash = ℕ → List ℕ

abbrev pub store : Flash → ℕ → List ℕ → Flash × Option ℕ
store d a chunk = ((λ b. if b == a then take 64 chunk else d b), some 0)

abbrev pub load : Flash → ℕ → Flash × Option (ℕ × List ℕ)
load d a = (d, some (0, d a))

abbrev pub content : Flash → ℕ → List ℕ
content d a = take 64 (d a)

abbrev pub erased : Flash
erased b = []

abbrev two_blocks : List (List ℕ)
two_blocks = replicate 64 1 ∷ replicate 64 2 ∷ []

abbrev after_two : Flash
after_two = (store (store erased 0 (replicate 64 1)).0 16 (replicate 64 2)).0

pub store-ReadsAnswered : ReadsAnswered load
store-ReadsAnswered d a e = cc

pub store-IsHonest : IsHonest store load content
store-IsHonest = record {
  write_elsewhere = λ d a b chunk ne. ap (take 64) (other d a b chunk ne);
  read_keeps = λ d a b. refl;
  read_true = λ d a status bytes e z. same (d a) status bytes e;
}
  where
    other :
        (d : Flash) (a b : ℕ) (chunk : List ℕ)
        → b ≢ a
        → (if b == a then take 64 chunk else d b) ≡ d b
    other d a b chunk ne = rw (unequal ne)
      where
        unequal : b ≢ a → (b == a) ≡ false
        unequal n = ground arith

    answer : ℕ → List ℕ → Option (ℕ × List ℕ)
    answer status bytes = some (status, bytes)

    same :
        (xs : List ℕ) (status : ℕ) (bytes : List ℕ)
        → answer 0 xs ≡ answer status bytes
        → take 64 bytes ≡ take 64 xs
    same xs status bytes e = cc

-- The state at the end.
abbrev written : State Flash
written = record {
  device = after_two;
  return_status = 0;
  response = replicate 64 2;
  failed = false;
}

writes_two : sb_image_write store load 3 (replicate 64 0) [] two_blocks erased ≡ returned written
unfolding sb_image_write kappaio.Boot.Image.write_blocks kappaio.Boot.Image.next_block
    kappaio.Boot.Image.chunk_loop kappaio.Boot.Image.round kappaio.Boot.Image.after_round
    kappaio.Boot.Image.read_back kappaio.Boot.Image.read_loop kappaio.Boot.Image.write_loop
    kappaio.Boot.Image.compare kappaio.Boot.Image.same_bytes kappaio.Boot.Image.next_retry
writes_two = refl

sb_image_write-Written_run : Written content 0 two_blocks after_two
sb_image_write-Written_run =
    sb_image_write-Written store load content store-IsHonest store-ReadsAnswered 3 (replicate 64 0)
      [] two_blocks erased written refl (refl, (refl, tt)) (omega arith) writes_two

store-answers : (d : Flash) (a : ℕ) (chunk : List ℕ) → (store d a chunk).1 ≢ none
store-answers d a chunk e = cc

sb_image_write-ends_example :
    sb_image_write store load 3 (replicate 64 0) [] two_blocks erased ≢ out_of_fuel
sb_image_write-ends_example =
    sb_image_write-ends store load store-answers 3 (replicate 64 0) [] two_blocks erased
      (omega arith)

pub store-IsSound : IsSound store load content
store-IsSound = record {
  write_accepts = λ d a chunk. refl;
  write_stores = λ d a chunk l. stored d a chunk l;
  read_content = λ d a. (d a, refl, refl);
}
  where
    whole : (n : ℕ) (chunk : List ℕ) → length chunk ≡ n → take n (take n chunk) ≡ chunk
    whole n chunk l =
        ap (λ k. take k (take k chunk)) (sym l)
        ∙ ap (take (length chunk)) (take-length chunk)
        ∙ take-length chunk

    stored :
        (d : Flash) (a : ℕ) (chunk : List ℕ)
        → length chunk ≡ 64
        → take 64 (if a == a then take 64 chunk else d a) ≡ chunk
    stored d a chunk l = rw ((==_iff a a).1 refl) (whole 64 chunk l)

sb_image_write-succeeds_run :
    (s : State Flash) × (sb_image_write store load 3 (replicate 64 0) [] two_blocks erased
      ≡ returned s)
    × (s.failed ≡ false)
sb_image_write-succeeds_run =
    sb_image_write-succeeds store load content store-IsSound 2 (replicate 64 0) [] two_blocks erased
      refl (omega arith, (omega arith, tt))

abbrev ignore : Flash → ℕ → List ℕ → Flash × Option ℕ
ignore d a chunk = (d, none)

sb_image_write-silent_run :
    sb_image_write ignore load 1000 (replicate 64 0) [] two_blocks erased ≡ out_of_fuel
sb_image_write-silent_run =
    sb_image_write-silent ignore load (λ d a chunk. refl) 1000 (replicate 64 0) [] (replicate 64 1)
      (replicate 64 2 ∷ []) erased

-- A chunk that was accepted, but reads back as nothing.
abbrev spoiled : State Flash
spoiled = record { device = erased; return_status = 0; response = []; failed = true }

chunk_loop-accepted_run :
    chunk_loop ignore load 3 2 0 (replicate 64 1) spoiled
    ≡ chunk_loop store load 3 2 0 (replicate 64 1) spoiled
chunk_loop-accepted_run = chunk_loop-accepted ignore store load 3 2 0 (replicate 64 1) spoiled refl
