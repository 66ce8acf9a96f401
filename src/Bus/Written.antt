-- ===== src/Bus/Written.antt =====
-- What is added to an array of the bus, and what is written of it.
use Prim.Native.String.{String}
use kappaio.Common.{
  ℕ, ◌≡◌, refl, ap, ap₂, sym, ◌∙◌, subst, Bool, true, false, some, List, [], ◌∷◌, ◌++◌, map, length,
  append_assoc, append-nil, ◌==◌, if◌then◌else◌,
}
use kappaio.Common.Words.{All}
use kappaio.Common.Dicts.{Dict, lookup}
use kappaio.Bus.{KbFile, Shown, shown_number}
use kappaio.Bus.Objects.{from_refresher}
use kappaio.Bus.Laws.{IsOpen, IsName, add-IsOpen, commit-IsOpen}
use kappaio.Bus.Run.{Op, add, commit, run, IsBelow, added, written, seq_nums}

module _ {J : Type 0} (name : String) (i : ℕ) (auto : Bool) (n : IsName name) where
  append_if :
      (b : Bool) (xs rest : List J) (v : J)
      → (if b then xs ++ (v ∷ []) else xs) ++ rest ≡ xs ++ ((if b then v ∷ [] else []) ++ rest)
  append_if true xs rest v = append_assoc xs (v ∷ []) rest
  append_if false xs rest v = refl

  -- Values are added to the objects of a file, and the file is committed, in any order. With an array under a name other
  -- than "seqnum" and "unixtime", and no object under these two, no freed data is used; the arrays that the commits write
  -- under that name, and what the array holds at the end, are together exactly what the array held and what was added
  -- to it or by its refresher, once each and in that order; and the commits number what they write one after the other,
  -- modulo 2^32.
  pub run-written :
      (ops : List (Op J)) (f : KbFile J) (xs : List J)
      → IsOpen name i auto f xs
      → All (IsBelow (length f.objs)) ops
      → (f' : KbFile J) × (ds : List (Dict (Shown J))) × (xs' : List J) × (run ops f
          ≡ some (f', ds))
        × IsOpen name i auto f' xs'
        × (written name ds ++ xs' ≡ xs ++ added i auto ops)
        × (map (lookup "seqnum") ds
            ≡ map (λ k. some (shown_number k)) (seq_nums f.seq_num (length ds)))
  unfolding run
  run-written [] f xs o below = (f, [], xs, refl, o, sym (append-nil xs), refl)
  run-written (add j key value ∷ ops) f xs o below =
      let (f1, added1, open1, len1, num1) = add-IsOpen name i auto f xs j key value o below.0 in
      let (f2, ds, xs2, ran, open2, same, nums) =
        run-written ops f1 (if j == i then xs ++ (value ∷ []) else xs) open1
          (subst (λ k. All (IsBelow k) ops) (sym len1) below.1) in
      (
        f2,
        ds,
        xs2,
        rw (added1, ran) refl,
        open2,
        same ∙ append_if (j == i) xs (added i auto ops) value,
        nums ∙ ap (λ k. map (λ m. some (shown_number m)) (seq_nums k (length ds))) num1,
      )
  run-written (commit time fresh ∷ ops) f xs o below =
      let (f1, d, committed, open1, len1, num1, items, seq) =
        commit-IsOpen name i auto f xs time fresh n o in
      let (f2, ds, xs2, ran, open2, same, nums) =
        run-written ops f1 [] open1 (subst (λ k. All (IsBelow k) ops) (sym len1) below.1) in
      let all = added i auto ops in
      (
        f2,
        d ∷ ds,
        xs2,
        rw (committed, ran) refl,
        open2,
        rw items (
            append_assoc (xs ++ from_refresher auto (fresh i)) (written name ds) xs2
            ∙ ap (λ ys. (xs ++ from_refresher auto (fresh i)) ++ ys) same
            ∙ append_assoc xs (from_refresher auto (fresh i)) all),
        ap₂ ◌∷◌ seq
            (nums ∙ ap (λ k. map (λ m. some (shown_number m)) (seq_nums k (length ds))) num1),
      )
