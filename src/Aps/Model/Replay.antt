-- ===== src/Aps/Model/Replay.antt =====
-- A list of elements with keys is a map from keys: a client cannot tell them apart.
use kappaio.Common.{ℕ, ◌≡◌, refl, ap, ◌∙◌, List, [], ◌∷◌, Option, none, some, ◌==◌}
use kappaio.Common.Words.{All}
use mathlib.Core.Path.{fun_ext}
use kappaio.Aps.Model.{find_if, remove_if, modify}
use kappaio.Aps.Model.Find.{
  or_new, update, lookup, key-or_new, lookup-reference, lookup-modify, lookup-remove_if,
}

-- What a client of such a list does: it takes a reference, it changes an element through a reference, or
-- it removes.
pub data Op (A : Type 0) : Type 0 where
  visit : ℕ → Op A
  change : ℕ → (A → A) → Op A
  remove : ℕ → Op A

module _ {A : Type 0} (key : A → ℕ) (new : ℕ → A) where
  -- A step of a client on the map.
  abbrev pub replay_step : Op A → (ℕ → Option A) → ℕ → Option A
  replay_step (visit i) m = update i (some (or_new (new i) (m i))) m
  replay_step (change i f) m = update i (some (f (or_new (new i) (m i)))) m
  replay_step (remove i) m = update i none m

  -- A change through a reference leaves the key alone.
  abbrev pub KeepsKey : Op A → Type 0
  KeepsKey (visit i) = Unit
  KeepsKey (change i f) = (x : A) → key (f x) ≡ key x
  KeepsKey (remove i) = Unit

  abbrev pub find_step : Op A → List A → List A
  find_step (visit i) xs = (find_if (λ x. key x == i) (new i) xs).0
  find_step (change i f) xs =
      modify (find_if (λ x. key x == i) (new i) xs).1 f (find_if (λ x. key x == i) (new i) xs).0
  find_step (remove i) xs = remove_if (λ x. key x == i) xs

  abbrev pub run : List (Op A) → List A → List A
  run [] xs = xs
  run (op ∷ ops) xs = run ops (find_step op xs)

  abbrev pub replay : List (Op A) → (ℕ → Option A) → ℕ → Option A
  replay [] m = m
  replay (op ∷ ops) m = replay ops (replay_step op m)

  module _ (keyed : (i : ℕ) → key (new i) ≡ i) where
    lookup-find_step :
        (op : Op A) (xs : List A)
        → KeepsKey op
        → (λ k. lookup key k (find_step op xs)) ≡ replay_step op (λ k. lookup key k xs)
    lookup-find_step (visit i) xs h = fun_ext (lookup-reference key (new i) i xs (keyed i))
    lookup-find_step (change i f) xs h = fun_ext (
        lookup-modify key (new i) i xs f
          (h (or_new (new i) (lookup key i xs)) ∙ key-or_new key (new i) i xs (keyed i)))
    lookup-find_step (remove i) xs h = fun_ext (λ k. lookup-remove_if key i k xs)

    -- Any run of a client is a replay of it on the map that the list stands for.
    pub lookup-run :
        (ops : List (Op A)) (xs : List A)
        → All KeepsKey ops
        → (λ k. lookup key k (run ops xs)) ≡ replay ops (λ k. lookup key k xs)
    lookup-run [] xs h = refl
    lookup-run (op ∷ ops) xs h =
        lookup-run ops (find_step op xs) h.1 ∙ ap (replay ops) (lookup-find_step op xs h.0)
