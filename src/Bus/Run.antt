-- ===== src/Bus/Run.antt =====
-- A file of the bus over time: values that are added, and commits.
use Prim.Native.String.{String}
use kappaio.Common.{
  ℕ, zero, suc, ◌+◌, ◌%◌, ◌^◌, ◌<◌, Option, none, some, ◌>>=◌, List, [], ◌∷◌, ◌++◌, Bool, ◌==◌,
  if◌then◌else◌,
}
use kappaio.Common.Dicts.{Dict, lookup}
use kappaio.Bus.{KbFile, Shown, shown_number, shown_fields, shown_items, kb_add_json, kb_commit}
use kappaio.Bus.Objects.{from_refresher}

-- A value for the object with this number, or the turn of a commit with what each refresher adds.
pub data Op (J : Type 0) : Type 0 where
  add : ℕ → String → J → Op J
  commit : ℕ → (ℕ → List (String × J)) → Op J

module _ {J : Type 0} where
  -- Operations in turn, and what the commits write.
  unfoldable pub run : List (Op J) → KbFile J → Option (KbFile J × List (Dict (Shown J)))
  run [] f = some (f, [])
  run (add j key value ∷ ops) f = do f' ← kb_add_json j key value f; run ops f'
  run (commit time fresh ∷ ops) f = do
    p ← kb_commit time fresh f
    q ← run ops p.0
    some (q.0, p.1 ∷ q.1)

  -- The object is one of the first `n`.
  abbrev pub IsBelow : ℕ → Op J → Type 0
  IsBelow n (add j key value) = j < n
  IsBelow n (commit time fresh) = Unit

  -- What the operations add to object `i`.
  abbrev pub added : ℕ → Bool → List (Op J) → List J
  added i auto [] = []
  added i auto (add j key value ∷ ops) = (if j == i then value ∷ [] else []) ++ added i auto ops
  added i auto (commit time fresh ∷ ops) = from_refresher auto (fresh i) ++ added i auto ops

  abbrev pub items_of : Option (Shown J) → List J
  items_of none = []
  items_of (some (shown_number n)) = []
  items_of (some (shown_fields d)) = []
  items_of (some (shown_items xs)) = xs

  -- The arrays that are written under a name, one after the other.
  abbrev pub written : String → List (Dict (Shown J)) → List J
  written name [] = []
  written name (d ∷ ds) = items_of (lookup name d) ++ written name ds

-- `k` sequence numbers from `n` on.
abbrev pub seq_nums : ℕ → ℕ → List ℕ
seq_nums n zero = []
seq_nums n (suc k) = n ∷ seq_nums ((n + 1) % 2 ^ 32) k
