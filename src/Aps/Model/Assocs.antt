-- ===== src/Aps/Model/Assocs.antt =====
-- The associated devices: what `assocs`, `removeAssoc` and the leave request make of them.
use kappaio.Common.{ℕ, ◌%◌, ◌≡◌, refl, ap, ◌∙◌, List, [], ◌∷◌, Option, none, some, zero, suc, arith}
use kappaio.Common.Words.{All}
use kappaio.Aps.Model.{
  Device, new_device_of, assocs_short, assocs_ieee, remove_assoc, modify, device_at, leave,
  leave_from,
}
use kappaio.Aps.Model.Find.{
  nth, or_new, update, with_new, lookup, lookup-remove_if, list-reference, nth-reference,
}
use kappaio.Aps.Model.Replay.{Op, visit, change, remove, KeepsKey, run, replay, lookup-run}

-- The devices by their short addresses.
abbrev pub by_id : Device → ℕ
by_id d = d.id

abbrev pub by_ieee : Device → ℕ
by_ieee d = d.ieee_id

-- What a client does: `assocs(i)`, a change of `assocs(i)`, and `removeAssoc(i)`.
abbrev pub assoc_step : Op Device → List Device → List Device
assoc_step (visit i) xs = (assocs_short i xs).0
assoc_step (change i f) xs = modify (assocs_short i xs).1 f (assocs_short i xs).0
assoc_step (remove i) xs = remove_assoc i xs

abbrev pub assoc_run : List (Op Device) → List Device → List Device
assoc_run [] xs = xs
assoc_run (op ∷ ops) xs = assoc_run ops (assoc_step op xs)

runs :
    (ops : List (Op Device)) (xs : List Device) → assoc_run ops xs ≡ run by_id new_device_of ops xs
unfolding assocs_short remove_assoc
runs [] xs = refl
runs (visit i ∷ ops) xs = runs ops (assocs_short i xs).0
runs (change i f ∷ ops) xs = runs ops (modify (assocs_short i xs).1 f (assocs_short i xs).0)
runs (remove i ∷ ops) xs = runs ops (remove_assoc i xs)

-- The list of associated devices is a map from short addresses: after any sequence of `assocs(i)`, of changes
-- through it that leave the device's id alone, and of `removeAssoc(i)`, the first device with an id is the
-- one that the same sequence leaves in a function from ids, in which a reference to a missing device makes a
-- new one and a removal takes the device out.
pub assoc_run-replay :
    (ops : List (Op Device)) (xs : List Device)
    → All (KeepsKey by_id new_device_of) ops
    → (λ k. lookup by_id k (assoc_run ops xs))
      ≡ replay by_id new_device_of ops (λ k. lookup by_id k xs)
assoc_run-replay ops xs h =
    ap (λ ys k. lookup by_id k ys) (runs ops xs)
    ∙ lookup-run by_id new_device_of (λ i. refl) ops xs h

-- The short address that `Mgmt_Leave_req` removes.
abbrev pub leaving : ℕ → Option Device → ℕ
leaving ieee none = ieee % 65536
leaving ieee (some d) = d.id

device_at-nth : (xs : List Device) (i : ℕ) (d : Device) → nth xs i ≡ some d → device_at xs i ≡ d
unfolding device_at
device_at-nth [] i d h = ground arith
device_at-nth (x ∷ xs) zero d h = ground arith
device_at-nth (x ∷ xs) (suc i) d h = device_at-nth xs i d h

removed_new :
    (ieee : ℕ) (xs : List Device) (o : Option Device) (k : ℕ)
    → update
        (or_new (new_device_of (ieee % 65536)) o).id
        none
        (λ k. lookup by_id k (with_new (new_device_of (ieee % 65536)) o xs))
        k
      ≡ update (leaving ieee o) none (λ k. lookup by_id k xs) k
unfolding lookup
removed_new ieee xs none k = ground arith
removed_new ieee xs (some d) k = refl

-- After a leave request with an IEEE address, no device is found under the short address of the first device
-- with this IEEE address, and under every other short address the same device is found as before. If no device
-- has the IEEE address, the short address that is lost is the low 16 bits of the IEEE address.
pub leave-lookup :
    (ieee : ℕ) (xs : List Device) (k : ℕ)
    → lookup by_id k (leave ieee xs)
      ≡ update (leaving ieee (lookup by_ieee ieee xs)) none (λ k. lookup by_id k xs) k
unfolding leave leave_from assocs_ieee remove_assoc
leave-lookup ieee xs k =
    lookup-remove_if by_id (device_at found.0 found.1).id k found.0
    ∙ ap (λ d. update d.id none (λ k. lookup by_id k found.0) k)
        (device_at-nth found.0 found.1 entry (nth-reference by_ieee new ieee xs))
    ∙ ap (λ ys. update entry.id none (λ k. lookup by_id k ys) k)
        (list-reference by_ieee new ieee xs)
    ∙ removed_new ieee xs (lookup by_ieee ieee xs) k
  where
    new : Device
    new = new_device_of (ieee % 65536)

    found : List Device × ℕ
    found = assocs_ieee ieee xs

    entry : Device
    entry = or_new new (lookup by_ieee ieee xs)
