-- ===== src/Aps/Model/Endpoints.antt =====
-- `newEndpoint` gives an endpoint that was not there, and ids stay distinct.
use kappaio.Common.{
  ℕ, zero, suc, ◌+◌, ◌<◌, ◌≤◌, ◌≡◌, refl, sym, ap, ◌∙◌, subst, true, false, List, [], ◌∷◌, Option,
  none, some, ◌==◌, ==_iff, Bool-cases, inl, inr, arith,
}
use kappaio.Aps.Model.{
  Endpoint, new_endpoint_of, endpoints_at, endpoint_exist, free_id, endpoint_or_last, new_endpoint,
}
use kappaio.Aps.Model.Find.{
  is_some, with_new, lookup, exist-lookup, list-reference, reference-missing,
}

abbrev pub by_endpoint : Endpoint → ℕ
by_endpoint e = e.id

-- No two elements have the same key.
module _ {A : Type 0} (key : A → ℕ) where
  abbrev pub Distinct : List A → Type 0
  Distinct [] = Unit
  Distinct (x ∷ xs) = (lookup key (key x) xs ≡ none) × Distinct xs

  Distinct-with_new :
      (new : A) (xs : List A) (o : Option A)
      → lookup key (key new) xs ≡ o
      → Distinct xs
      → Distinct (with_new new o xs)
  Distinct-with_new new xs none e h = (e, h)
  Distinct-with_new new xs (some x) e h = h

exists : (i : ℕ) (xs : List Endpoint) → endpoint_exist xs i ≡ is_some (lookup by_endpoint i xs)
unfolding endpoint_exist
exists i xs = exist-lookup by_endpoint i xs

true≢false : true ≡ false → ⊥
true≢false e = ground (arith, e)

missing :
    (i : ℕ) (xs : List Endpoint) → endpoint_exist xs i ≡ false → lookup by_endpoint i xs ≡ none
missing i xs h = nothing (lookup by_endpoint i xs) (sym (exists i xs) ∙ h)
  where
    nothing : (o : Option Endpoint) → is_some o ≡ false → o ≡ none
    nothing none e = refl
    nothing (some x) e = ground arith

endpoints_at-missing :
    (i : ℕ) (xs : List Endpoint)
    → lookup by_endpoint i xs ≡ none
    → endpoints_at i xs ≡ (new_endpoint_of i ∷ xs, 0)
unfolding endpoints_at
endpoints_at-missing i xs h = reference-missing by_endpoint (new_endpoint_of i) i xs h

pub endpoints_at-Distinct :
    (i : ℕ) (xs : List Endpoint)
    → Distinct by_endpoint xs
    → Distinct by_endpoint (endpoints_at i xs).0
unfolding endpoints_at
endpoints_at-Distinct i xs h =
    subst (Distinct by_endpoint) (sym (list-reference by_endpoint (new_endpoint_of i) i xs))
      (Distinct-with_new by_endpoint (new_endpoint_of i) xs (lookup by_endpoint i xs) refl h)

-- What the loop over `j` gives.
unfoldable Free : List Endpoint → ℕ → ℕ → Option ℕ → Type 0
Free xs rounds j none = (k : ℕ) → j ≤ k → k < j + rounds → endpoint_exist xs k ≡ true
Free xs rounds j (some k) = endpoint_exist xs k ≡ false

free_id-Free : (xs : List Endpoint) (rounds j : ℕ) → Free xs rounds j (free_id xs rounds j)
unfolding Free free_id
free_id-Free xs zero j = λ k low high. absurd (omega arith)
free_id-Free xs (suc rounds) j = elim (Bool-cases (endpoint_exist xs j)) [
  | inl taken ↦
      rw (taken) (later (free_id xs rounds (j + 1)) taken (free_id-Free xs rounds (j + 1)))
  | inr free ↦ rw (free) free
]
  where
    later :
        (o : Option ℕ)
        → endpoint_exist xs j ≡ true
        → Free xs rounds (j + 1) o
        → Free xs (suc rounds) j o
    later none taken h = λ k low high. elim (Bool-cases (j == k)) [
      | inl same ↦ subst (λ a. endpoint_exist xs a ≡ true) ((==_iff j k).0 same) taken
      | inr other ↦ h k (ground (arith, other)) (omega arith)
    ]
    later (some k) taken h = h

-- A new endpoint: one that was not there, in front of the others, with the id that was asked for if that
-- was free.
abbrev pub IsFresh : ℕ → List Endpoint → List Endpoint × ℕ → Type 0
IsFresh i xs made =
    (k : ℕ) × (lookup by_endpoint k xs ≡ none)
    × (lookup by_endpoint i xs ≡ none → k ≡ i)
    × (made ≡ (new_endpoint_of k ∷ xs, 0))

or_last-Fresh :
    (i j : ℕ) (xs : List Endpoint) (o : Option ℕ)
    → endpoint_exist xs i ≡ true
    → 1 ≤ j
    → j < 240
    → endpoint_exist xs j ≡ false
    → Free xs 239 1 o
    → IsFresh i xs (endpoint_or_last xs o)
unfolding Free endpoint_or_last
or_last-Fresh i j xs none taken low high free h = absurd (true≢false (sym (h j low high) ∙ free))
or_last-Fresh i j xs (some k) taken low high free h = (
  k,
  missing k xs h,
  (λ e. absurd (true≢false (sym taken ∙ exists i xs ∙ ap is_some e))),
  endpoints_at-missing k xs (missing k xs h),
)

-- `newEndpoint` of any id, if some id from 1 to 239 is free: it puts a new endpoint in front of the others and
-- returns it; its id was not there before, and is the one that was asked for if that was free.
pub new_endpoint-IsFresh :
    (i j : ℕ) (xs : List Endpoint)
    → 1 ≤ j
    → j < 240
    → lookup by_endpoint j xs ≡ none
    → IsFresh i xs (new_endpoint i xs)
unfolding new_endpoint
new_endpoint-IsFresh i j xs low high free = elim (Bool-cases (endpoint_exist xs i)) [
  | inl taken ↦ rw (taken) (
      or_last-Fresh i j xs (free_id xs 239 1) taken low high (exists j xs ∙ ap is_some free)
        (free_id-Free xs 239 1))
  | inr open_id ↦
      rw (open_id)
        (i, missing i xs open_id, (λ e. refl), endpoints_at-missing i xs (missing i xs open_id))
]

-- `newEndpoint` keeps the ids of the endpoints distinct, also when there is no free id.
pub new_endpoint-Distinct :
    (i : ℕ) (xs : List Endpoint)
    → Distinct by_endpoint xs
    → Distinct by_endpoint (new_endpoint i xs).0
unfolding new_endpoint endpoint_or_last
new_endpoint-Distinct i xs h = elim (Bool-cases (endpoint_exist xs i)) [
  | inl taken ↦ rw (taken) (last (free_id xs 239 1))
  | inr open_id ↦ rw (open_id) (endpoints_at-Distinct i xs h)
]
  where
    last : (o : Option ℕ) → Distinct by_endpoint (endpoint_or_last xs o).0
    last none = endpoints_at-Distinct 241 xs h
    last (some j) = endpoints_at-Distinct j xs h
