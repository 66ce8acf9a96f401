-- ===== src/Aps/Model/Find.antt =====
-- Lists whose elements are found by a key, as the object model keeps devices, endpoints, clusters and
-- attributes: what is found after each operation.
use kappaio.Common.{
  ℕ, zero, suc, ◌≡◌, refl, sym, ap, ◌∙◌, Bool, true, false, List, [], ◌∷◌, Option, none, some, ◌==◌,
  ◌||◌, ==_iff, Bool-cases, inl, inr, if◌then◌else◌, arith,
}
use kappaio.Aps.Model.{find_index, found_at, find_if, exist, remove_if, modify}

module _ {A : Type 0} where
  abbrev pub nth : List A → ℕ → Option A
  nth [] i = none
  nth (x ∷ xs) zero = some x
  nth (x ∷ xs) (suc i) = nth xs i

  abbrev pub is_some : Option A → Bool
  is_some none = false
  is_some (some x) = true

  -- The entry of a map after an element was made if there was none.
  abbrev pub or_new : A → Option A → A
  or_new new none = new
  or_new new (some x) = x

  abbrev pub with_new : A → Option A → List A → List A
  with_new new none xs = new ∷ xs
  with_new new (some x) xs = xs

  abbrev pub update : ℕ → Option A → (ℕ → Option A) → ℕ → Option A
  update i entry f k = if k == i then entry else f k

  pub modify_nothing : (j : ℕ) (xs : List A) → modify j (λ x. x) xs ≡ xs
  unfolding modify
  modify_nothing j [] = refl
  modify_nothing zero (x ∷ xs) = refl
  modify_nothing (suc j) (x ∷ xs) = ap (λ ys. x ∷ ys) (modify_nothing j xs)

  pub is_some-update :
      (i k : ℕ) (x : A) (f : ℕ → Option A)
      → is_some (update i (some x) f k) ≡ ((k == i) || is_some (f k))
  is_some-update i k x f = elim (Bool-cases (k == i)) [ inl e ↦ rw (e) | inr e ↦ rw (e) ]

module _ {A : Type 0} (key : A → ℕ) where
  -- The first element with a key.
  unfoldable pub lookup : ℕ → List A → Option A
  lookup k [] = none
  lookup k (x ∷ xs) = if key x == k then some x else lookup k xs

  -- What `find_index` of a key finds.
  abbrev Changes : ℕ → List A → ℕ → A → Type 0
  Changes i xs j x =
      (f : A → A)
      → key (f x) ≡ i
      → (k : ℕ) → lookup k (modify j f xs) ≡ update i (some (f x)) (λ k. lookup k xs) k

  unfoldable Found : ℕ → List A → Option ℕ → Type 0
  Found i xs none = lookup i xs ≡ none
  Found i xs (some j) = (x : A) × (lookup i xs ≡ some x) × (nth xs j ≡ some x) × Changes i xs j x

  same_key : (x : A) (i k : ℕ) → key x ≡ i → (key x == k) ≡ (k == i)
  same_key x i k same = ground arith

  lookup-own :
      (i k : ℕ) (x : A) (xs : List A)
      → key x ≡ i
      → lookup k (x ∷ xs) ≡ update i (some x) (λ k. lookup k xs) k
  unfolding lookup
  lookup-own i k x xs same = rw (same_key x i k same)

  other_key : (x : A) (i k : ℕ) → (key x == i) ≡ false → key x ≡ k → (k == i) ≡ false
  other_key x i k other e = rw (sym e) other

  change_first : (i : ℕ) (x : A) (xs : List A) → key x ≡ i → Changes i (x ∷ xs) 0 x
  unfolding lookup modify
  change_first i x xs same f keeps k =
      lookup-own i k (f x) xs keeps
      ∙ elim (Bool-cases (k == i)) [ inl e ↦ rw (e) | inr e ↦ rw (e, same_key x i k same ∙ e) ]

  change_later :
      (i j : ℕ) (x y : A) (xs : List A)
      → (key y == i) ≡ false
      → Changes i xs j x
      → Changes i (y ∷ xs) (suc j) x
  unfolding lookup modify
  change_later i j x y xs other changes f keeps k = elim (Bool-cases (key y == k)) [
    | inl e ↦ rw (e, other_key y i k other ((==_iff (key y) k).0 e))
    | inr e ↦ rw (e) (changes f keeps k)
  ]

  found_later :
      (i : ℕ) (y : A) (xs : List A) (rest : Option ℕ)
      → (key y == i) ≡ false
      → Found i xs rest
      → Found i (y ∷ xs) (elim rest [ none ↦ none | some j ↦ some (suc j) ])
  unfolding Found lookup
  found_later i y xs none other h = rw (other) h
  found_later i y xs (some j) other h =
      (h.0, rw (other) h.1, h.2, change_later i j h.0 y xs other h.3)

  found : (i : ℕ) (xs : List A) → Found i xs (find_index (λ x. key x == i) xs)
  unfolding Found find_index lookup
  found i [] = refl
  found i (x ∷ xs) = elim (Bool-cases (key x == i)) [
    | inl same ↦ rw (same) (x, rw (same), refl, change_first i x xs ((==_iff (key x) i).0 same))
    | inr other ↦
        rw (other) (found_later i x xs (find_index (λ x. key x == i) xs) other (found i xs))
  ]

  pub exist-lookup : (i : ℕ) (xs : List A) → exist (λ x. key x == i) xs ≡ is_some (lookup i xs)
  unfolding exist lookup
  exist-lookup i [] = refl
  exist-lookup i (x ∷ xs) = elim (Bool-cases (key x == i)) [
    | inl same ↦ rw (same)
    | inr other ↦ rw (other) (exist-lookup i xs)
  ]

  removed :
      (i k : ℕ) (x : A) (xs : List A)
      → (key x == i) ≡ true
      → update i none (λ k. lookup k xs) k ≡ update i none (λ k. lookup k (x ∷ xs)) k
  unfolding lookup
  removed i k x xs same = elim (Bool-cases (k == i)) [
    | inl e ↦ rw (e)
    | inr e ↦ rw (e, same_key x i k ((==_iff (key x) i).0 same) ∙ e)
  ]

  kept :
      (i k : ℕ) (x : A) (xs rest : List A)
      → (key x == i) ≡ false
      → lookup k rest ≡ update i none (λ k. lookup k xs) k
      → lookup k (x ∷ rest) ≡ update i none (λ k. lookup k (x ∷ xs)) k
  unfolding lookup
  kept i k x xs rest other h = elim (Bool-cases (key x == k)) [
    | inl e ↦ rw (e, other_key x i k other ((==_iff (key x) k).0 e))
    | inr e ↦ rw (e) h
  ]

  pub lookup-remove_if :
      (i k : ℕ) (xs : List A)
      → lookup k (remove_if (λ x. key x == i) xs) ≡ update i none (λ k. lookup k xs) k
  unfolding remove_if lookup
  lookup-remove_if i k [] = ground arith
  lookup-remove_if i k (x ∷ xs) = elim (Bool-cases (key x == i)) [
    | inl same ↦ rw (same) (lookup-remove_if i k xs ∙ removed i k x xs same)
    | inr other ↦
        rw (other) (kept i k x xs (remove_if (λ x. key x == i) xs) other (lookup-remove_if i k xs))
  ]

  -- The element that a reference refers to, and what is found after a change through it.
  module _ (new : A) (i : ℕ) (xs : List A) where
    abbrev reference : List A × ℕ
    reference = find_if (λ x. key x == i) new xs

    abbrev entry : A
    entry = or_new new (lookup i xs)

    cases :
        (o : Option ℕ)
        → Found i xs o
        → (nth (found_at new xs o).0 (found_at new xs o).1 ≡ some entry)
          × ((f : A → A)
              → key (f entry) ≡ i
              → (k : ℕ)
              → lookup k (modify (found_at new xs o).1 f (found_at new xs o).0)
                ≡ update i (some (f entry)) (λ k. lookup k xs) k)
    unfolding Found found_at modify
    cases none h = (rw (h), λ f keeps k. rw (h) (lookup-own i k (f new) xs (rw (h) at keeps)))
    cases (some j) h = (rw (h.1) h.2, λ f keeps k. rw (h.1) (h.3 f (rw (h.1) at keeps) k))

    list_cases :
        (o : Option ℕ) → Found i xs o → (found_at new xs o).0 ≡ with_new new (lookup i xs) xs
    unfolding Found found_at
    list_cases none h = rw (h)
    list_cases (some j) h = rw (h.1)

    pub nth-reference : nth reference.0 reference.1 ≡ some entry
    unfolding find_if
    nth-reference = (cases (find_index (λ x. key x == i) xs) (found i xs)).0

    pub list-reference : reference.0 ≡ with_new new (lookup i xs) xs
    unfolding find_if
    list-reference = list_cases (find_index (λ x. key x == i) xs) (found i xs)

    missing_cases :
        (o : Option ℕ) → Found i xs o → lookup i xs ≡ none → found_at new xs o ≡ (new ∷ xs, 0)
    unfolding Found found_at
    missing_cases none h e = refl
    missing_cases (some j) h e = ground (arith, sym (h.1) ∙ e)

    pub reference-missing : lookup i xs ≡ none → reference ≡ (new ∷ xs, 0)
    unfolding find_if
    reference-missing = missing_cases (find_index (λ x. key x == i) xs) (found i xs)

    pub lookup-modify :
        (f : A → A)
        → key (f entry) ≡ i
        → (k : ℕ)
        → lookup k (modify reference.1 f reference.0)
          ≡ update i (some (f entry)) (λ k. lookup k xs) k
    unfolding find_if
    lookup-modify = (cases (find_index (λ x. key x == i) xs) (found i xs)).1

  pub key-or_new :
      (new : A) (i : ℕ) (xs : List A) → key new ≡ i → key (or_new new (lookup i xs)) ≡ i
  unfolding lookup
  key-or_new new i [] keyed = keyed
  key-or_new new i (x ∷ xs) keyed = elim (Bool-cases (key x == i)) [
    | inl same ↦ rw (same) ((==_iff (key x) i).0 same)
    | inr other ↦ rw (other) (key-or_new new i xs keyed)
  ]

  pub lookup-reference :
      (new : A) (i : ℕ) (xs : List A)
      → key new ≡ i
      → (k : ℕ)
      → lookup k (find_if (λ x. key x == i) new xs).0
        ≡ update i (some (or_new new (lookup i xs))) (λ k. lookup k xs) k
  lookup-reference new i xs keyed k =
      ap (lookup k) (sym (modify_nothing found.1 found.0))
      ∙ lookup-modify new i xs (λ x. x) (key-or_new new i xs keyed) k
    where
      found : List A × ℕ
      found = find_if (λ x. key x == i) new xs
