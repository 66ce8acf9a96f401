-- ===== src/Bus/Objects.antt =====
-- The list of objects under additions, refreshers and resets.
use Prim.Native.String.{String}
use mathlib.Core.Option
use kappaio.Common.{
  ℕ, zero, suc, ◌+◌, ◌<◌, ◌≡◌, refl, ap, ap₂, sym, ◌∙◌, subst, Bool, true, false, ◌||◌, Option,
  some, List, [], ◌∷◌, ◌++◌, map, length, append_assoc, append-nil, ◌==◌, if◌then◌else◌, Bool-cases,
  inl, inr, arith,
}
use kappaio.Bus.{
  Kind, struc, array, KbData, get_elem?, change, store_value, is_live, add_to, reset_to, add_values,
  refreshed, refresh_all, reset_kb_data, any_freed,
}

module _ {A : Type 0} where
  pub get_elem?-change :
      (j i : ℕ) (f : A → A) (xs : List A)
      → get_elem? (change j f xs) i
        ≡ (if j == i then Option.map f (get_elem? xs i) else get_elem? xs i)
  unfolding change
  get_elem?-change j i f [] = ground arith
  get_elem?-change zero zero f (x ∷ xs) = refl
  get_elem?-change zero (suc i) f (x ∷ xs) = ground arith
  get_elem?-change (suc j) zero f (x ∷ xs) = ground arith
  get_elem?-change (suc j) (suc i) f (x ∷ xs) = get_elem?-change j i f xs ∙ ground arith

  pub length-change : (j : ℕ) (f : A → A) (xs : List A) → length (change j f xs) ≡ length xs
  unfolding change
  length-change j f [] = refl
  length-change zero f (x ∷ xs) = refl
  length-change (suc j) f (x ∷ xs) = ap suc (length-change j f xs)

  pub get_elem?-map :
      {B : Type 0} (f : A → B) (xs : List A) (i : ℕ)
      → get_elem? (map f xs) i ≡ Option.map f (get_elem? xs i)
  get_elem?-map f [] i = refl
  get_elem?-map f (x ∷ xs) zero = refl
  get_elem?-map f (x ∷ xs) (suc i) = get_elem?-map f xs i

  pub length-map : {B : Type 0} (f : A → B) (xs : List A) → length (map f xs) ≡ length xs
  length-map f [] = refl
  length-map f (x ∷ xs) = ap suc (length-map f xs)

module _ {J : Type 0} where
  pub store_value-freed :
      (name : String) (value : J) (d : KbData J) → (store_value name value d).freed ≡ d.freed
  unfolding store_value add_to
  store_value-freed name value d = by_kind d.kind
    where
      by_kind : (k : Kind) → (add_to k name value d).freed ≡ d.freed
      by_kind struc = refl
      by_kind array = refl

  pub any_freed-change :
      (f : KbData J → KbData J)
      → ((d : KbData J) → (f d).freed ≡ d.freed)
      → (j : ℕ) (ds : List (KbData J)) → any_freed (change j f ds) ≡ any_freed ds
  unfolding any_freed change
  any_freed-change f same j [] = refl
  any_freed-change f same zero (d ∷ ds) = ap (λ b. b || any_freed ds) (same d)
  any_freed-change f same (suc j) (d ∷ ds) = ap (λ b. d.freed || b) (any_freed-change f same j ds)

  pub any_freed-map :
      (f : KbData J → KbData J)
      → ((d : KbData J) → (f d).freed ≡ d.freed)
      → (ds : List (KbData J)) → any_freed (map f ds) ≡ any_freed ds
  unfolding any_freed
  any_freed-map f same [] = refl
  any_freed-map f same (d ∷ ds) = ap₂ ◌||◌ (same d) (any_freed-map f same ds)

  pub reset_kb_data-freed : (d : KbData J) → (reset_kb_data d).freed ≡ d.freed
  unfolding reset_kb_data reset_to
  reset_kb_data-freed d = by_kind d.kind
    where
      by_kind : (k : Kind) → (reset_to k d).freed ≡ d.freed
      by_kind struc = refl
      by_kind array = refl

  add_values-freed :
      (values : List (String × J)) (d : KbData J) → (add_values values d).freed ≡ d.freed
  unfolding add_values
  add_values-freed [] d = refl
  add_values-freed ((name, value) ∷ values) d =
      add_values-freed values (store_value name value d) ∙ store_value-freed name value d

  refreshed-freed :
      (values : List (String × J)) (d : KbData J) → (refreshed values d).freed ≡ d.freed
  unfolding refreshed
  refreshed-freed values d = chosen d.auto_refresh
    where
      chosen : (b : Bool) → (if b then add_values values d else d).freed ≡ d.freed
      chosen true = add_values-freed values d
      chosen false = refl

  pub any_freed-refresh_all :
      (fresh : ℕ → List (String × J)) (k : ℕ) (ds : List (KbData J))
      → any_freed (refresh_all fresh k ds) ≡ any_freed ds
  unfolding any_freed refresh_all
  any_freed-refresh_all fresh k [] = refl
  any_freed-refresh_all fresh k (d ∷ ds) =
      ap₂ ◌||◌ (refreshed-freed (fresh k) d) (any_freed-refresh_all fresh (k + 1) ds)

  pub get_elem?-refresh_all :
      (fresh : ℕ → List (String × J)) (k i : ℕ) (ds : List (KbData J))
      → get_elem? (refresh_all fresh k ds) i
        ≡ Option.map (refreshed (fresh (k + i))) (get_elem? ds i)
  unfolding refresh_all
  get_elem?-refresh_all fresh k i [] = refl
  get_elem?-refresh_all fresh k zero (d ∷ ds) = ap (λ n. some (refreshed (fresh n) d)) (omega arith)
  get_elem?-refresh_all fresh k (suc i) (d ∷ ds) =
      get_elem?-refresh_all fresh (k + 1) i ds
      ∙ ap (λ n. Option.map (refreshed (fresh n)) (get_elem? ds i)) (omega arith)

  pub length-refresh_all :
      (fresh : ℕ → List (String × J)) (k : ℕ) (ds : List (KbData J))
      → length (refresh_all fresh k ds) ≡ length ds
  unfolding refresh_all
  length-refresh_all fresh k [] = refl
  length-refresh_all fresh k (d ∷ ds) = ap suc (length-refresh_all fresh (k + 1) ds)

  -- Data that is there and not freed can be used.
  pub live :
      (ds : List (KbData J)) (i : ℕ)
      → any_freed ds ≡ false
      → i < length ds
      → is_live (get_elem? ds i) ≡ true
  unfolding any_freed is_live
  live [] i h k = absurd (omega arith)
  live (d ∷ ds) zero h k = elim (Bool-cases d.freed) [
    | inl freed ↦ absurd (freed_first d.freed (any_freed ds) freed h)
    | inr good ↦ rw good refl
  ]
    where
      freed_first : (a b : Bool) → a ≡ true → (a || b) ≡ false → ⊥
      freed_first a b e f = ground arith
  live (d ∷ ds) (suc i) h k = live ds i (rest d.freed (any_freed ds) h) (omega arith)
    where
      rest : (a b : Bool) → (a || b) ≡ false → b ≡ false
      rest a b e = ground arith

  -- An array with these items, and whether it has a refresher.
  pub record IsArray (o : Option (KbData J)) (xs : List J) (auto : Bool) : Type 0 where
    pub at : KbData J
    pub there : o ≡ some at
    pub is_array : at.kind ≡ array
    pub holds : at.items ≡ xs
    pub refreshes : at.auto_refresh ≡ auto

  pub store_value-IsArray :
      {o : Option (KbData J)} {xs : List J} {auto : Bool} (name : String) (value : J)
      → IsArray o xs auto
      → IsArray (Option.map (store_value name value) o) (xs ++ (value ∷ [])) auto
  unfolding store_value add_to
  store_value-IsArray {o} {xs} {auto} name value a = record {
    at = record a.at { items = a.at.items ++ (value ∷ []) };
    there = ap (Option.map (store_value name value)) a.there ∙ ap some added;
    is_array = a.is_array;
    holds = ap (λ ys. ys ++ (value ∷ [])) a.holds;
    refreshes = a.refreshes;
  }
    where
      added : store_value name value a.at ≡ record a.at { items = a.at.items ++ (value ∷ []) }
      added = ap (λ k. add_to k name value a.at) a.is_array

  abbrev pub values_of : List (String × J) → List J
  values_of [] = []
  values_of ((name, value) ∷ values) = value ∷ values_of values

  add_values-IsArray :
      (values : List (String × J)) (d : KbData J) (xs : List J) (auto : Bool)
      → IsArray (some d) xs auto
      → IsArray (some (add_values values d)) (xs ++ values_of values) auto
  unfolding add_values
  add_values-IsArray [] d xs auto a = subst (λ ys. IsArray (some d) ys auto) (sym (append-nil xs)) a
  add_values-IsArray ((name, value) ∷ values) d xs auto a =
      subst (λ ys. IsArray (some (add_values values (store_value name value d))) ys auto)
        (append_assoc xs (value ∷ []) (values_of values))
        (add_values-IsArray values (store_value name value d) (xs ++ (value ∷ [])) auto
          (store_value-IsArray name value a))

  -- What a refresher adds.
  abbrev pub from_refresher : Bool → List (String × J) → List J
  from_refresher auto values = if auto then values_of values else []

  pub refreshed-IsArray :
      {o : Option (KbData J)} {xs : List J} {auto : Bool} (values : List (String × J))
      → IsArray o xs auto
      → IsArray (Option.map (refreshed values) o) (xs ++ from_refresher auto values) auto
  unfolding refreshed
  refreshed-IsArray {o} {xs} {auto} values a =
      subst (λ p. IsArray p (xs ++ from_refresher auto values) auto)
        (sym (
          ap (Option.map (refreshed values)) a.there
          ∙ ap (λ b. some (if b then add_values values a.at else a.at)) a.refreshes))
        (chosen auto a.refreshes)
    where
      own : (b : Bool) → a.at.auto_refresh ≡ b → IsArray (some a.at) xs b
      own b e = record {
        at = a.at;
        there = refl;
        is_array = a.is_array;
        holds = a.holds;
        refreshes = e;
      }

      chosen :
          (b : Bool)
          → a.at.auto_refresh ≡ b
          → IsArray
              (some (if b then add_values values a.at else a.at))
              (xs ++ from_refresher b values)
              b
      chosen true e = add_values-IsArray values a.at xs true (own true e)
      chosen false e =
          subst (λ ys. IsArray (some a.at) ys false) (sym (append-nil xs)) (own false e)

  pub reset_kb_data-IsArray :
      {o : Option (KbData J)} {xs : List J} {auto : Bool}
      → IsArray o xs auto
      → IsArray (Option.map reset_kb_data o) [] auto
  unfolding reset_kb_data reset_to
  reset_kb_data-IsArray {o} {xs} {auto} a = record {
    at = record a.at { items = [] };
    there = ap (Option.map reset_kb_data) a.there ∙ ap (λ k. some (reset_to k a.at)) a.is_array;
    is_array = a.is_array;
    holds = refl;
    refreshes = a.refreshes;
  }
