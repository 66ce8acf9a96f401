-- ===== src/Rest/Widgets/Laws.antt =====
-- What DELETE, POST and the loading of a widget do to the registry.
use kappaio.Common.{
  ℕ, zero, suc, ◌+◌, ◌≤◌, ◌≡◌, ◌≢◌, refl, ap, ap₂, sym, ◌∙◌, Bool, true, false, ◌&&◌, some, List,
  [], ◌∷◌, ◌++◌, get_or, length, length-append, append_assoc, if◌then◌else◌, Bool-cases, inl, inr,
  le→ltb, lt→ltb, arith,
}
use kappaio.Rest.Request.{Request, Context}
use kappaio.Rest.Widgets.{
  Widget, RegistryFile, list_of, matches, erase, delete_loop, Response, method_of, deleted,
  by_method, widget_registry,
}

module _ {A : Type 0} (p : A → Bool) where
  -- What the loop of DELETE leaves: an element behind one that goes is not looked at.
  unfoldable pub survivors : Bool → List A → List A
  survivors spared [] = []
  survivors true (x ∷ xs) = x ∷ survivors false xs
  survivors false (x ∷ xs) =
      let behind = survivors true xs in
      let kept = x ∷ survivors false xs in if p x then behind else kept

  -- The elements that `p` does not hold of.
  unfoldable pub others : List A → List A
  others [] = []
  others (x ∷ xs) = let rest = others xs in if p x then rest else x ∷ rest

  -- It does not hold of two neighbours.
  abbrev pub Apart : List A → Type 0
  Apart [] = Unit
  Apart (x ∷ []) = Unit
  Apart (x ∷ y ∷ ys) = ((p x && p y) ≡ false) × Apart (y ∷ ys)

  others-survivors : (b : Bool) (xs : List A) → others (survivors b xs) ≡ others xs
  unfolding others survivors
  others-survivors true [] = refl
  others-survivors false [] = refl
  others-survivors true (x ∷ xs) = ap (λ r. if p x then r else x ∷ r) (others-survivors false xs)
  others-survivors false (x ∷ xs) = elim (Bool-cases (p x)) [
    | inl hit ↦ rw hit (others-survivors true xs)
    | inr miss ↦ rw miss (rw miss (ap (◌∷◌ x) (others-survivors false xs)))
  ]

  Apart-tail : (x : A) (xs : List A) → Apart (x ∷ xs) → Apart xs
  Apart-tail x [] h = tt
  Apart-tail x (y ∷ ys) h = h.1

  survivors-Apart : (xs : List A) → Apart xs → survivors false xs ≡ others xs
  unfolding others survivors
  survivors-Apart [] h = refl
  survivors-Apart (x ∷ []) h = elim (Bool-cases (p x)) [
    | inl hit ↦ rw hit refl
    | inr miss ↦ rw miss refl
  ]
  survivors-Apart (x ∷ y ∷ ys) h = elim (Bool-cases (p x)) [
    | inl hit ↦
        rw (hit, second (p x) (p y) hit h.0) (ap (◌∷◌ y) (survivors-Apart ys (Apart-tail y ys h.1)))
    | inr miss ↦ rw miss (ap (◌∷◌ x) (survivors-Apart (y ∷ ys) h.1))
  ]
    where
      second : (a b : Bool) → a ≡ true → (a && b) ≡ false → b ≡ false
      second a b e f = ground arith

module _ {A : Type 0} (p : A → Bool) (d : A) where
  get_or-here : (pre xs : List A) (x : A) → get_or (pre ++ (x ∷ xs)) (length pre) d ≡ x
  get_or-here [] xs x = refl
  get_or-here (y ∷ pre) xs x = get_or-here pre xs x

  erase-here : (pre xs : List A) (x : A) → erase (length pre) (pre ++ (x ∷ xs)) ≡ pre ++ xs
  unfolding erase
  erase-here [] xs x = refl
  erase-here (y ∷ pre) xs x = ap (◌∷◌ y) (erase-here pre xs x)

  loop-past : (n i : ℕ) (list : List A) → length list ≤ i → delete_loop p d n i list ≡ list
  unfolding delete_loop
  loop-past zero i list h = refl
  loop-past (suc n) i list h = rw (le→ltb i (length list) h) refl

  loop-turn :
      (n : ℕ) (pre xs : List A) (x : A)
      → delete_loop p d (suc n) (length pre) (pre ++ (x ∷ xs))
        ≡ delete_loop p d n (length pre + 1) (if p x then pre ++ xs else pre ++ (x ∷ xs))
  unfolding delete_loop
  loop-turn n pre xs x =
      rw
        (lt→ltb (length pre) (length (pre ++ (x ∷ xs))) (omega (arith, length-append pre (x ∷ xs))))
        (rw (get_or-here pre xs x, erase-here pre xs x) refl)

  -- The loop behind an element that stays.
  behind :
      (n : ℕ) (pre xs : List A) (x : A) (rest : List A)
      → delete_loop p d n (length (pre ++ (x ∷ []))) ((pre ++ (x ∷ [])) ++ xs)
        ≡ (pre ++ (x ∷ [])) ++ rest
      → delete_loop p d n (length pre + 1) (pre ++ (x ∷ xs)) ≡ pre ++ (x ∷ rest)
  behind n pre xs x rest h =
      ap₂ (delete_loop p d n) (sym (length-append pre (x ∷ [])))
        (sym (append_assoc pre (x ∷ []) xs))
      ∙ h
      ∙ append_assoc pre (x ∷ []) rest

  delete_loop-survivors :
      (xs pre : List A) (n : ℕ)
      → length xs ≤ n
      → delete_loop p d n (length pre) (pre ++ xs) ≡ pre ++ survivors p false xs
  unfolding survivors
  delete_loop-survivors [] pre n h =
      loop-past n (length pre) (pre ++ []) (omega (arith, length-append {0} pre []))
  delete_loop-survivors (x ∷ xs) pre zero h = absurd (omega arith)
  delete_loop-survivors (x ∷ []) pre (suc n) h = elim (Bool-cases (p x)) [
    | inl hit ↦
        loop-turn n pre [] x
        ∙ rw hit
            (loop-past n (length pre + 1) (pre ++ []) (omega (arith, length-append {0} pre [])))
    | inr miss ↦
        loop-turn n pre [] x
        ∙ rw miss
            (behind n pre [] x [] (delete_loop-survivors [] (pre ++ (x ∷ [])) n (omega arith)))
  ]
  delete_loop-survivors (x ∷ y ∷ ys) pre (suc n) h = elim (Bool-cases (p x)) [
    | inl hit ↦
        loop-turn n pre (y ∷ ys) x
        ∙ rw hit (
            behind n pre ys y (survivors p false ys)
              (delete_loop-survivors ys (pre ++ (y ∷ [])) n (omega arith)))
    | inr miss ↦
        loop-turn n pre (y ∷ ys) x
        ∙ rw miss (
            behind n pre (y ∷ ys) x (survivors p false (y ∷ ys))
              (delete_loop-survivors (y ∷ ys) (pre ++ (x ∷ [])) n (omega arith)))
  ]

-- The registry after a request.
abbrev pub list_after : RegistryFile → Context Response → List Widget
list_after file c = list_of (widget_registry file c).0

pub list_after-method :
    (file : RegistryFile) (c : Context Response) (req : Request)
    → c.request ≡ some req
    → list_after file c ≡ (by_method req.method c.parameter (list_of file)).0
unfolding widget_registry list_of method_of
list_after-method file c req e = rw e refl

by_method-delete :
    (param : Widget) (list : List Widget) → (by_method "DELETE" param list).0 ≡ deleted param list
unfolding by_method
by_method-delete param list = refl

deleted_lem :
    (param : Widget) (list : List Widget)
    → param ≢ []
    → deleted param list ≡ survivors (matches param) false list
unfolding deleted
deleted_lem [] list given = absurd (given refl)
deleted_lem ((k, v) ∷ param) list given =
    delete_loop-survivors (matches ((k, v) ∷ param)) [] list [] (length list) (omega arith)

-- DELETE with a parameter that is empty leaves an empty registry. With one that is not, every entry that does not
-- match it stays, in its place in the order; of those that match, one goes unless the one in front of it has gone,
-- so all go if no two neighbours match.
pub widget_registry-delete :
    (file : RegistryFile) (c : Context Response) (req : Request)
    → c.request ≡ some req
    → req.method ≡ "DELETE"
    → (c.parameter ≡ [] → list_after file c ≡ [])
      × (c.parameter ≢ []
          → (list_after file c ≡ survivors (matches c.parameter) false (list_of file))
            × (others (matches c.parameter) (list_after file c)
                ≡ others (matches c.parameter) (list_of file))
            × (Apart (matches c.parameter) (list_of file)
                → list_after file c ≡ others (matches c.parameter) (list_of file)))
unfolding deleted
widget_registry-delete file c req e m =
    let p = matches c.parameter in
    let list = list_of file in
    let step : list_after file c ≡ deleted c.parameter list =
      list_after-method file c req e
      ∙ ap (λ s. (by_method s c.parameter list).0) m
      ∙ by_method-delete c.parameter list in
    (
      λ none_given. step ∙ ap (λ q. deleted q list) none_given,
      λ given.
          let left = step ∙ deleted_lem c.parameter list given in
          (
            left,
            ap (others p) left ∙ others-survivors p false list,
            λ apart. left ∙ survivors-Apart p list apart,
          ),
    )
