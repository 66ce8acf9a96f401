-- ===== src/Rest/Widgets/Post.antt =====
-- A widget that is posted is registered once, and is found.
use Prim.Native.String.{String}
use kappaio.Common.{
  ◌≡◌, subst, refl, ap, ap₂, sym, ◌∙◌, Bool, true, false, ◌&&◌, Option, none, some, List, [], ◌∷◌,
  ◌++◌, if◌then◌else◌, Bool-cases, inl, inr,
}
use kappaio.Common.Words.{All}
use kappaio.Common.Dicts.{lookup, str_eq_refl}
use kappaio.Rest.Request.{Request, Context}
use kappaio.Rest.Widgets.{
  Widget, RegistryFile, list_of, text_of, agrees, agree_all, matches, exists_match, one, minus_one,
  Response, posted, by_method, widget_registry, with_content, load_loop, widget_load,
}
use kappaio.Rest.Widgets.Laws.{list_after, list_after-method}

agrees_self : (param : Widget) (o : Option String) → agrees (text_of o) param o ≡ true
unfolding agrees text_of
agrees_self param none = refl
agrees_self param (some s) = str_eq_refl s

agree_all_self : (keys param : Widget) → agree_all keys param param ≡ true
unfolding agree_all
agree_all_self [] param = refl
agree_all_self ((k, v) ∷ keys) param =
    ap₂ ◌&&◌ (agree_all_self keys param) (agrees_self param (lookup k param))

matches_self : (param : Widget) → matches param param ≡ true
unfolding matches
matches_self param = agree_all_self param param

exists_match-append :
    {A : Type 0} (p : A → Bool) (xs : List A) (x : A)
    → p x ≡ true
    → exists_match p (xs ++ (x ∷ [])) ≡ true
unfolding exists_match
exists_match-append p [] x h = rw h refl
exists_match-append p (y ∷ xs) x h = elim (Bool-cases (p y)) [
  | inl hit ↦ rw hit refl
  | inr miss ↦ rw miss (exists_match-append p xs x h)
]

posted-exists_match :
    (param : Widget) (list : List Widget) → exists_match (matches param) (posted param list) ≡ true
unfolding posted
posted-exists_match param list = elim (Bool-cases (exists_match (matches param) list)) [
  | inl there ↦ rw (there, there) refl
  | inr new ↦ rw new (exists_match-append (matches param) list param (matches_self param))
]

posted-again :
    (param : Widget) (list : List Widget) → posted param (posted param list) ≡ posted param list
unfolding posted
posted-again param list = present (posted param list) (posted-exists_match param list)
  where
    present : (xs : List Widget) → exists_match (matches param) xs ≡ true → posted param xs ≡ xs
    present xs h = rw h refl

-- The response names an entry that matches.
abbrev pub Names : (String → Option String) → (Widget → Bool) → Response → Type 0
Names encode_dir p rsp =
    (rsp.status ≡ one)
    × ((entry : Widget) × (p entry ≡ true)
        × (rsp.result
            ≡ some (with_content (encode_dir (text_of (lookup "root" entry))) entry ∷ [])))

module _ (encode_dir : String → Option String) (p : Widget → Bool) where
  abbrev named : Widget → Response
  named entry = record {
    status = one;
    result = some (with_content (encode_dir (text_of (lookup "root" entry))) entry ∷ []);
    err = none;
  }

  -- A turn whose test is known.
  turned :
      (entry : Widget) (list : List Widget) (rsp : Response) (b : Bool)
      → p entry ≡ b
      → Names encode_dir p (load_loop encode_dir p list (if b then named entry else rsp))
      → Names encode_dir p (load_loop encode_dir p (entry ∷ list) rsp)
  unfolding load_loop
  turned entry list rsp b e =
      subst (λ t. Names encode_dir p (load_loop encode_dir p list (if t then named entry else rsp)))
        (sym e)

  load_loop-keeps :
      (list : List Widget) (rsp : Response)
      → Names encode_dir p rsp
      → Names encode_dir p (load_loop encode_dir p list rsp)
  unfolding load_loop
  load_loop-keeps [] rsp h = h
  load_loop-keeps (entry ∷ list) rsp h = elim (Bool-cases (p entry)) [
    | inl hit ↦
        turned entry list rsp true hit
          (load_loop-keeps list (named entry) (refl, (entry, hit, refl)))
    | inr miss ↦ turned entry list rsp false miss (load_loop-keeps list rsp h)
  ]

  load_loop-finds :
      (list : List Widget) (rsp : Response)
      → exists_match p list ≡ true
      → Names encode_dir p (load_loop encode_dir p list rsp)
  unfolding load_loop exists_match
  load_loop-finds [] rsp h = absurd (cc)
  load_loop-finds (entry ∷ list) rsp h = elim (Bool-cases (p entry)) [
    | inl hit ↦
        turned entry list rsp true hit
          (load_loop-keeps list (named entry) (refl, (entry, hit, refl)))
    | inr miss ↦ turned entry list rsp false miss (load_loop-finds list rsp (rw miss at h))
  ]

  -- An entry at the end that matches is the one that is named.
  load_loop-last :
      (list : List Widget) (entry : Widget) (rsp : Response)
      → p entry ≡ true
      → load_loop encode_dir p (list ++ (entry ∷ [])) rsp ≡ named entry
  unfolding load_loop
  load_loop-last [] entry rsp h = rw h refl
  load_loop-last (x ∷ list) entry rsp h = load_loop-last list entry (if p x then named x else rsp) h

posted-new :
    (param : Widget) (list : List Widget)
    → exists_match (matches param) list ≡ false
    → posted param list ≡ list ++ (param ∷ [])
unfolding posted
posted-new param list new = rw new refl

posted-there :
    (param : Widget) (list : List Widget)
    → exists_match (matches param) list ≡ true
    → posted param list ≡ list
unfolding posted
posted-there param list there = rw there refl

-- No entry agrees with the parameter in the keys that both have.
abbrev pub IsNew : Widget → List Widget → Type 0
IsNew param list = All (λ entry. matches param entry ≡ false) list

new-exists_match :
    (param : Widget) (list : List Widget)
    → IsNew param list
    → exists_match (matches param) list ≡ false
unfolding exists_match
new-exists_match param [] h = refl
new-exists_match param (entry ∷ list) h = rw h.0 (new-exists_match param list h.1)

by_method-post :
    (param : Widget) (list : List Widget) → (by_method "POST" param list).0 ≡ posted param list
unfolding by_method
by_method-post param list = refl

-- A POST, whatever the file holds. If an entry of the registry agrees with the parameter in the keys that both have, the
-- registry stays as it is; if none does, the parameter itself is put behind what is there, and a load with the
-- same parameter gives just this entry, with its archive, if there is one. The same POST after it changes nothing.
-- In any case such a load succeeds: its result is an entry that agrees with the parameter in this way, with its
-- archive, if there is one.
pub widget_registry-post :
    (encode_dir : String → Option String) (file : RegistryFile) (c again load : Context Response)
    (req : Request)
    → c.request ≡ some req
    → req.method ≡ "POST"
    → again.request ≡ c.request
    → again.parameter ≡ c.parameter
    → load.parameter ≡ c.parameter
    → (exists_match (matches c.parameter) (list_of file) ≡ true → list_after file c ≡ list_of file)
      × (IsNew c.parameter (list_of file)
          → (list_after file c ≡ list_of file ++ (c.parameter ∷ []))
            × ((widget_load encode_dir (widget_registry file c).0 load).1.response
                ≡ some (record {
                  status = one;
                  result = some (
                      with_content (encode_dir (text_of (lookup "root" c.parameter))) c.parameter
                      ∷ []);
                  err = none;
                })))
      × (list_after (widget_registry file c).0 again ≡ list_after file c)
      × ((rsp : Response) × ((widget_load encode_dir (widget_registry file c).0 load).1.response
            ≡ some rsp)
          × Names encode_dir (matches c.parameter) rsp)
unfolding widget_load
widget_registry-post encode_dir file c again load req e m same_request same_parameter
      load_parameter =
    let list = list_of file in
    let file' = (widget_registry file c).0 in
    let post : (d : Context Response) (f : RegistryFile)
        → d.request ≡ some req
        → list_after f d ≡ posted d.parameter (list_of f) =
      λ d f h.
        list_after-method f d req h
        ∙ ap (λ s. (by_method s d.parameter (list_of f)).0) m
        ∙ by_method-post d.parameter (list_of f) in
    let first = post c file e in
    (
      (λ there. first ∙ posted-there c.parameter list there),
      (λ new.
          let put = first ∙ posted-new c.parameter list (new-exists_match c.parameter list new) in
          (
            put,
            ap some (
                rw load_parameter (
                  ap (λ xs. load_loop encode_dir (matches c.parameter) xs no_entry) put
                  ∙ load_loop-last encode_dir (matches c.parameter) list c.parameter no_entry
                      (matches_self c.parameter))),
          )),
      post again file' (same_request ∙ e)
          ∙ ap₂ posted same_parameter first
          ∙ posted-again c.parameter list
          ∙ sym first,
      (
        load_loop encode_dir (matches load.parameter) (list_of file') no_entry,
        refl,
        rw load_parameter (
            load_loop-finds encode_dir (matches c.parameter) (list_of file') no_entry (
              ap (exists_match (matches c.parameter)) first
              ∙ posted-exists_match c.parameter list)),
      ),
    )
  where
    no_entry : Response
    no_entry = record { status = minus_one; result = none; err = none }
