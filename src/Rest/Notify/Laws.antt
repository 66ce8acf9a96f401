-- ===== src/Rest/Notify/Laws.antt =====
-- Which handler is called.
use text.Mathlib.TextEquality.{eq_iff}
use Prim.Native.String.{String}
use kappaio.Common.{
  ◌≡◌, refl, ap, ap₂, ◌∙◌, and_true, ◌&&◌, some, if◌then◌else◌, Bool-cases, inl, inr, arith,
}
use kappaio.Common.Dicts.{Dict, lookup, insert, lookup-insert, str_eq}
use kappaio.Rest.Notify.{Repository, found_or_empty, container, put_container, handler, trigger}

module _ {F : Type 0} where
  container-put :
      (event uri e u : String) (h : Dict F) (repo : Repository F)
      → container e u (put_container event uri h repo)
        ≡ (if str_eq event e && str_eq uri u then h else container e u repo)
  unfolding container put_container found_or_empty
  container-put event uri e u h repo =
      let inner = insert uri h (found_or_empty (lookup event repo)) in
      elim (Bool-cases (str_eq event e)) [
        | inl same ↦
            rw (lookup-insert event e inner repo, same)
              (rw (lookup-insert uri u h (found_or_empty (lookup event repo)))
                (rw ((eq_iff event e).0 same) (ground arith)))
        | inr other ↦ rw (lookup-insert event e inner repo, other) refl
      ]

  -- A registration replaces the handler of its event, URI and type, and no other.
  pub trigger-handler :
      (event uri type e u t : String) (function : F) (repo : Repository F)
      → (trigger e u t (handler event uri type function repo)).0 ≡ (
          if (str_eq event e && str_eq uri u) && str_eq type t
          then some function
          else (trigger e u t repo).0)
  unfolding trigger handler
  trigger-handler event uri type e u t function repo =
      rw (container-put event uri e u (insert type function (container event uri repo)) repo)
        (elim (Bool-cases (str_eq event e && str_eq uri u)) [
          | inl same ↦
              let at_key = and_true (str_eq event e) (str_eq uri u) same in
              rw (same, lookup-insert type t function (container event uri repo))
                (ap (λ c. if str_eq type t then some function else lookup t c)
                  (ap₂ (λ a b. container a b repo) ((eq_iff event e).0 at_key.0)
                    ((eq_iff uri u).0 at_key.1)))
          | inr other ↦ rw other refl
        ])

  -- A trigger changes no later one.
  pub trigger-trigger :
      (event uri type e u t : String) (repo : Repository F)
      → (trigger e u t (trigger event uri type repo).1).0 ≡ (trigger e u t repo).0
  unfolding trigger
  trigger-trigger event uri type e u t repo =
      ap (lookup t) (container-put event uri e u (container event uri repo) repo ∙ same)
    where
      same :
          (if str_eq event e && str_eq uri u then container event uri repo else container e u repo)
          ≡ container e u repo
      same = elim (Bool-cases (str_eq event e && str_eq uri u)) [
        | inl h ↦
            let at_key = and_true (str_eq event e) (str_eq uri u) h in
            rw h (
              ap₂ (λ a b. container a b repo) ((eq_iff event e).0 at_key.0)
                ((eq_iff uri u).0 at_key.1))
        | inr h ↦ rw h refl
      ]
