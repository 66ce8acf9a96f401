-- ===== src/Rest/Request/Laws.antt =====
-- What a request is answered.
use Prim.Native.String.{String}
use text.Mathlib.TextEquality.{eq_iff}
use kappaio.Common.{
  ◌≡◌, refl, ap, ◌∙◌, Bool, false, ◌&&◌, Option, none, some, List, [], ◌∷◌, get_or, if◌then◌else◌,
  Bool-cases, inl, inr,
}
use kappaio.Common.Words.{All}
use kappaio.Common.Dicts.{lookup, str_eq, str_eq_refl}
use kappaio.Rest.Notify.{Repository, container, handler, trigger}
use kappaio.Rest.Notify.Laws.{trigger-handler}
use kappaio.Rest.Request.{
  Request, Context, ContextHandler, context_type, event_tag, joined_path, pop_back, new_context,
  place_of, with_context, Served, called, serve, serve_at, handle_restful,
}

module _ {R : Type 0} where
  -- The response that a URI had last.
  unfoldable pub last_response : String → List (Context R) → Option R
  last_response uri [] = none
  last_response uri (c ∷ cs) = if str_eq c.uri uri then c.response else last_response uri cs

  -- The context that a handler of the URI is given.
  abbrev pub context_for : String → Request → List (Context R) → Context R
  context_for uri req cs = record {
    uri = uri;
    parameter = req.parameter;
    request = some req;
    response = last_response uri cs;
  }

  context_found :
      (uri : String) (req : Request) (cs : List (Context R))
      → record (get_or (with_context uri cs) (place_of uri cs) (new_context uri)) {
        parameter = req.parameter;
        request = some req;
      }
        ≡ context_for uri req cs
  unfolding with_context place_of new_context last_response
  context_found uri req [] = refl
  context_found uri req (c ∷ cs) = elim (Bool-cases (str_eq c.uri uri)) [
    | inl same ↦ rw same (ap (λ u. at u c) ((eq_iff c.uri uri).0 same))
    | inr other ↦ rw other (context_found uri req cs)
  ]
    where
      at : String → Context R → Context R
      at u d = record d { uri = u; parameter = req.parameter; request = some req }

module _ {W R : Type 0} where
  serve-response :
      (uri : String) (req : Request) (w : W) (cs : List (Context R))
      (routes : Repository (ContextHandler W R))
      → ((serve uri req w cs routes).response
          ≡ (called
              (trigger event_tag uri context_type routes).0
              w
              (context_for uri req cs)).1.response)
        × ((serve uri req w cs routes).world
            ≡ (called (trigger event_tag uri context_type routes).0 w (context_for uri req cs)).0)
  unfolding serve
  serve-response uri req w cs routes =
      let e = context_found uri req cs in
      let f = called (trigger event_tag uri context_type routes).0 in
      (ap (λ c. (f w c).1.response) e, ap (λ c. (f w c).0) e)

pub record Registration (W R : Type 0) : Type 0 where
  pub event : String
  pub uri : String
  pub type : String
  pub function : ContextHandler W R

-- It is that of a handler for requests at the URI.
abbrev pub serves : {W R : Type 0} → String → Registration W R → Bool
serves uri r = (str_eq r.event event_tag && str_eq r.uri uri) && str_eq r.type context_type

module _ {W R : Type 0} where
  unfoldable pub register_all :
      List (Registration W R) → Repository (ContextHandler W R) → Repository (ContextHandler W R)
  register_all [] routes = routes
  register_all (r ∷ rs) routes = register_all rs (handler r.event r.uri r.type r.function routes)

  trigger-register_all :
      (uri : String) (rs : List (Registration W R)) (routes : Repository (ContextHandler W R))
      → All (λ r. serves uri r ≡ false) rs
      → (trigger event_tag uri context_type (register_all rs routes)).0
        ≡ (trigger event_tag uri context_type routes).0
  unfolding register_all
  trigger-register_all uri [] routes h = refl
  trigger-register_all uri (r ∷ rs) routes h =
      trigger-register_all uri rs (handler r.event r.uri r.type r.function routes) h.1
      ∙ trigger-handler r.event r.uri r.type event_tag uri context_type r.function routes
      ∙ ap (λ b. if b then some r.function else (trigger event_tag uri context_type routes).0) h.0

  trigger-own :
      (uri : String) (function : ContextHandler W R) (routes : Repository (ContextHandler W R))
      → (trigger event_tag uri context_type (handler event_tag uri context_type function routes)).0
        ≡ some function
  trigger-own uri function routes =
      trigger-handler event_tag uri context_type event_tag uri context_type function routes
      ∙ rw (str_eq_refl uri) refl

  at_uri :
      (uri : String) (req : Request) (w : W) (cs : List (Context R))
      (routes : Repository (ContextHandler W R))
      → pop_back (joined_path req.path) ≡ some uri
      → handle_restful req w cs routes ≡ some (serve uri req w cs routes)
  unfolding handle_restful serve_at
  at_uri uri req w cs routes e = ap (serve_at req w cs routes) e

  nobody :
      (uri : String) → (trigger {F = ContextHandler W R} event_tag uri context_type []).0 ≡ none
  unfolding trigger container lookup
  nobody uri = refl

  -- A request whose path is a URI. The handler that was registered for requests at this URI, whatever was
  -- registered before, and behind it for other events, URIs or types, is called with the request's parameter,
  -- and the response that it leaves is the result. If no handler was ever registered for requests at this URI, the
  -- world is untouched, and the result is the response that a request at this URI had last, if any.
  pub request-served :
      (uri : String) (req : Request) (w : W) (cs : List (Context R))
      → pop_back (joined_path req.path) ≡ some uri
      → ((function : ContextHandler W R) (before : Repository (ContextHandler W R))
            (later : List (Registration W R))
          → All (λ r. serves uri r ≡ false) later
          → (s : Served W R) × (handle_restful req w cs
                (register_all later (handler event_tag uri context_type function before))
              ≡ some s)
            × (s.response ≡ (function w (context_for uri req cs)).1.response)
            × (s.world ≡ (function w (context_for uri req cs)).0))
        × ((others : List (Registration W R))
            → All (λ r. serves uri r ≡ false) others
            → (s : Served W R) × (handle_restful req w cs (register_all others []) ≡ some s)
              × (s.response ≡ last_response uri cs)
              × (s.world ≡ w))
  unfolding called
  request-served uri req w cs path = (
    λ function before later h.
        let routes = register_all later (handler event_tag uri context_type function before) in
        let own =
          trigger-register_all uri later (handler event_tag uri context_type function before) h
          ∙ trigger-own uri function before in
        let r = serve-response uri req w cs routes in
        (
          serve uri req w cs routes,
          at_uri uri req w cs routes path,
          r.0 ∙ ap (λ o. (called o w (context_for uri req cs)).1.response) own,
          r.1 ∙ ap (λ o. (called o w (context_for uri req cs)).0) own,
        ),
    λ others h.
        let routes = register_all others [] in
        let own = trigger-register_all uri others [] h ∙ nobody uri in
        let r = serve-response uri req w cs routes in
        (
          serve uri req w cs routes,
          at_uri uri req w cs routes path,
          r.0 ∙ ap (λ o. (called o w (context_for uri req cs)).1.response) own,
          r.1 ∙ ap (λ o. (called o w (context_for uri req cs)).0) own,
        ),
  )
