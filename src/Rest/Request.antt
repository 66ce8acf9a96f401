-- ===== src/Rest/Request.antt =====
-- `handleRESTful`, `getContext` and `__Context` of src/aps/source/restful.cpp. The text of a JSON document stands
-- for the document. Handlers are functions of the world and of the context that they are given.
pub mod Laws
mod Tests
use Prim.Native.Char.{Char}
use Prim.Native.String.{String, ◌++◌ as ◌<>◌}
use kappaio.Common.{
  ℕ, zero, suc, Option, none, some, List, [], ◌∷◌, ◌++◌, get_or, set, length, if◌then◌else◌,
}
use kappaio.Common.Dicts.{Dict, str_eq}
use kappaio.Rest.Notify.{Repository, trigger}

-- What a request says. Its parameter is an object of texts.
pub record Request : Type 0 where
  pub path : List String
  pub parameter : Dict String
  pub method : String

-- `__Context`. A response is of a type `R`; `none` is the empty text.
pub record Context (R : Type 0) : Type 0 where
  pub uri : String
  pub parameter : Dict String
  pub request : Option Request
  pub response : Option R

-- A handler of the event "Application", whose argument is a `Context`, a reference.
abbrev pub ContextHandler : Type 0 → Type 0 → Type 0
ContextHandler W R = W → Context R → W × Context R

-- The name of the type `std::function<void(__Context&)>`, and `EventTag`.
abbrev pub context_type : String
context_type = "function<void(__Context&)>"

abbrev pub event_tag : String
event_tag = "Application"

-- `uri += json.toString() + "/"` over the path, and `uri.pop_back ()`, which a text without characters does
-- not have.
unfoldable pub joined_path : List String → String
joined_path [] = ""
joined_path (p ∷ path) = p <> ("/" <> joined_path path)

unfoldable pub without_last : Char → String → String
without_last c String.[] = ""
without_last c (String.◌∷◌ d s) = String.◌∷◌ c (without_last d s)

unfoldable pub pop_back : String → Option String
unfolding without_last
pop_back String.[] = none
pop_back (String.◌∷◌ c s) = some (without_last c s)

module _ {R : Type 0} where
  unfoldable pub new_context : String → Context R
  new_context uri = record { uri = uri; parameter = []; request = none; response = none }

  -- The place of the first context with the URI, or the length of the list.
  unfoldable pub place_of : String → List (Context R) → ℕ
  place_of uri [] = 0
  place_of uri (c ∷ cs) = if str_eq c.uri uri then 0 else suc (place_of uri cs)

  -- `getContext`: the list that it leaves. A context that is missing is put at the end, where the second
  -- call finds it.
  unfoldable pub with_context : String → List (Context R) → List (Context R)
  with_context uri [] = new_context uri ∷ []
  with_context uri (c ∷ cs) = if str_eq c.uri uri then c ∷ cs else c ∷ with_context uri cs

pub record Served (W R : Type 0) : Type 0 where
  pub world : W
  pub contexts : List (Context R)
  pub routes : Repository (ContextHandler W R)
  pub response : Option R

module _ {W R : Type 0} where
  unfoldable pub called : Option (ContextHandler W R) → ContextHandler W R
  called none w c = (w, c)
  called (some function) w c = function w c

  -- `handleRESTful`, at a URI.
  unfoldable pub serve :
      String → Request → W → List (Context R) → Repository (ContextHandler W R) → Served W R
  unfolding called
  serve uri req w cs routes =
      let i = place_of uri cs in
      let all = with_context uri cs in
      let c : Context R = record (get_or all i (new_context uri)) {
        parameter = req.parameter;
        request = some req;
      } in
      let t = trigger event_tag uri context_type routes in
      let r = called t.0 w c in
      record { world = r.0; contexts = set all i r.1; routes = t.1; response = r.1.response }

  -- At the URI of the path, if it has one.
  unfoldable pub serve_at :
      Request
      → W
      → List (Context R)
      → Repository (ContextHandler W R)
      → Option String
      → Option (Served W R)
  serve_at req w cs routes none = none
  serve_at req w cs routes (some uri) = some (serve uri req w cs routes)

  unfoldable pub handle_restful :
      Request → W → List (Context R) → Repository (ContextHandler W R) → Option (Served W R)
  unfolding joined_path pop_back serve_at
  handle_restful req w cs routes = serve_at req w cs routes (pop_back (joined_path req.path))
