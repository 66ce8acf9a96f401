-- ===== src/Rest/Widgets.antt =====
-- The registry of widgets: `pred`, `widgetRegistry` and `widgetLoad` of src/kintf/include/widget_manager.hpp. As the code
-- assumes, parameters are objects of texts; so are the entries. The file of the registry is the world of the handlers.
pub mod Laws
pub mod Post
mod Tests
use Prim.Native.String.{String}
use kappaio.Common.{
  ℕ, zero, suc, ◌+◌, Bool, true, false, ◌&&◌, Option, none, some, List, [], ◌∷◌, ◌++◌, get_or,
  length, ltb, if◌then◌else◌,
}
use kappaio.Common.Dicts.{Dict, lookup, insert, str_eq}
use kappaio.Rest.Request.{Request, Context, ContextHandler}

abbrev pub Widget : Type 0
Widget = Dict String

-- A file that is no JSON, or an object with the array under "list", if it has one.
pub data RegistryFile : Type 0 where
  unreadable : RegistryFile
  registry : Option (List Widget) → RegistryFile

-- `list`, which is made if it is missing.
unfoldable pub list_of : RegistryFile → List Widget
list_of unreadable = []
list_of (registry none) = []
list_of (registry (some list)) = list

-- `toString`; the element of a missing key is no text.
unfoldable pub text_of : Option String → String
text_of none = ""
text_of (some s) = s

-- `pred`: what an entry has of the parameter's keys, it has with the parameter's texts.
unfoldable pub agrees : String → Widget → Option String → Bool
agrees text entry none = true
agrees text entry (some s) = str_eq s text

unfoldable pub agree_all : Widget → Widget → Widget → Bool
unfolding agrees text_of
agree_all [] param entry = true
agree_all ((k, v) ∷ keys) param entry =
    agree_all keys param entry && agrees (text_of (lookup k param)) entry (lookup k entry)

unfoldable pub matches : Widget → Widget → Bool
matches param entry = agree_all param param entry

module _ {A : Type 0} where
  -- `erase (i)`
  unfoldable pub erase : ℕ → List A → List A
  erase i [] = []
  erase zero (x ∷ xs) = xs
  erase (suc i) (x ∷ xs) = x ∷ erase i xs

  -- `for (int i = 0; i < list.size (); i++) if (p (list[i])) list.erase (i)`. A turn takes the index on or ends, so
  -- a turn for each element is enough fuel.
  unfoldable pub delete_loop : (A → Bool) → A → ℕ → ℕ → List A → List A
  delete_loop p d zero i list = list
  delete_loop p d (suc n) i list =
      let next = delete_loop p d n (i + 1) (if p (get_or list i d) then erase i list else list) in
      if ltb i (length list) then next else list

  -- The loop of POST.
  unfoldable pub exists_match : (A → Bool) → List A → Bool
  exists_match p [] = false
  exists_match p (x ∷ xs) = let rest = exists_match p xs in if p x then true else rest

-- The fields of a response.
pub data RspStatus : Type 0 where
  minus_one : RspStatus
  zero_status : RspStatus
  one : RspStatus

pub record Response : Type 0 where
  pub status : RspStatus
  pub result : Option (List Widget)
  pub err : Option String

unfoldable pub method_of : Option Request → String
method_of none = ""
method_of (some req) = req.method

unfoldable pub deleted : Widget → List Widget → List Widget
unfolding delete_loop erase matches agree_all
deleted [] list = []
deleted ((k, v) ∷ param) list = delete_loop (matches ((k, v) ∷ param)) [] (length list) 0 list

unfoldable pub posted : Widget → List Widget → List Widget
unfolding exists_match matches agree_all
posted param list = if exists_match (matches param) list then list else list ++ (param ∷ [])

-- The list behind the request, and the response.
unfoldable pub by_method : String → Widget → List Widget → List Widget × Response
by_method method param list =
    if str_eq method "DELETE"
    then (deleted param list, record { status = zero_status; result = none; err = none })
    else (if str_eq method "POST"
        then (posted param list, record { status = zero_status; result = none; err = none })
        else (if str_eq method "GET"
            then (list, record { status = zero_status; result = some list; err = none })
            else (list, record { status = minus_one; result = none; err = some method })))

-- The file is written in any case.
unfoldable pub widget_registry : ContextHandler RegistryFile Response
unfolding by_method list_of
widget_registry file c =
    let r = by_method (method_of c.request) c.parameter (list_of file) in
    (registry (some r.0), record c { response = some r.1 })

unfoldable pub with_content : Option String → Widget → Widget
with_content none entry = entry
with_content (some content) entry = insert "content" content entry

-- `EncodeDir` of a directory, which makes an archive with a shell, is a parameter.
module _ (encode_dir : String → Option String) where
  unfoldable pub load_loop : (Widget → Bool) → List Widget → Response → Response
  load_loop p [] rsp = rsp
  load_loop p (entry ∷ list) rsp = load_loop p list (
      if p entry
      then record {
        status = one;
        result = some (with_content (encode_dir (text_of (lookup "root" entry))) entry ∷ []);
        err = none;
      }
      else rsp)

  unfoldable pub widget_load : ContextHandler RegistryFile Response
  widget_load file c = (
    file,
    record c {
      response = some (
          load_loop (matches c.parameter) (list_of file)
            (record { status = minus_one; result = none; err = none }));
    },
  )
