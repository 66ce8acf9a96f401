-- ===== src/Rest/Notify.antt =====
-- Handlers by event, URI and the type of their arguments: `handler`, `trigger` and `__container` of
-- src/kapi/include/notification.h and src/kapi/source/notification.cpp. A type is its name.
pub mod Laws
use Prim.Native.String.{String}
use kappaio.Common.{Option, none, some, List, [], ◌∷◌}
use kappaio.Common.Dicts.{Dict, lookup, insert}

-- `Handlers`, and `__handlers_repository`.
abbrev pub Handlers : Type 0 → Type 0
Handlers F = Dict F

abbrev pub Repository : Type 0 → Type 0
Repository F = Dict (Dict (Handlers F))

-- What `operator[]` of a `map` finds, or makes.
unfoldable pub found_or_empty : {V : Type 0} → Option (Dict V) → Dict V
found_or_empty none = []
found_or_empty (some d) = d

module _ {F : Type 0} where
  unfoldable pub container : String → String → Repository F → Handlers F
  unfolding found_or_empty
  container event uri repo = found_or_empty (lookup uri (found_or_empty (lookup event repo)))

  unfoldable pub put_container : String → String → Handlers F → Repository F → Repository F
  unfolding found_or_empty
  put_container event uri h repo =
      insert event (insert uri h (found_or_empty (lookup event repo))) repo

  unfoldable pub handler : String → String → String → F → Repository F → Repository F
  handler event uri type function repo =
      put_container event uri (insert type function (container event uri repo)) repo

  -- The handler that is called, of which there is at most one, and the repository, which has the container now.
  unfoldable pub trigger : String → String → String → Repository F → Option F × Repository F
  trigger event uri type repo = (
    lookup type (container event uri repo),
    put_container event uri (container event uri repo) repo,
  )
