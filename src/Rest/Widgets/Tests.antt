-- ===== src/Rest/Widgets/Tests.antt =====
-- A registry with three widgets, of which the first two are of one kind.
use Prim.Native.String.{String}
use kappaio.Common.{◌≡◌, refl, true, false, none, some, [], ◌∷◌, ◌++◌}
use kappaio.Common.Dicts.{lookup}
use kappaio.Rest.Request.{Context}
use kappaio.Rest.Widgets.{
  Widget, RegistryFile, registry, unreadable, list_of, method_of, deleted, matches, Response,
  exists_match, one, with_content, widget_registry, widget_load,
}
use kappaio.Rest.Widgets.Laws.{list_after, survivors, others, Apart, widget_registry-delete}
use kappaio.Rest.Widgets.Post.{IsNew, Names, widget_registry-post}

abbrev widget : String → String → Widget
widget kind root = ("kind", kind) ∷ ("root", root) ∷ []

abbrev file : RegistryFile
file = registry (some (widget "lamp" "/a" ∷ widget "lamp" "/b" ∷ widget "meter" "/c" ∷ []))

abbrev asked : String → Widget → Context Response
asked method param = record {
  uri = "widget_registry";
  parameter = param;
  request = some (record { path = "widget_registry" ∷ []; parameter = param; method = method });
  response = none;
}

abbrev lamps : Widget
lamps = ("kind", "lamp") ∷ []

-- The second lamp stays.
widget_registry-delete_example :
    (list_after file (asked "DELETE" lamps) ≡ survivors (matches lamps) false (list_of file))
    × (others (matches lamps) (list_after file (asked "DELETE" lamps))
        ≡ others (matches lamps) (list_of file))
    × (Apart (matches lamps) (list_of file)
        → list_after file (asked "DELETE" lamps) ≡ others (matches lamps) (list_of file))
widget_registry-delete_example =
    (widget_registry-delete file (asked "DELETE" lamps)
        (record { path = "widget_registry" ∷ []; parameter = lamps; method = "DELETE" }) refl
        refl).1
      (λ e. cc)

second_lamp : list_after file (asked "DELETE" lamps) ≡ widget "lamp" "/b" ∷ widget "meter" "/c" ∷ []
unfolding widget_registry list_of method_of deleted lookup
second_lamp = refl

widget_registry-post_example :
    (exists_match (matches lamps) (list_of unreadable) ≡ true
      → list_after unreadable (asked "POST" lamps) ≡ list_of unreadable)
    × (IsNew lamps (list_of unreadable)
        → (list_after unreadable (asked "POST" lamps) ≡ list_of unreadable ++ (lamps ∷ []))
          × ((widget_load
                (λ root. none)
                (widget_registry unreadable (asked "POST" lamps)).0
                (asked "GET" lamps)).1.response
              ≡ some (record { status = one; result = some (lamps ∷ []); err = none })))
    × (list_after (widget_registry unreadable (asked "POST" lamps)).0 (asked "POST" lamps)
        ≡ list_after unreadable (asked "POST" lamps))
    × ((rsp : Response) × ((widget_load
            (λ root. none)
            (widget_registry unreadable (asked "POST" lamps)).0
            (asked "GET" lamps)).1.response
          ≡ some rsp)
        × Names (λ root. none) (matches lamps) rsp)
unfolding list_of with_content
widget_registry-post_example =
    widget_registry-post (λ root. none) unreadable (asked "POST" lamps) (asked "POST" lamps)
      (asked "GET" lamps)
      (record { path = "widget_registry" ∷ []; parameter = lamps; method = "POST" }) refl refl refl
      refl refl
