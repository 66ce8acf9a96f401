-- ===== src/Rest/Request/Tests.antt =====
-- Requests at "han/devices" and at a URI without a handler. Worlds and responses are numbers.
use kappaio.Common.{ℕ, ◌+◌, ◌≡◌, refl, some, List, [], ◌∷◌}
use kappaio.Rest.Notify.{handler}
use kappaio.Rest.Request.{
  Request, ContextHandler, context_type, event_tag, joined_path, pop_back, Served, handle_restful,
}
use kappaio.Rest.Request.Laws.{Registration, register_all, request-served}

abbrev counting : ContextHandler ℕ ℕ
counting w c = (w + 1, record c { response = some w })

abbrev later : List (Registration ℕ ℕ)
later =
    record { event = "NewJoin"; uri = "han/devices"; type = context_type; function = counting }
    ∷ record { event = event_tag; uri = "thisdevice"; type = context_type; function = counting }
    ∷ []

abbrev request : Request
request = record { path = "han" ∷ "devices" ∷ []; parameter = []; method = "GET" }

at_devices : pop_back (joined_path request.path) ≡ some "han/devices"
unfolding joined_path pop_back
at_devices = refl

request-served_example :
    (s : Served ℕ ℕ) × (handle_restful request 7 []
        (register_all later (handler event_tag "han/devices" context_type counting []))
      ≡ some s)
    × (s.response ≡ some 7)
    × (s.world ≡ 8)
request-served_example =
    (request-served "han/devices" request 7 [] at_devices).0 counting [] later (refl, (refl, tt))
