-- ===== src/Aps/Af/Tests.antt =====
-- A packet for a receiver, an extended one that nobody waits for, a confirmation, and one for an endpoint.
use kappaio.Common.{
  ℕ, ◌≡◌, refl, true, false, List, [], ◌∷◌, Option, none, some, get_or, replicate, ◌==◌,
  if◌then◌else◌,
}
use kappaio.Aps.DataService.{register_handlers}
use kappaio.Aps.Af.{
  Services, Effect, process_packets, register_af_message_cb, register_af_message_ext_cb,
}
use kappaio.Aps.Af.Laws.{Split, process_packets-Split}

abbrev garbage : List ℕ
garbage = replicate 32 0xee

abbrev on_endpoint_1 : List ℕ → Option ℕ
on_endpoint_1 msg = if get_or msg 7 0 == 1 then some 40 else none

abbrev incoming : ℕ → ℕ → List ℕ
incoming cmd endpoint =
    18 ∷ 0x44 ∷ cmd ∷ 0 ∷ 0 ∷ 6 ∷ 0 ∷ 0x34 ∷ 0x12 ∷ 1 ∷ endpoint ∷ 0 ∷ 90 ∷ 0 ∷ 1 ∷ 2 ∷ 3 ∷ 4 ∷ 9
    ∷ 1 ∷ 7 ∷ []

abbrev packets : List (List ℕ)
packets = incoming 0x81 0 ∷ incoming 0x82 1 ∷ (1 ∷ 0x64 ∷ 0x01 ∷ 0 ∷ []) ∷ incoming 0x81 1 ∷ []

abbrev services : Services
services = register_af_message_ext_cb (
    register_af_message_cb (record {
      buffer = register_handlers 100 (λ msg. get_or msg 7 0 == 0) 7 [];
      buffer_ext = [];
      handle = false;
      handle_ext = false;
    }))

registered : (services.handle ≡ true) × (services.handle_ext ≡ true)
unfolding register_af_message_cb register_af_message_ext_cb
registered = (refl, refl)

process_packets-Split_example :
    (s' : Services) × (es : List Effect) × (process_packets on_endpoint_1 garbage garbage packets
        services
      ≡ some (s', es))
    × Split on_endpoint_1 garbage garbage packets services s' es
process_packets-Split_example =
    process_packets-Split on_endpoint_1 garbage garbage packets services registered.0 registered.1
