-- ===== src/Aps/Model/Tests.antt =====
-- Runs of the object model on concrete devices and endpoints.
use kappaio.Common.{◌≡◌, refl, List, [], ◌∷◌, none, arith}
use kappaio.Aps.Model.{Device, Endpoint, new_device_of, new_endpoint_of, new_endpoint, leave}
use kappaio.Aps.Model.Find.{lookup, update}
use kappaio.Aps.Model.Replay.{Op, visit, change, remove, replay}
use kappaio.Aps.Model.Assocs.{by_id, by_ieee, assoc_run, assoc_run-replay, leaving, leave-lookup}
use kappaio.Aps.Model.Endpoints.{
  by_endpoint, Distinct, IsFresh, new_endpoint-IsFresh, new_endpoint-Distinct,
}

-- The device 0x1234 is looked up, announced as active, and another one is removed.
abbrev activate : Device → Device
activate d = record d { active = 1 }

abbrev calls : List (Op Device)
calls = visit 0x1234 ∷ change 0x1234 activate ∷ remove 7 ∷ []

assoc_run-replay_example :
    (λ k. lookup by_id k (assoc_run calls (new_device_of 7 ∷ [])))
    ≡ replay by_id new_device_of calls (λ k. lookup by_id k (new_device_of 7 ∷ []))
assoc_run-replay_example =
    assoc_run-replay calls (new_device_of 7 ∷ []) (tt, ((λ d. refl), (tt, tt)))

-- Two devices, with IEEE addresses.
abbrev lamp : Device
lamp = record (new_device_of 0x1234) { ieee_id = 0xaabb0007 }

abbrev meter : Device
meter = record (new_device_of 7) { ieee_id = 0xaabb0009 }

leave-lookup_run :
    lookup by_id 7 (leave 0xffff0007 (lamp ∷ meter ∷ []))
    ≡ update
        (leaving 0xffff0007 (lookup by_ieee 0xffff0007 (lamp ∷ meter ∷ [])))
        none
        (λ k. lookup by_id k (lamp ∷ meter ∷ []))
        7
leave-lookup_run = leave-lookup 0xffff0007 (lamp ∷ meter ∷ []) 7

-- Nobody has the IEEE address 0xffff0007, but the meter, whose short address is 7, is removed.
wrong_device : lookup by_id 7 (leave 0xffff0007 (lamp ∷ meter ∷ [])) ≡ none
unfolding lookup
wrong_device = leave-lookup_run

-- The endpoint 1 is there, so the next new endpoint with id 1 gets 2.
abbrev one_endpoint : List Endpoint
one_endpoint = new_endpoint_of 1 ∷ []

new_endpoint-IsFresh_run : IsFresh 1 one_endpoint (new_endpoint 1 one_endpoint)
unfolding lookup
new_endpoint-IsFresh_run = new_endpoint-IsFresh 1 2 one_endpoint (omega arith) (omega arith) refl

new_endpoint-Distinct_run : Distinct by_endpoint (new_endpoint 1 one_endpoint).0
unfolding lookup
new_endpoint-Distinct_run = new_endpoint-Distinct 1 one_endpoint (refl, tt)
