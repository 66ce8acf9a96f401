-- ===== src/Aps/DataService/Tests.antt =====
-- Requests and removals on lists of one and two receivers.
use mathlib.Core.List.{Permᴰ}
use kappaio.Common.{ℕ, ◌≡◌, refl, false, [], ◌∷◌, Option, none, some, ◌==◌, if◌then◌else◌}
use kappaio.Aps.DataService.{
  Node, Buffer, to_receiver, to_endpoint, dropped, request, remove_handler, receiver_at, indicate,
  aps_message_indicate, indicate_all, fall_back,
}
use kappaio.Aps.DataService.Wait.{request-answered, request-timeout}
use kappaio.Aps.DataService.Remove.{receivers, remove_handler-Perm, remove_handler-dangling}

-- Messages are their clusters. Cluster 9 has an endpoint's handler, which is the number 4.
abbrev handler_of : ℕ → Option ℕ
handler_of msg = if msg == 9 then some 4 else none

-- A receiver of cluster 6, which does not wait, and one of cluster 7.
abbrev six : Node ℕ
six = record {
  address = 100;
  receiver = record { pred = ◌==◌ 6; cb = 60; sync = false; rdy = false };
}

abbrev seven : Node ℕ
seven = record {
  address = 200;
  receiver = record { pred = ◌==◌ 7; cb = 70; sync = false; rdy = false };
}

request-answered_example :
    request handler_of 300 (six ∷ []) (◌==◌ 8) 80 (6 ∷ []) (9 ∷ 5 ∷ 8 ∷ 6 ∷ [])
    ≡ some (six ∷ [], to_receiver 60 ∷ to_endpoint 4 ∷ dropped ∷ to_receiver 80 ∷ [], 6 ∷ [])
unfolding indicate_all aps_message_indicate indicate fall_back
request-answered_example =
    request-answered handler_of 300 80 (◌==◌ 8) (6 ∷ []) (9 ∷ 5 ∷ []) (6 ∷ []) 8 (six ∷ [])
      (refl, tt) (refl, (refl, tt)) refl

request-timeout_run :
    request handler_of 300 (six ∷ []) (◌==◌ 8) 80 (6 ∷ []) (9 ∷ [])
    ≡ some (six ∷ [], to_receiver 60 ∷ to_endpoint 4 ∷ [], [])
unfolding indicate_all aps_message_indicate indicate fall_back
request-timeout_run =
    request-timeout handler_of 300 80 (◌==◌ 8) (6 ∷ []) (9 ∷ []) (six ∷ []) (refl, tt) (refl, tt)

remove_handler-Perm_example :
    (ns' : Buffer ℕ) × (remove_handler 100 (seven ∷ six ∷ []) ≡ some ns')
    × Permᴰ (receivers (seven ∷ six ∷ [])) (six.receiver ∷ receivers ns')
unfolding receiver_at
remove_handler-Perm_example = remove_handler-Perm 100 (seven ∷ six ∷ []) six.receiver refl

remove_handler-dangling_run :
    (ns' : Buffer ℕ) × (remove_handler 100 (seven ∷ six ∷ []) ≡ some ns')
    × (receiver_at 100 ns' ≡ some seven.receiver)
    × (receiver_at 200 ns' ≡ none)
    × (remove_handler 200 ns' ≡ none)
unfolding receiver_at
remove_handler-dangling_run =
    remove_handler-dangling 100 seven (six ∷ []) six.receiver refl (refl, tt) refl
