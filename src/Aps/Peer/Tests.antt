-- ===== src/Aps/Peer/Tests.antt =====
-- Peers that join a gateway with a lighting endpoint.
use kappaio.Common.{ℕ, ◌≡◌, refl, [], ◌∷◌, none, some, ◌&&◌, ◌||◌, if◌then◌else◌, ◌==◌}
use kappaio.Aps.Model.{Endpoint, new_endpoint_of, no_descriptor}
use kappaio.Aps.Model.Find.{is_some, lookup}
use kappaio.Aps.Peer.{Library, aps_newpeer_handle, add_clusters, share, has}
use kappaio.Aps.Peer.Laws.{
  by_cluster, joins, first, joined, aps_newpeer_handle-joined, add_clusters-is_some,
}

-- Cluster 6 has one attribute, of the type that is called 16: a Boolean of one byte.
abbrev clusters_file : Library ℕ
clusters_file = record {
  attributes_of = λ i. if i == 6 then some ((0, 16) ∷ []) else none;
  data_type = λ n. if n == 16 then some (16, 1) else none;
}

abbrev lighting : Endpoint
lighting = record (new_endpoint_of 10) {
  simple_descriptor = record no_descriptor { profile_id = 0x104; outcluster_list = 6 ∷ 8 ∷ [] };
}

abbrev lamp : Endpoint
lamp = record (new_endpoint_of 1) {
  simple_descriptor = record no_descriptor { profile_id = 0x104; incluster_list = 0 ∷ 6 ∷ [] };
}

abbrev metering : Endpoint
metering = record (new_endpoint_of 2) {
  simple_descriptor = record no_descriptor { profile_id = 0x104; incluster_list = 0x702 ∷ [] };
}

aps_newpeer_handle-joined_example :
    aps_newpeer_handle clusters_file (lighting ∷ []) lamp
    ≡ joined clusters_file lamp (lighting ∷ []) (first (joins lamp) (lighting ∷ []))
aps_newpeer_handle-joined_example = aps_newpeer_handle-joined clusters_file (lighting ∷ []) lamp

lamp_joins : (aps_newpeer_handle clusters_file (lighting ∷ []) lamp).1 ≡ some 10
unfolding aps_newpeer_handle share has
lamp_joins = refl

-- The meter shares no cluster, but has a local peer afterwards.
meter_is_paired :
    aps_newpeer_handle clusters_file (lighting ∷ []) metering
    ≡ (record metering { local_peer = some 10 }, none)
unfolding aps_newpeer_handle share has
meter_is_paired = refl

add_clusters-is_some_run :
    is_some (lookup by_cluster 6 (add_clusters clusters_file (0 ∷ 6 ∷ []) [])) ≡ (
      (has 6 (0 ∷ 6 ∷ []) && is_some (clusters_file.attributes_of 6))
      || is_some (lookup by_cluster 6 []))
add_clusters-is_some_run = add_clusters-is_some clusters_file 6 (0 ∷ 6 ∷ []) []
