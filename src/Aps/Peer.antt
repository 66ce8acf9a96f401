-- ===== src/Aps/Peer.antt =====
-- A new peer: `aps_newpeer_handle` and `establish_profile` of src/aps/source/apsdb.cpp. The two JSON files
-- that the local endpoint names, the clusters' attributes and the sizes of the data types, are parameters.
-- The handlers of URIs that a join registers are left out.
pub mod Laws
mod Tests
use kappaio.Common.{
  ℕ, ◌%◌, Bool, true, false, List, [], ◌∷◌, Option, none, some, ◌==◌, ◌||◌, if◌then◌else◌,
}
use kappaio.Aps.Model.{
  Attribute, AttributeValue, Cluster, Endpoint, SimpleDescriptor, attributes_at, clusters_at,
  modify,
}

-- `clusLib` and `dtLib`: the attributes of a cluster, each with an id and the name of its type, and the
-- number and the size of a type. `none` is an entry that does not exist.
module _ (Name : Type 0) where
  pub record Library : Type 0 where
    pub attributes_of : ℕ → Option (List (ℕ × Name))
    pub data_type : Name → Option (ℕ × ℕ)

-- `attr.value(new AttributeValueDefault(type, size))` of `cluster.attributes(id)`.
unfoldable pub put_value : ℕ × ℕ → Attribute → Attribute
put_value (ty, n) a = record a { value = record { type_id = ty % 256; size = n } }

-- The endpoint after a call of `establish_profile` whose result is not read.
unfoldable pub established : Option Endpoint → Endpoint → Endpoint
established none e = e
established (some e') e = e'

-- `rtn == 0` after the loops over the two lists of clusters.
unfoldable pub has : ℕ → List ℕ → Bool
has i [] = false
has i (j ∷ js) = (i == j) || has i js

unfoldable pub share : List ℕ → List ℕ → Bool
share [] remote = false
share (i ∷ is) remote = has i remote || share is remote

unfoldable pub add_value : ℕ → Option (ℕ × ℕ) → Cluster → Cluster
add_value i none c = c
add_value i (some ty) c =
    let (xs, at) = attributes_at (i % 65536) c.attributes in
    record c { attributes = modify at (put_value ty) xs }

module _ {Name : Type 0} (lib : Library Name) where
  -- The loop over the attributes of a cluster.
  unfoldable pub add_attributes : List (ℕ × Name) → Cluster → Cluster
  add_attributes [] c = c
  add_attributes ((i, name) ∷ rows) c = add_attributes rows (add_value i (lib.data_type name) c)

  unfoldable pub add_cluster : ℕ → Option (List (ℕ × Name)) → List Cluster → List Cluster
  add_cluster i none cs = cs
  add_cluster i (some rows) cs =
      let (xs, at) = clusters_at i cs in modify at (add_attributes rows) xs

  -- The loop over the clusters of `establish_profile`.
  unfoldable pub add_clusters : List ℕ → List Cluster → List Cluster
  add_clusters [] cs = cs
  add_clusters (i ∷ is) cs = add_clusters is (add_cluster i (lib.attributes_of i) cs)

  -- `establish_profile`; `none` is the result -1.
  unfoldable pub establish_with : Option ℕ → Endpoint → Option Endpoint
  establish_with none e = none
  establish_with (some peer) e =
      some (record e { clusters = add_clusters e.simple_descriptor.incluster_list e.clusters })

  unfoldable pub establish_profile : Endpoint → Option Endpoint
  establish_profile e = establish_with e.local_peer e

  -- `aps_newpeer_handle`: the remote endpoint, and the local one to which `NewJoin` goes if the result is 0.
  unfoldable pub aps_newpeer_handle : List Endpoint → Endpoint → Endpoint × Option ℕ
  aps_newpeer_handle [] remote = (remote, none)
  aps_newpeer_handle (l ∷ ls) remote =
      let paired = record remote { local_peer = some l.id } in
      let same = aps_newpeer_handle ls paired in
      let other = aps_newpeer_handle ls remote in
      if remote.simple_descriptor.profile_id == l.simple_descriptor.profile_id
      then (if share l.simple_descriptor.outcluster_list remote.simple_descriptor.incluster_list
          then (established (establish_profile paired) paired, some l.id)
          else same)
      else other
