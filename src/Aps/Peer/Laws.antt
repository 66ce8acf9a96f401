-- ===== src/Aps/Peer/Laws.antt =====
-- Which local endpoint a new peer joins, and the clusters that it gets.
use kappaio.Common.{
  ℕ, ◌≡◌, refl, ap, ◌∙◌, Bool, true, false, List, [], ◌∷◌, Option, none, some, ◌==◌, ◌||◌, ◌&&◌,
  if◌then◌else◌, Bool-cases, ==_iff, inl, inr, arith,
}
use kappaio.Aps.Model.{Endpoint, Cluster, clusters_at, new_cluster_of}
use kappaio.Aps.Model.Find.{is_some, is_some-update, lookup, lookup-modify, or_new, key-or_new}
use kappaio.Aps.Peer.{
  Library, share, has, aps_newpeer_handle, established, establish_profile, establish_with,
  add_clusters, add_cluster, add_attributes, add_value,
}

-- A local endpoint that a remote one joins: the same profile, and a cluster that goes out of the local one and
-- into the remote one.
abbrev pub joins : Endpoint → Endpoint → Bool
joins remote l =
    (remote.simple_descriptor.profile_id == l.simple_descriptor.profile_id)
    && share l.simple_descriptor.outcluster_list remote.simple_descriptor.incluster_list

module _ {A : Type 0} where
  abbrev pub first : (A → Bool) → List A → Option A
  first p [] = none
  first p (x ∷ xs) = if p x then some x else first p xs

-- The last local endpoint with a profile, if there is one.
abbrev pub last_of_profile : ℕ → List Endpoint → Option ℕ → Option ℕ
last_of_profile profile [] o = o
last_of_profile profile (l ∷ ls) o =
    last_of_profile profile ls (if profile == l.simple_descriptor.profile_id then some l.id else o)

module _ {Name : Type 0} (lib : Library Name) where
  abbrev pub joined : Endpoint → List Endpoint → Option Endpoint → Endpoint × Option ℕ
  joined remote locals none = (
    record remote {
      local_peer = last_of_profile remote.simple_descriptor.profile_id locals remote.local_peer;
    },
    none,
  )
  joined remote locals (some l) = (
    record remote {
      local_peer = some l.id;
      clusters = add_clusters lib remote.simple_descriptor.incluster_list remote.clusters;
    },
    some l.id,
  )

  passed :
      (remote l : Endpoint) (ls : List Endpoint) (o : Option Endpoint)
      → (remote.simple_descriptor.profile_id == l.simple_descriptor.profile_id) ≡ true
      → joined (record remote { local_peer = some l.id }) ls o ≡ joined remote (l ∷ ls) o
  passed remote l ls none same = rw (same)
  passed remote l ls (some x) same = refl

  skipped :
      (remote l : Endpoint) (ls : List Endpoint) (o : Option Endpoint)
      → (remote.simple_descriptor.profile_id == l.simple_descriptor.profile_id) ≡ false
      → joined remote ls o ≡ joined remote (l ∷ ls) o
  skipped remote l ls none other = rw (other)
  skipped remote l ls (some x) other = refl

  -- A new peer joins the first local endpoint that has its profile and shares a cluster with it: this becomes its
  -- local peer, its clusters are established, and `NewJoin` goes to this local endpoint. If there is none, the
  -- result is -1 and the clusters are untouched, but its local peer is the last local endpoint of its
  -- profile, if there is one.
  pub aps_newpeer_handle-joined :
      (locals : List Endpoint) (remote : Endpoint)
      → aps_newpeer_handle lib locals remote ≡ joined remote locals (first (joins remote) locals)
  unfolding aps_newpeer_handle established establish_profile establish_with
  aps_newpeer_handle-joined [] remote = refl
  aps_newpeer_handle-joined (l ∷ ls) remote =
      elim (Bool-cases (remote.simple_descriptor.profile_id == l.simple_descriptor.profile_id)) [
        | inl same ↦
            elim (Bool-cases
              (share l.simple_descriptor.outcluster_list remote.simple_descriptor.incluster_list)) [
                | inl shared ↦ rw (same, shared)
                | inr apart ↦
                    rw (same, apart)
                      (aps_newpeer_handle-joined ls (record remote { local_peer = some l.id })
                        ∙ passed remote l ls (first (joins remote) ls) same)
              ]
        | inr other ↦ rw (other) (
            aps_newpeer_handle-joined ls remote
            ∙ skipped remote l ls (first (joins remote) ls) other)
      ]

abbrev pub by_cluster : Cluster → ℕ
by_cluster c = c.id

module _ {Name : Type 0} (lib : Library Name) where
  -- A cluster keeps its id when it gets attributes.
  add_attributes-id : (rows : List (ℕ × Name)) (c : Cluster) → (add_attributes lib rows c).id ≡ c.id
  unfolding add_attributes add_value
  add_attributes-id [] c = refl
  add_attributes-id ((i, name) ∷ rows) c =
      add_attributes-id rows (add_value i (lib.data_type name) c) ∙ one (lib.data_type name)
    where
      one : (o : Option (ℕ × ℕ)) → (add_value i o c).id ≡ c.id
      one none = refl
      one (some ty) = refl

  keyed_entry :
      (i : ℕ) (rows : List (ℕ × Name)) (cs : List Cluster)
      → (add_attributes lib rows (or_new (new_cluster_of i) (lookup by_cluster i cs))).id ≡ i
  keyed_entry i rows cs =
      add_attributes-id rows (or_new (new_cluster_of i) (lookup by_cluster i cs))
      ∙ key-or_new by_cluster (new_cluster_of i) i cs refl

  is_some-add_cluster :
      (i k : ℕ) (o : Option (List (ℕ × Name))) (cs : List Cluster)
      → is_some (lookup by_cluster k (add_cluster lib i o cs))
        ≡ (((k == i) && is_some o) || is_some (lookup by_cluster k cs))
  unfolding add_cluster clusters_at
  is_some-add_cluster i k none cs = ground arith
  is_some-add_cluster i k (some rows) cs =
      ap is_some (
        lookup-modify by_cluster (new_cluster_of i) i cs (add_attributes lib rows)
          (keyed_entry i rows cs) k)
      ∙ is_some-update i k
          (add_attributes lib rows (or_new (new_cluster_of i) (lookup by_cluster i cs)))
          (λ k. lookup by_cluster k cs)
      ∙ ground arith

  -- The clusters of an endpoint after `establish_profile` are those that it had and those of its input clusters
  -- that the library of clusters knows.
  pub add_clusters-is_some :
      (k : ℕ) (is : List ℕ) (cs : List Cluster)
      → is_some (lookup by_cluster k (add_clusters lib is cs))
        ≡ ((has k is && is_some (lib.attributes_of k)) || is_some (lookup by_cluster k cs))
  unfolding add_clusters has
  add_clusters-is_some k [] cs = refl
  add_clusters-is_some k (i ∷ is) cs =
      add_clusters-is_some k is (add_cluster lib i (lib.attributes_of i) cs)
      ∙ ap (λ b. (has k is && is_some (lib.attributes_of k)) || b)
          (is_some-add_cluster i k (lib.attributes_of i) cs)
      ∙ elim (Bool-cases (k == i)) [
        | inl e ↦ rw (e, (==_iff k i).0 e) (ground arith)
        | inr e ↦ rw (e)
      ]
