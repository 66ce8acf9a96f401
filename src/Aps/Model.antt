-- ===== src/Aps/Model.antt =====
-- The object model of src/aps/include/aps_object_models_impl.hpp and src/aps/include/apsdb.h: the gateway,
-- the devices that are associated with it, their endpoints, clusters and attributes. A reference to an
-- element of a list is its index. Only the gateway has associated devices. The free text that an
-- endpoint has about itself is left out, and parents are known from where an element stands.
pub mod Find
pub mod Replay
pub mod Endpoints
pub mod Assocs
mod Tests
use kappaio.Common.{
  ℕ, zero, suc, ◌+◌, ◌%◌, ◌^◌, Bool, true, false, not, List, [], ◌∷◌, Option, none, some, ◌==◌,
  if◌then◌else◌, map,
}

-- `find_if`: the list, and the index of the element. It is put in front if there is none.
module _ {A : Type 0} where
  unfoldable pub find_index : (A → Bool) → List A → Option ℕ
  find_index pred [] = none
  find_index pred (x ∷ xs) =
      let rest = find_index pred xs in
      if pred x then some 0 else (elim rest [ none ↦ none | some i ↦ some (suc i) ])

  unfoldable pub found_at : A → List A → Option ℕ → List A × ℕ
  found_at new xs none = (new ∷ xs, 0)
  found_at new xs (some i) = (xs, i)

  unfoldable pub find_if : (A → Bool) → A → List A → List A × ℕ
  find_if pred new xs = found_at new xs (find_index pred xs)

  -- `exist`, and `forward_list::remove_if`.
  unfoldable pub exist : (A → Bool) → List A → Bool
  exist pred [] = false
  exist pred (x ∷ xs) = if pred x then true else exist pred xs

  unfoldable pub remove_if : (A → Bool) → List A → List A
  remove_if pred [] = []
  remove_if pred (x ∷ xs) = let rest = remove_if pred xs in if pred x then rest else x ∷ rest

  -- A change through a reference.
  unfoldable pub modify : ℕ → (A → A) → List A → List A
  modify i f [] = []
  modify zero f (x ∷ xs) = f x ∷ xs
  modify (suc i) f (x ∷ xs) = x ∷ modify i f xs

-- `AttributeValueDefault`: its type and its bytes.
pub record AttributeValue : Type 0 where
  pub type_id : ℕ
  pub size : ℕ

pub record Attribute : Type 0 where
  pub id : ℕ
  pub value : AttributeValue

pub record Cluster : Type 0 where
  pub id : ℕ
  pub attributes : List Attribute

pub record SimpleDescriptor : Type 0 where
  pub outcluster_list : List ℕ
  pub incluster_list : List ℕ
  pub endpoint_addr : ℕ
  pub profile_id : ℕ
  pub device_id : ℕ
  pub device_version : ℕ

-- `local_peer` is the id of the endpoint of the gateway, or nothing.
pub record Endpoint : Type 0 where
  pub id : ℕ
  pub simple_descriptor : SimpleDescriptor
  pub clusters : List Cluster
  pub local_peer : Option ℕ

pub record NodeDescriptor : Type 0 where
  pub logical_type : ℕ
  pub complex_desc_avail : ℕ
  pub user_desc_avail : ℕ
  pub reserved : ℕ
  pub aps_flags : ℕ
  pub frequency_band : ℕ
  pub capability_flags : ℕ
  pub manufacturer_code : ℕ
  pub max_buffer_size : ℕ
  pub max_in_transfer_size : ℕ
  pub server_mask : ℕ
  pub max_out_transfer_size : ℕ
  pub descriptor_capability : ℕ

pub record Device : Type 0 where
  pub capability : ℕ
  pub node_descriptor : NodeDescriptor
  pub endpoints : List Endpoint
  pub id : ℕ
  pub ieee_id : ℕ
  pub active : ℕ

-- `thisDevice()` with its associated devices.
pub record Gateway : Type 0 where
  pub self : Device
  pub assocs : List Device

-- The constructors.
abbrev pub no_descriptor : SimpleDescriptor
no_descriptor = record {
  outcluster_list = [];
  incluster_list = [];
  endpoint_addr = 0;
  profile_id = 0;
  device_id = 0;
  device_version = 0;
}

abbrev pub new_attribute_of : ℕ → Attribute
new_attribute_of i = record { id = i; value = record { type_id = 0; size = 1 } }

abbrev pub new_cluster_of : ℕ → Cluster
new_cluster_of i = record { id = i; attributes = [] }

abbrev pub new_endpoint_of : ℕ → Endpoint
new_endpoint_of i = record {
  id = i;
  simple_descriptor = no_descriptor;
  clusters = [];
  local_peer = none;
}

abbrev pub no_node_descriptor : NodeDescriptor
no_node_descriptor = record {
  logical_type = 0;
  complex_desc_avail = 0;
  user_desc_avail = 0;
  reserved = 0;
  aps_flags = 0;
  frequency_band = 0;
  capability_flags = 0;
  manufacturer_code = 0;
  max_buffer_size = 0;
  max_in_transfer_size = 0;
  server_mask = 0;
  max_out_transfer_size = 0;
  descriptor_capability = 0;
}

abbrev pub new_device_of : ℕ → Device
new_device_of i = record {
  capability = 0;
  node_descriptor = no_node_descriptor;
  endpoints = [];
  id = i;
  ieee_id = 0;
  active = 0;
}

-- `Cluster::attributes(i)` and `Endpoint::clusters(i)`.
unfoldable pub attributes_at : ℕ → List Attribute → List Attribute × ℕ
attributes_at i xs = find_if (λ x. x.id == i) (new_attribute_of i) xs

unfoldable pub clusters_at : ℕ → List Cluster → List Cluster × ℕ
clusters_at i xs = find_if (λ x. x.id == i) (new_cluster_of i) xs

-- `Device::endpointPtr(i)`, which is `Device::endpoints(i)`, and `Device::endpointExist(i)`.
unfoldable pub endpoints_at : ℕ → List Endpoint → List Endpoint × ℕ
endpoints_at i xs = find_if (λ x. x.id == i) (new_endpoint_of i) xs

unfoldable pub endpoint_exist : List Endpoint → ℕ → Bool
endpoint_exist xs i = exist (λ x. x.id == i) xs

-- The loop of `Device::newEndpoint`, for `rounds` values of `j`.
unfoldable pub free_id : List Endpoint → ℕ → ℕ → Option ℕ
free_id xs zero j = none
free_id xs (suc rounds) j =
    let rest = free_id xs rounds (j + 1) in if not (endpoint_exist xs j) then some j else rest

unfoldable pub endpoint_or_last : List Endpoint → Option ℕ → List Endpoint × ℕ
endpoint_or_last xs none = endpoints_at 241 xs
endpoint_or_last xs (some j) = endpoints_at j xs

-- `Device::newEndpoint`
unfoldable pub new_endpoint : ℕ → List Endpoint → List Endpoint × ℕ
new_endpoint i xs =
    if endpoint_exist xs i then endpoint_or_last xs (free_id xs 239 1) else endpoints_at i xs

-- `Device::assocs` of a short and of a long address. Both make a device with a short address, so a long
-- one loses all but its low 16 bits.
unfoldable pub assocs_short : ℕ → List Device → List Device × ℕ
assocs_short i xs = find_if (λ x. x.id == i) (new_device_of i) xs

unfoldable pub assocs_ieee : ℕ → List Device → List Device × ℕ
assocs_ieee i xs = find_if (λ x. x.ieee_id == i) (new_device_of (i % 65536)) xs

unfoldable pub assoc_exist_short : List Device → ℕ → Bool
assoc_exist_short xs i = exist (λ x. x.id == i) xs

unfoldable pub assoc_exist_ieee : List Device → ℕ → Bool
assoc_exist_ieee xs i = exist (λ x. x.ieee_id == i) xs

-- `Device::removeAssoc`
unfoldable pub remove_assoc : ℕ → List Device → List Device
remove_assoc i xs = remove_if (λ x. x.id == i) xs

-- A reference that is read; an index is always inside.
unfoldable pub device_at : List Device → ℕ → Device
device_at [] i = new_device_of 0
device_at (x ∷ xs) zero = x
device_at (x ∷ xs) (suc i) = device_at xs i

-- The devices of `Mgmt_Leave_req`: `removeAssoc(assocs(ieeeAddr).id())`.
unfoldable pub leave_from : List Device × ℕ → List Device
leave_from (xs, i) = remove_assoc (device_at xs i).id xs

unfoldable pub leave : ℕ → List Device → List Device
leave ieee xs = leave_from (assocs_ieee ieee xs)
